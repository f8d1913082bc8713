-- ===== src/Printf/Output.antt =====
-- What the writers of bootstrap/mbed_printf_implementation.c put out: each writes a text that does
-- not depend on where it is written to.
use mathlib.Core.Path.{◌≡◌}
use mcu_driver_hal.Base.{
  ℕ, zero, suc, ◌+◌, ◌-◌, ◌*◌, ◌/◌, ◌%◌, ◌^◌, Bool, true, false, ◌||◌, [], ◌∷◌, ◌++◌, refl, sym,
  ◌∙◌, inl, inr, arith, leb, ◌==◌, ◌!=◌, Bool-cases, if◌then◌else◌,
}
use mcu_driver_hal.Base.Words.{u64, sub64, shr, sign_extend}
use mcu_driver_hal.Printf.{
  Text, Sink, scratch_pad, int2hex, mbed_minimal_putchar, put_all,
  mbed_minimal_formatted_string_unsigned, mbed_minimal_formatted_string_signed, put_byte,
  hexadecimal_loop, mbed_minimal_formatted_string_hexadecimal,
  mbed_minimal_formatted_string_void_pointer, mbed_minimal_formatted_string_string,
}

abbrev pub unsigned_text : ℕ → Text
unsigned_text value = if value == 0 then b'0' ∷ [] else scratch_pad value

abbrev pub signed_text : ℕ → Text
signed_text value =
    if leb (2 ^ 63) value
    then b'-' ∷ unsigned_text (u64 (sub64 (2 ^ 64 - 1) value + 1))
    else unsigned_text value

abbrev pub byte_text : (output : ℕ) (upper leading : Bool) → Text
byte_text output upper leading =
    if leading || (output / 2 ^ 4 != 0)
    then int2hex upper (output / 2 ^ 4) ∷ int2hex upper (output % 2 ^ 4) ∷ []
    else int2hex upper (output % 2 ^ 4) ∷ []

abbrev pub bytes_text : (index value : ℕ) (upper leading : Bool) → Text
bytes_text zero value upper leading = []
bytes_text (suc index) value upper leading =
    let output = shr value (8 * index) % 2 ^ 8 in
    let printed = leading || (output != 0) || (index == 0) in
    (if printed then byte_text output upper leading else []) ++ bytes_text index value upper printed

abbrev pub hexadecimal_text : (value : ℕ) (upper : Bool) → Text
hexadecimal_text value upper = bytes_text 8 value upper false

abbrev pub pointer_text : ℕ → Text
pointer_text value = b'0' ∷ b'x' ∷ hexadecimal_text (sign_extend 32 value) true

abbrev pub take_text : ℕ → Text → Text
take_text zero cs = []
take_text (suc n) [] = []
take_text (suc n) (c ∷ cs) = c ∷ take_text n cs

module _ {S : Type 0} (fputc : (c : ℕ) → S → Bool × S) (size : ℕ) where
  pub put_all-append :
      (xs ys : Text) (o : Sink S)
      → put_all fputc size (xs ++ ys) o ≡ put_all fputc size ys (put_all fputc size xs o)
  unfolding put_all
  put_all-append [] ys o = refl
  put_all-append (x ∷ xs) ys o = put_all-append xs ys (mbed_minimal_putchar fputc size x o)

  pub unsigned-eq :
      (value : ℕ) (o : Sink S)
      → mbed_minimal_formatted_string_unsigned fputc size value o
        ≡ put_all fputc size (unsigned_text value) o
  unfolding mbed_minimal_formatted_string_unsigned put_all
  unsigned-eq value o = ground arith

  pub signed-eq :
      (value : ℕ) (o : Sink S)
      → mbed_minimal_formatted_string_signed fputc size value o
        ≡ put_all fputc size (signed_text value) o
  unfolding mbed_minimal_formatted_string_signed put_all
  signed-eq value o = elim (Bool-cases (leb (2 ^ 63) value)) [
    | inl e ↦
        rw e (
          unsigned-eq (u64 (sub64 (2 ^ 64 - 1) value + 1)) (mbed_minimal_putchar fputc size b'-' o))
    | inr e ↦ rw e (unsigned-eq value o)
  ]

  byte-eq :
      (output : ℕ) (upper leading : Bool) (o : Sink S)
      → put_byte fputc size output upper leading o
        ≡ put_all fputc size (byte_text output upper leading) o
  unfolding put_byte put_all
  byte-eq output upper leading o = elim (Bool-cases (leading || (output / 2 ^ 4 != 0))) [
    | inl e ↦ rw e
    | inr e ↦ rw e
  ]

  bytes-eq :
      (index value : ℕ) (upper leading : Bool) (o : Sink S)
      → hexadecimal_loop fputc index size value upper leading o
        ≡ put_all fputc size (bytes_text index value upper leading) o
  unfolding hexadecimal_loop put_all
  bytes-eq zero value upper leading o = refl
  bytes-eq (suc index) value upper leading o =
      let output = shr value (8 * index) % 2 ^ 8 in
      elim (Bool-cases (leading || (output != 0) || (index == 0))) [
        | inl e ↦
            rw (e, byte-eq output upper leading o)
              (bytes-eq index value upper true
                  (put_all fputc size (byte_text output upper leading) o)
                ∙ sym (
                    put_all-append (byte_text output upper leading)
                      (bytes_text index value upper true) o))
        | inr e ↦ rw e (bytes-eq index value upper false o)
      ]

  pub hexadecimal-eq :
      (value : ℕ) (upper : Bool) (o : Sink S)
      → mbed_minimal_formatted_string_hexadecimal fputc size value upper o
        ≡ put_all fputc size (hexadecimal_text value upper) o
  unfolding mbed_minimal_formatted_string_hexadecimal
  hexadecimal-eq value upper o = bytes-eq 8 value upper false o

  pub pointer-eq :
      (value : ℕ) (o : Sink S)
      → mbed_minimal_formatted_string_void_pointer fputc size value o
        ≡ put_all fputc size (pointer_text value) o
  unfolding mbed_minimal_formatted_string_void_pointer put_all
  pointer-eq value o = hexadecimal-eq (sign_extend 32 value) true _

  pub string-eq :
      (cs : Text) (precision : ℕ) (o : Sink S)
      → mbed_minimal_formatted_string_string fputc size cs precision o
        ≡ put_all fputc size (take_text precision cs) o
  unfolding mbed_minimal_formatted_string_string put_all
  string-eq [] zero o = refl
  string-eq [] (suc precision) o = refl
  string-eq (c ∷ cs) zero o = refl
  string-eq (c ∷ cs) (suc precision) o =
      string-eq cs precision (mbed_minimal_putchar fputc size c o)

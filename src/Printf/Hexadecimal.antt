-- ===== src/Printf/Hexadecimal.antt =====
-- Hexadecimal numbers and pointers in bootstrap/mbed_printf_implementation.c.
use mcu_driver_hal.Base.{
  ℕ, zero, suc, ◌+◌, ◌-◌, ◌*◌, ◌/◌, ◌%◌, ◌^◌, ◌<◌, ◌≤◌, Bool, true, false, ◌||◌, [], ◌∷◌, refl, ap,
  subst, ◌∙◌, inl, inr, arith, All, length, length-append, ltb, ◌≡◌, ◌==◌, ◌!=◌, Bool-cases,
  if◌then◌else◌,
}
use mcu_driver_hal.Base.Bits.{one-le-two_pow}
use mcu_driver_hal.Base.Words.{shr, sign_extend}
use mcu_driver_hal.Printf.{
  Text, Sink, put_all, mbed_minimal_formatted_string_hexadecimal,
  mbed_minimal_formatted_string_void_pointer,
}
use mcu_driver_hal.Printf.Decimal.{NoLeadingZero}
use mcu_driver_hal.Printf.Output.{
  byte_text, bytes_text, hexadecimal_text, hexadecimal-eq, pointer-eq,
}
use mcu_driver_hal.Printf.Digits.{
  IsHexDigit, IsBase16, int2hex-IsHexDigit, int2hex-zero, All-append, mod_byte, byte_power,
  bytes-reads,
}

bytes-first :
    (index value : ℕ) (upper : Bool)
    → 0 < value % 2 ^ (8 * index)
    → NoLeadingZero (bytes_text index value upper false)
bytes-first zero value upper h = absurd (omega arith)
bytes-first (suc index) value upper h =
    let output = shr value (8 * index) % 2 ^ 8 in
    let split = mod_byte (2 ^ (8 * index)) value (one-le-two_pow (8 * index)) in
    let low : 0 < output * 2 ^ (8 * index) + value % 2 ^ (8 * index) =
      omega (arith, split, ap (λ t. value % t) (byte_power index)) in
    elim (Bool-cases ((output != 0) || (index == 0))) [
      | inl e ↦ elim (Bool-cases (output / 2 ^ 4 != 0)) [
        | inl two ↦ rw (e, two) (λ z. let none = int2hex-zero upper (output / 16) z in ground arith)
        | inr one ↦
            rw (e, one)
              (λ z.
                let none = int2hex-zero upper (output % 16) z in
                let nothing : output ≡ 0 = ground arith in
                let last : index ≡ 0 = ground arith in
                let rest : value % 2 ^ (8 * index) ≡ 0 = rw last (omega arith) in
                omega (arith, low, rest, ap (λ t. t * 2 ^ (8 * index)) nothing))
      ]
      | inr e ↦ rw e (
          bytes-first index value upper (
            let nothing : output ≡ 0 = ground arith in
            omega (arith, low, ap (λ t. t * 2 ^ (8 * index)) nothing)))
    ]

bytes-digits :
    (index value : ℕ) (upper leading : Bool)
    → All (IsHexDigit upper) (bytes_text index value upper leading)
bytes-digits zero value upper leading = tt
bytes-digits (suc index) value upper leading =
    let output = shr value (8 * index) % 2 ^ 8 in
    let printed = leading || (output != 0) || (index == 0) in
    All-append (IsHexDigit upper) (if printed then byte_text output upper leading else [])
      (bytes_text index value upper printed) (byte_if printed)
      (bytes-digits index value upper printed)
  where
    byte : All (IsHexDigit upper) (byte_text (shr value (8 * index) % 2 ^ 8) upper leading)
    byte =
        let output = shr value (8 * index) % 2 ^ 8 in
        let one = int2hex-IsHexDigit upper (output / 16) (omega arith) in
        let two = int2hex-IsHexDigit upper (output % 16) (omega arith) in
        elim (Bool-cases (leading || (output / 2 ^ 4 != 0))) [
          | inl e ↦ rw e (one, (two, tt))
          | inr e ↦ rw e (two, tt)
        ]

    byte_if :
        (b : Bool)
        → All
            (IsHexDigit upper)
            (if b then byte_text (shr value (8 * index) % 2 ^ 8) upper leading else [])
    byte_if true = byte
    byte_if false = tt

bytes-length :
    (index value : ℕ) (upper leading : Bool)
    → length (bytes_text index value upper leading) ≤ 2 * index
bytes-length zero value upper leading = omega arith
bytes-length (suc index) value upper leading =
    let output = shr value (8 * index) % 2 ^ 8 in
    let printed = leading || (output != 0) || (index == 0) in
    let front : Text = if printed then byte_text output upper leading else [] in
    let short : length front ≤ 2 = elim (Bool-cases printed) [
      | inl e ↦ rw e (elim (Bool-cases (leading || (output / 2 ^ 4 != 0))) [
        | inl two ↦ rw two (omega arith)
        | inr one ↦ rw one (omega arith)
      ])
      | inr e ↦ rw e (omega arith)
    ] in
    omega (
      arith,
      length-append front (bytes_text index value upper printed),
      bytes-length index value upper printed,
      short,
    )

pub hexadecimal_text-IsBase16 :
    (value : ℕ) (upper : Bool)
    → value < 2 ^ 64
    → IsBase16 value upper (hexadecimal_text value upper)
hexadecimal_text-IsBase16 value upper lt = record {
  reads = bytes-reads 8 value upper false 0 (inr refl) ∙ omega arith;
  digits = bytes-digits 8 value upper false;
  first = elim (Bool-cases (value == 0)) [
    | inl e ↦
        let none : value ≡ 0 = ground arith in
        inl (none, ap (λ v. hexadecimal_text v upper) none ∙ zero_text upper)
    | inr e ↦ inr (bytes-first 8 value upper (ground arith))
  ];
  fits = bytes-length 8 value upper false;
}
  where
    zero_text : (u : Bool) → hexadecimal_text 0 u ≡ b'0' ∷ []
    zero_text u = refl

module _ {S : Type 0} (fputc : (c : ℕ) → S → Bool × S) (size : ℕ) where
  -- A 64-bit number is written as its hexadecimal text in the given case: digits that read back as
  -- the number, the first not 0 unless it is the only one, at most sixteen of them.
  pub formatted_string_hexadecimal-IsBase16 :
      (value : ℕ) (upper : Bool) (o : Sink S)
      → value < 2 ^ 64
      → (t : Text) × IsBase16 value upper t
        × (mbed_minimal_formatted_string_hexadecimal fputc size value upper o
            ≡ put_all fputc size t o)
  formatted_string_hexadecimal-IsBase16 value upper o lt = (
    hexadecimal_text value upper,
    hexadecimal_text-IsBase16 value upper lt,
    hexadecimal-eq fputc size value upper o,
  )

  -- A 32-bit address is written after 0x as its hexadecimal text in capitals where it lies in the
  -- lower half of the memory, and in the upper half as that of a number that is 2^64 - 2^32 larger.
  pub formatted_string_void_pointer-IsBase16 :
      (value : ℕ) (o : Sink S)
      → value < 2 ^ 32
      → (t : Text) × IsBase16
          (if ltb value (2 ^ 31) then value else value + (2 ^ 64 - 2 ^ 32))
          true
          t
        × (mbed_minimal_formatted_string_void_pointer fputc size value o
            ≡ put_all fputc size (b'0' ∷ b'x' ∷ t) o)
  formatted_string_void_pointer-IsBase16 value o lt =
      let w = sign_extend 32 value in
      let same : w ≡ (if ltb value (2 ^ 31) then value else value + (2 ^ 64 - 2 ^ 32)) =
        ground arith in
      let small : w < 2 ^ 64 = ground arith in
      (
        hexadecimal_text w true,
        subst (λ v. IsBase16 v true (hexadecimal_text w true)) same
            (hexadecimal_text-IsBase16 w true small),
        pointer-eq fputc size value o,
      )

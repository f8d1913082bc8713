-- ===== src/Printf.antt =====
-- bootstrap/mbed_printf_implementation.c: the output of characters, numbers and strings. A
-- character is its byte, a text the characters before its NUL, and `fputc` a parameter.
pub mod Output
pub mod Decimal
pub mod Hexadecimal
pub mod Format
pub mod Wrapper
pub mod Digits
pub mod Scan
mod Tests
use mathlib.Core.Logic.{dite}
use mathlib.Core.WellFounded.{Acc}
use native.Mathlib.Decide.{dec_lt}
use mcu_driver_hal.Base.{
  ℕ, zero, suc, ◌+◌, ◌-◌, ◌*◌, ◌/◌, ◌%◌, ◌^◌, ◌<◌, Bool, true, false, ◌||◌, Option, none, some,
  List, [], ◌∷◌, arith, ltb, leb, ◌==◌, ◌!=◌, if◌then◌else◌,
}
use mcu_driver_hal.Base.Order.{lt_wf}
use mcu_driver_hal.Base.Words.{ℤ, pos, negsuc, u64, sub64, shr, sign_extend}

abbrev pub Text : Type 0
Text = List ℕ

abbrev pub int_max : ℕ
int_max = 2 ^ 31 - 1

-- The bytes of a buffer by index.
abbrev pub Buffer : Type 0
Buffer = ℕ → ℕ

-- What the functions write to: the buffer and the stream, of which NULL is `none`, and `*result`.
pub record Sink (S : Type 0) : Type 0 where
  pub buffer : Option Buffer
  pub stream : Option S
  pub result : ℤ

abbrev pub eof : ℤ
eof = negsuc 0

abbrev pub write_byte : Buffer → ℕ → ℕ → Buffer
write_byte b n c i = if i == n then c else b i

-- `buffer[*result] = data` where there is a buffer with room.
abbrev pub store : (length n c : ℕ) → Option Buffer → Option Buffer
store length n c none = none
store length n c (some b) = some (if ltb n length then write_byte b n c else b)

pub div-ten-lt : (v : ℕ) → 0 < v → v / 10 < v
div-ten-lt v h = omega arith

-- Least significant digit first, each written in front of those before: the scratch pad, read from
-- its last used index down.
unfoldable pub digits_loop : (value : ℕ) → Acc ◌<◌ value → Text → Text
unfolding dec_lt
digits_loop value (Acc.intro _ smaller) scratch =
    dite (dec_lt 0 value)
      (λ more.
        digits_loop (value / 10) (smaller (value / 10) (div-ten-lt value more))
          ((b'0' + value % 10) ∷ scratch))
      (λ _. scratch)

unfoldable pub scratch_pad : ℕ → Text
unfolding digits_loop lt_wf
scratch_pad value = digits_loop value (lt_wf.apply value) []

abbrev pub int2hex : Bool → ℕ → ℕ
int2hex upper nibble =
    if ltb nibble 10 then b'0' + nibble else (if upper then b'A' else b'a') + (nibble - 10)

module _ {S : Type 0} (fputc : (c : ℕ) → S → Bool × S) where
  -- `*result` after `fputc`, whose first part says whether it returned EOF.
  abbrev pub after_fputc : ℕ → Sink S → Bool × S → Sink S
  after_fputc n o (true, s) = record o { stream = some s; result = eof }
  after_fputc n o (false, s) = record o { stream = some s; result = pos (n + 1) }

  abbrev pub put_at : (length c n : ℕ) → Sink S → Option S → Sink S
  put_at length c n o (some s) = after_fputc n o (fputc c s)
  put_at length c n o none = record o { buffer = store length n c o.buffer; result = pos (n + 1) }

  abbrev pub put : (length c : ℕ) → Sink S → ℤ → Sink S
  put length c o (negsuc _) = o
  put length c o (pos n) = if leb n (int_max - 1) then put_at length c n o o.stream else o

  unfoldable pub mbed_minimal_putchar : (length c : ℕ) → Sink S → Sink S
  mbed_minimal_putchar length c o = put length c o o.result

  -- The loop that writes the scratch pad, and that of a string without a precision.
  unfoldable pub put_all : (length : ℕ) → Text → Sink S → Sink S
  put_all length [] o = o
  put_all length (c ∷ cs) o = put_all length cs (mbed_minimal_putchar length c o)

  unfoldable pub mbed_minimal_formatted_string_unsigned : (length value : ℕ) → Sink S → Sink S
  mbed_minimal_formatted_string_unsigned length value o =
      if value == 0
      then mbed_minimal_putchar length b'0' o
      else put_all length (scratch_pad value) o

  -- `value` is the word of a 64-bit integer in two's complement.
  unfoldable pub mbed_minimal_formatted_string_signed : (length value : ℕ) → Sink S → Sink S
  mbed_minimal_formatted_string_signed length value o =
      if leb (2 ^ 63) value
      then mbed_minimal_formatted_string_unsigned length (u64 (sub64 (2 ^ 64 - 1) value + 1))
          (mbed_minimal_putchar length b'-' o)
      else mbed_minimal_formatted_string_unsigned length value o

  -- One byte of the hexadecimal loop.
  unfoldable pub put_byte : (length output : ℕ) (upper leading : Bool) → Sink S → Sink S
  put_byte length output upper leading o =
      let nibble_one = output / 2 ^ 4 in
      let nibble_two = output % 2 ^ 4 in
      mbed_minimal_putchar length (int2hex upper nibble_two) (
        if leading || (nibble_one != 0)
        then mbed_minimal_putchar length (int2hex upper nibble_one) o
        else o)

  -- for (int index = 7; index >= 0; index--), with `index + 1` rounds left.
  unfoldable pub hexadecimal_loop :
      (index : ℕ) → (length value : ℕ) (upper leading : Bool) → Sink S → Sink S
  hexadecimal_loop zero length value upper leading o = o
  hexadecimal_loop (suc index) length value upper leading o =
      let output = shr value (8 * index) % 2 ^ 8 in
      let printed = leading || (output != 0) || (index == 0) in
      hexadecimal_loop index length value upper printed
        (if printed then put_byte length output upper leading o else o)

  unfoldable pub mbed_minimal_formatted_string_hexadecimal :
      (length value : ℕ) (upper : Bool) → Sink S → Sink S
  mbed_minimal_formatted_string_hexadecimal length value upper o =
      hexadecimal_loop 8 length value upper false o

  -- `(ptrdiff_t) value` is 32 bits wide and signed; the parameter of the call is 64 bits wide.
  unfoldable pub mbed_minimal_formatted_string_void_pointer : (length value : ℕ) → Sink S → Sink S
  mbed_minimal_formatted_string_void_pointer length value o =
      mbed_minimal_formatted_string_hexadecimal length (sign_extend 32 value) true
        (mbed_minimal_putchar length b'x' (mbed_minimal_putchar length b'0' o))

  -- while ((*string != '\0') && (precision))
  unfoldable pub mbed_minimal_formatted_string_string :
      (length : ℕ) → Text → (precision : ℕ) → Sink S → Sink S
  mbed_minimal_formatted_string_string length [] precision o = o
  mbed_minimal_formatted_string_string length (c ∷ string) zero o = o
  mbed_minimal_formatted_string_string length (c ∷ string) (suc precision) o =
      mbed_minimal_formatted_string_string length string precision (mbed_minimal_putchar length c o)

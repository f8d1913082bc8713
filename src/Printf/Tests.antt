-- ===== src/Printf/Tests.antt =====
-- Runs of bootstrap/mbed_printf_implementation.c on concrete formats, and its theorems at them.
use mcu_driver_hal.Base.{
  ℕ, ◌+◌, ◌-◌, ◌^◌, ◌≤◌, ◌<◌, ◌≡◌, ◌⊎◌, refl, inl, Bool, true, false, none, some, List, [], ◌∷◌,
  ◌++◌, All, length, arith, ok, Returns, ltb, leb, if◌then◌else◌,
}
use mcu_driver_hal.Base.Words.{pos}
use mcu_driver_hal.Printf.{
  Text, int_max, Buffer, Sink, scratch_pad, put_all, mbed_minimal_formatted_string_signed,
  mbed_minimal_formatted_string_hexadecimal, mbed_minimal_formatted_string_void_pointer,
}
use mcu_driver_hal.Printf.Decimal.{IsDecimal, formatted_string_signed-IsDecimal}
use mcu_driver_hal.Printf.Hexadecimal.{
  formatted_string_hexadecimal-IsBase16, formatted_string_void_pointer-IsBase16,
}
use mcu_driver_hal.Printf.Digits.{IsBase16}
use mcu_driver_hal.Printf.Format.{mbed_minimal_formatted_string}
use mcu_driver_hal.Printf.Scan.{
  Arg, dword, text, length_none, length_ll, next_word, next_dword, next_text,
}
use mcu_driver_hal.Printf.Format.Directive.{
  Directive, literal, percent, specifier, no_width, width, no_precision, precision, as_d, as_s,
  IsDirective, format_chars, format_text,
}
use mcu_driver_hal.Printf.Format.Buffers.{smaller, send}
use mcu_driver_hal.Printf.Format.Refines.{
  IsPrinted, formatted_string-IsPrinted, formatted_string-counts, formatted_string-send,
}
use mcu_driver_hal.Printf.Wrapper.{snprintf}
use mcu_driver_hal.Printf.Wrapper.Measure.{HoldsText, snprintf-HoldsText}

-- A stream that takes four characters.
abbrev fputc : (c : ℕ) → Text → Bool × Text
fputc c s = if leb 4 (length s) then (true, s) else (false, s ++ c ∷ [])

abbrev zeroes : Buffer
zeroes i = 0

abbrev sink : Sink Text
sink = record { buffer = some zeroes; stream = none; result = pos 0 }

-- %-5lld, %.2s% and a full stop
abbrev directives : List Directive
directives =
    specifier (record {
      flag = some b'-';
      field_width = width (b'5' ∷ []);
      field_precision = no_precision;
      modifier = length_ll;
      conversion = as_d;
    })
    ∷ literal b','
    ∷ specifier (record {
      flag = none;
      field_width = no_width;
      field_precision = precision (b'2' ∷ []);
      modifier = length_none;
      conversion = as_s;
    })
    ∷ percent
    ∷ literal b'.'
    ∷ []

abbrev arguments : List Arg
arguments = dword (2 ^ 64 - 42) ∷ text (b'a' ∷ b'b' ∷ b'c' ∷ []) ∷ []

-- -42,ab%.
abbrev printed_text : Text
printed_text = b'-' ∷ b'4' ∷ b'2' ∷ b',' ∷ b'a' ∷ b'b' ∷ b'%' ∷ b'.' ∷ []

directives-IsDirective : All IsDirective directives
directives-IsDirective = (
  (refl, (omega arith, (omega arith, omega arith), tt), tt),
  (
    omega arith,
    ((tt, tt, (((omega arith, omega arith), tt), omega arith)), (tt, (omega arith, tt))),
  ),
)

directives_mean : format_text directives arguments ≡ ok printed_text
unfolding format_text next_word next_dword next_text scratch_pad
directives_mean = refl

formatted_string-IsPrinted_example : Returns (IsPrinted zeroes 5 printed_text) (
    mbed_minimal_formatted_string fputc 6
      (some zeroes)
      5
      (some (format_chars directives))
      arguments
      none)
formatted_string-IsPrinted_example =
    formatted_string-IsPrinted fputc 6 zeroes 5 directives arguments printed_text (omega arith)
      (omega arith) directives-IsDirective (omega arith) directives_mean

formatted_string-counts_example :
    mbed_minimal_formatted_string fputc 6
      (some zeroes)
      0
      (some (format_chars directives))
      arguments
      none
    ≡ ok (record {
      buffer = some zeroes;
      stream = none;
      result = pos (smaller (length printed_text) int_max);
    })
formatted_string-counts_example =
    formatted_string-counts fputc 6 (some zeroes) 0 directives arguments printed_text (inl refl)
      (omega arith) directives-IsDirective (omega arith) directives_mean

formatted_string-send_example :
    mbed_minimal_formatted_string fputc 6 none int_max
      (some (format_chars directives))
      arguments
      (some [])
    ≡ ok (record {
      buffer = none;
      stream = some (send fputc printed_text [] 0).0;
      result = (send fputc printed_text [] 0).1;
    })
formatted_string-send_example =
    formatted_string-send fputc 6 int_max [] directives arguments printed_text (omega arith)
      (omega arith) directives-IsDirective (omega arith) directives_mean

snprintf-HoldsText_example :
    Returns
      (λ (o : Sink Text). o.result ≡ pos (length printed_text))
      (snprintf fputc 6 none 0 (some (format_chars directives)) arguments)
    × Returns (HoldsText zeroes printed_text) (
        snprintf fputc 6
          (some zeroes)
          (length printed_text + 1)
          (some (format_chars directives))
          arguments)
snprintf-HoldsText_example =
    snprintf-HoldsText fputc 6 zeroes directives arguments printed_text directives-IsDirective
      (omega arith) directives_mean (omega arith)

formatted_string_signed-IsDecimal_example :
    (t : Text) × (((2 ^ 63 < 2 ^ 63) × IsDecimal (2 ^ 63) t)
      ⊎ ((2 ^ 63 ≤ 2 ^ 63) × ((u : Text) × IsDecimal (2 ^ 64 - 2 ^ 63) u × (t ≡ b'-' ∷ u))))
    × (mbed_minimal_formatted_string_signed fputc 30 (2 ^ 63) sink ≡ put_all fputc 30 t sink)
formatted_string_signed-IsDecimal_example =
    formatted_string_signed-IsDecimal fputc 30 (2 ^ 63) sink (omega arith)

formatted_string_hexadecimal-IsBase16_example :
    (t : Text) × IsBase16 0xbeef false t
    × (mbed_minimal_formatted_string_hexadecimal fputc 30 0xbeef false sink
        ≡ put_all fputc 30 t sink)
formatted_string_hexadecimal-IsBase16_example =
    formatted_string_hexadecimal-IsBase16 fputc 30 0xbeef false sink (omega arith)

-- The system control space of a Cortex-M core.
formatted_string_void_pointer-IsBase16_example :
    (t : Text) × IsBase16
      (if ltb 0xe000_e000 (2 ^ 31) then 0xe000_e000 else 0xe000_e000 + (2 ^ 64 - 2 ^ 32))
      true
      t
    × (mbed_minimal_formatted_string_void_pointer fputc 30 0xe000_e000 sink
        ≡ put_all fputc 30 (b'0' ∷ b'x' ∷ t) sink)
formatted_string_void_pointer-IsBase16_example =
    formatted_string_void_pointer-IsBase16 fputc 30 0xe000_e000 sink (omega arith)

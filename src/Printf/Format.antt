-- ===== src/Printf/Format.antt =====
-- The format of bootstrap/mbed_printf_implementation.c: `mbed_minimal_formatted_string`, built for a
-- 32-bit core with 64-bit integers (the default) and without floating point (the default). An index
-- into the format is the text from there on.
pub mod Directive
pub mod Written
pub mod Parse
pub mod Buffers
pub mod Refines
pub mod Characters
use mcu_driver_hal.Base.{
  ℕ, zero, suc, ◌+◌, ◌-◌, ◌*◌, ◌%◌, ◌^◌, Bool, true, false, ◌&&◌, ◌||◌, Option, none, some, List,
  [], ◌∷◌, Run, ok, undefined, out_of_fuel, ◌>>=◌, leb, ltb, ◌==◌, if◌then◌else◌,
}
use mcu_driver_hal.Base.Words.{ℤ, pos, negsuc, u32, sign_extend}
use mcu_driver_hal.Printf.{
  Text, int_max, Buffer, Sink, write_byte, mbed_minimal_putchar,
  mbed_minimal_formatted_string_unsigned, mbed_minimal_formatted_string_signed,
  mbed_minimal_formatted_string_hexadecimal, mbed_minimal_formatted_string_void_pointer,
  mbed_minimal_formatted_string_string,
}
use mcu_driver_hal.Printf.Scan.{
  Arg, next_word, next_dword, next_text, char_at, after, skip_flag, skip_width, read_precision,
  Length, length_modifier, after_length, length_capital_l, length_h, length_hh, length_j, length_l,
  length_ll, length_none, length_t, length_z, word,
}

-- The word of 64 bits that a signed value has after its cast.
abbrev pub constrict_signed : Length → ℕ → ℕ
constrict_signed length_none value = sign_extend 32 value
constrict_signed length_hh value = sign_extend 8 value
constrict_signed length_h value = sign_extend 16 value
constrict_signed length_l value = sign_extend 32 value
constrict_signed length_ll value = value
constrict_signed length_j value = value
constrict_signed length_t value = sign_extend 32 value
constrict_signed length_z value = value
constrict_signed length_capital_l value = value

abbrev pub constrict_unsigned : Length → ℕ → ℕ
constrict_unsigned length_none value = u32 value
constrict_unsigned length_hh value = value % 2 ^ 8
constrict_unsigned length_h value = value % 2 ^ 16
constrict_unsigned length_l value = u32 value
constrict_unsigned length_ll value = value
constrict_unsigned length_j value = value
constrict_unsigned length_z value = u32 value
constrict_unsigned length_t value = sign_extend 32 value
constrict_unsigned length_capital_l value = value

-- Only `long long` is wider than the native type.
unfoldable pub read_signed : Length → List Arg → Run (ℕ × List Arg)
read_signed length_ll args = next_dword args
read_signed _ args = do (value, args) ← next_word args; ok (sign_extend 32 value, args)

unfoldable pub read_unsigned : Length → List Arg → Run (ℕ × List Arg)
read_unsigned length_ll args = next_dword args
read_unsigned _ args = next_word args

module _ {S : Type 0} (fputc : (c : ℕ) → S → Bool × S) (size : ℕ) where
  abbrev pub Step : Type 0
  Step = Run (Text × List Arg × Sink S)

  unfoldable pub convert_signed : Length → (rest : Text) → List Arg → Sink S → Step
  convert_signed modifier rest args o = do
    (value, args) ← read_signed modifier args
    ok (
      rest,
      args,
      mbed_minimal_formatted_string_signed fputc size (constrict_signed modifier value) o,
    )

  unfoldable pub convert_unsigned : (next : ℕ) → Length → (rest : Text) → List Arg → Sink S → Step
  convert_unsigned next modifier rest args o = do
    (value, args) ← read_unsigned modifier args
    let value = constrict_unsigned modifier value
    ok (
      rest,
      args,
      if next == b'u'
          then mbed_minimal_formatted_string_unsigned fputc size value o
          else mbed_minimal_formatted_string_hexadecimal fputc size value (next == b'X') o,
    )

  unfoldable pub convert_character : (rest : Text) → List Arg → Sink S → Step
  convert_character rest args o = do
    (value, args) ← next_word args
    ok (rest, args, mbed_minimal_putchar fputc size (value % 2 ^ 8) o)

  unfoldable pub convert_string : (precision : ℕ) → (rest : Text) → List Arg → Sink S → Step
  convert_string precision rest args o = do
    (value, args) ← next_text args
    ok (rest, args, mbed_minimal_formatted_string_string fputc size value precision o)

  unfoldable pub convert_pointer : (rest : Text) → List Arg → Sink S → Step
  convert_pointer rest args o = do
    (value, args) ← next_word args
    ok (rest, args, mbed_minimal_formatted_string_void_pointer fputc size value o)

  -- By the conversion character `next`; `rest` is behind it, and `cs` behind the leading `%`.
  unfoldable pub convert_as :
      (next : ℕ) → Length → (precision : ℕ) → (cs rest : Text) → List Arg → Sink S → Step
  convert_as next modifier precision cs rest args o =
      if (next == b'd') || (next == b'i')
      then convert_signed modifier rest args o
      else if (next == b'u') || (next == b'x') || (next == b'X')
      then convert_unsigned next modifier rest args o
      else if next == b'c'
      then convert_character rest args o
      else if next == b's'
      then convert_string precision rest args o
      else if next == b'p'
      then convert_pointer rest args o
      else ok (if next == b'%' then rest else cs, args, mbed_minimal_putchar fputc size b'%' o)

  -- One format specifier, from behind its `%`.
  unfoldable pub convert : (cs : Text) → List Arg → Sink S → Step
  convert cs args o = do
    (cs1, args) ← skip_width (skip_flag cs) args
    (precision, cs2, args) ← read_precision cs1 args
    let modifier = length_modifier cs2
    let at = after_length modifier cs2
    convert_as (char_at at) modifier precision cs (after at) args o

  unfoldable pub format_loop : (rounds : ℕ) → (format : Text) → List Arg → Sink S → Run (Sink S)
  format_loop zero format args o = out_of_fuel
  format_loop (suc rounds) [] args o = ok o
  format_loop (suc rounds) (c ∷ cs) args o =
      let special = (do (cs, args, o) ← convert cs args o; format_loop rounds cs args o) in
      let normal = format_loop rounds cs args (mbed_minimal_putchar fputc size c o) in
      if c == b'%' then special else normal

  -- `buffer[result]` or `buffer[length]` is set to NUL; a negative `result` is a large `size_t`.
  abbrev pub nul_index : ℤ → ℕ
  nul_index (pos n) = if leb n size then n else size
  nul_index (negsuc n) = size

  abbrev pub put_nul : (empty_buffer : Bool) → (n : ℕ) → Option Buffer → Option Buffer
  put_nul empty_buffer n none = none
  put_nul empty_buffer n (some b) = some (if empty_buffer then b else write_byte b n 0)

  unfoldable pub terminate : (empty_buffer : Bool) → Sink S → Sink S
  terminate empty_buffer o = record o {
    buffer = put_nul empty_buffer (nul_index o.result) o.buffer;
  }

-- The result and what was written; NULL is `none`.
unfoldable pub mbed_minimal_formatted_string :
    {S : Type 0} (fputc : (c : ℕ) → S → Bool × S) (rounds : ℕ) (buffer : Option Buffer) (length : ℕ)
    (format : Option Text) (arguments : List Arg) (stream : Option S)
    → Run (Sink S)
mbed_minimal_formatted_string fputc rounds buffer length none arguments stream =
    ok (record { buffer = buffer; stream = stream; result = pos 0 })
mbed_minimal_formatted_string fputc rounds buffer length (some format) arguments stream =
    let start : Sink _ = record { buffer = buffer; stream = stream; result = pos 0 } in
    if leb length int_max
    then (do
      o ← format_loop fputc (length - 1) rounds format arguments start
      ok (terminate fputc (length - 1) (length == 0) o))
    else ok start

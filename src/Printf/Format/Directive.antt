-- ===== src/Printf/Format/Directive.antt =====
-- Formats as the C standard describes them, for bootstrap/mbed_printf_implementation.c: how they are
-- written, and the text that they stand for.
use mcu_driver_hal.Base.{
  ℕ, ◌≡◌, ◌≢◌, ◌≤◌, ◌%◌, ◌^◌, true, false, Option, none, some, List, [], ◌∷◌, ◌++◌, All, Run, ok,
  undefined, ◌>>=◌, ◌-◌, ltb, leb, if◌then◌else◌,
}
use mcu_driver_hal.Printf.{Text, int_max}
use mcu_driver_hal.Printf.Decimal.{IsDigit, decimal_from}
use mcu_driver_hal.Printf.Output.{unsigned_text, hexadecimal_text, take_text}
use mcu_driver_hal.Printf.Scan.{
  Arg, next_word, next_dword, next_text, Length, length_none, length_h, length_l, length_j,
  length_z, length_t, length_capital_l, length_hh, length_ll, is_flag,
}

pub data Width : Type 0 where
  no_width star_width : Width
  width : Text → Width

pub data Precision : Type 0 where
  no_precision star_precision : Precision
  precision : Text → Precision

pub data Conversion : Type 0 where
  as_d as_i as_u as_x as_upper_x as_c as_s as_p : Conversion

pub record Spec : Type 0 where
  pub flag : Option ℕ
  pub field_width : Width
  pub field_precision : Precision
  pub modifier : Length
  pub conversion : Conversion

pub data Directive : Type 0 where
  literal : ℕ → Directive
  percent : Directive
  specifier : Spec → Directive

-- How a format is written.
abbrev pub flag_chars : Option ℕ → Text → Text
flag_chars none rest = rest
flag_chars (some c) rest = c ∷ rest

abbrev pub width_chars : Width → Text → Text
width_chars no_width rest = rest
width_chars star_width rest = b'*' ∷ rest
width_chars (width ds) rest = ds ++ rest

abbrev pub precision_chars : Precision → Text → Text
precision_chars no_precision rest = rest
precision_chars star_precision rest = b'.' ∷ b'*' ∷ rest
precision_chars (precision ds) rest = b'.' ∷ (ds ++ rest)

abbrev pub length_chars : Length → Text → Text
length_chars length_none rest = rest
length_chars length_h rest = b'h' ∷ rest
length_chars length_l rest = b'l' ∷ rest
length_chars length_j rest = b'j' ∷ rest
length_chars length_z rest = b'z' ∷ rest
length_chars length_t rest = b't' ∷ rest
length_chars length_capital_l rest = b'L' ∷ rest
length_chars length_hh rest = b'h' ∷ b'h' ∷ rest
length_chars length_ll rest = b'l' ∷ b'l' ∷ rest

abbrev pub conversion_char : Conversion → ℕ
conversion_char as_d = b'd'
conversion_char as_i = b'i'
conversion_char as_u = b'u'
conversion_char as_x = b'x'
conversion_char as_upper_x = b'X'
conversion_char as_c = b'c'
conversion_char as_s = b's'
conversion_char as_p = b'p'

-- A specifier behind its `%`.
abbrev pub specifier_chars : Spec → Text → Text
specifier_chars s rest = flag_chars s.flag (
    width_chars s.field_width (
      precision_chars s.field_precision
        (length_chars s.modifier (conversion_char s.conversion ∷ rest))))

abbrev pub format_chars : List Directive → Text
format_chars [] = []
format_chars (literal c ∷ ds) = c ∷ format_chars ds
format_chars (percent ∷ ds) = b'%' ∷ b'%' ∷ format_chars ds
format_chars (specifier s ∷ ds) = b'%' ∷ specifier_chars s (format_chars ds)

-- At most one flag; a width of digits does not begin with 0, and a precision fits an `int`.
abbrev pub IsFlag : Option ℕ → Type 0
IsFlag none = Unit
IsFlag (some c) = is_flag c ≡ true

abbrev pub IsWidth : Width → Type 0
IsWidth no_width = Unit
IsWidth star_width = Unit
IsWidth (width []) = ⊥
IsWidth (width (d ∷ ds)) = (d ≢ b'0') × IsDigit d × All IsDigit ds

abbrev pub IsPrecision : Precision → Type 0
IsPrecision no_precision = Unit
IsPrecision star_precision = Unit
IsPrecision (precision ds) = All IsDigit ds × (decimal_from 0 ds ≤ int_max)

abbrev pub IsDirective : Directive → Type 0
IsDirective (literal c) = c ≢ b'%'
IsDirective percent = Unit
IsDirective (specifier s) = IsFlag s.flag × IsWidth s.field_width × IsPrecision s.field_precision

-- What a format stands for. Flags and the width are left out of the text, as the implementation says
-- of itself, but the `*` of a width takes an argument.
abbrev pub width_args : Width → List Arg → Run (List Arg)
width_args no_width args = ok args
width_args (width ds) args = ok args
width_args star_width args = next_word args >>= λ (w, args). ok args

-- A negative precision from the arguments is left out.
abbrev pub precision_value : Precision → List Arg → Run (ℕ × List Arg)
precision_value no_precision args = ok (int_max, args)
precision_value (precision ds) args = ok (decimal_from 0 ds, args)
precision_value star_precision args =
    next_word args >>= λ (n, args). if leb n int_max then ok (n, args) else undefined

-- The bits of an integer type on a 32-bit core: `signed char`, `short`, `int`, `long` and `long long`,
-- with `size_t` and `ptrdiff_t`.
abbrev pub type_bits : Length → ℕ
type_bits length_hh = 8
type_bits length_h = 16
type_bits length_none = 32
type_bits length_l = 32
type_bits length_z = 32
type_bits length_t = 32
type_bits _ = 64

-- An integer argument is passed as an `int` or, for `long long`, in 64 bits. `j` is left out, since
-- its argument is not read as it is passed, and `L` has no meaning before these conversions.
abbrev pub integer_argument : Length → List Arg → Run (ℕ × List Arg)
integer_argument length_j args = undefined
integer_argument length_capital_l args = undefined
integer_argument length_ll args =
    next_dword args >>= λ (n, args). if ltb n (2 ^ 64) then ok (n, args) else undefined
integer_argument _ args = next_word args

-- The integer of the signed type whose word is `n`.
abbrev pub integer_text : (bits n : ℕ) → Text
integer_text bits n =
    let word = n % 2 ^ bits in
    if ltb word (2 ^ (bits - 1)) then unsigned_text word else b'-' ∷ unsigned_text (2 ^ bits - word)

abbrev pub signed_argument : Length → List Arg → Run (Text × List Arg)
signed_argument m args =
    integer_argument m args >>= λ (n, args). ok (integer_text (type_bits m) n, args)

-- `t` is left out where it is for the unsigned type, since its word is extended with its sign.
abbrev pub unsigned_argument : Length → List Arg → Run (ℕ × List Arg)
unsigned_argument length_t args = undefined
unsigned_argument m args = integer_argument m args >>= λ (n, args). ok (n % 2 ^ type_bits m, args)

-- Before the other conversions a length modifier is ignored, but wide characters and strings, `lc` and
-- `ls`, are left out. An address in the upper half of the memory is left
-- out, since it is extended with its sign.
abbrev pub conversion_text : Conversion → Length → (limit : ℕ) → List Arg → Run (Text × List Arg)
conversion_text as_d m limit args = signed_argument m args
conversion_text as_i m limit args = signed_argument m args
conversion_text as_u m limit args =
    unsigned_argument m args >>= λ (n, args). ok (unsigned_text n, args)
conversion_text as_x m limit args =
    unsigned_argument m args >>= λ (n, args). ok (hexadecimal_text n false, args)
conversion_text as_upper_x m limit args =
    unsigned_argument m args >>= λ (n, args). ok (hexadecimal_text n true, args)
conversion_text as_c length_l limit args = undefined
conversion_text as_s length_l limit args = undefined
conversion_text as_c m limit args = next_word args >>= λ (n, args). ok ((n % 2 ^ 8) ∷ [], args)
conversion_text as_s m limit args = next_text args >>= λ (t, args). ok (take_text limit t, args)
conversion_text as_p m limit args = next_word args >>= λ (n, args).
    if ltb n (2 ^ 31) then ok (b'0' ∷ b'x' ∷ hexadecimal_text n true, args) else undefined

abbrev pub specifier_text : Spec → List Arg → Run (Text × List Arg)
specifier_text s args = width_args s.field_width args >>= λ args.
    precision_value s.field_precision args >>= λ (limit, args).
    conversion_text s.conversion s.modifier limit args

abbrev pub directive_text : Directive → List Arg → Run (Text × List Arg)
directive_text (literal c) args = ok (c ∷ [], args)
directive_text percent args = ok (b'%' ∷ [], args)
directive_text (specifier s) args = specifier_text s args

unfoldable pub format_text : List Directive → List Arg → Run Text
format_text [] args = ok []
format_text (d ∷ ds) args =
    directive_text d args >>= λ (t, args). format_text ds args >>= λ u. ok (t ++ u)

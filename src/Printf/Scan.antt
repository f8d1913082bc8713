-- ===== src/Printf/Scan.antt =====
-- The arguments of mbed_minimal_formatted_string in bootstrap/mbed_printf_implementation.c, and its walks over the format.
use mcu_driver_hal.Base.{
  ℕ, ◌+◌, ◌-◌, ◌*◌, Bool, ◌&&◌, ◌||◌, List, [], ◌∷◌, Run, ok, undefined, ◌>>=◌, leb, ◌==◌,
  if◌then◌else◌,
}
use mcu_driver_hal.Printf.{Text, int_max}

-- An argument: a word of 32 bits, one of 64 bits, or a string. `va_arg` of another type than the
-- argument has, or of an argument that is not there, is undefined.
pub data Arg : Type 0 where
  word dword : ℕ → Arg
  text : Text → Arg

unfoldable pub next_word : List Arg → Run (ℕ × List Arg)
next_word (word n ∷ args) = ok (n, args)
next_word (dword n ∷ args) = undefined
next_word (text t ∷ args) = undefined
next_word [] = undefined

unfoldable pub next_dword : List Arg → Run (ℕ × List Arg)
next_dword (dword n ∷ args) = ok (n, args)
next_dword (word n ∷ args) = undefined
next_dword (text t ∷ args) = undefined
next_dword [] = undefined

unfoldable pub next_text : List Arg → Run (Text × List Arg)
next_text (text t ∷ args) = ok (t, args)
next_text (word n ∷ args) = undefined
next_text (dword n ∷ args) = undefined
next_text [] = undefined

-- The character at an index, and the text behind it.
abbrev pub char_at : Text → ℕ
char_at [] = 0
char_at (c ∷ cs) = c

abbrev pub after : Text → Text
after [] = []
after (c ∷ cs) = cs

abbrev pub is_digit : ℕ → Bool
is_digit c = leb b'0' c && leb c b'9'

abbrev pub is_flag : ℕ → Bool
is_flag c = (c == b'-') || (c == b'+') || (c == b' ') || (c == b'#') || (c == b'0')

unfoldable pub skip_flag : Text → Text
skip_flag cs = if is_flag (char_at cs) then after cs else cs

unfoldable pub skip_digits : Text → Text
skip_digits [] = []
skip_digits (c ∷ cs) = if is_digit c then skip_digits cs else c ∷ cs

unfoldable pub skip_width : Text → List Arg → Run (Text × List Arg)
skip_width cs args =
    if char_at cs == b'*'
    then (do (_, args) ← next_word args; ok (after cs, args))
    else ok (skip_digits cs, args)

-- `precision * 10 + digit` is an `int`, whose overflow is undefined.
unfoldable pub read_digits : Text → (precision : ℕ) → Run (ℕ × Text)
read_digits [] precision = ok (precision, [])
read_digits (c ∷ cs) precision =
    let value = precision * 10 + (c - b'0') in
    let rest = read_digits cs value in
    if is_digit c then if leb value int_max then rest else undefined else ok (precision, c ∷ cs)

unfoldable pub read_precision : Text → List Arg → Run (ℕ × Text × List Arg)
read_precision cs args =
    if (char_at cs == b'.') && (char_at (after cs) == b'*')
    then (do (precision, args) ← next_word args; ok (precision, after (after cs), args))
    else if char_at cs == b'.'
    then (do (precision, cs) ← read_digits (after cs) 0; ok (precision, cs, args))
    else ok (int_max, cs, args)

-- `length_t`
pub data Length : Type 0 where
  length_none length_h length_l length_j length_z length_t length_capital_l length_hh length_ll :
      Length

unfoldable pub length_modifier : Text → Length
length_modifier cs =
    let c = char_at cs in
    if (c == b'h') && (char_at (after cs) == b'h')
    then length_hh
    else if (c == b'l') && (char_at (after cs) == b'l')
    then length_ll
    else if c == b'h'
    then length_h
    else if c == b'l'
    then length_l
    else if c == b'j'
    then length_j
    else if c == b'z'
    then length_z
    else if c == b't'
    then length_t
    else if c == b'L'
    then length_capital_l
    else length_none

-- The index moves by `length_modifier & 0x0F`.
abbrev pub after_length : Length → Text → Text
after_length length_none cs = cs
after_length length_hh cs = after (after cs)
after_length length_ll cs = after (after cs)
after_length _ cs = after cs

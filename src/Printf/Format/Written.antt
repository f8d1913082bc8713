-- ===== src/Printf/Format/Written.antt =====
-- The texts that the directives of bootstrap/mbed_printf_implementation.c put out, and that they are
-- those that the directives stand for.
use mcu_driver_hal.Base.{
  ℕ, ◌%◌, ◌^◌, ◌<◌, ◌≡◌, refl, ap, sym, ◌∙◌, true, false, List, [], ◌∷◌, ◌++◌, arith, Run, ok,
  halted, undefined, Returns, subst, Bool, out_of_fuel, ◌>>=◌, ltb, leb, if◌then◌else◌,
}
use mcu_driver_hal.Base.Words.{sign_extend}
use mcu_driver_hal.Printf.{Text, int_max}
use mcu_driver_hal.Printf.Decimal.{decimal_from}
use mcu_driver_hal.Printf.Output.{
  unsigned_text, signed_text, hexadecimal_text, pointer_text, take_text,
}
use mcu_driver_hal.Printf.Format.{constrict_signed, constrict_unsigned, read_signed, read_unsigned}
use mcu_driver_hal.Printf.Scan.{
  Arg, next_word, next_dword, next_text, Length, length_none, length_h, length_l, length_j,
  length_z, length_t, length_capital_l, length_hh, length_ll,
}
use mcu_driver_hal.Printf.Format.Directive.{
  Precision, no_precision, star_precision, precision, Conversion, as_d, as_i, as_u, as_x,
  as_upper_x, as_c, as_s, as_p, Spec, Directive, literal, percent, specifier, width_args,
  precision_value, integer_text, integer_argument, unsigned_argument, signed_argument,
  conversion_text, specifier_text, directive_text, format_text,
}

-- As the code reads and casts the arguments.
abbrev pub precision_read : Precision → List Arg → Run (ℕ × List Arg)
precision_read no_precision args = ok (int_max, args)
precision_read (precision ds) args = ok (decimal_from 0 ds, args)
precision_read star_precision args = next_word args

abbrev pub signed_of : Length → List Arg → Run (Text × List Arg)
signed_of m args =
    read_signed m args >>= λ (value, args). ok (signed_text (constrict_signed m value), args)

abbrev pub conversion_written : Conversion → Length → (limit : ℕ) → List Arg → Run (Text × List Arg)
conversion_written as_d m limit args = signed_of m args
conversion_written as_i m limit args = signed_of m args
conversion_written as_u m limit args =
    read_unsigned m args >>= λ (value, args). ok (unsigned_text (constrict_unsigned m value), args)
conversion_written as_x m limit args = read_unsigned m args >>= λ (value, args).
    ok (hexadecimal_text (constrict_unsigned m value) false, args)
conversion_written as_upper_x m limit args = read_unsigned m args >>= λ (value, args).
    ok (hexadecimal_text (constrict_unsigned m value) true, args)
conversion_written as_c m limit args =
    next_word args >>= λ (value, args). ok ((value % 2 ^ 8) ∷ [], args)
conversion_written as_s m limit args = next_text args >>= λ (t, args). ok (take_text limit t, args)
conversion_written as_p m limit args =
    next_word args >>= λ (value, args). ok (pointer_text value, args)

abbrev pub specifier_written : Spec → List Arg → Run (Text × List Arg)
specifier_written s args = width_args s.field_width args >>= λ args.
    precision_read s.field_precision args >>= λ (limit, args).
    conversion_written s.conversion s.modifier limit args

abbrev pub directive_written : Directive → List Arg → Run (Text × List Arg)
directive_written (literal c) args = ok (c ∷ [], args)
directive_written percent args = ok (b'%' ∷ [], args)
directive_written (specifier s) args = specifier_written s args

unfoldable pub format_written : List Directive → List Arg → Run Text
format_written [] args = ok []
format_written (d ∷ ds) args =
    directive_written d args >>= λ (t, args). format_written ds args >>= λ u. ok (t ++ u)

-- A run that returns went through its first part.
not_ok : {A : Type 0} (x : Run A) (b : A) → x ≡ ok b → Returns (λ a. Unit) x
not_ok x b e = subst (Returns (λ a. Unit)) (sym e) tt

bind-ok :
    {A : Type 0} {B : Type 0} (x : Run A) (f : A → Run B) (b : B)
    → (x >>= f) ≡ ok b
    → (a : A) × (x ≡ ok a) × (f a ≡ ok b)
bind-ok (ok a) f b e = (a, refl, e)
bind-ok halted f b e = absurd (not_ok halted b e)
bind-ok undefined f b e = absurd (not_ok undefined b e)
bind-ok out_of_fuel f b e = absurd (not_ok out_of_fuel b e)

ok-inj : {A : Type 0} (a b : A) → ok a ≡ ok b → a ≡ b
ok-inj a b e = ground arith

-- A test that lets a run go on holds.
guard-ok :
    {A : Type 0} (t : Bool) (a b : A)
    → (if t then ok a else undefined) ≡ ok b
    → (t ≡ true) × (a ≡ b)
guard-ok true a b e = (refl, ok-inj a b e)
guard-ok false a b e = absurd (not_ok undefined b e)

-- The word of a signed value is written as its integer.
signed_text-integer_text_8 : (n : ℕ) → signed_text (sign_extend 8 n) ≡ integer_text 8 n
signed_text-integer_text_8 n = ground arith

signed_text-integer_text_16 : (n : ℕ) → signed_text (sign_extend 16 n) ≡ integer_text 16 n
signed_text-integer_text_16 n = ground arith

signed_text-integer_text_32 : (n : ℕ) → signed_text (sign_extend 32 n) ≡ integer_text 32 n
signed_text-integer_text_32 n = ground arith

signed_text-integer_text_64 : (n : ℕ) → n < 2 ^ 64 → signed_text n ≡ integer_text 64 n
signed_text-integer_text_64 n lt = ground arith

extend_8 : (n : ℕ) → sign_extend 8 (sign_extend 32 n) ≡ sign_extend 8 n
extend_8 n = ground arith

extend_16 : (n : ℕ) → sign_extend 16 (sign_extend 32 n) ≡ sign_extend 16 n
extend_16 n = ground arith

extend_32 : (n : ℕ) → sign_extend 32 (sign_extend 32 n) ≡ sign_extend 32 n
extend_32 n = ground arith

signed_word :
    (cast : ℕ → ℕ) (bits : ℕ) (args : List Arg) (r : Text × List Arg)
    → ((n : ℕ) → signed_text (cast (sign_extend 32 n)) ≡ integer_text bits n)
    → (next_word args >>= λ (n, args). ok (integer_text bits n, args)) ≡ ok r
    → ((next_word args >>= λ (n, args). ok (sign_extend 32 n, args)) >>= λ (v, args).
        ok (signed_text (cast v), args))
      ≡ ok r
signed_word cast bits args r same h =
    let ((n, rest), e, h') = bind-ok (next_word args) _ r h in
    rw e (ap (λ t. ok (t, rest)) (same n) ∙ h')

signed_argument-signed_of :
    (m : Length) (args : List Arg) (r : Text × List Arg)
    → signed_argument m args ≡ ok r
    → signed_of m args ≡ ok r
unfolding read_signed
signed_argument-signed_of length_hh args r h =
    signed_word (sign_extend 8) 8 args r (λ n. rw (extend_8 n) (signed_text-integer_text_8 n)) h
signed_argument-signed_of length_h args r h =
    signed_word (sign_extend 16) 16 args r (λ n. rw (extend_16 n) (signed_text-integer_text_16 n)) h
signed_argument-signed_of length_none args r h =
    signed_word (sign_extend 32) 32 args r (λ n. rw (extend_32 n) (signed_text-integer_text_32 n)) h
signed_argument-signed_of length_l args r h =
    signed_word (sign_extend 32) 32 args r (λ n. rw (extend_32 n) (signed_text-integer_text_32 n)) h
signed_argument-signed_of length_t args r h =
    signed_word (sign_extend 32) 32 args r (λ n. rw (extend_32 n) (signed_text-integer_text_32 n)) h
signed_argument-signed_of length_z args r h =
    signed_word (λ v. v) 32 args r signed_text-integer_text_32 h
signed_argument-signed_of length_ll args r h =
    let ((n, rest), e, h1) = bind-ok (integer_argument length_ll args) _ r h in
    let ((n0, rest0), e0, g) = bind-ok (next_dword args) _ (n, rest) e in
    let (small, same) = guard-ok (ltb n0 (2 ^ 64)) (n0, rest0) (n, rest) g in
    rw (e0) (
      ap (λ t. ok (t, rest0)) (signed_text-integer_text_64 n0 (ground arith))
      ∙ ap (λ (a : ℕ × List Arg). ok (integer_text 64 a.0, a.1)) same
      ∙ h1)
signed_argument-signed_of length_j args r h = absurd (not_ok undefined r h)
signed_argument-signed_of length_capital_l args r h = absurd (not_ok undefined r h)

abbrev reduced : (bits : ℕ) → ℕ × List Arg → Run (ℕ × List Arg)
reduced bits p = ok (p.0 % 2 ^ bits, p.1)

unsigned_word :
    (bits : ℕ) (args rest : List Arg) (n : ℕ)
    → (next_word args >>= reduced bits) ≡ ok (n, rest)
    → (v : ℕ) × (next_word args ≡ ok (v, rest)) × (v % 2 ^ bits ≡ n)
unsigned_word bits args rest n h =
    let ((v, rest'), e, g) = bind-ok (next_word args) _ (n, rest) h in
    let same = ok-inj (v % 2 ^ bits, rest') (n, rest) g in
    let tail : rest' ≡ rest = ap (λ (p : ℕ × List Arg). p.1) same in
    (v, e ∙ ap (λ l. ok (v, l)) tail, ap (λ (p : ℕ × List Arg). p.0) same)

-- What an unsigned argument is, the code reads and casts it to.
unsigned_read :
    (m : Length) (args rest : List Arg) (n : ℕ)
    → unsigned_argument m args ≡ ok (n, rest)
    → (v : ℕ) × (read_unsigned m args ≡ ok (v, rest)) × (constrict_unsigned m v ≡ n)
unfolding read_unsigned
unsigned_read length_hh args rest n h = unsigned_word 8 args rest n h
unsigned_read length_h args rest n h = unsigned_word 16 args rest n h
unsigned_read length_none args rest n h = unsigned_word 32 args rest n h
unsigned_read length_l args rest n h = unsigned_word 32 args rest n h
unsigned_read length_z args rest n h = unsigned_word 32 args rest n h
unsigned_read length_ll args rest n h =
    let ((v, rest1), e, g) = bind-ok (integer_argument length_ll args) _ (n, rest) h in
    let ((v0, rest0), e0, g0) = bind-ok (next_dword args) _ (v, rest1) e in
    let (small, same) = guard-ok (ltb v0 (2 ^ 64)) (v0, rest0) (v, rest1) g0 in
    let last = ok-inj (v % 2 ^ 64, rest1) (n, rest) g in
    let value : v0 ≡ v = ap (λ (p : ℕ × List Arg). p.0) same in
    let result : v % 2 ^ 64 ≡ n = ap (λ (p : ℕ × List Arg). p.0) last in
    let below : v0 < 2 ^ 64 = ground arith in
    let tail : rest0 ≡ rest =
      ap (λ (p : ℕ × List Arg). p.1) same ∙ ap (λ (p : ℕ × List Arg). p.1) last in
    (v0, e0 ∙ ap (λ l. ok (v0, l)) tail, omega (arith, value, result, below))
unsigned_read length_t args rest n h = absurd (not_ok undefined (n, rest) h)
unsigned_read length_j args rest n h = absurd (not_ok undefined (n, rest) h)
unsigned_read length_capital_l args rest n h = absurd (not_ok undefined (n, rest) h)

unsigned_argument-read :
    (text : ℕ → Text) (m : Length) (args : List Arg) (r : Text × List Arg)
    → (unsigned_argument m args >>= λ (n, args). ok (text n, args)) ≡ ok r
    → (read_unsigned m args >>= λ (v, args). ok (text (constrict_unsigned m v), args)) ≡ ok r
unsigned_argument-read text m args r h =
    let ((n, rest), e, h') = bind-ok (unsigned_argument m args) _ r h in
    let (v, read, same) = unsigned_read m args rest n e in rw (read, same) h'

pointer_text-eq : (n : ℕ) → n < 2 ^ 31 → pointer_text n ≡ b'0' ∷ b'x' ∷ hexadecimal_text n true
pointer_text-eq n lt =
    let same : sign_extend 32 n ≡ n = ground arith in
    ap (λ v. b'0' ∷ b'x' ∷ hexadecimal_text v true) same

conversion_text-conversion_written :
    (k : Conversion) (m : Length) (limit : ℕ) (args : List Arg) (r : Text × List Arg)
    → conversion_text k m limit args ≡ ok r
    → conversion_written k m limit args ≡ ok r
conversion_text-conversion_written as_d m limit args r h = signed_argument-signed_of m args r h
conversion_text-conversion_written as_i m limit args r h = signed_argument-signed_of m args r h
conversion_text-conversion_written as_u m limit args r h =
    unsigned_argument-read unsigned_text m args r h
conversion_text-conversion_written as_x m limit args r h =
    unsigned_argument-read (λ n. hexadecimal_text n false) m args r h
conversion_text-conversion_written as_upper_x m limit args r h =
    unsigned_argument-read (λ n. hexadecimal_text n true) m args r h
conversion_text-conversion_written as_c length_none limit args r h = h
conversion_text-conversion_written as_s length_none limit args r h = h
conversion_text-conversion_written as_p m limit args r h =
    let ((n, rest), e, g) = bind-ok (next_word args) _ r h in
    let (low, same) = guard-ok (ltb n (2 ^ 31)) (b'0' ∷ b'x' ∷ hexadecimal_text n true, rest) r g in
    rw e (ap (λ t. ok (t, rest)) (pointer_text-eq n (ground arith)) ∙ ap ok same)
conversion_text-conversion_written as_c length_h limit args r h = h
conversion_text-conversion_written as_c length_l limit args r h = absurd (not_ok undefined r h)
conversion_text-conversion_written as_c length_j limit args r h = h
conversion_text-conversion_written as_c length_z limit args r h = h
conversion_text-conversion_written as_c length_t limit args r h = h
conversion_text-conversion_written as_c length_capital_l limit args r h = h
conversion_text-conversion_written as_c length_hh limit args r h = h
conversion_text-conversion_written as_c length_ll limit args r h = h
conversion_text-conversion_written as_s length_h limit args r h = h
conversion_text-conversion_written as_s length_l limit args r h = absurd (not_ok undefined r h)
conversion_text-conversion_written as_s length_j limit args r h = h
conversion_text-conversion_written as_s length_z limit args r h = h
conversion_text-conversion_written as_s length_t limit args r h = h
conversion_text-conversion_written as_s length_capital_l limit args r h = h
conversion_text-conversion_written as_s length_hh limit args r h = h
conversion_text-conversion_written as_s length_ll limit args r h = h

precision_value-precision_read :
    (p : Precision) (args : List Arg) (r : ℕ × List Arg)
    → precision_value p args ≡ ok r
    → precision_read p args ≡ ok r
precision_value-precision_read no_precision args r h = h
precision_value-precision_read (precision ds) args r h = h
precision_value-precision_read star_precision args r h =
    let (a, e, g) = bind-ok (next_word args) _ r h in e ∙ ap ok (guard-ok (leb a.0 int_max) a r g).1

specifier_text-specifier_written :
    (s : Spec) (args : List Arg) (r : Text × List Arg)
    → specifier_text s args ≡ ok r
    → specifier_written s args ≡ ok r
specifier_text-specifier_written s args r h =
    let (args', e1, h1) = bind-ok (width_args s.field_width args) _ r h in
    let (p, e2, h') = bind-ok (precision_value s.field_precision args') _ r h1 in
    let read = precision_value-precision_read s.field_precision args' p e2 in
    rw (e1, read) (conversion_text-conversion_written s.conversion s.modifier p.0 p.1 r h')

directive_text-directive_written :
    (d : Directive) (args : List Arg) (r : Text × List Arg)
    → directive_text d args ≡ ok r
    → directive_written d args ≡ ok r
directive_text-directive_written (literal c) args r h = h
directive_text-directive_written percent args r h = h
directive_text-directive_written (specifier s) args r h =
    specifier_text-specifier_written s args r h

-- What a format stands for is what its directives put out.
pub format_text-format_written :
    (ds : List Directive) (args : List Arg) (t : Text)
    → format_text ds args ≡ ok t
    → format_written ds args ≡ ok t
unfolding format_text format_written
format_text-format_written [] args t h = h
format_text-format_written (d ∷ ds) args t h =
    let ((u, rest), e, h1) = bind-ok (directive_text d args) _ t h in
    let (w, e2, h2) = bind-ok (format_text ds rest) _ t h1 in
    let first = directive_text-directive_written d args (u, rest) e in
    let more = format_text-format_written ds rest w e2 in rw (first, more) h2

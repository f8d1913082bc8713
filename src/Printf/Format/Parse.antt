-- ===== src/Printf/Format/Parse.antt =====
-- `mbed_minimal_formatted_string` of bootstrap/mbed_printf_implementation.c reads a format as it is
-- written.
use mcu_driver_hal.Base.{
  ℕ, ◌+◌, ◌-◌, ◌*◌, ◌≤◌, ◌≡◌, refl, ap, sym, ◌∙◌, Bool, true, false, Option, none, some, List, [],
  ◌∷◌, ◌++◌, All, arith, Run, ok, ◌>>=◌, bind-cong, bind_assoc, leb, ◌==◌, ==-ne,
}
use mcu_driver_hal.Printf.{Text, int_max, Sink, put_all}
use mcu_driver_hal.Printf.Decimal.{IsDigit, decimal_from}
use mcu_driver_hal.Printf.Output.{
  signed_text, unsigned-eq, signed-eq, hexadecimal-eq, pointer-eq, string-eq,
}
use mcu_driver_hal.Printf.Format.{
  constrict_signed, constrict_unsigned, read_signed, read_unsigned, convert_signed,
  convert_unsigned, convert_character, convert_string, convert_pointer, convert_as, convert,
}
use mcu_driver_hal.Printf.Scan.{
  Arg, next_word, next_text, char_at, after, is_digit, is_flag, skip_flag, skip_digits, skip_width,
  read_digits, read_precision, Length, length_modifier, after_length,
}
use mcu_driver_hal.Printf.Format.Directive.{
  Width, no_width, star_width, width, Precision, no_precision, star_precision, precision,
  Conversion, as_d, as_i, as_u, as_x, as_upper_x, as_c, as_s, as_p, Spec, flag_chars, width_chars,
  precision_chars, length_chars, conversion_char, specifier_chars, IsFlag, IsWidth, IsPrecision,
  width_args,
}
use mcu_driver_hal.Printf.Format.Written.{precision_read, conversion_written, specifier_written}
use mcu_driver_hal.Printf.Format.Characters.{
  IsPlain, IsEnd, IsConversion, conversion_char-IsConversion, length_modifier-eq, after_length-eq,
  length-IsEnd, precision-IsPlain,
}

decimal_from-ge : (n : ℕ) (ds : Text) → n ≤ decimal_from n ds
decimal_from-ge n [] = omega arith
decimal_from-ge n (d ∷ ds) = omega (arith, decimal_from-ge (n * 10 + (d - b'0')) ds)

read_digits-eq :
    (n : ℕ) (ds t : Text)
    → All IsDigit ds
    → is_digit (char_at t) ≡ false
    → decimal_from n ds ≤ int_max
    → read_digits (ds ++ t) n ≡ ok (decimal_from n ds, t)
unfolding read_digits
read_digits-eq n [] [] a e h = refl
read_digits-eq n [] (c ∷ t) a e h = rw e
read_digits-eq n (d ∷ ds) t (digit, a) e h =
    let ge = decimal_from-ge (n * 10 + (d - b'0')) ds in
    let is : is_digit d ≡ true = ground arith in
    let fits : leb (n * 10 + (d - b'0')) int_max ≡ true = ground arith in
    rw (is, fits) (read_digits-eq (n * 10 + (d - b'0')) ds t a e h)

skip_digits-eq :
    (ds t : Text) → All IsDigit ds → is_digit (char_at t) ≡ false → skip_digits (ds ++ t) ≡ t
unfolding skip_digits
skip_digits-eq [] [] a e = refl
skip_digits-eq [] (c ∷ t) a e = rw e
skip_digits-eq (d ∷ ds) t (digit, a) e =
    let is : is_digit d ≡ true = ground arith in rw is (skip_digits-eq ds t a e)

skip_width-eq :
    (w : Width) (t : Text) (args : List Arg)
    → IsWidth w
    → IsPlain (char_at t)
    → skip_width (width_chars w t) args ≡ (width_args w args >>= λ args. ok (t, args))
unfolding skip_width
skip_width-eq no_width t args v p =
    rw (==-ne (char_at t) b'*' p.star, skip_digits-eq [] t tt p.digit)
skip_width-eq star_width t args v p = sym (bind_assoc (next_word args) _ _)
skip_width-eq (width []) t args v p = absurd v
skip_width-eq (width (d ∷ ds)) t args (ne, digit, a) p =
    let no_star : (d == b'*') ≡ false = ground arith in
    rw (no_star, skip_digits-eq (d ∷ ds) t (digit, a) p.digit)

skip_flag-eq :
    (f : Option ℕ) (w : Width) (t : Text)
    → IsFlag f
    → IsWidth w
    → IsPlain (char_at t)
    → skip_flag (flag_chars f (width_chars w t)) ≡ width_chars w t
unfolding skip_flag
skip_flag-eq (some c) w t v u p = rw v
skip_flag-eq none no_width t v u p = rw p.flag
skip_flag-eq none star_width t v u p = refl
skip_flag-eq none (width []) t v u p = absurd u
skip_flag-eq none (width (d ∷ ds)) t v (ne, digit, a) p =
    let no_flag : is_flag d ≡ false = ground arith in rw no_flag

digits-no_star :
    (ds t : Text) → All IsDigit ds → IsPlain (char_at t) → (char_at (ds ++ t) == b'*') ≡ false
digits-no_star [] t a p = ==-ne (char_at t) b'*' p.star
digits-no_star (d ∷ ds) t (digit, a) p = ground arith

read_precision-eq :
    (p : Precision) (t : Text) (args : List Arg)
    → IsPrecision p
    → IsEnd (char_at t)
    → read_precision (precision_chars p t) args
      ≡ (precision_read p args >>= λ (n, args). ok (n, t, args))
unfolding read_precision
read_precision-eq no_precision t args v e = rw (==-ne (char_at t) b'.' e.dot)
read_precision-eq star_precision t args v e = refl
read_precision-eq (precision ds) t args (a, small) e =
    rw (digits-no_star ds t a e.plain, read_digits-eq 0 ds t a e.plain.digit small)

module _ {S : Type 0} (fputc : (c : ℕ) → S → Bool × S) (size : ℕ) where
  -- What is put out, with the rest of the format and of the arguments.
  abbrev pub printed : (rest : Text) → Sink S → Text × List Arg → Run (Text × List Arg × Sink S)
  printed rest o (t, args) = ok (rest, args, put_all fputc size t o)

  convert_signed-eq :
      (m : Length) (rest : Text) (args : List Arg) (o : Sink S)
      → convert_signed fputc size m rest args o ≡ (
          read_signed m args >>= λ (value, args).
          printed rest o (signed_text (constrict_signed m value), args))
  unfolding convert_signed
  convert_signed-eq m rest args o = bind-cong (read_signed m args) _ _ (λ (value, args).
      ap (λ p. ok (rest, args, p)) (signed-eq fputc size (constrict_signed m value) o))

  convert_as-eq :
      (k : Conversion) (m : Length) (limit : ℕ) (cs rest : Text) (args : List Arg) (o : Sink S)
      → convert_as fputc size (conversion_char k) m limit cs rest args o
        ≡ (conversion_written k m limit args >>= printed rest o)
  unfolding convert_as convert_unsigned convert_character convert_string convert_pointer put_all
  convert_as-eq as_d m limit cs rest args o =
      convert_signed-eq m rest args o ∙ sym (bind_assoc (read_signed m args) _ (printed rest o))
  convert_as-eq as_i m limit cs rest args o =
      convert_signed-eq m rest args o ∙ sym (bind_assoc (read_signed m args) _ (printed rest o))
  convert_as-eq as_u m limit cs rest args o =
      bind-cong (read_unsigned m args) _ _ (λ (value, args).
        ap (λ p. ok (rest, args, p)) (unsigned-eq fputc size (constrict_unsigned m value) o))
      ∙ sym (bind_assoc (read_unsigned m args) _ (printed rest o))
  convert_as-eq as_x m limit cs rest args o =
      bind-cong (read_unsigned m args) _ _ (λ (value, args).
        ap (λ p. ok (rest, args, p))
          (hexadecimal-eq fputc size (constrict_unsigned m value) false o))
      ∙ sym (bind_assoc (read_unsigned m args) _ (printed rest o))
  convert_as-eq as_upper_x m limit cs rest args o =
      bind-cong (read_unsigned m args) _ _ (λ (value, args).
        ap (λ p. ok (rest, args, p))
          (hexadecimal-eq fputc size (constrict_unsigned m value) true o))
      ∙ sym (bind_assoc (read_unsigned m args) _ (printed rest o))
  convert_as-eq as_c m limit cs rest args o = sym (bind_assoc (next_word args) _ (printed rest o))
  convert_as-eq as_s m limit cs rest args o =
      bind-cong (next_text args) _ _
        (λ (value, args). ap (λ p. ok (rest, args, p)) (string-eq fputc size value limit o))
      ∙ sym (bind_assoc (next_text args) _ (printed rest o))
  convert_as-eq as_p m limit cs rest args o =
      bind-cong (next_word args) _ _
        (λ (value, args). ap (λ p. ok (rest, args, p)) (pointer-eq fputc size value o))
      ∙ sym (bind_assoc (next_word args) _ (printed rest o))

  behind_width-eq :
      (p : Precision) (m : Length) (k : Conversion) (cs rest : Text) (args : List Arg) (o : Sink S)
      → IsPrecision p
      → (read_precision (precision_chars p (length_chars m (conversion_char k ∷ rest))) args
          >>= λ (limit, at, args).
              convert_as fputc size
                (char_at (after_length (length_modifier at) at))
                (length_modifier at)
                limit
                cs
                (after (after_length (length_modifier at) at))
                args
                o)
        ≡ (precision_read p args >>= λ (limit, args).
            conversion_written k m limit args >>= printed rest o)
  behind_width-eq p m k cs rest args o v =
      let is = conversion_char-IsConversion k in
      rw
        (read_precision-eq p (length_chars m (conversion_char k ∷ rest)) args v
          (length-IsEnd m (conversion_char k) rest is))
        (bind_assoc (precision_read p args) _ _
          ∙ bind-cong (precision_read p args) _ _ (λ (limit, args).
            rw
              (
                length_modifier-eq m (conversion_char k) rest is,
                after_length-eq m (conversion_char k ∷ rest),
              )
              (convert_as-eq k m limit cs rest args o)))

  -- A specifier is read back as it is written, and its text is put out.
  pub convert-eq :
      (s : Spec) (rest : Text) (args : List Arg) (o : Sink S)
      → IsFlag s.flag
      → IsWidth s.field_width
      → IsPrecision s.field_precision
      → convert fputc size (specifier_chars s rest) args o
        ≡ (specifier_written s args >>= printed rest o)
  unfolding convert
  convert-eq s rest args o vf vw vp =
      rw
        (
          skip_flag-eq s.flag s.field_width t2 vf vw plain2,
          skip_width-eq s.field_width t2 args vw plain2,
        )
        (bind_assoc (width_args s.field_width args) _ _
          ∙ bind-cong (width_args s.field_width args) _ _ (λ args.
            behind_width-eq s.field_precision s.modifier s.conversion (specifier_chars s rest) rest
              args o vp
            ∙ sym (bind_assoc (precision_read s.field_precision args) _ (printed rest o)))
          ∙ sym (bind_assoc (width_args s.field_width args) _ _))
    where
      k : ℕ
      k = conversion_char s.conversion

      t1 : Text
      t1 = length_chars s.modifier (k ∷ rest)

      t2 : Text
      t2 = precision_chars s.field_precision t1

      is : IsConversion k
      is = conversion_char-IsConversion s.conversion

      end1 : IsEnd (char_at t1)
      end1 = length-IsEnd s.modifier k rest is

      plain2 : IsPlain (char_at t2)
      plain2 = precision-IsPlain s.field_precision t1 end1

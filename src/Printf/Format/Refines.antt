-- ===== src/Printf/Format/Refines.antt =====
-- `mbed_minimal_formatted_string` of bootstrap/mbed_printf_implementation.c as a whole.
use mcu_driver_hal.Base.{
  ℕ, zero, suc, ◌+◌, ◌-◌, ◌≤◌, ◌<◌, ◌≡◌, ◌⊎◌, refl, ap, sym, ◌∙◌, inl, inr, Bool, true, false, ◌&&◌,
  Option, none, some, List, [], ◌∷◌, ◌++◌, All, length, arith, ok, ◌>>=◌, bind-cong, bind_assoc,
  Returns, leb, ltb, ◌==◌, ==-ne, Bool-cases, if◌then◌else◌,
}
use mcu_driver_hal.Base.Words.{pos}
use mcu_driver_hal.Printf.{Text, int_max, Buffer, Sink, put_all, mbed_minimal_putchar, write_byte}
use mcu_driver_hal.Printf.Output.{put_all-append}
use mcu_driver_hal.Printf.Format.{
  convert, convert_as, format_loop, nul_index, put_nul, terminate, mbed_minimal_formatted_string,
}
use mcu_driver_hal.Printf.Scan.{
  Arg, skip_flag, skip_width, skip_digits, read_precision, length_modifier,
}
use mcu_driver_hal.Printf.Format.Directive.{
  Directive, literal, percent, specifier, format_chars, IsDirective, format_text,
}
use mcu_driver_hal.Printf.Format.Written.{
  format_written, specifier_written, format_text-format_written,
}
use mcu_driver_hal.Printf.Format.Parse.{convert-eq}
use mcu_driver_hal.Printf.Format.Buffers.{
  at_or, smaller, overlay, overlay-at, in_buffer, overlay_all, at_or-inside, at_or-outside,
  overlay_all-past, put_all-in_buffer, send, put_all-send,
}

module _ {S : Type 0} (fputc : (c : ℕ) → S → Bool × S) (size : ℕ) where
  convert_percent :
      (rest : Text) (args : List Arg) (o : Sink S)
      → convert fputc size (b'%' ∷ rest) args o
        ≡ ok (rest, args, mbed_minimal_putchar fputc size b'%' o)
  unfolding convert skip_flag skip_width skip_digits read_precision length_modifier convert_as
  convert_percent rest args o = refl

  special :
      (ds : List Directive) (args : List Arg) (r : Text × List Arg) (o : Sink S)
      → (format_written ds r.1 >>= λ u. ok (put_all fputc size u (put_all fputc size r.0 o)))
        ≡ (format_written ds r.1 >>= λ u. ok (put_all fputc size (r.0 ++ u) o))
  special ds args (t, args') o =
      bind-cong (format_written ds args') _ _ (λ u. ap ok (sym (put_all-append fputc size t u o)))

  -- The loop puts out the texts of the directives.
  pub format_loop-eq :
      (rounds : ℕ) (ds : List Directive) (args : List Arg) (o : Sink S)
      → All IsDirective ds
      → length ds < rounds
      → format_loop fputc size rounds (format_chars ds) args o
        ≡ (format_written ds args >>= λ t. ok (put_all fputc size t o))
  unfolding format_loop format_written put_all
  format_loop-eq zero ds args o v h = absurd (omega arith)
  format_loop-eq (suc rounds) [] args o v h = refl
  format_loop-eq (suc rounds) (literal c ∷ ds) args o (v, vs) h = rw (==-ne c b'%' v) (
      format_loop-eq rounds ds args (mbed_minimal_putchar fputc size c o) vs (omega arith)
      ∙ special ds args (c ∷ [], args) o
      ∙ sym (bind_assoc (format_written ds args) _ _))
  format_loop-eq (suc rounds) (percent ∷ ds) args o (v, vs) h =
      rw (convert_percent (format_chars ds) args o) (
        format_loop-eq rounds ds args (mbed_minimal_putchar fputc size b'%' o) vs (omega arith)
        ∙ special ds args (b'%' ∷ [], args) o
        ∙ sym (bind_assoc (format_written ds args) _ _))
  format_loop-eq (suc rounds) (specifier s ∷ ds) args o ((vf, vw, vp), vs) h =
      rw (convert-eq fputc size s (format_chars ds) args o vf vw vp) (
        bind_assoc (specifier_written s args) _ _
        ∙ bind-cong (specifier_written s args) _ _ (λ (t, args').
          format_loop-eq rounds ds args' (put_all fputc size t o) vs (omega arith)
          ∙ special ds args (t, args') o
          ∙ sym (bind_assoc (format_written ds args') _ _))
        ∙ sym (bind_assoc (specifier_written s args) _ _))

-- A buffer after a text was printed into its `length` bytes: the characters that fit below the last
-- byte, NUL behind them, and all others as they were in `b`.
pub record IsPrinted {S : Type 0} (b : Buffer) (length_of_buffer : ℕ) (t : Text) (o : Sink S)
    : Type 0 where
  pub result : o.result ≡ pos (smaller (length t) int_max)
  pub stream : o.stream ≡ none
  pub bytes : Buffer
  pub buffer : o.buffer ≡ some bytes
  pub contents :
      (i : ℕ)
      → bytes i ≡ (
          if ltb i (smaller (length t) (length_of_buffer - 1))
          then at_or t i 0
          else if i == smaller (length t) (length_of_buffer - 1)
          then 0
          else b i)

printed_bytes :
    (b : Buffer) (size : ℕ) (t : Text) (k i : ℕ)
    → k ≡ smaller (length t) size
    → write_byte (overlay size b 0 t) k 0 i ≡ (
        if ltb i (smaller (length t) size)
        then at_or t i 0
        else if i == smaller (length t) size
        then 0
        else b i)
printed_bytes b size t k i e =
    let all = overlay-at size b 0 t i in
    let same : i - 0 ≡ i = omega arith in
    rw (← e) (elim (Bool-cases (i == k)) [
      | inl at ↦ let below : ltb i k ≡ false = ground arith in rw (at, below)
      | inr away ↦ elim (Bool-cases (ltb i k)) [
        | inl inside ↦
            let on : (leb 0 i && ltb i size) ≡ true = ground arith in
            rw (away, inside, all, on, same) (at_or-inside t i (b i) 0 (ground arith))
        | inr beyond ↦ elim (Bool-cases (leb 0 i && ltb i size)) [
          | inl on ↦ rw (away, beyond, all, on, same) (at_or-outside t i (b i) (ground arith))
          | inr off ↦ rw (away, beyond, all, off)
        ]
      ]
    ])

module _ {S : Type 0} (fputc : (c : ℕ) → S → Bool × S) where
  formatted :
      (size rounds : ℕ) (ds : List Directive) (args : List Arg) (t : Text) (o : Sink S)
      → All IsDirective ds
      → length ds < rounds
      → format_text ds args ≡ ok t
      → format_loop fputc size rounds (format_chars ds) args o ≡ ok (put_all fputc size t o)
  formatted size rounds ds args t o v h e =
      format_loop-eq fputc size rounds ds args o v h
      ∙ ap (λ r. r >>= λ t. ok (put_all fputc size t o)) (format_text-format_written ds args t e)

  -- `snprintf` and its like into a buffer of `length` bytes, at least one and at most the largest
  -- `int`: for a format that is well formed, arguments that fit it and a round for each directive.
  -- It returns the length of the text that the format stands for, up to the largest `int`; the
  -- format stands for the text that `format_text` gives, where the integers are converted to the type
  -- of their length modifier, as in the C standard, and flags and widths have no effect; no text is
  -- given for `j` and `L` before integers, `t` before unsigned ones, wide characters and strings,
  -- negative precisions from the arguments and addresses in the upper half of the memory. The
  -- buffer has the text as far as it fits, always with NUL behind it, and no other byte is written.
  pub formatted_string-IsPrinted :
      (rounds : ℕ) (b : Buffer) (n : ℕ) (ds : List Directive) (args : List Arg) (t : Text)
      → 0 < n
      → n ≤ int_max
      → All IsDirective ds
      → length ds < rounds
      → format_text ds args ≡ ok t
      → Returns
          (IsPrinted b n t)
          (mbed_minimal_formatted_string fputc rounds (some b) n (some (format_chars ds)) args none)
  unfolding mbed_minimal_formatted_string terminate
  formatted_string-IsPrinted rounds b n ds args t room fits v h e =
      let size = n - 1 in
      let start : Sink S = in_buffer fputc size (some b) 0 in
      let loop = formatted size rounds ds args t start v h e in
      let put = put_all-in_buffer fputc size t (some b) 0 (omega arith) (omega arith) in
      let allowed : leb n int_max ≡ true = ground arith in
      let some_room : (n == 0) ≡ false = ground arith in
      let whole : 0 + length t ≡ length t = omega arith in
      rw (allowed, loop, put, some_room, whole)
        (record {
          result = refl;
          stream = refl;
          bytes = _;
          buffer = refl;
          contents = λ i. printed_bytes b size t _ i (ground arith);
        })

  -- Without a buffer, or with one of no bytes, the same length is returned and nothing is written.
  pub formatted_string-counts :
      (rounds : ℕ) (b : Option Buffer) (n : ℕ) (ds : List Directive) (args : List Arg) (t : Text)
      → (n ≡ 0) ⊎ (b ≡ none)
      → n ≤ int_max
      → All IsDirective ds
      → length ds < rounds
      → format_text ds args ≡ ok t
      → mbed_minimal_formatted_string fputc rounds b n (some (format_chars ds)) args none
        ≡ ok (record { buffer = b; stream = none; result = pos (smaller (length t) int_max) })
  unfolding mbed_minimal_formatted_string terminate
  formatted_string-counts rounds b n ds args t nowhere fits v h e =
      let start : Sink S = in_buffer fputc (n - 1) b 0 in
      let loop = formatted (n - 1) rounds ds args t start v h e in
      let put = put_all-in_buffer fputc (n - 1) t b 0 (omega arith) (omega arith) in
      let allowed : leb n int_max ≡ true = ground arith in
      let whole : 0 + length t ≡ length t = omega arith in
      rw (allowed, loop, put, whole)
        (ap
          (λ x.
            ok (record { buffer = x; stream = none; result = pos (smaller (length t) int_max) }))
          (nothing b n nowhere))
    where
      nothing :
          (b : Option Buffer) (n : ℕ)
          → (n ≡ 0) ⊎ (b ≡ none)
          → put_nul fputc
              (n - 1)
              (n == 0)
              (nul_index fputc (n - 1) (pos (smaller (length t) int_max)))
              (overlay_all fputc (n - 1) b 0 t)
            ≡ b
      nothing none n h = refl
      nothing (some b) n (inl z) =
          let empty : (n == 0) ≡ true = ground arith in
          rw empty (overlay_all-past fputc (n - 1) (some b) 0 t (omega arith))
      nothing (some b) n (inr e) = absurd (ground arith)

  -- A stream is sent the text that the format stands for, if its length fits an `int`, up to the
  -- first character at which `fputc` fails. The result is the length, and EOF after a failure.
  pub formatted_string-send :
      (rounds n : ℕ) (s : S) (ds : List Directive) (args : List Arg) (t : Text)
      → n ≤ int_max
      → length t ≤ int_max
      → All IsDirective ds
      → length ds < rounds
      → format_text ds args ≡ ok t
      → mbed_minimal_formatted_string fputc rounds none n (some (format_chars ds)) args (some s)
        ≡ ok (record {
          buffer = none;
          stream = some (send fputc t s 0).0;
          result = (send fputc t s 0).1;
        })
  unfolding mbed_minimal_formatted_string terminate
  formatted_string-send rounds n s ds args t fits short v h e =
      let start : Sink S = record { buffer = none; stream = some s; result = pos 0 } in
      let loop = formatted (n - 1) rounds ds args t start v h e in
      let sent = put_all-send fputc (n - 1) t none s 0 (omega arith) in
      let allowed : leb n int_max ≡ true = ground arith in rw (allowed, loop, sent)

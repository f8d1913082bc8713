-- ===== src/Printf/Wrapper/Measure.antt =====
-- The two calls of `snprintf` by which a program finds out how large a buffer it needs, with
-- bootstrap/mbed_printf_wrapper.c.
use mcu_driver_hal.Base.{
  ℕ, ◌+◌, ◌-◌, ◌<◌, ◌≡◌, refl, inl, Bool, none, some, List, All, length, arith, ok, Returns,
  Returns-mono, ltb, ◌==◌, if◌then◌else◌,
}
use mcu_driver_hal.Base.Words.{pos}
use mcu_driver_hal.Printf.{Text, int_max, Buffer, Sink}
use mcu_driver_hal.Printf.Scan.{Arg}
use mcu_driver_hal.Printf.Format.Directive.{Directive, format_chars, IsDirective, format_text}
use mcu_driver_hal.Printf.Format.Buffers.{at_or, smaller}
use mcu_driver_hal.Printf.Format.Refines.{
  IsPrinted, formatted_string-IsPrinted, formatted_string-counts,
}
use mcu_driver_hal.Printf.Wrapper.{snprintf}

-- The whole text stands in the buffer, with NUL behind it, and nothing behind that was written.
pub record HoldsText {S : Type 0} (b : Buffer) (t : Text) (o : Sink S) : Type 0 where
  pub result : o.result ≡ pos (length t)
  pub bytes : Buffer
  pub buffer : o.buffer ≡ some bytes
  pub contents :
      (i : ℕ)
      → bytes i ≡ (if ltb i (length t) then at_or t i 0 else if i == length t then 0 else b i)

module _ {S : Type 0} (fputc : (c : ℕ) → S → Bool × S) where
  -- For a format that is well formed, arguments that fit it, and a text shorter than the largest
  -- `int`: `snprintf` to NULL returns the length of the text, and `snprintf` to a buffer of one
  -- byte more puts all of it there, with its NUL.
  pub snprintf-HoldsText :
      (rounds : ℕ) (b : Buffer) (ds : List Directive) (args : List Arg) (t : Text)
      → All IsDirective ds
      → length ds < rounds
      → format_text ds args ≡ ok t
      → length t < int_max
      → Returns
          (λ (o : Sink S). o.result ≡ pos (length t))
          (snprintf fputc rounds none 0 (some (format_chars ds)) args)
        × Returns
            (HoldsText b t)
            (snprintf fputc rounds (some b) (length t + 1) (some (format_chars ds)) args)
  unfolding snprintf
  snprintf-HoldsText rounds b ds args t v h e short =
      let fits : smaller (length t) int_max ≡ length t = ground arith in
      let all : smaller (length t) (length t + 1 - 1) ≡ length t = ground arith in
      (
        rw
            (
              formatted_string-counts fputc rounds none 0 ds args t (inl refl) (omega arith) v h e,
              fits,
            )
            refl,
        Returns-mono (IsPrinted b (length t + 1) t) (HoldsText b t) _
            (formatted_string-IsPrinted fputc rounds b (length t + 1) ds args t (omega arith)
              (omega arith) v h e)
            (λ o p. record {
              result = rw (← fits) p.result;
              bytes = p.bytes;
              buffer = p.buffer;
              contents = λ i. rw (← all) (p.contents i);
            }),
      )

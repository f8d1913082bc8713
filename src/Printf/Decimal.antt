-- ===== src/Printf/Decimal.antt =====
-- Decimal numbers in bootstrap/mbed_printf_implementation.c.
use mathlib.Core.Logic.{dif_pos, dif_neg}
use mathlib.Core.WellFounded.{Acc}
use native.Mathlib.Decide.{dec_lt}
use native.Mathlib.Nat.{pow-suc}
use native.Mathlib.Bridge.{le_prop}
use mcu_driver_hal.Base.{
  ℕ, zero, suc, ◌+◌, ◌-◌, ◌*◌, ◌/◌, ◌%◌, ◌^◌, ◌<◌, ◌≤◌, Bool, [], ◌∷◌, refl, ap, ◌∙◌, inl, inr,
  arith, All, length, leb, ◌≡◌, ◌≢◌, ◌⊎◌, ◌==◌, Bool-cases,
}
use mcu_driver_hal.Base.Order.{lt_wf}
use mcu_driver_hal.Base.Words.{u64, sub64}
use mcu_driver_hal.Printf.{
  Text, Sink, div-ten-lt, digits_loop, scratch_pad, put_all, mbed_minimal_formatted_string_unsigned,
  mbed_minimal_formatted_string_signed,
}
use mcu_driver_hal.Printf.Output.{unsigned_text, signed_text, unsigned-eq, signed-eq}

-- The number that a decimal text continues to, read from the left.
abbrev pub decimal_from : ℕ → Text → ℕ
decimal_from n [] = n
decimal_from n (c ∷ cs) = decimal_from (n * 10 + (c - b'0')) cs

abbrev pub IsDigit : ℕ → Type 0
IsDigit c = (b'0' ≤ c) × (c ≤ b'9')

abbrev pub NoLeadingZero : Text → Type 0
NoLeadingZero [] = ⊥
NoLeadingZero (c ∷ cs) = c ≢ b'0'

-- The text is that of the number, and short enough for the scratch pad of 24 characters.
pub record IsDecimal (value : ℕ) (t : Text) : Type 0 where
  pub reads : decimal_from 0 t ≡ value
  pub digits : All IsDigit t
  pub first : ((value ≡ 0) × (t ≡ b'0' ∷ [])) ⊎ NoLeadingZero t
  pub fits : length t ≤ 24

loop_reads :
    (v : ℕ) (w : Acc ◌<◌ v) (s : Text) → decimal_from 0 (digits_loop v w s) ≡ decimal_from v s
unfolding digits_loop
loop_reads v (Acc.intro _ smaller) s = elim (dec_lt 0 v) [
  | yes more ↦
      let whole : v / 10 * 10 + (b'0' + v % 10 - b'0') ≡ v = omega arith in
      rw (dif_pos (dec_lt 0 v) le_prop more) (
        loop_reads (v / 10) (smaller (v / 10) (div-ten-lt v more)) ((b'0' + v % 10) ∷ s)
        ∙ ap (λ n. decimal_from n s) whole)
  | no none ↦
      let nothing : 0 ≡ v = omega arith in
      rw (dif_neg (dec_lt 0 v) none) (ap (λ n. decimal_from n s) nothing)
]

loop_digits : (v : ℕ) (w : Acc ◌<◌ v) (s : Text) → All IsDigit s → All IsDigit (digits_loop v w s)
unfolding digits_loop
loop_digits v (Acc.intro _ smaller) s a = elim (dec_lt 0 v) [
  | yes more ↦ rw (dif_pos (dec_lt 0 v) le_prop more) (
      loop_digits (v / 10) (smaller (v / 10) (div-ten-lt v more)) ((b'0' + v % 10) ∷ s)
        ((omega arith, omega arith), a))
  | no none ↦ rw (dif_neg (dec_lt 0 v) none) a
]

loop_first :
    (v : ℕ) (w : Acc ◌<◌ v) (s : Text)
    → (0 < v) ⊎ NoLeadingZero s
    → NoLeadingZero (digits_loop v w s)
unfolding digits_loop
loop_first v (Acc.intro _ smaller) s h = elim (dec_lt 0 v) [
  | yes more ↦ rw (dif_pos (dec_lt 0 v) le_prop more) (
      loop_first (v / 10) (smaller (v / 10) (div-ten-lt v more)) ((b'0' + v % 10) ∷ s)
        (elim (Bool-cases (v / 10 == 0)) [
          | inl last ↦ inr (λ e. ground arith)
          | inr further ↦ inl (ground arith)
        ]))
  | no none ↦
      rw (dif_neg (dec_lt 0 v) none) (elim h [ inl more ↦ absurd (none more) | inr first ↦ first ])
]

loop_length :
    (k v : ℕ) (w : Acc ◌<◌ v) (s : Text) → v < 10 ^ k → length (digits_loop v w s) ≤ k + length s
unfolding digits_loop
loop_length zero v (Acc.intro _ smaller) s lt = elim (dec_lt 0 v) [
  | yes more ↦ absurd (omega arith)
  | no none ↦ rw (dif_neg (dec_lt 0 v) none) (omega arith)
]
loop_length (suc k) v (Acc.intro _ smaller) s lt = elim (dec_lt 0 v) [
  | yes more ↦
      let shorter : v / 10 < 10 ^ k = omega (arith, pow-suc 10 k) in
      rw (dif_pos (dec_lt 0 v) le_prop more) (
        omega (
          arith,
          loop_length k (v / 10) (smaller (v / 10) (div-ten-lt v more)) ((b'0' + v % 10) ∷ s)
              shorter,
        ))
  | no none ↦ rw (dif_neg (dec_lt 0 v) none) (omega arith)
]

pub unsigned_text-IsDecimal : (v : ℕ) → v < 2 ^ 64 → IsDecimal v (unsigned_text v)
unfolding scratch_pad
unsigned_text-IsDecimal v lt = elim (Bool-cases (v == 0)) [
  | inl e ↦
      let none : v ≡ 0 = ground arith in
      rw none (record {
        reads = refl;
        digits = ((omega arith, omega arith), tt);
        first = inl (refl, refl);
        fits = omega arith;
      })
  | inr e ↦
      let w = lt_wf.apply v in
      rw e (record {
        reads = loop_reads v w [];
        digits = loop_digits v w [] tt;
        first = inr (loop_first v w [] (inl (ground arith)));
        fits = omega (arith, loop_length 20 v w [] (omega arith));
      })
]

module _ {S : Type 0} (fputc : (c : ℕ) → S → Bool × S) (size : ℕ) where
  -- A 64-bit number is written as its decimal text: digits that read back as the number, the first
  -- not 0 unless it is the only one, and no more of them than the scratch pad has room for.
  pub formatted_string_unsigned-IsDecimal :
      (value : ℕ) (o : Sink S)
      → value < 2 ^ 64
      → (t : Text) × IsDecimal value t
        × (mbed_minimal_formatted_string_unsigned fputc size value o ≡ put_all fputc size t o)
  formatted_string_unsigned-IsDecimal value o lt =
      (unsigned_text value, unsigned_text-IsDecimal value lt, unsigned-eq fputc size value o)

  -- A 64-bit word in two's complement is written as the decimal text of its number, after a minus
  -- sign and as its distance to 2^64 where it stands for a negative number, the least one included.
  pub formatted_string_signed-IsDecimal :
      (value : ℕ) (o : Sink S)
      → value < 2 ^ 64
      → (t : Text) × (((value < 2 ^ 63) × IsDecimal value t)
          ⊎ ((2 ^ 63 ≤ value) × ((u : Text) × IsDecimal (2 ^ 64 - value) u × (t ≡ b'-' ∷ u))))
        × (mbed_minimal_formatted_string_signed fputc size value o ≡ put_all fputc size t o)
  formatted_string_signed-IsDecimal value o lt =
      (signed_text value, sign, signed-eq fputc size value o)
    where
      sign :
          ((value < 2 ^ 63) × IsDecimal value (signed_text value))
          ⊎ ((2 ^ 63 ≤ value)
              × ((u : Text) × IsDecimal (2 ^ 64 - value) u × (signed_text value ≡ b'-' ∷ u)))
      sign = elim (Bool-cases (leb (2 ^ 63) value)) [
        | inl e ↦
            let exact : u64 (sub64 (2 ^ 64 - 1) value + 1) ≡ 2 ^ 64 - value = ground arith in
            inr (
              ground arith,
              (
                unsigned_text (2 ^ 64 - value),
                unsigned_text-IsDecimal (2 ^ 64 - value) (ground arith),
                rw (e, exact) refl,
              ),
            )
        | inr e ↦ inl (ground arith, rw e (unsigned_text-IsDecimal value lt))
      ]

-- ===== src/Ticker/Clock/Advance.antt =====
-- `update_present_time` of hal/source/mbed_ticker_api.c: no microsecond is lost or invented.
use mcu_driver_hal.Base.{
  ℕ, ◌+◌, ◌*◌, ◌/◌, ◌%◌, ◌^◌, ◌≤◌, ◌<◌, bit_and, ◌≡◌, refl, ap, ap₂, subst, ◌∙◌, inl, inr, Bool,
  true, false, List, [], ◌∷◌, arith, ◌==◌, Bool-cases,
}
use native.Mathlib.Nat.{mod-le, div-add-mod', mod-lt}
use mcu_driver_hal.Base.Bits.{bit_and-low_ones}
use mcu_driver_hal.Base.Words.{ℤ, pos, negsuc, u32, u64, sub32, sub64}
use mcu_driver_hal.Ticker.Types.{Queue, Config}
use mcu_driver_hal.Ticker.Clock.{scale, split_scaled, advance}
use mcu_driver_hal.Ticker.Ratio.{one_second_us}
use mcu_driver_hal.Ticker.Ratio.Log2.{IsLog2}
use mcu_driver_hal.Ticker.Ratio.Valid.{with_running, running, IsConfigured-with_running}
use mcu_driver_hal.Ticker.Ratio.Fields.{IsRatio, IsMasked, IsConfigured}

-- The shift does what the multiplication does.
pub scale-eq-mul : (slow : Bool) (z : ℤ) (n x : ℕ) → IsLog2 32 n z → scale slow z n x ≡ u64 (x * n)
unfolding scale
scale-eq-mul true (pos k) n x (lt, e) = rw e
scale-eq-mul false (pos k) n x h = refl
scale-eq-mul slow (negsuc k) n x h = refl

wrapped_remainder :
    (s d : ℕ) → 0 < d → d < 2 ^ 32 → s < 2 ^ 64 → u32 (sub64 s (u64 (s / d * d))) ≡ s % d
wrapped_remainder s d h small fits = omega (arith, div-add-mod' s d, mod-lt s h)

split_scaled_general :
    (d r x : ℕ)
    → 0 < d
    → d < 2 ^ 32
    → x + r < 2 ^ 64
    → ◌≡◌ {A = ℕ × ℕ}
        (u64 (x + r) / d, u32 (sub64 (u64 (x + r)) (u64 (u64 (x + r) / d * d))))
        ((x + r) / d, (x + r) % d)
split_scaled_general d r x h small fits =
    let exact : u64 (x + r) ≡ x + r = omega arith in
    rw exact (ap (λ t. ((x + r) / d, t)) (wrapped_remainder (x + r) d h small fits))

pair : ℕ → ℕ → ℕ × ℕ
pair a b = (a, b)

-- The shift does what the division does; at a denominator 1 the remainder is left as it is.
pub split_scaled-eq :
    (z : ℤ) (d r x : ℕ)
    → IsLog2 32 d z
    → 0 < d
    → d < 2 ^ 32
    → r < d
    → x + r < 2 ^ 64
    → split_scaled z d r x ≡ ((x + r) / d, (x + r) % d)
unfolding split_scaled pair
split_scaled-eq (pos k) d r x (lt, e) h small rd fits = elim (Bool-cases (k == 0)) [
  | inl z ↦
      let one : d ≡ 1 = e ∙ ap (λ t. 2 ^ t) {y = 0} (ground arith) in
      let none : r ≡ 0 = omega (arith, one) in
      rw (z, one, none) (ap₂ pair (omega arith) (omega arith))
  | inr z ↦ rw (z, ← e) (split_scaled_general d r x h small fits)
]
split_scaled-eq (negsuc k) d r x l h small rd fits = split_scaled_general d r x h small fits

-- The ticks that the counter made since it was last read.
abbrev pub elapsed_ticks : Queue → ℕ → ℕ
elapsed_ticks q ticker_time = bit_and (sub32 ticker_time q.tick_last_read) q.bitmask

pub elapsed_ticks-eq :
    (bits : ℕ) (q : Queue) (t : ℕ)
    → IsMasked bits q
    → elapsed_ticks q t ≡ sub32 t q.tick_last_read % 2 ^ bits
elapsed_ticks-eq bits q t m = rw m.mask (bit_and-low_ones bits _)

elapsed_ticks-lt : (bits : ℕ) (q : Queue) (t : ℕ) → IsMasked bits q → elapsed_ticks q t < 2 ^ 32
elapsed_ticks-lt bits q t m =
    omega (arith, elapsed_ticks-eq bits q t m, mod-le (sub32 t q.tick_last_read) (2 ^ bits))

-- One update: all elapsed ticks are turned into microseconds, but for the remainder.
pub record Advanced (q : Queue) (ticks : ℕ) (q' : Queue) : Type 0 where
  pub us : ℕ
  pub exact : us * q.period_den + q'.tick_remainder ≡ ticks * q.period_num + q.tick_remainder
  pub present : q'.present_time ≡ u64 (q.present_time + us)
  pub rest : q'.tick_remainder < q.period_den

pub den-lt-word : (f : ℕ) (q : Queue) → IsRatio f q → q.period_den < 2 ^ 32
den-lt-word f q r =
    let lt = r.frequency_lt in
    let le = r.num_le in
    let below : q.period_num * f ≤ one_second_us * f = grind arith in omega (arith, below, r.ratio)

pub advance-Advanced :
    (cfg : Config) (f bits : ℕ) (q : Queue) (t : ℕ)
    → IsRatio f q
    → IsMasked bits q
    → q.tick_remainder < q.period_den
    → q.present_time < 2 ^ 64
    → Advanced q (elapsed_ticks q t) (advance cfg q t)
unfolding advance
advance-Advanced cfg f bits q t r m rd small = elim (Bool-cases (t == q.tick_last_read)) [
  | inl same ↦
      let e : t ≡ q.tick_last_read = ground arith in
      let still : elapsed_ticks q t ≡ 0 =
        omega (arith, elapsed_ticks-eq bits q t m, mod-le (sub32 t q.tick_last_read) (2 ^ bits)) in
      rw same (record {
        us = 0;
        exact = omega (arith, ap (λ x. x * q.period_num) still);
        present = omega arith;
        rest = rd;
      })
  | inr new ↦
      let x = elapsed_ticks q t * q.period_num in
      let exact_product : u64 x ≡ x = omega (arith, product-lt) in
      let scaled =
        scale-eq-mul cfg.slow_multiply q.period_num_shifts q.period_num (elapsed_ticks q t)
          r.num_shifts
        ∙ exact_product in
      let split =
        split_scaled-eq q.period_den_shifts q.period_den q.tick_remainder x r.den_shifts r.den_pos
          (den-lt-word f q r) rd (omega (arith, product-lt, den-lt-word f q r)) in
      rw (new, scaled, split)
        (record {
          us = (x + q.tick_remainder) / q.period_den;
          exact = div-add-mod' (x + q.tick_remainder) q.period_den;
          present = refl;
          rest = mod-lt (x + q.tick_remainder) r.den_pos;
        })
]
  where
    product-lt : elapsed_ticks q t * q.period_num ≤ 2 ^ 32 * one_second_us
    product-lt = let a = elapsed_ticks-lt bits q t m in let b = r.num_le in grind arith

-- An update changes only the tick, the remainder and the time.
pub advance-with_running :
    (cfg : Config) (q : Queue) (t : ℕ)
    → advance cfg q t
      ≡ with_running q (record (running q) {
        tick_last_read = t;
        tick_remainder = (advance cfg q t).tick_remainder;
        present_time = (advance cfg q t).present_time;
      })
unfolding advance
advance-with_running cfg q t = elim (Bool-cases (t == q.tick_last_read)) [
  | inl same ↦ let e : t ≡ q.tick_last_read = ground arith in rw same (rw e)
  | inr new ↦ rw new
]

pub advance-IsConfigured :
    (cfg : Config) (f bits : ℕ) (q : Queue) (t : ℕ)
    → IsConfigured f bits q
    → IsConfigured f bits (advance cfg q t)
advance-IsConfigured cfg f bits q t c =
    rw (advance-with_running cfg q t) (IsConfigured-with_running f bits q _ c)

-- The updates at a sequence of reads.
abbrev pub advance_all : Config → Queue → List ℕ → Queue
advance_all cfg q [] = q
advance_all cfg q (t ∷ ts) = advance_all cfg (advance cfg q t) ts

-- The ticks that a counter of `bits` bits made over the reads, each step less than a round.
abbrev pub total_ticks : (bits last : ℕ) → List ℕ → ℕ
total_ticks bits last [] = 0
total_ticks bits last (t ∷ ts) = sub32 t last % 2 ^ bits + total_ticks bits t ts

pub Advanced-trans :
    (q q' q'' : Queue) (a b : ℕ)
    → q'.period_num ≡ q.period_num
    → q'.period_den ≡ q.period_den
    → Advanced q a q'
    → Advanced q' b q''
    → Advanced q (a + b) q''
Advanced-trans q q' q'' a b num den x y = record {
  us = x.us + y.us;
  exact = omega (arith, x.exact, y.exact, ap (λ t. y.us * t) den, ap (λ t. b * t) num);
  present = y.present ∙ omega (arith, x.present);
  rest = rw (← den) y.rest;
}

-- On a configured queue with a 64-bit time and a remainder below the period's denominator, over any
-- sequence of reads: the time advances by exactly the elapsed ticks times the period: what
-- is not yet a whole microsecond stands in the remainder, so the error does not grow.
pub advance_all-Advanced :
    (cfg : Config) (f bits : ℕ) (q : Queue) (ts : List ℕ)
    → IsConfigured f bits q
    → q.tick_remainder < q.period_den
    → q.present_time < 2 ^ 64
    → Advanced q (total_ticks bits q.tick_last_read ts) (advance_all cfg q ts)
advance_all-Advanced cfg f bits q [] c rd small = record {
  us = 0;
  exact = omega arith;
  present = omega arith;
  rest = rd;
}
advance_all-Advanced cfg f bits q (t ∷ ts) c rd small =
    let q' = advance cfg q t in
    let first = advance-Advanced cfg f bits q t c.period c.counter rd small in
    let same = advance-with_running cfg q t in
    let num : q'.period_num ≡ q.period_num = ap (λ (x : Queue). x.period_num) same in
    let den : q'.period_den ≡ q.period_den = ap (λ (x : Queue). x.period_den) same in
    let last : q'.tick_last_read ≡ t = ap (λ (x : Queue). x.tick_last_read) same in
    let more =
      advance_all-Advanced cfg f bits q' ts (advance-IsConfigured cfg f bits q t c)
        (rw den first.rest) (omega (arith, first.present)) in
    rw (← elapsed_ticks-eq bits q t c.counter) (
      Advanced-trans q q' (advance_all cfg q' ts) (elapsed_ticks q t) (total_ticks bits t ts) num
        den first
        (subst (λ l. Advanced q' (total_ticks bits l ts) (advance_all cfg q' ts)) last more))

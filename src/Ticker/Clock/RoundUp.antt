-- ===== src/Ticker/Clock/RoundUp.antt =====
-- `compute_tick_round_up` of hal/source/mbed_ticker_api.c: the first tick at which an event is due.
use mcu_driver_hal.Base.{
  ℕ, zero, suc, ◌+◌, ◌-◌, ◌*◌, ◌/◌, ◌%◌, ◌^◌, ◌≤◌, ◌<◌, ◌≡◌, ◌⊎◌, refl, ap, ◌∙◌, inl, inr, arith,
  ltb, leb, ◌==◌, Bool-cases, if◌then◌else◌,
}
use native.Mathlib.Nat.{
  div-add-mod', mod-lt, div-lt_iff_lt-mul, div-mul-le_self, lt-mul-div-succ, le_refl,
}
use mcu_driver_hal.Base.Bits.{bit_and-low_ones, mod-u32}
use mcu_driver_hal.Base.Words.{ℤ, pos, negsuc, u32, u64, sub32, sub64}
use mcu_driver_hal.Ticker.Types.{Queue, Config}
use mcu_driver_hal.Ticker.Clock.{scale, ceil_scaled, compute_tick_round_up}
use mcu_driver_hal.Ticker.Clock.Advance.{scale-eq-mul}
use mcu_driver_hal.Ticker.Ratio.{one_second_us}
use mcu_driver_hal.Ticker.Ratio.Log2.{IsLog2}
use mcu_driver_hal.Ticker.Ratio.Fields.{IsConfigured, den-lt, max_delta-lt}

ceil_word :
    (n x : ℕ)
    → 0 < n
    → n < 2 ^ 32
    → x + n ≤ 2 ^ 64
    → (x + n - 1) / n < 2 ^ 32
    → u32 (u64 (x + sub32 n 1) / n) ≡ (x + n - 1) / n
ceil_word n x h small fits cut =
    let exact : u64 (x + sub32 n 1) ≡ x + n - 1 = omega arith in rw exact (omega (arith, cut))

-- The rounded quotient is not cut where it fits.
ceil_scaled-eq :
    (z : ℤ) (n x : ℕ)
    → IsLog2 32 n z
    → 0 < n
    → n < 2 ^ 32
    → x + n ≤ 2 ^ 64
    → (x + n - 1) / n < 2 ^ 32
    → ceil_scaled z n x ≡ (x + n - 1) / n
unfolding ceil_scaled
ceil_scaled-eq (pos k) n x (lt, e) h small fits cut = elim (Bool-cases (k == 0)) [
  | inl z ↦
      let one : n ≡ 1 = e ∙ ap (λ t. 2 ^ t) {y = 0} (ground arith) in
      let whole : (x + n - 1) / n ≡ x = rw one (omega arith) in
      rw (z, whole) (omega (arith, cut, whole))
  | inr z ↦ rw (z, ← e) (ceil_word n x h small fits cut)
]
ceil_scaled-eq (negsuc k) n x l h small fits cut = ceil_word n x h small fits cut

ceil_quotient :
    (x n q r : ℕ)
    → 0 < x
    → r < n
    → q * n + r ≡ x + n - 1
    → (x ≤ q * n) × ((q - 1) * n < x) × (1 ≤ q)
ceil_quotient x n zero r h lt e = absurd (omega arith)
ceil_quotient x n (suc k) r h lt e =
    let pred : suc k - 1 ≡ k = omega arith in (omega arith, rw pred (omega arith), omega arith)

module _ (cfg : Config) (f bits : ℕ) (q : Queue) (c : IsConfigured f bits q) where
  open c use {period, counter}

  -- The first tick, counted from the last one read, at which `us` microseconds have passed.
  abbrev ceil_ticks : ℕ → ℕ
  ceil_ticks us = (us * q.period_den + q.period_num - 1) / q.period_num

  scaled_max :
      (us : ℕ)
      → us ≤ q.max_delta_us
      → us * q.period_den ≤ q.max_delta * q.period_num + q.period_den - 1
  scaled_max us h =
      let whole = div-mul-le_self (q.max_delta * q.period_num + q.period_den - 1) q.period_den in
      let mono : us * q.period_den ≤ q.max_delta_us * q.period_den = grind arith in
      omega (arith, mono, whole, ap (λ t. t * q.period_den) c.delta_us)

  ticks-lt : (us : ℕ) → us ≤ q.max_delta_us → ceil_ticks us < 2 ^ 32
  ticks-lt us h =
      let num_pos = period.num_pos in
      let md = (max_delta-lt bits q counter).1 in
      let wide : q.max_delta * q.period_num ≤ 2 ^ 31 * q.period_num = grind arith in
      (div-lt_iff_lt-mul period.num_pos).1
        (omega (arith, scaled_max us h, wide, den-lt f q period, num_pos))

  scaled_fits : (us : ℕ) → us ≤ q.max_delta_us → us * q.period_den + q.period_num ≤ 2 ^ 53
  scaled_fits us h =
      let a = (max_delta-lt bits q counter).1 in
      let b = period.num_le in
      let wide : q.max_delta * q.period_num ≤ 2 ^ 31 * one_second_us = grind arith in
      omega (arith, scaled_max us h, wide, den-lt f q period, b)

  abbrev code_ticks : ℕ → ℕ
  code_ticks us =
      ceil_scaled q.period_num_shifts q.period_num
        (scale cfg.slow_multiply q.period_den_shifts q.period_den us)

  ceil-eq : (us : ℕ) → us ≤ q.max_delta_us → code_ticks us ≡ ceil_ticks us
  ceil-eq us h =
      let exact : u64 (us * q.period_den) ≡ us * q.period_den = omega (arith, scaled_fits us h) in
      rw
        (
          scale-eq-mul cfg.slow_multiply q.period_den_shifts q.period_den us period.den_shifts,
          exact,
        )
        (ceil_scaled-eq q.period_num_shifts q.period_num (us * q.period_den) period.num_shifts
          period.num_pos (omega (arith, period.num_le)) (omega (arith, scaled_fits us h))
          (ticks-lt us h))

  -- What an interrupt is set for: at least one tick ahead and at most the largest step, not before
  -- `us` microseconds have passed unless that is beyond the largest step, and no tick later.
  pub record IsStep (us steps : ℕ) : Type 0 where
    pub ahead : 1 ≤ steps
    pub within : steps ≤ q.max_delta
    pub reached : (steps ≡ q.max_delta) ⊎ (us * q.period_den ≤ steps * q.period_num)
    pub tight : (steps - 1) * q.period_num < us * q.period_den

  abbrev steps_for : ℕ → ℕ
  steps_for us =
      if leb us q.max_delta_us
      then if ltb q.max_delta (ceil_ticks us) then q.max_delta else ceil_ticks us
      else q.max_delta

  ceil-bounds :
      (us : ℕ)
      → 0 < us
      → (us * q.period_den ≤ ceil_ticks us * q.period_num)
        × ((ceil_ticks us - 1) * q.period_num < us * q.period_den)
        × (1 ≤ ceil_ticks us)
  ceil-bounds us h =
      let den_pos = period.den_pos in
      let scaled_pos : 0 < us * q.period_den = grind arith in
      let num = us * q.period_den + q.period_num - 1 in
      ceil_quotient (us * q.period_den) q.period_num (ceil_ticks us) (num % q.period_num) scaled_pos
        (mod-lt num period.num_pos) (div-add-mod' num q.period_num)

  max-IsStep :
      (us : ℕ) → (q.max_delta - 1) * q.period_num < us * q.period_den → IsStep us q.max_delta
  max-IsStep us early = record {
    ahead = (max_delta-lt bits q counter).0;
    within = le_refl _;
    reached = inl refl;
    tight = early;
  }

  below_ceil :
      (us : ℕ)
      → 0 < us
      → q.max_delta < ceil_ticks us
      → (q.max_delta - 1) * q.period_num < us * q.period_den
  below_ceil us h lt =
      let tight = (ceil-bounds us h).1 in
      let le : q.max_delta - 1 ≤ ceil_ticks us - 1 = omega arith in
      let mono : (q.max_delta - 1) * q.period_num ≤ (ceil_ticks us - 1) * q.period_num =
        grind arith in
      omega arith

  beyond_max : (us : ℕ) → q.max_delta_us < us → (q.max_delta - 1) * q.period_num < us * q.period_den
  beyond_max us lt =
      let m = q.max_delta * q.period_num + q.period_den - 1 in
      let over = lt-mul-div-succ m period.den_pos in
      let le : m / q.period_den + 1 ≤ us = omega (arith, c.delta_us) in
      let mono : q.period_den * (m / q.period_den + 1) ≤ us * q.period_den = grind arith in
      let less : (q.max_delta - 1) * q.period_num ≤ q.max_delta * q.period_num = grind arith in
      let den_pos = period.den_pos in omega arith

  steps_for-IsStep : (us : ℕ) → 0 < us → IsStep us (steps_for us)
  steps_for-IsStep us h = elim (Bool-cases (leb us q.max_delta_us)) [
    | inl near ↦ rw near (elim (Bool-cases (ltb q.max_delta (ceil_ticks us))) [
      | inl far ↦ rw far (max-IsStep us (below_ceil us h (ground arith)))
      | inr fits ↦ rw fits (record {
        ahead = (ceil-bounds us h).2;
        within = ground arith;
        reached = inr (ceil-bounds us h).0;
        tight = (ceil-bounds us h).1;
      })
    ])
    | inr far ↦ rw far (max-IsStep us (beyond_max us (ground arith)))
  ]

  -- On a configured queue, for a time that is ahead: `compute_tick_round_up` is the tick that lies
  -- `steps` ahead of the last one read, where `steps` is the first number of ticks that take at
  -- least until that time, or the largest step where even that does not reach it.
  pub compute_tick_round_up-IsStep :
      (timestamp : ℕ)
      → q.present_time < timestamp
      → timestamp < 2 ^ 64
      → (steps : ℕ) × IsStep (timestamp - q.present_time) steps
        × (compute_tick_round_up cfg q timestamp ≡ (q.tick_last_read + steps) % 2 ^ bits)
  unfolding compute_tick_round_up
  compute_tick_round_up-IsStep timestamp later small =
      (steps_for us, steps_for-IsStep us (omega arith), masked)
    where
      us : ℕ
      us = timestamp - q.present_time

      exact : sub64 timestamp q.present_time ≡ us
      exact = omega arith

      steps-eq :
          (if leb us q.max_delta_us
            then if ltb q.max_delta (code_ticks us) then q.max_delta else code_ticks us
            else q.max_delta)
          ≡ steps_for us
      steps-eq = elim (Bool-cases (leb us q.max_delta_us)) [
        | inl near ↦ rw (near, ceil-eq us (ground arith))
        | inr far ↦ rw far
      ]

      masked : compute_tick_round_up cfg q timestamp ≡ (q.tick_last_read + steps_for us) % 2 ^ bits
      masked =
          rw (exact, steps-eq, counter.mask, bit_and-low_ones bits) (mod-u32 bits _ counter.bits_le)

-- ===== src/Ticker/Ratio/Fields.antt =====
-- The fields that initialize in hal/source/mbed_ticker_api.c computes from the frequency and the bits.
use native.Mathlib.Nat.{div-eq_of_eq-mul_left, pow-suc, add-zero, add-suc, le_refl}
use mcu_driver_hal.Base.{
  ℕ, zero, suc, ◌+◌, ◌-◌, ◌*◌, ◌/◌, ◌^◌, ◌≤◌, ◌<◌, ◌≡◌, inl, inr, refl, ap, subst, ◌∙◌, arith, ◌==◌,
  Bool-cases, if◌then◌else◌,
}
use mcu_driver_hal.Base.Bits.{one-le-two_pow}
use mcu_driver_hal.Ticker.Types.{Queue}
use mcu_driver_hal.Ticker.Ratio.{one_second_us, one_second_us-pos, gcd, set_ratio, set_mask}
use mcu_driver_hal.Ticker.Ratio.Gcd.{IsGcd, gcd-IsGcd}
use mcu_driver_hal.Ticker.Ratio.Log2.{IsLog2, exact_log2-IsLog2}

-- `period_num / period_den` is the length of a tick in microseconds, with its exponents of two.
pub record IsRatio (frequency : ℕ) (q : Queue) : Type 0 where
  pub num_pos : 0 < q.period_num
  pub den_pos : 0 < q.period_den
  pub num_le : q.period_num ≤ one_second_us
  pub ratio : q.period_num * frequency ≡ q.period_den * one_second_us
  pub frequency_lt : frequency < 2 ^ 32
  pub num_shifts : IsLog2 32 q.period_num q.period_num_shifts
  pub den_shifts : IsLog2 32 q.period_den q.period_den_shifts

-- The mask has `bits` ones, and the largest step is 7/16 of the counter's range.
pub record IsMasked (bits : ℕ) (q : Queue) : Type 0 where
  pub bits_ge : 4 ≤ bits
  pub bits_le : bits ≤ 32
  pub mask : q.bitmask ≡ 2 ^ bits - 1
  pub sixteenth : q.max_delta ≡ 7 * 2 ^ (bits - 4)

pub record IsConfigured (frequency bits : ℕ) (q : Queue) : Type 0 where
  pub period : IsRatio frequency q
  pub counter : IsMasked bits q
  pub delta_us : q.max_delta_us ≡ (q.max_delta * q.period_num + q.period_den - 1) / q.period_den

factor_pos : (k g n : ℕ) → n ≡ k * g → 0 < n → (0 < k) × (0 < g) × (k ≤ n)
factor_pos zero g n e h = absurd (omega arith)
factor_pos (suc k) zero n e h = absurd (omega arith)
factor_pos (suc k) (suc g) n e h = (omega arith, omega arith, grind arith)

module _ (f g : ℕ) (d : IsGcd f one_second_us g) (h : 0 < f) where
  den-pos : (0 < d.left.0) × (0 < g) × (d.left.0 ≤ f)
  den-pos = factor_pos d.left.0 g f d.left.1 h

  num-pos : (0 < d.right.0) × (0 < g) × (d.right.0 ≤ one_second_us)
  num-pos = factor_pos d.right.0 g one_second_us d.right.1 (omega arith)

  den-eq : f / g ≡ d.left.0
  den-eq = div-eq_of_eq-mul_left (den-pos.1) d.left.1

  num-eq : one_second_us / g ≡ d.right.0
  num-eq = div-eq_of_eq-mul_left (den-pos.1) d.right.1

  cross : one_second_us / g * f ≡ f / g * one_second_us
  cross =
      rw (num-eq, den-eq)
        (omega (arith, ap (λ t. d.right.0 * t) d.left.1, ap (λ t. d.left.0 * t) d.right.1))

pub set_ratio-IsRatio : (f : ℕ) (q : Queue) → 0 < f → f < 2 ^ 32 → IsRatio f (set_ratio f q)
unfolding set_ratio
set_ratio-IsRatio f q h lt =
    let d = gcd-IsGcd f one_second_us one_second_us-pos in
    let g = gcd f one_second_us one_second_us-pos in
    record {
      num_pos = rw (num-eq f g d h) (num-pos f g d h).0;
      den_pos = rw (den-eq f g d h) (den-pos f g d h).0;
      num_le = rw (num-eq f g d h) (num-pos f g d h).2;
      ratio = cross f g d h;
      frequency_lt = lt;
      num_shifts = exact_log2-IsLog2 _;
      den_shifts = exact_log2-IsLog2 _;
    }

pub set_mask-IsMasked :
    (bits : ℕ) (q : Queue) → 4 ≤ bits → bits ≤ 32 → IsMasked bits (set_mask bits q)
unfolding set_mask
set_mask-IsMasked bits q lo hi = record {
  bits_ge = lo;
  bits_le = hi;
  mask = mask_lem;
  sixteenth = refl;
}
  where
    mask_lem : (if bits == 32 then 0xffff_ffff else 2 ^ bits - 1) ≡ 2 ^ bits - 1
    mask_lem = elim (Bool-cases (bits == 32)) [
      | inl e ↦ let all : bits ≡ 32 = ground arith in rw all
      | inr e ↦ rw e
    ]

pub two_pow_mono : (k n : ℕ) → 2 ^ k ≤ 2 ^ (k + n)
two_pow_mono k zero = rw add-zero (le_refl _)
two_pow_mono k (suc n) =
    omega (arith, two_pow_mono k n, ap (λ t. 2 ^ t) (add-suc k n), pow-suc 2 (k + n))

sixteen : (n : ℕ) → 2 ^ (4 + n) ≡ 16 * 2 ^ n
sixteen n =
    let e : 4 + n ≡ suc (suc (suc (suc n))) = omega arith in
    rw e (
      omega (
        arith,
        pow-suc 2 (suc (suc (suc n))),
        pow-suc 2 (suc (suc n)),
        pow-suc 2 (suc n),
        pow-suc 2 n,
      ))

-- The largest step is positive and less than half of the counter's range.
pub max_delta-lt :
    (bits : ℕ) (q : Queue)
    → IsMasked bits q
    → (0 < q.max_delta) × (q.max_delta < 2 ^ 31) × (2 * q.max_delta < 2 ^ bits)
max_delta-lt bits q m =
    let n = bits - 4 in
    let top : 2 ^ n ≤ 2 ^ 28 =
      subst (λ t. 2 ^ n ≤ 2 ^ t) {y = 28} (omega arith) (two_pow_mono n (28 - n)) in
    let range : 2 ^ bits ≡ 16 * 2 ^ n = ap (λ t. 2 ^ t) (omega arith) ∙ sixteen n in
    omega (arith, top, range, m.sixteenth, one-le-two_pow n)

-- A tick is longer than 1/4295 of a microsecond.
pub den-lt :
    (f : ℕ) (q : Queue) → IsRatio f q → q.period_den * one_second_us ≤ q.period_num * 2 ^ 32
den-lt f q r =
    let lt = r.frequency_lt in
    let below : q.period_num * f ≤ q.period_num * 2 ^ 32 = grind arith in
    omega (arith, below, r.ratio)

-- ===== src/Ticker/Ratio.antt =====
-- The arithmetic of `initialize` in hal/source/mbed_ticker_api.c, where the ratio is computed from
-- the frequency (COMPUTE_RATIO_FROM_FREQUENCY) and the mask from the number of bits.
pub mod Gcd
pub mod Log2
pub mod Fields
pub mod Valid
use mathlib.Core.Logic.{dite}
use mathlib.Core.WellFounded.{Acc}
use native.Mathlib.Decide.{dec_lt}
use native.Mathlib.Nat.{mod-lt}
use mcu_driver_hal.Base.{
  ℕ, zero, suc, ◌+◌, ◌-◌, ◌*◌, ◌/◌, ◌%◌, ◌^◌, ◌<◌, Bool, true, false, ◌||◌, arith, Run, ok, halted,
  ◌>>=◌, ltb, ◌==◌, if◌then◌else◌,
}
use mcu_driver_hal.Base.Order.{lt_wf}
use mcu_driver_hal.Base.Words.{ℤ, pos, negsuc, u32, u64, sub64}
use mcu_driver_hal.Ticker.Types.{Info, Queue, Config}

-- do { r = a % b; a = b; b = r; } while (b != 0);
unfoldable pub gcd_loop : (a b : ℕ) → 0 < b → Acc ◌<◌ b → ℕ
unfolding dec_lt
gcd_loop a b h (Acc.intro _ smaller) =
    dite (dec_lt 0 (a % b)) (λ more. gcd_loop b (a % b) more (smaller (a % b) (mod-lt a h)))
      (λ _. b)

-- At b = 0 the C function divides by zero; its only caller passes 1000000.
unfoldable pub gcd : (a b : ℕ) → 0 < b → ℕ
unfolding gcd_loop lt_wf
gcd a b h = gcd_loop a b h (lt_wf.apply b)

-- for (int i = 31; i >= 0; --i), with `i + 1` rounds left.
unfoldable pub exact_log2_loop : ℕ → ℕ → ℤ
exact_log2_loop zero n = negsuc 0
exact_log2_loop (suc i) n = if 2 ^ i == n then pos i else exact_log2_loop i n

unfoldable pub exact_log2 : ℕ → ℤ
unfolding exact_log2_loop
exact_log2 n = exact_log2_loop 32 n

abbrev pub one_second_us : ℕ
one_second_us = 1000000

pub one_second_us-pos : 0 < one_second_us
one_second_us-pos = omega arith

unfoldable pub effective_frequency : Config → ℕ → Run ℕ
effective_frequency cfg frequency =
    if frequency == 0 then if cfg.trap_errors then halted else ok one_second_us else ok frequency

unfoldable pub effective_bits : Config → ℕ → Run ℕ
effective_bits cfg bits =
    if ltb 32 bits || ltb bits 4 then if cfg.trap_errors then halted else ok 32 else ok bits

unfoldable pub set_ratio : ℕ → Queue → Queue
set_ratio frequency q =
    let period_gcd = gcd frequency one_second_us one_second_us-pos in
    let num = one_second_us / period_gcd in
    let den = frequency / period_gcd in
    record q {
      period_num = num;
      period_num_shifts = exact_log2 num;
      period_den = den;
      period_den_shifts = exact_log2 den;
    }

unfoldable pub set_mask : ℕ → Queue → Queue
set_mask bits q = record q {
  bitmask = if bits == 32 then 0xffff_ffff else 2 ^ bits - 1;
  max_delta = 7 * 2 ^ (bits - 4);
}

unfoldable pub set_max_delta_us : Queue → Queue
set_max_delta_us q = record q {
  max_delta_us = sub64 (u64 (u64 (q.max_delta * q.period_num) + q.period_den)) 1 / q.period_den;
}

-- The fields that `initialize` computes from the driver's information.
unfoldable pub configure : Config → Info → Queue → Run Queue
configure cfg info q = do
  frequency ← effective_frequency cfg info.frequency
  bits ← effective_bits cfg info.bits
  ok (set_max_delta_us (set_mask bits (set_ratio frequency q)))

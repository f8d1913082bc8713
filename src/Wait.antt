-- ===== src/Wait.antt =====
-- bootstrap/mbed_wait_api_no_rtos.c. `ticker_read` of the microsecond ticker, `us_ticker_read` and
-- SystemCoreClock are parameters.
pub mod Ticks
pub mod Inline
pub mod Cycles
mod Tests
use mcu_driver_hal.Base.{
  ℕ, zero, suc, ◌+◌, ◌-◌, ◌*◌, ◌/◌, ◌%◌, ◌^◌, bit_and, Bool, true, false, Run, ok, out_of_fuel,
  ◌>>=◌, ◌&&◌, ◌||◌, ltb, leb, ◌==◌, if◌then◌else◌,
}

-- `fuel` is a number of reads after which waiting is given up.
module _ {H : Type 0} (read : H → ℕ × H) where
  -- The loop of _wait_us_ticks. `mask` is US_TICKER_MASK.
  unfoldable pub ticks_loop : (mask start ticks fuel : ℕ) → H → Run H
  ticks_loop mask start ticks zero h = out_of_fuel
  ticks_loop mask start ticks (suc fuel) h =
      let (now, h') = read h in
      let again = ticks_loop mask start ticks fuel h' in
      if ltb (bit_and ((now + 2 ^ 32 - start) % 2 ^ 32) mask) ticks then again else ok h'

  unfoldable pub _wait_us_ticks : (mask ticks fuel : ℕ) → H → Run H
  _wait_us_ticks mask ticks fuel h = let (start, h') = read h in ticks_loop mask start ticks fuel h'

  -- The loop of _wait_us_generic.
  unfoldable pub generic_loop : (start us fuel : ℕ) → H → Run H
  generic_loop start us zero h = out_of_fuel
  generic_loop start us (suc fuel) h =
      let (now, h') = read h in
      let again = generic_loop start us fuel h' in
      if ltb ((now + 2 ^ 32 - start) % 2 ^ 32) us then again else ok h'

  unfoldable pub _wait_us_generic : (us fuel : ℕ) → H → Run H
  _wait_us_generic us fuel h = let (start, h') = read h in generic_loop start us fuel h'

-- bootstrap/mbed_wait_api.h, for a ticker of a known rate: _us_is_small_enough, and the choice of the
-- loop. `num`, `den` and `mask` are US_TICKER_PERIOD_NUM, US_TICKER_PERIOD_DEN and US_TICKER_MASK.
abbrev pub us_is_small_enough : (num den mask us : ℕ) → Bool
us_is_small_enough num den mask us = (den == 1 && leb 0xFFFFFFFF (mask * num)) || ltb us 8192

-- `ticks` in _wait_us_inline.
abbrev pub ticks_for : (num den us : ℕ) → ℕ
ticks_for num den us = ((us * den) % 2 ^ 32 + num + 2 ^ 32 - 1) % 2 ^ 32 / num

-- The two tickers' reads are `us_ticker_read` and `ticker_read`; `initialized` is the flag
-- _us_ticker_initialized.
unfoldable pub _wait_us_inline :
    {H : Type 0} (us_ticker_read ticker_read : H → ℕ × H) (initialized : H → Bool)
    (num den mask us fuel : ℕ)
    → H
    → Run H
_wait_us_inline us_ticker_read ticker_read initialized num den mask us fuel h =
    if us_is_small_enough num den mask us && initialized h
    then _wait_us_ticks us_ticker_read mask (ticks_for num den us) fuel h
    else _wait_us_generic ticker_read us fuel h

-- The processors that LOOP_SCALER is defined for.
pub data Cpu : Type 0 where
  cortex_m0 cortex_m0plus cortex_m1 cortex_m3 cortex_m4 cortex_m23 cortex_m33 cortex_m7 cortex_a9 :
      Cpu

abbrev pub loop_scaler : Cpu → ℕ
loop_scaler cortex_m0 = 6000
loop_scaler cortex_m1 = 6000
loop_scaler cortex_m0plus = 5000
loop_scaler cortex_m3 = 5000
loop_scaler cortex_m4 = 5000
loop_scaler cortex_m23 = 5000
loop_scaler cortex_m33 = 3000
loop_scaler cortex_m7 = 2000
loop_scaler cortex_a9 = 3000

-- The instructions of delay_loop_code: SUBS and the branch back while that does not borrow. The
-- state is the number of times they were run through.
unfoldable pub delay_loop : (count : ℕ) → (rounds : ℕ) → ℕ
delay_loop zero rounds = rounds + 1
delay_loop (suc count) rounds = delay_loop count (rounds + 1)

module _ (cpu : Cpu) (system_core_clock : ℕ) where
  unfoldable pub wait_ns : (ns : ℕ) → (rounds : ℕ) → ℕ
  wait_ns ns rounds =
      let cycles_per_us : ℕ = system_core_clock / 1000000 in
      let count : ℕ = cycles_per_us * ns % 2 ^ 32 / loop_scaler cpu in delay_loop count rounds

  -- wait_us without a ticker, for a number that is not negative; nothing is waited for one that is.
  -- The loop has a round for each 1024.
  unfoldable pub wait_us_loop : (fuel us : ℕ) → (rounds : ℕ) → Run (ℕ × ℕ)
  wait_us_loop zero us rounds = out_of_fuel
  wait_us_loop (suc fuel) us rounds =
      let again = wait_us_loop fuel (us - 1024) (wait_ns 1024000 rounds) in
      if ltb 1024 us then again else ok (us, rounds)

  unfoldable pub wait_us : (fuel us : ℕ) → (rounds : ℕ) → Run ℕ
  wait_us fuel us rounds = do
    (us, rounds) ← wait_us_loop fuel us rounds
    ok (if ltb 0 us then wait_ns (us * 1000) rounds else rounds)

-- ===== src/Wait/Tests.antt =====
-- The waits of bootstrap/mbed_wait_api_no_rtos.c on a concrete counter.
use mcu_driver_hal.Base.{ℕ, ◌+◌, ◌-◌, ◌*◌, ◌/◌, ◌%◌, ◌^◌, ◌<◌, ◌≤◌, ◌≡◌, refl, true, arith, Returns}
use mcu_driver_hal.Wait.{cortex_m4, wait_us}
use mcu_driver_hal.Wait.Ticks.{IsClock}
use mcu_driver_hal.Wait.Cycles.{Spent, wait_us-Spent}

-- A counter that goes on by 3 at every second read; the state is the number of reads.
abbrev time : ℕ → ℕ
time k = 3 * (k / 2)

abbrev read : (width : ℕ) → ℕ → ℕ × ℕ
read width k = (time (k + 1) % 2 ^ width, k + 1)

abbrev stalled : ℕ → ℕ
stalled k = 1 - k % 2

forward_lem : (k : ℕ) → time k ≤ time (k + 1)
forward_lem k = omega arith

bounded_lem : (k : ℕ) → time (k + 1) ≤ time k + 3
bounded_lem k = omega arith

few_lem : (k : ℕ) → stalled k ≤ 1
few_lem k = omega arith

progress_lem : (k : ℕ) → time (k + 1) ≡ time k → stalled (k + 1) < stalled k
progress_lem k e = omega arith

abbrev clock : (width : ℕ) → IsClock (read width) width (λ k. true)
clock width = record {
  step = 3;
  stall = 1;
  time = time;
  stalled = stalled;
  reads = λ k on. refl;
  runs_on = λ k on. refl;
  forward = λ k on. forward_lem k;
  bounded = λ k on. bounded_lem k;
  few = few_lem;
  progress = λ k on. progress_lem k;
}

-- A Cortex-M4 at 168 MHz.
wait_us-Spent_example :
    Returns (Spent cortex_m4 168 2500000 3 0) (wait_us cortex_m4 168000000 3 2500 0)
wait_us-Spent_example = wait_us-Spent cortex_m4 168 3 2500 0 (omega arith) (omega arith)

-- ===== src/Wait/Cycles.antt =====
-- wait_ns and the wait_us without a ticker of bootstrap/mbed_wait_api_no_rtos.c, in processor cycles.
use mcu_driver_hal.Base.{
  ℕ, zero, suc, ◌+◌, ◌-◌, ◌*◌, ◌/◌, ◌%◌, ◌^◌, ◌≤◌, ◌<◌, ◌≡◌, ap, subst, ◌∙◌, inl, inr, true, arith,
  Returns, Returns-mono, ltb, Bool-cases, if◌then◌else◌,
}
use native.Mathlib.Nat.{div-add-mod', mod-lt, mul-le-mul_left, mul-le-mul_right}
use mcu_driver_hal.Wait.{
  Cpu, cortex_m0, cortex_m0plus, cortex_m1, cortex_m3, cortex_m4, cortex_m23, cortex_m33, cortex_m7,
  cortex_a9, loop_scaler, delay_loop, wait_ns, wait_us_loop, wait_us,
}

delay_loop_lem : (count rounds : ℕ) → delay_loop count rounds ≡ rounds + (count + 1)
unfolding delay_loop
delay_loop_lem zero rounds = omega arith
delay_loop_lem (suc count) rounds = omega (arith, delay_loop_lem count (rounds + 1))

loop_scaler-positive : (cpu : Cpu) → 0 < loop_scaler cpu
loop_scaler-positive cortex_m0 = omega arith
loop_scaler-positive cortex_m0plus = omega arith
loop_scaler-positive cortex_m1 = omega arith
loop_scaler-positive cortex_m3 = omega arith
loop_scaler-positive cortex_m4 = omega arith
loop_scaler-positive cortex_m23 = omega arith
loop_scaler-positive cortex_m33 = omega arith
loop_scaler-positive cortex_m7 = omega arith
loop_scaler-positive cortex_a9 = omega arith

-- A processor with a clock of `mhz` megahertz.
module _ (cpu : Cpu) (mhz : ℕ) where
  abbrev clock : ℕ
  clock = mhz * 1000000

  -- So many rounds more, of `loop_scaler / 1000` cycles each, are at least the cycles of the time,
  -- and at most those and one round for each of the calls.
  abbrev pub Spent : (ns calls rounds after : ℕ) → Type 0
  Spent ns calls rounds after =
      (more : ℕ) × (after ≡ rounds + more)
      × (mhz * ns ≤ more * loop_scaler cpu)
      × (more * loop_scaler cpu ≤ mhz * ns + calls * loop_scaler cpu)

  wait_ns-Spent :
      (ns rounds : ℕ) → mhz * ns < 2 ^ 32 → Spent ns 1 rounds (wait_ns cpu clock ns rounds)
  unfolding wait_ns
  wait_ns-Spent ns rounds fits =
      let product : ℕ = mhz * ns in
      let whole_mhz : mhz * 1000000 / 1000000 ≡ mhz = omega arith in
      let small : mhz * 1000000 / 1000000 * ns % 2 ^ 32 ≡ product =
        ap (λ m. m * ns % 2 ^ 32) whole_mhz ∙ omega arith in
      let count : ℕ = product / loop_scaler cpu in
      let e : mhz * 1000000 / 1000000 * ns % 2 ^ 32 / loop_scaler cpu ≡ count =
        ap (λ t. t / loop_scaler cpu) small in
      let whole = div-add-mod' product (loop_scaler cpu) in
      let part = mod-lt product (loop_scaler-positive cpu) in
      (
        count + 1,
        ap (λ t. delay_loop t rounds) e ∙ delay_loop_lem count rounds,
        omega (arith, whole, part),
        omega (arith, whole, part),
      )

  Spent-join :
      (ns ns' calls calls' r r' r'' : ℕ)
      → Spent ns calls r r'
      → Spent ns' calls' r' r''
      → Spent (ns + ns') (calls + calls') r r''
  Spent-join ns ns' calls calls' r r' r'' (m, e, lo, hi) (m', e', lo', hi') =
      (m + m', omega arith, omega arith, omega arith)

  Spent-more :
      (ns calls calls' r r' : ℕ) → calls ≤ calls' → Spent ns calls r r' → Spent ns calls' r r'
  Spent-more ns calls calls' r r' le (m, e, lo, hi) =
      (m, e, lo, omega (arith, hi, mul-le-mul_right (loop_scaler cpu) le))

  last_wait :
      (us rounds : ℕ)
      → mhz * 1024000 < 2 ^ 32
      → us ≤ 1024
      → Spent
          (us * 1000)
          (us / 1024 + 1)
          rounds
          (if ltb 0 us then wait_ns cpu clock (us * 1000) rounds else rounds)
  last_wait zero rounds fits short = (0, omega arith, omega arith, omega arith)
  last_wait (suc us) rounds fits short =
      let some_time : ltb 0 (suc us) ≡ true = ground arith in
      let product : mhz * (suc us * 1000) ≤ mhz * 1024000 = mul-le-mul_left mhz (omega arith) in
      rw some_time (
        Spent-more (suc us * 1000) 1 (suc us / 1024 + 1) rounds _ (omega arith)
          (wait_ns-Spent (suc us * 1000) rounds (omega arith)))

  -- For a clock of a whole number of megahertz, below 4195, any number of microseconds, and as many rounds of the loop as it has
  -- periods of 1024: `wait_us` returns. The rounds of the delay loop take at least the cycles of that
  -- time, and at most these and the cycles of one round for each call of `wait_ns`.
  pub wait_us-Spent :
      (fuel us rounds : ℕ)
      → mhz * 1024000 < 2 ^ 32
      → us < 1024 * fuel
      → Returns (Spent (us * 1000) (us / 1024 + 1) rounds) (wait_us cpu clock fuel us rounds)
  unfolding wait_us wait_us_loop
  wait_us-Spent zero us rounds fits enough = absurd (omega arith)
  wait_us-Spent (suc fuel) us rounds fits enough = elim (Bool-cases (ltb 1024 us)) [
    | inl long ↦ rw long (
        Returns-mono _ _ (wait_us cpu clock fuel (us - 1024) (wait_ns cpu clock 1024000 rounds))
          (wait_us-Spent fuel (us - 1024) (wait_ns cpu clock 1024000 rounds) fits (ground arith))
          (λ r s.
            let time : 1024000 + (us - 1024) * 1000 ≡ us * 1000 = ground arith in
            let calls : 1 + ((us - 1024) / 1024 + 1) ≡ us / 1024 + 1 = ground arith in
            subst (λ k. Spent (us * 1000) k rounds r) calls
              (subst (λ n. Spent n (1 + ((us - 1024) / 1024 + 1)) rounds r) time
                (Spent-join 1024000 ((us - 1024) * 1000) 1 ((us - 1024) / 1024 + 1) rounds
                  (wait_ns cpu clock 1024000 rounds) r (wait_ns-Spent 1024000 rounds fits) s))))
    | inr short ↦ rw short (last_wait us rounds fits (ground arith))
  ]

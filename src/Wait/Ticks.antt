-- ===== src/Wait/Ticks.antt =====
-- The loops of bootstrap/mbed_wait_api_no_rtos.c that read a ticker.
use mcu_driver_hal.Base.{
  ℕ, zero, suc, ◌+◌, ◌-◌, ◌*◌, ◌/◌, ◌%◌, ◌^◌, ◌≤◌, ◌<◌, ◌≡◌, refl, ap, ◌∙◌, inl, inr, bit_and,
  arith, Returns, ltb, ltb→lt, ◌==◌, Bool, true, Bool-cases,
}
use mcu_driver_hal.Base.Bits.{bit_and-low_ones, mod-u32, two_pow-add, one-le-two_pow}
use native.Mathlib.Nat.{
  mod-eq_of_lt, mod-eq-sub-mod, mod-lt, div-add-mod, add-mul-mod_self_left, mul-le-mul_right,
}
use mcu_driver_hal.Wait.{ticks_loop, _wait_us_ticks, generic_loop, _wait_us_generic}

-- A counter of `width` bits that, while it runs, goes on by at most `step` from one read to the next
-- and stands still for at most `stall` reads.
pub record IsClock {H : Type 0} (read : H → ℕ × H) (width : ℕ) (running : H → Bool) : Type 0 where
  pub step : ℕ
  pub stall : ℕ
  pub time : H → ℕ
  pub stalled : H → ℕ
  pub reads : (h : H) → running h ≡ true → (read h).0 ≡ time (read h).1 % 2 ^ width
  pub runs_on : (h : H) → running h ≡ true → running (read h).1 ≡ true
  pub forward : (h : H) → running h ≡ true → time h ≤ time (read h).1
  pub bounded : (h : H) → running h ≡ true → time (read h).1 ≤ time h + step
  pub few : (h : H) → stalled h ≤ stall
  pub progress :
      (h : H) → running h ≡ true → time (read h).1 ≡ time h → stalled (read h).1 < stalled h

-- The difference of two reads, in the counter's width.
mod-difference :
    (n start now : ℕ)
    → 0 < n
    → start ≤ now
    → now < start + n
    → (now % n + n - start % n) % n ≡ now - start
mod-difference n start now some later close =
    let b : ℕ = start % n in
    let d : ℕ = now - start in
    let small : b < n = mod-lt start {m = n} some in
    let whole : now ≡ b + d + n * (start / n) = omega (arith, div-add-mod start n) in
    let e : now % n ≡ (b + d) % n =
      ap (λ t. t % n) whole ∙ add-mul-mod_self_left (b + d) n (start / n) in
    elim (Bool-cases (ltb (b + d) n)) [
      | inl below ↦
          let same : (b + d) % n ≡ b + d = mod-eq_of_lt (ltb→lt (b + d) n below) in
          let le : n ≤ b + d + n - b = omega arith in
          rw (e, same)
            (mod-eq-sub-mod le
              ∙ ap (λ t. t % n) {x = b + d + n - b - n} {y = d} (omega arith)
              ∙ mod-eq_of_lt {n = d} {m = n} (omega arith))
      | inr over ↦
          let le : n ≤ b + d = ground arith in
          let same : (b + d) % n ≡ b + d - n =
            mod-eq-sub-mod le ∙ mod-eq_of_lt {n = b + d - n} {m = n} (omega arith) in
          rw (e, same)
            (ap (λ t. t % n) {x = b + d - n + n - b} {y = d} (omega arith)
              ∙ mod-eq_of_lt {n = d} {m = n} (omega arith))
    ]

times-pred : (n m : ℕ) → 1 ≤ m → n * m ≡ n + n * (m - 1)
times-pred n zero h = absurd (omega arith)
times-pred n (suc k) h = grind arith

low_difference :
    (bits start now : ℕ)
    → bits ≤ 32
    → start ≤ now
    → now < start + 2 ^ bits
    → bit_and ((now % 2 ^ bits + 2 ^ 32 - start % 2 ^ bits) % 2 ^ 32) (2 ^ bits - 1) ≡ now - start
low_difference bits start now narrow later close =
    let n : ℕ = 2 ^ bits in
    let rest : ℕ = 32 - bits in
    let some = one-le-two_pow bits in
    let others = one-le-two_pow rest in
    let word : 2 ^ 32 ≡ n * 2 ^ rest =
      ap (λ k. 2 ^ k) {x = 32} {y = bits + rest} (omega arith) ∙ two_pow-add bits rest in
    let rounds : n * 2 ^ rest ≡ n + n * (2 ^ rest - 1) = times-pred n (2 ^ rest) others in
    let small : start % n < n = mod-lt start {m = n} (omega arith) in
    let x : ℕ = now % n + n - start % n in
    let split : now % n + 2 ^ 32 - start % n ≡ x + n * (2 ^ rest - 1) =
      omega (arith, word, rounds) in
    bit_and-low_ones bits _
    ∙ mod-u32 bits (now % n + 2 ^ 32 - start % n) narrow
    ∙ ap (λ t. t % n) split
    ∙ add-mul-mod_self_left x n (2 ^ rest - 1)
    ∙ mod-difference n start now (omega arith) later close

-- The reads that are left go down with each.
fewer :
    (x x' s s' stall n : ℕ)
    → x' < x
    → s' ≤ stall
    → x * (stall + 1) + s < suc n
    → x' * (stall + 1) + s' < n
fewer x x' s s' stall n lt le fuel =
    let more = mul-le-mul_right (stall + 1) (up x' x lt) in omega (arith, more)
  where
    up : (a b : ℕ) → a < b → a + 1 ≤ b
    up a b h = omega arith

module _ {H : Type 0} (read : H → ℕ × H) (bits : ℕ) (running : H → Bool)
    (c : IsClock read bits running) where
  -- Since the first read the counter has gone on by the ticks, and by less than a step more.
  abbrev pub Waited : (ticks : ℕ) → (start h : H) → Type 0
  Waited ticks start h =
      (c.time (read start).1 + ticks ≤ c.time h)
      × (c.time h ≤ c.time (read start).1 + ticks + c.step)

  module _ (start : ℕ) where
    ticks_loop-waits :
        (ticks fuel : ℕ) (h : H)
        → bits ≤ 32
        → ticks + c.step < 2 ^ bits
        → running h ≡ true
        → start ≤ c.time h
        → c.time h ≤ start + ticks
        → (start + ticks - c.time h) * (c.stall + 1) + c.stalled h < fuel
        → Returns
            (λ h'. (start + ticks ≤ c.time h') × (c.time h' ≤ start + ticks + c.step))
            (ticks_loop read (2 ^ bits - 1) (start % 2 ^ bits) ticks fuel h)
    unfolding ticks_loop
    ticks_loop-waits ticks zero h narrow close on began before fuel = absurd (omega arith)
    ticks_loop-waits ticks (suc n) h narrow close on began before fuel =
        let h' : H = (read h).1 in
        let fw = c.forward h on in
        let bd = c.bounded h on in
        rw (c.reads h on, low_difference bits start (c.time h') narrow (omega arith) (omega arith))
          elim (Bool-cases (ltb (c.time h' - start) ticks)) [
            | inl more ↦ rw more (
                ticks_loop-waits ticks n h' narrow close (c.runs_on h on) (omega arith)
                  (ground arith) (left n h on (ground arith) fuel))
            | inr over ↦ rw over (ground arith, omega arith)
          ]
      where
        left :
            (n : ℕ) (h : H)
            → running h ≡ true
            → c.time (read h).1 < start + ticks
            → (start + ticks - c.time h) * (c.stall + 1) + c.stalled h < suc n
            → (start + ticks - c.time (read h).1) * (c.stall + 1) + c.stalled (read h).1 < n
        left n h on below fuel =
            let fw = c.forward h on in
            elim (Bool-cases (c.time (read h).1 == c.time h)) [
              | inl still ↦
                  let same : c.time (read h).1 ≡ c.time h = ground arith in
                  let less = c.progress h on same in rw same (omega arith)
              | inr on_by ↦
                  fewer (start + ticks - c.time h) (start + ticks - c.time (read h).1) (c.stalled h)
                    (c.stalled (read h).1) c.stall n (ground arith) (c.few (read h).1) fuel
            ]

  pub _wait_us_ticks-Waited :
      (ticks fuel : ℕ) (h : H)
      → bits ≤ 32
      → ticks + c.step < 2 ^ bits
      → running h ≡ true
      → (ticks + 1) * (c.stall + 1) ≤ fuel
      → Returns (Waited ticks h) (_wait_us_ticks read (2 ^ bits - 1) ticks fuel h)
  unfolding _wait_us_ticks
  _wait_us_ticks-Waited ticks fuel h narrow close on enough =
      let t : ℕ = c.time (read h).1 in
      let few = c.few (read h).1 in
      let all : (t + ticks - t) * (c.stall + 1) ≡ ticks * (c.stall + 1) =
        ap (λ k. k * (c.stall + 1)) (omega arith) in
      rw (c.reads h on) (
        ticks_loop-waits t ticks fuel (read h).1 narrow close (c.runs_on h on) (omega arith)
          (omega arith) (omega (arith, all)))

module _ {H : Type 0} (read : H → ℕ × H) (running : H → Bool) (c : IsClock read 32 running) where
  -- A mask of all 32 bits is none.
  generic_loop-ticks_loop :
      (start us fuel : ℕ) (h : H)
      → generic_loop read start us fuel h ≡ ticks_loop read (2 ^ 32 - 1) start us fuel h
  unfolding generic_loop ticks_loop
  generic_loop-ticks_loop start us zero h = refl
  generic_loop-ticks_loop start us (suc n) h =
      let h' : H = (read h).1 in
      let whole : bit_and (((read h).0 + 2 ^ 32 - start) % 2 ^ 32) (2 ^ 32 - 1)
          ≡ ((read h).0 + 2 ^ 32 - start) % 2 ^ 32 =
        bit_and-low_ones 32 _ ∙ omega arith in
      rw (whole, generic_loop-ticks_loop start us n h') refl

  pub _wait_us_generic-Waited :
      (us fuel : ℕ) (h : H)
      → us + c.step < 2 ^ 32
      → running h ≡ true
      → (us + 1) * (c.stall + 1) ≤ fuel
      → Returns (Waited read 32 running c us h) (_wait_us_generic read us fuel h)
  unfolding _wait_us_generic _wait_us_ticks
  _wait_us_generic-Waited us fuel h close on enough =
      rw (generic_loop-ticks_loop (read h).0 us fuel (read h).1)
        (_wait_us_ticks-Waited read 32 running c us fuel h (omega arith) close on enough)

-- ===== src/Ticker/Api/Schedule/Outcome.antt =====
-- What `schedule_interrupt` of hal/source/mbed_ticker_api.c asks of the driver.
use mcu_driver_hal.Base.{
  ℕ, ◌+◌, ◌-◌, ◌%◌, ◌^◌, ◌≤◌, ◌<◌, ◌≡◌, ◌≢◌, refl, ap, ap₂, subst, sym, inl, inr, Bool, true, false,
  ◌||◌, List, [], ◌∷◌, arith, ok, Returns, Returns-mono, ◌∙◌, ltb, leb, ltb→lt, ◌==◌, ◌!=◌,
  Bool-cases, if◌then◌else◌,
}
use native.Mathlib.Nat.{mod-eq_of_lt, mod-eq-sub-mod, mod-lt}
use mcu_driver_hal.Base.Bits.{bit_and-low_ones, mod-u32}
use mcu_driver_hal.Critical.{mbed_assert}
use mcu_driver_hal.Ticker.Types.{Ptr, null, Interface, Queue, Config, Sys}
use mcu_driver_hal.Ticker.Ratio.Fields.{IsConfigured, max_delta-lt}
use mcu_driver_hal.Ticker.Clock.RoundUp.{IsStep, compute_tick_round_up-IsStep}
use mcu_driver_hal.Ticker.Api.{
  assert_built, update_present_time, set_match, schedule_from, schedule_interrupt,
}
use mcu_driver_hal.Ticker.Api.Schedule.{IsValid, update-IsValid, updated, update_active}
use mcu_driver_hal.Ticker.Clock.{_ticker_match_interval_passed}
use mcu_driver_hal.Ticker.Clock.Interval.{ticks_after, match_interval_passed_iff}
use mcu_driver_hal.Ticker.Clock.Advance.{advance-with_running}

-- Fewer than `n` steps round a counter do not come back to where they began.
mod-ne : (n a k : ℕ) → 1 ≤ k → k < n → (a + k) % n ≢ a
mod-ne n a k h lt e = elim (Bool-cases (ltb (a + k) n)) [
  | inl b ↦ omega (arith, mod-eq_of_lt (ltb→lt (a + k) n b))
  | inr b ↦
      let le : n ≤ a + k = ground arith in
      let small : a < n = omega (arith, mod-lt (a + k) {m = n} (omega arith)) in
      omega (arith, mod-eq-sub-mod le, mod-eq_of_lt {n = a + k - n} {m = n} (omega arith))
]

module _ {H : Type 0} (cfg : Config) (i : Interface H) (f bits : ℕ) where
  -- Whether the interrupt is fired that was set `steps` ticks behind the tick `last`, when the counter
  -- then reads `cur`: as the code tests it, and by the ticks that the counter has made since.
  abbrev pub passed : (last cur steps : ℕ) → Bool
  passed last cur steps = _ticker_match_interval_passed last cur ((last + steps) % 2 ^ bits)

  abbrev pub reached : (last cur steps : ℕ) → Bool
  reached last cur steps = leb steps ((cur + 2 ^ bits - last) % 2 ^ bits)

  -- With no event the counter's overflow is waited for, a due event is served at once, and
  -- otherwise the interrupt is set for the first tick at which the first event is due, the counter is
  -- read, and the interrupt is fired if that tick is not ahead any more.
  pub data Scheduled (fires : (last cur steps : ℕ) → Bool) (s s' : Sys H) : Type 0 where
    idle :
        s.queue.head ≡ null
        → s' ≡ record s {
          hw = i.set_interrupt ((s.queue.tick_last_read + s.queue.max_delta) % 2 ^ bits) s.hw;
        }
        → Scheduled fires s s'
    due :
        s.queue.head ≢ null
        → (s.events s.queue.head).timestamp ≤ s.queue.present_time
        → s' ≡ record s { hw = i.fire_interrupt s.hw }
        → Scheduled fires s s'
    ahead :
        (c : IsConfigured f bits s.queue) (steps : ℕ) (r : ℕ × H)
        → s.queue.head ≢ null
        → s.queue.present_time < (s.events s.queue.head).timestamp
        → IsStep cfg f bits s.queue c
            ((s.events s.queue.head).timestamp - s.queue.present_time)
            steps
        → r ≡ i.read (i.set_interrupt ((s.queue.tick_last_read + steps) % 2 ^ bits) s.hw)
        → s' ≡ record s {
          hw = if fires s.queue.tick_last_read r.0 steps then i.fire_interrupt r.1 else r.1;
        }
        → Scheduled fires s s'

  assert-passes : (c : Bool) (s : Sys H) → c ≡ true → assert_built cfg c s ≡ ok s
  unfolding assert_built mbed_assert
  assert-passes c s e = rw e (elim (Bool-cases cfg.assertions) [ inl b ↦ simp b | inr b ↦ simp b ])

  head-time :
      (xs : List Ptr) (s : Sys H)
      → IsValid cfg f bits xs s
      → s.queue.head ≢ null
      → (s.events s.queue.head).timestamp < 2 ^ 64
  head-time [] s v ne = absurd (ne v.pending.chain)
  head-time (x ∷ xs) s v ne = rw v.pending.chain.0 v.pending.times.0

  pub schedule_from-Scheduled :
      (xs : List Ptr) (s : Sys H)
      → IsValid cfg f bits xs s
      → Returns (Scheduled passed s) (schedule_from cfg i s)
  unfolding schedule_from set_match
  schedule_from-Scheduled xs s v = elim (Bool-cases (s.queue.head == null)) [
    | inl e ↦ rw e (
        idle (ground arith) (
          ap (λ t. record s { hw = i.set_interrupt t s.hw })
            (rw (v.timing.configured.counter.mask, bit_and-low_ones bits)
              (mod-u32 bits _ v.timing.configured.counter.bits_le))))
    | inr e ↦ rw e (elim (Bool-cases (leb (s.events s.queue.head).timestamp s.queue.present_time)) [
      | inl d ↦ rw d (due (ground arith) (ground arith) refl)
      | inr d ↦
          let c = v.timing.configured in
          let n = 2 ^ bits in
          let (steps, step, tick) =
            compute_tick_round_up-IsStep cfg f bits s.queue c (s.events s.queue.head).timestamp
              (ground arith) (head-time xs s v (ground arith)) in
          let small : steps < n = omega (arith, step.within, max_delta-lt bits s.queue c.counter) in
          let moved : (s.queue.tick_last_read + steps) % n ≢ s.queue.tick_last_read =
            mod-ne n s.queue.tick_last_read steps step.ahead small in
          rw
            (
              d,
              tick,
              assert-passes ((s.queue.tick_last_read + steps) % n != s.queue.tick_last_read) s
                  (ground arith),
            )
            (ahead c steps (i.read (i.set_interrupt ((s.queue.tick_last_read + steps) % n) s.hw))
              (ground arith) (ground arith) step refl refl)
    ])
  ]

  pub schedule_interrupt-passed :
      (xs : List Ptr) (s : Sys H)
      → IsValid cfg f bits xs s
      → s.queue.suspended ≡ false
      → s.queue.dispatching ≡ false
      → Returns (Scheduled passed (updated cfg i s)) (schedule_interrupt cfg i s)
  unfolding schedule_interrupt
  schedule_interrupt-passed xs s v a b =
      subst (λ r. Returns (Scheduled passed (updated cfg i s)) r)
        (sym (
          ap₂ (λ x y. if x || y then ok s else schedule_from cfg i (update_present_time cfg i s)) a
            b))
        (subst
          (λ n. Returns (Scheduled passed n) (schedule_from cfg i (update_present_time cfg i s)))
          (update_active cfg i s a)
          (schedule_from-Scheduled xs (update_present_time cfg i s)
            (update-IsValid cfg i s f bits xs v)))

  -- A tick `steps` behind another one is that many ticks after it.
  ticks_after-add :
      (n last steps : ℕ)
      → last < n
      → 1 ≤ steps
      → steps < n
      → ticks_after n last ((last + steps) % n) ≡ steps
  ticks_after-add n last steps hl one hs = elim (Bool-cases (ltb (last + steps) n)) [
    | inl in_round ↦
        let e : (last + steps) % n ≡ last + steps =
          mod-eq_of_lt (ltb→lt (last + steps) n in_round) in
        let lt = ltb→lt (last + steps) n in_round in
        let le : n ≤ last + steps + n - last - 1 = omega arith in
        rw e (
          omega (
            arith,
            mod-eq-sub-mod le,
            mod-eq_of_lt {n = last + steps + n - last - 1 - n} {m = n} (omega arith),
          ))
    | inr wrapped ↦
        let le : n ≤ last + steps = ground arith in
        let e : (last + steps) % n ≡ last + steps - n =
          mod-eq-sub-mod le ∙ mod-eq_of_lt {n = last + steps - n} {m = n} (omega arith) in
        rw e
          (omega (arith, mod-eq_of_lt {n = last + steps - n + n - last - 1} {m = n} (omega arith)))
  ]

  passed-reached :
      (last cur steps : ℕ)
      → last < 2 ^ bits
      → cur < 2 ^ bits
      → 1 ≤ steps
      → steps < 2 ^ bits
      → passed last cur steps ≡ reached last cur steps
  passed-reached last cur steps hl hc one hs =
      let n : ℕ = 2 ^ bits in
      let (to, from) =
        match_interval_passed_iff n last cur ((last + steps) % n) hl hc
          (mod-lt (last + steps) {m = n} (omega arith)) in
      let e = ticks_after-add n last steps hl one hs in
      elim (Bool-cases (passed last cur steps)) [
        | inl yes_passed ↦ let le = to yes_passed in yes_passed ∙ ground arith
        | inr not_passed ↦ elim (Bool-cases (reached last cur steps)) [
          | inl r ↦
              let le : ticks_after n last ((last + steps) % n) ≤ (cur + n - last) % n =
                ground arith in
              from le ∙ sym r
          | inr r ↦ not_passed ∙ sym r
        ]
      ]

  Scheduled-reached :
      (s s' : Sys H)
      → ((h : H) → (i.read h).0 < 2 ^ bits)
      → s.queue.tick_last_read < 2 ^ bits
      → Scheduled passed s s'
      → Scheduled reached s s'
  Scheduled-reached s s' width last (idle a e) = idle a e
  Scheduled-reached s s' width last (due a b e) = due a b e
  Scheduled-reached s s' width last (ahead c steps r a b step read e) =
      let cur : r.0 < 2 ^ bits = rw read (width _) in
      let small : steps < 2 ^ bits =
        omega (arith, step.within, max_delta-lt bits s.queue c.counter) in
      ahead c steps r a b step read (
        e
        ∙ ap (λ w. record s { hw = if w then i.fire_interrupt r.1 else r.1 })
            (passed-reached s.queue.tick_last_read r.0 steps last cur step.ahead small))

  -- On a valid ticker that is neither suspended nor dispatching, and whose driver reads ticks of its
  -- counter's width, `schedule_interrupt` returns (its assertion holds). It takes in the ticks since
  -- the last read. With no event it then asks the driver for an interrupt at the largest step, with
  -- an event that is due for an interrupt at once, and otherwise for one at the first tick at which
  -- the first event is due, or at the largest step where that is further; it reads the counter again
  -- and fires the interrupt exactly if the counter has come as far meanwhile.
  pub schedule_interrupt-Scheduled :
      (xs : List Ptr) (s : Sys H)
      → IsValid cfg f bits xs s
      → s.queue.suspended ≡ false
      → s.queue.dispatching ≡ false
      → ((h : H) → (i.read h).0 < 2 ^ bits)
      → Returns (Scheduled reached (updated cfg i s)) (schedule_interrupt cfg i s)
  schedule_interrupt-Scheduled xs s v a b width =
      Returns-mono (Scheduled passed (updated cfg i s)) (Scheduled reached (updated cfg i s)) _
        (schedule_interrupt-passed xs s v a b)
        (λ s' o.
          Scheduled-reached (updated cfg i s) s' width
            (rw
              (ap (λ (q : Queue). q.tick_last_read)
                (advance-with_running cfg s.queue (i.read s.hw).0))
              (width s.hw))
            o)

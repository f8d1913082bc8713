-- ===== src/Ticker/Api/Init.antt =====
-- `initialize` of hal/source/mbed_ticker_api.c.
use mcu_driver_hal.Base.{
  ℕ, ◌<◌, ◌+◌, ◌*◌, ◌%◌, ◌^◌, ◌≡◌, ◌⊎◌, refl, ap, ap₂, subst, sym, ◌∙◌, true, false, ◌||◌, [], ◌∷◌,
  arith, Run, ok, halted, ◌>>=◌, Returns, Returns-mono, Returns-bind, Returns-both, if◌then◌else◌,
}
use mcu_driver_hal.Ticker.Types.{null, Interface, Queue, Config, Sys}
use mcu_driver_hal.Ticker.Ratio.{configure}
use mcu_driver_hal.Ticker.Ratio.Valid.{
  IsConfigured-with_running, usable_frequency, usable_bits, IsSound, configure-IsConfigured,
  configure-halted,
}
use mcu_driver_hal.Ticker.Ratio.Fields.{IsConfigured}
use mcu_driver_hal.Ticker.Api.{update_present_time, schedule_interrupt, start, initialize}
use mcu_driver_hal.Ticker.Api.Schedule.{IsTiming, IsValid, update-IsValid, update_active, updated}
use mcu_driver_hal.Ticker.Api.Schedule.Outcome.{
  Scheduled, idle, due, ahead, passed, schedule_interrupt-passed,
}
use mcu_driver_hal.Ticker.Clock.{advance}
use mcu_driver_hal.Ticker.Clock.Advance.{
  Advanced, total_ticks, advance_all-Advanced, advance-with_running,
}
use mcu_driver_hal.Ticker.Api.Schedule.Keeps.{
  SameLinks, update-SameLinks, schedule_interrupt-IsValid,
}

module _ {H : Type 0} (cfg : Config) (i : Interface H) where
  -- The counter at the three reads that follow the driver's own initialisation.
  abbrev pub first_read : Sys H → ℕ × H
  first_read s = i.read (i.init s.hw)

  abbrev pub second_read : Sys H → ℕ × H
  second_read s = i.read (first_read s).1

  abbrev pub third_read : Sys H → ℕ × H
  third_read s = i.read (second_read s).1

  -- The queue of `s` at the beginning of its time, when the counter was first read.
  abbrev pub at_start : (s s' : Sys H) → Queue
  at_start s s' = record s'.queue {
    tick_last_read = (first_read s).0;
    tick_remainder = 0;
    present_time = 0;
  }

  -- A ticker that is ready: configured for what the driver says, with no event and no handler. Its
  -- time is 0 at the first read after the driver was initialised and counts the ticks since, and the
  -- driver is asked for an interrupt at the largest step after the last read.
  pub record Started (s s' : Sys H) : Type 0 where
    pub valid :
        IsValid cfg (usable_frequency i.get_info.frequency) (usable_bits i.get_info.bits) [] s'
    pub initialized : s'.queue.initialized ≡ true
    pub suspended : s'.queue.suspended ≡ false
    pub dispatching : s'.queue.dispatching ≡ false
    pub handler : s'.queue.event_handler ≡ 0
    pub critical : s'.critical ≡ s.critical
    pub since_init :
        Advanced
          (at_start s s')
          (total_ticks
            (usable_bits i.get_info.bits)
            (first_read s).0
            ((second_read s).0 ∷ (third_read s).0 ∷ []))
          s'.queue
    pub last : s'.queue.tick_last_read ≡ (third_read s).0
    pub waiting :
        s'.hw
        ≡ i.set_interrupt
            ((s'.queue.tick_last_read + s'.queue.max_delta) % 2 ^ usable_bits i.get_info.bits)
            (third_read s).1

  start-IsValid :
      (f bits : ℕ) (q : Queue) (hw : H) (s : Sys H)
      → IsConfigured f bits q
      → 0 < cfg.rounds
      → IsValid cfg f bits [] (start cfg i q hw s)
  unfolding start
  start-IsValid f bits q hw s c h = record {
    timing = record {
      configured = IsConfigured-with_running f bits q _ c;
      rest = c.period.den_pos;
      now = omega arith;
    };
    pending = record { chain = refl; distinct = tt; sorted = tt; times = tt; short = h };
  }

  -- What stands in the queue after the reads that follow the start.
  since_start :
      (f bits : ℕ) (q0 : Queue) (a b : ℕ)
      → IsTiming f bits q0
      → let q = advance cfg (advance cfg q0 a) b in
        Advanced
          (record q {
            tick_last_read = q0.tick_last_read;
            tick_remainder = q0.tick_remainder;
            present_time = q0.present_time;
          })
          (total_ticks bits q0.tick_last_read (a ∷ b ∷ []))
          q
        × (q.tick_last_read ≡ b)
        × (q.head ≡ q0.head)
  since_start f bits q0 a b t =
      let q = advance cfg (advance cfg q0 a) b in
      let one = advance-with_running cfg q0 a in
      let two = advance-with_running cfg (advance cfg q0 a) b in
      let num : q.period_num ≡ q0.period_num =
        ap (λ (x : Queue). x.period_num) two ∙ ap (λ (x : Queue). x.period_num) one in
      let den : q.period_den ≡ q0.period_den =
        ap (λ (x : Queue). x.period_den) two ∙ ap (λ (x : Queue). x.period_den) one in
      let r = advance_all-Advanced cfg f bits q0 (a ∷ b ∷ []) t.configured t.rest t.now in
      let ticks = total_ticks bits q0.tick_last_read (a ∷ b ∷ []) in
      (
        record {
          us = r.us;
          exact =
              ap (λ d. r.us * d + q.tick_remainder) den
              ∙ r.exact
              ∙ ap (λ d. ticks * d + q0.tick_remainder) (sym num);
          present = r.present;
          rest = rw den r.rest;
        },
        ap (λ (x : Queue). x.tick_last_read) two,
        ap (λ (x : Queue). x.head) two ∙ ap (λ (x : Queue). x.head) one,
      )

  -- With no event, the choice of the next interrupt is that of the largest step.
  idle-hw :
      (f bits : ℕ) (s s' : Sys H)
      → s.queue.head ≡ null
      → Scheduled cfg i f bits (passed cfg i f bits) s s'
      → s' ≡ record s {
        hw = i.set_interrupt ((s.queue.tick_last_read + s.queue.max_delta) % 2 ^ bits) s.hw;
      }
  idle-hw f bits s s' none (idle _ e) = e
  idle-hw f bits s s' none (due some _ _) = absurd (some none)
  idle-hw f bits s s' none (ahead _ _ _ some _ _ _ _) = absurd (some none)

  settled :
      (s s3 : Sys H) (q : Queue)
      → let f = usable_frequency i.get_info.frequency in
        let bits = usable_bits i.get_info.bits in
        let s1 = start cfg i q (i.init s.hw) s in
        let s2 = updated cfg i s1 in
        IsTiming f bits s1.queue
        → (IsValid cfg f bits [] s3 × SameLinks s2 s3)
          × Scheduled cfg i f bits (passed cfg i f bits) (updated cfg i s2) s3
        → SameLinks s1 s2
        → Started s s3
  unfolding start
  settled s s3 q t ((v3, same3), chosen) same2 =
      let f = usable_frequency i.get_info.frequency in
      let bits = usable_bits i.get_info.bits in
      let s1 = start cfg i q (i.init s.hw) s in
      let s2 = updated cfg i s1 in
      let (since, last, head) = since_start f bits s1.queue (second_read s).0 (third_read s).0 t in
      let e = idle-hw f bits (updated cfg i s2) s3 head chosen in
      let queue : s3.queue ≡ (updated cfg i s2).queue = ap (λ (x : Sys H). x.queue) e in
      record {
        valid = v3;
        initialized = same3.initialized ∙ same2.initialized;
        suspended = same3.suspended ∙ same2.suspended;
        dispatching = same3.dispatching ∙ same2.dispatching;
        handler = same3.handler ∙ same2.handler;
        critical = same3.critical ∙ same2.critical;
        since_init = rw e since;
        last = rw e last;
        waiting = rw e refl;
      }

  -- On a ticker that is neither initialised nor suspended, whose driver's frequency and width are
  -- sound (or where errors are not trapped), with a 32-bit frequency and at least one round:
  -- `initialize` returns and the ticker is ready. It is configured for what the driver says, has no
  -- event and no handler; the driver was initialised, the time is 0 at the first read after that and
  -- took in exactly the ticks up to the third, and the driver waits for the largest step after it.
  pub initialize-Started :
      (s : Sys H)
      → s.queue.initialized ≡ false
      → s.queue.suspended ≡ false
      → i.get_info.frequency < 2 ^ 32
      → (cfg.trap_errors ≡ false) ⊎ IsSound i.get_info
      → 0 < cfg.rounds
      → Returns (Started s) (initialize cfg i s)
  unfolding initialize start
  initialize-Started s a b lt sound h =
      subst (Returns (Started s)) (sym (ap₂ (λ x y. if x || y then ok s else body) a b)) (
        Returns-bind (IsConfigured f bits) (Started s) (configure cfg i.get_info s.queue) _
          (configure-IsConfigured cfg i.get_info s.queue lt sound)
          (λ q c.
            let s1 = start cfg i q (i.init s.hw) s in
            let v1 = start-IsValid f bits q (i.init s.hw) s c h in
            let s2 = updated cfg i s1 in
            let e = update_active cfg i s1 refl in
            let same2 = subst (SameLinks s1) e (update-SameLinks cfg i f bits s1) in
            let v2 = subst (IsValid cfg f bits []) e (update-IsValid cfg i s1 f bits [] v1) in
            rw e (
              Returns-mono _ (Started s) (schedule_interrupt cfg i s2)
                (Returns-both (λ s3. IsValid cfg f bits [] s3 × SameLinks s2 s3)
                  (Scheduled cfg i f bits (passed cfg i f bits) (updated cfg i s2)) _
                  (schedule_interrupt-IsValid cfg i f bits [] s2 v2)
                  (schedule_interrupt-passed cfg i f bits [] s2 v2 same2.suspended
                    same2.dispatching))
                (λ s3 r. settled s s3 q v1.timing r same2))))
    where
      f : ℕ
      f = usable_frequency i.get_info.frequency

      bits : ℕ
      bits = usable_bits i.get_info.bits

      body : Run (Sys H)
      body = do
        q ← configure cfg i.get_info s.queue
        schedule_interrupt cfg i (update_present_time cfg i (start cfg i q (i.init s.hw) s))

  -- With errors trapped, a driver whose frequency is 0 or whose width is not from 4 to 32 stops
  -- the system; a ticker that is initialised or suspended is left alone.
  pub initialize-cases :
      (s : Sys H)
      → ((s.queue.initialized || s.queue.suspended) ≡ true → initialize cfg i s ≡ ok s)
        × ((s.queue.initialized || s.queue.suspended) ≡ false
            → cfg.trap_errors ≡ true
            → ¬ IsSound i.get_info
            → initialize cfg i s ≡ halted)
  unfolding initialize
  initialize-cases s =
      (λ e. rw e, λ e trap bad. rw (e, configure-halted cfg i.get_info s.queue trap bad))

-- ===== src/Ticker/Api/Schedule/Keeps.antt =====
-- What `schedule_interrupt` of hal/source/mbed_ticker_api.c leaves as it was.
use mcu_driver_hal.Base.{
  ℕ, ◌≡◌, refl, ap, subst, sym, ◌∙◌, inl, inr, Bool, ◌||◌, List, Run, ok, Returns, Returns-mono,
  Bool-cases, if◌then◌else◌,
}
use mcu_driver_hal.Ticker.Types.{Ptr, Interface, Config, Sys}
use mcu_driver_hal.Ticker.Api.{update_present_time, schedule_from, schedule_interrupt}
use mcu_driver_hal.Ticker.Api.Schedule.{IsValid, update-frame, update-IsValid}
use mcu_driver_hal.Ticker.Api.Schedule.Outcome.{
  Scheduled, idle, due, ahead, passed, schedule_from-Scheduled,
}

-- The events, the head, the flags and the critical section are those of `s`.
pub record SameLinks {H : Type 0} (s s' : Sys H) : Type 0 where
  pub events : s'.events ≡ s.events
  pub head : s'.queue.head ≡ s.queue.head
  pub suspended : s'.queue.suspended ≡ s.queue.suspended
  pub dispatching : s'.queue.dispatching ≡ s.queue.dispatching
  pub handler : s'.queue.event_handler ≡ s.queue.event_handler
  pub critical : s'.critical ≡ s.critical
  pub initialized : s'.queue.initialized ≡ s.queue.initialized

pub SameLinks-refl : {H : Type 0} (s : Sys H) → SameLinks s s
SameLinks-refl s = record {
  events = refl;
  head = refl;
  suspended = refl;
  dispatching = refl;
  handler = refl;
  critical = refl;
  initialized = refl;
}

pub SameLinks-trans : {H : Type 0} {s t u : Sys H} → SameLinks s t → SameLinks t u → SameLinks s u
SameLinks-trans a b = record {
  events = b.events ∙ a.events;
  head = b.head ∙ a.head;
  suspended = b.suspended ∙ a.suspended;
  dispatching = b.dispatching ∙ a.dispatching;
  handler = b.handler ∙ a.handler;
  critical = b.critical ∙ a.critical;
  initialized = b.initialized ∙ a.initialized;
}

module _ {H : Type 0} (cfg : Config) (i : Interface H) (f bits : ℕ) where
  pub update-SameLinks : (s : Sys H) → SameLinks s (update_present_time cfg i s)
  update-SameLinks s =
      let p = update-frame cfg i s in
      record {
        events = p.0;
        head = p.1;
        suspended = p.2;
        dispatching = p.3;
        handler = p.4;
        critical = p.5;
        initialized = p.6;
      }

  -- Scheduling only speaks to the driver.
  pub Scheduled-hw :
      (fires : (last cur steps : ℕ) → Bool) (s s' : Sys H)
      → Scheduled cfg i f bits fires s s'
      → (h : H) × (s' ≡ record s { hw = h })
  Scheduled-hw fires s s' (idle _ e) = (_, e)
  Scheduled-hw fires s s' (due _ _ e) = (_, e)
  Scheduled-hw fires s s' (ahead _ _ _ _ _ _ _ e) = (_, e)

  pub schedule_interrupt-IsValid :
      (xs : List Ptr) (s : Sys H)
      → IsValid cfg f bits xs s
      → Returns (λ s'. IsValid cfg f bits xs s' × SameLinks s s') (schedule_interrupt cfg i s)
  unfolding schedule_interrupt
  schedule_interrupt-IsValid xs s v = elim (Bool-cases (s.queue.suspended || s.queue.dispatching)) [
    | inl e ↦ subst (Returns _) (sym (ap branch e)) (v, SameLinks-refl s)
    | inr e ↦ subst (Returns _) (sym (ap branch e)) (
        Returns-mono (Scheduled cfg i f bits (passed cfg i f bits) now) _ (schedule_from cfg i now)
          (schedule_from-Scheduled cfg i f bits xs now now_valid)
          (λ s' o.
            let (h, eq) = Scheduled-hw (passed cfg i f bits) now s' o in
            subst (λ t. IsValid cfg f bits xs t × SameLinks s t) (sym eq) (driver_only h)))
  ]
    where
      now : Sys H
      now = update_present_time cfg i s

      now_valid : IsValid cfg f bits xs now
      now_valid = update-IsValid cfg i s f bits xs v

      driver_only :
          (h : H)
          → IsValid cfg f bits xs (record now { hw = h }) × SameLinks s (record now { hw = h })
      driver_only h = (
        record { timing = now_valid.timing; pending = now_valid.pending },
        SameLinks-trans {t = now} (update-SameLinks s) (record {
          events = refl;
          head = refl;
          suspended = refl;
          dispatching = refl;
          handler = refl;
          critical = refl;
          initialized = refl;
        }),
      )

      branch : Bool → Run (Sys H)
      branch b = if b then ok s else schedule_from cfg i now

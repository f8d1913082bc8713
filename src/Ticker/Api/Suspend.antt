-- ===== src/Ticker/Api/Suspend.antt =====
-- `ticker_suspend` and `ticker_resume` of hal/source/mbed_ticker_api.c.
use mcu_driver_hal.Base.{
  ℕ, ◌<◌, ◌≡◌, refl, ap, subst, sym, ◌∙◌, Bool, true, false, List, [], ◌∷◌, Run, Returns,
  Returns-mono, if◌then◌else◌,
}
use mcu_driver_hal.Critical.{Critical, uint32_max}
use mcu_driver_hal.Critical.Nesting.{IsNested}
use mcu_driver_hal.Ticker.Types.{Ptr, Interface, Queue, Config, Sys}
use mcu_driver_hal.Ticker.Clock.{advance}
use mcu_driver_hal.Ticker.Clock.Advance.{Advanced, advance_all, total_ticks, advance_all-Advanced}
use mcu_driver_hal.Ticker.Ratio.Valid.{running}
use mcu_driver_hal.Ticker.Api.{
  update_present_time, schedule_interrupt, initialize, resume, ticker_resume,
}
use mcu_driver_hal.Ticker.Api.Section.{section_lem}
use mcu_driver_hal.Ticker.Api.Schedule.{
  IsValid, IsTiming-with_running, update-IsValid, update_active, updated,
}
use mcu_driver_hal.Ticker.Api.Schedule.Outcome.{Scheduled, passed, schedule_interrupt-passed}
use mcu_driver_hal.Ticker.Api.Schedule.Keeps.{SameLinks, update-SameLinks, Scheduled-hw}

module _ {H : Type 0} (cfg : Config) (i : Interface H) (f bits : ℕ) (xs : List Ptr) where
  -- The queue with which the time goes on: the counter as it is at the first read.
  abbrev pub resumed_queue : Sys H → Queue
  resumed_queue s = record s.queue { suspended = false; tick_last_read = (i.read s.hw).0 }

  -- The counter at the second read and at the third.
  abbrev pub later_reads : Sys H → List ℕ
  later_reads s = let second = i.read (i.read s.hw).1 in second.0 ∷ (i.read second.1).0 ∷ []

  -- The ticker is valid, no longer suspended, and its time went on from the first read: the ticks
  -- made while it was suspended are not counted.
  pub record Resumed (s s' : Sys H) : Type 0 where
    pub valid : IsValid cfg f bits xs s'
    pub active : s'.queue.suspended ≡ false
    pub advanced :
        Advanced (resumed_queue s) (total_ticks bits (i.read s.hw).0 (later_reads s)) s'.queue

  Resumed-critical :
      (s s' : Sys H) (c : Critical) → Resumed s s' → Resumed s (record s' { critical = c })
  Resumed-critical s s' c r = record {
    valid = record { timing = r.valid.timing; pending = r.valid.pending };
    active = r.active;
    advanced = r.advanced;
  }

  abbrev at_read : Sys H → Critical → Sys H
  at_read s c = record s { critical = c; queue = resumed_queue s; hw = (i.read s.hw).1 }

  resume-Resumed :
      (s : Sys H) (c : Critical)
      → IsValid cfg f bits xs s
      → s.queue.initialized ≡ true
      → s.queue.dispatching ≡ false
      → Returns
          (λ s'. Resumed s s' × (s'.critical ≡ c))
          (resume cfg i (record s { critical = c; queue = record s.queue { suspended = false } }))
  unfolding resume
  resume-Resumed s c v ready quiet =
      subst (Returns Post) (sym (ap (λ b. if b then schedule_interrupt cfg i s2 else other) ready))
        (Returns-mono (Scheduled cfg i f bits (passed cfg i f bits) (updated cfg i s2)) Post
          (schedule_interrupt cfg i s2)
          (schedule_interrupt-passed cfg i f bits xs s2 v2 active2 (same2.dispatching ∙ quiet))
          (λ s' o.
            let (h, e) = Scheduled-hw cfg i f bits (passed cfg i f bits) (updated cfg i s2) s' o in
            rw (e ∙ ap (λ (x : Sys H). record x { hw = h }) (sym (update_active cfg i s2 active2)))
              (done h, same3.critical ∙ same2.critical)))
    where
      Post : Sys H → Type 0
      Post s' = Resumed s s' × (s'.critical ≡ c)

      other : Run (Sys H)
      other =
          initialize cfg i (record s { critical = c; queue = record s.queue { suspended = false } })

      s1 : Sys H
      s1 = at_read s c

      v1 : IsValid cfg f bits xs s1
      v1 = record {
        timing =
            IsTiming-with_running f bits s.queue
              (record (running s.queue) { suspended = false; tick_last_read = (i.read s.hw).0 })
              v.timing v.timing.rest v.timing.now;
        pending = v.pending;
      }

      s2 : Sys H
      s2 = update_present_time cfg i s1

      v2 : IsValid cfg f bits xs s2
      v2 = update-IsValid cfg i s1 f bits xs v1

      same2 : SameLinks s1 s2
      same2 = update-SameLinks cfg i f bits s1

      active2 : s2.queue.suspended ≡ false
      active2 = same2.suspended

      s3 : Sys H
      s3 = update_present_time cfg i s2

      same3 : SameLinks s2 s3
      same3 = update-SameLinks cfg i f bits s2

      done : (h : H) → Resumed s (record s3 { hw = h })
      done h =
          let v3 = update-IsValid cfg i s2 f bits xs v2 in
          let r2 = (i.read s1.hw).0 in
          let second = i.read (i.read s.hw).1 in
          let read2 : s2.hw ≡ second.1 = ap (λ (x : Sys H). x.hw) (update_active cfg i s1 refl) in
          let r3 = (i.read s2.hw).0 in
          let q : s3.queue ≡ advance_all cfg (resumed_queue s) (r2 ∷ r3 ∷ []) =
            ap (λ (x : Sys H). x.queue) (update_active cfg i s2 active2)
            ∙ ap (λ (x : Sys H). advance cfg x.queue r3) (update_active cfg i s1 refl) in
          record {
            valid = record { timing = v3.timing; pending = v3.pending };
            active = same3.suspended ∙ active2;
            advanced =
                subst
                  (λ h.
                    Advanced (resumed_queue s)
                      (total_ticks bits (i.read s.hw).0 (r2 ∷ (i.read h).0 ∷ [])) s3.queue)
                  read2
                  (rw q (
                    advance_all-Advanced cfg f bits (resumed_queue s) (r2 ∷ r3 ∷ [])
                      v1.timing.configured v1.timing.rest v1.timing.now));
          }

  -- `ticker_resume` on a valid ticker that is initialised and not dispatching, inside `depth`
  -- critical sections: it returns, and the ticker is active again. Its time goes on from the counter
  -- at the first read, so the ticks made while it was suspended are left out, and takes in exactly
  -- the ticks up to the second and third read, which follow at once.
  pub ticker_resume-Resumed :
      (before : Bool) (depth : ℕ) (s : Sys H)
      → IsValid cfg f bits xs s
      → s.queue.initialized ≡ true
      → s.queue.dispatching ≡ false
      → IsNested before depth s.critical
      → depth < uint32_max
      → Returns (λ s'. Resumed s s' × IsNested before depth s'.critical) (ticker_resume cfg i s)
  unfolding ticker_resume
  ticker_resume-Resumed before depth s v ready quiet n lt =
      section_lem before depth (Resumed s)
        (λ s1. resume cfg i (record s1 { queue = record s1.queue { suspended = false } })) s n lt
        (Resumed-critical s) (λ c m. resume-Resumed s c v ready quiet)

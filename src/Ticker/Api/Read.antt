-- ===== src/Ticker/Api/Read.antt =====
-- `ticker_read_us`, `ticker_read` and `ticker_get_next_timestamp_us` of
-- hal/source/mbed_ticker_api.c.
use mcu_driver_hal.Base.{
  ℕ, ◌+◌, ◌<◌, ◌≡◌, refl, ap₂, subst, sym, Bool, true, false, ◌||◌, List, [], ◌∷◌, Option, none,
  some, Returns, Returns-bind, ◌==◌, ==-ne, if◌then◌else◌,
}
use mcu_driver_hal.Critical.{Critical, uint32_max}
use mcu_driver_hal.Critical.Nesting.{IsNested}
use mcu_driver_hal.Ticker.Types.{Ptr, null, Interface, Config, Sys}
use mcu_driver_hal.Ticker.Clock.Advance.{Advanced, elapsed_ticks, advance-Advanced}
use mcu_driver_hal.Ticker.Events.Chain.{Chain, Entry, entries}
use mcu_driver_hal.Ticker.Api.{update_present_time, ticker_read_us, ticker_get_next_timestamp_us}
use mcu_driver_hal.Ticker.Api.Init.{initialize-cases}
use mcu_driver_hal.Ticker.Api.Section.{enter-lem, exit-lem}
use mcu_driver_hal.Ticker.Api.Schedule.{IsValid, update-IsValid, update_active}
use mcu_driver_hal.Ticker.Api.Schedule.Keeps.{update-SameLinks}

-- The time of the first entry.
abbrev pub first_time : List Entry → Option ℕ
first_time [] = none
first_time (e ∷ es) = some e.0

module _ {H : Type 0} (cfg : Config) (i : Interface H) (f bits : ℕ) (xs : List Ptr) where
  -- The time returned is the ticker's, which took in all ticks up to this read.
  pub record ReadUs (s : Sys H) (r : ℕ × Sys H) : Type 0 where
    pub valid : IsValid cfg f bits xs r.1
    pub returned : r.0 ≡ r.1.queue.present_time
    pub advanced : Advanced s.queue (elapsed_ticks s.queue (i.read s.hw).0) r.1.queue
    pub events : r.1.events ≡ s.events

  ReadUs-update :
      (s : Sys H) (c c' : Critical)
      → IsValid cfg f bits xs s
      → s.queue.suspended ≡ false
      → let now = update_present_time cfg i (record s { critical = c }) in
        ReadUs s (now.queue.present_time, record now { critical = c' })
  ReadUs-update s c c' v active =
      let s1 : Sys H = record s { critical = c } in
      let v1 =
        update-IsValid cfg i s1 f bits xs (record { timing = v.timing; pending = v.pending }) in
      let t = v.timing in
      record {
        valid = record { timing = v1.timing; pending = v1.pending };
        returned = refl;
        advanced =
            subst (λ (x : Sys H). Advanced s.queue (elapsed_ticks s.queue (i.read s.hw).0) x.queue)
              (sym (update_active cfg i s1 active))
              (advance-Advanced cfg f bits s.queue (i.read s.hw).0 t.configured.period
                t.configured.counter t.rest t.now);
        events = (update-SameLinks cfg i f bits s1).events;
      }

  -- `ticker_read_us` on a valid ticker that is initialised and not suspended, inside `depth`
  -- critical sections: it returns the present time, advanced by exactly the elapsed ticks, and the
  -- ticker stays valid.
  pub ticker_read_us-ReadUs :
      (before : Bool) (depth : ℕ) (s : Sys H)
      → IsValid cfg f bits xs s
      → s.queue.initialized ≡ true
      → s.queue.suspended ≡ false
      → IsNested before depth s.critical
      → depth < uint32_max
      → Returns (λ r. ReadUs s r × IsNested before depth r.1.critical) (ticker_read_us cfg i s)
  unfolding ticker_read_us
  ticker_read_us-ReadUs before depth s v ready active n lt =
      rw ((initialize-cases cfg i s).0 (ap₂ ◌||◌ ready active)) (
        Returns-bind
          (λ s1. (c : Critical) × IsNested before (depth + 1) c × (s1 ≡ record s { critical = c }))
          (λ r. ReadUs s r × IsNested before depth r.1.critical) _ _ (enter-lem before depth s n lt)
          (λ s1 (c, m, e).
            let now = update_present_time cfg i (record s { critical = c }) in
            let same = update-SameLinks cfg i f bits (record s { critical = c }) in
            rw e (
              Returns-bind
                (λ s2.
                  (c' : Critical) × IsNested before depth c' × (s2 ≡ record now { critical = c' }))
                (λ r. ReadUs s r × IsNested before depth r.1.critical) _ _
                (exit-lem before depth now (rw same.critical m))
                (λ s2 (c', m', e'). rw e' (ReadUs-update s c c' v active, m')))))

  next_time :
      (s : Sys H)
      → IsValid cfg f bits xs s
      → (if s.queue.head == null then none else some (s.events s.queue.head).timestamp)
        ≡ first_time (entries s.events xs)
  next_time s v = go xs v.pending.chain
    where
      go :
          (ys : List Ptr)
          → Chain s.events s.queue.head ys
          → (if s.queue.head == null then none else some (s.events s.queue.head).timestamp)
            ≡ first_time (entries s.events ys)
      go [] c = rw c
      go (y ∷ ys) c = rw (==-ne s.queue.head null (rw c.0 c.1), c.0)

  -- `ticker_get_next_timestamp_us` on a valid ticker returns the time of the first pending event,
  -- and 0 (here `none`) where there is none; apart from the closed critical section, nothing changes.
  pub ticker_get_next_timestamp_us-first_time :
      (before : Bool) (depth : ℕ) (s : Sys H)
      → IsValid cfg f bits xs s
      → IsNested before depth s.critical
      → depth < uint32_max
      → Returns
          (λ r.
            (r.0 ≡ first_time (entries s.events xs))
            × ((c : Critical) × IsNested before depth c × (r.1 ≡ record s { critical = c })))
          (ticker_get_next_timestamp_us cfg i s)
  unfolding ticker_get_next_timestamp_us
  ticker_get_next_timestamp_us-first_time before depth s v n lt =
      Returns-bind
        (λ s1. (c : Critical) × IsNested before (depth + 1) c × (s1 ≡ record s { critical = c })) _
        _ _ (enter-lem before depth s n lt)
        (λ s1 (c, m, e). rw e (
          Returns-bind
            (λ s2. (c' : Critical) × IsNested before depth c' × (s2 ≡ record s { critical = c' })) _
            _ _ (exit-lem before depth (record s { critical = c }) m)
            (λ s2 (c', m', e'). (next_time s v, (c', m', e')))))

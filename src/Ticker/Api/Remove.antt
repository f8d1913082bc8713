-- ===== src/Ticker/Api/Remove.antt =====
-- `ticker_remove_event` of hal/source/mbed_ticker_api.c.
use mcu_driver_hal.Base.{
  ℕ, ◌<◌, ◌≡◌, ◌≢◌, refl, ap, sym, ◌∙◌, inl, inr, Bool, true, List, [], ◌∷◌, arith, Returns,
  Returns-mono, Returns-bind, ◌==◌, Bool-cases,
}
use mcu_driver_hal.Critical.{uint32_max}
use mcu_driver_hal.Critical.Nesting.{IsNested}
use mcu_driver_hal.Ticker.Types.{Ptr, null, Interface, Config, Sys}
use mcu_driver_hal.Ticker.Events.{Memory, unlink_after}
use mcu_driver_hal.Ticker.Events.Chain.{Chain, entries, entries-frame, entry}
use mcu_driver_hal.Ticker.Events.Remove.{drop_object, Unlinked, unlink_after-Unlinked}
use mcu_driver_hal.Ticker.Events.Drop.{
  SortedFrom-drop_object, All-drop_object, length-drop_object-le, Distinct-drop_object,
}
use mcu_driver_hal.Ticker.Ratio.Valid.{running}
use mcu_driver_hal.Ticker.Api.{schedule_interrupt, remove_event, ticker_remove_event}
use mcu_driver_hal.Ticker.Api.Section.{section_lem}
use mcu_driver_hal.Ticker.Api.Schedule.{IsPending, IsValid, IsTime, IsTiming-with_running}
use mcu_driver_hal.Ticker.Api.Schedule.Keeps.{SameLinks, schedule_interrupt-IsValid}

module _ {H : Type 0} (cfg : Config) (i : Interface H) (f bits : ℕ) (xs : List Ptr) where
  -- The state is valid without the object, and no event's time or id changed.
  abbrev pub Removes : Sys H → (obj : Ptr) → Sys H → Type 0
  Removes s obj s' =
      IsValid cfg f bits (drop_object obj xs) s'
      × ((a : Ptr) → entry s'.events a ≡ entry s.events a)

  removed-IsPending :
      (m n : Memory) (head head' obj : Ptr)
      → IsPending cfg.rounds m head xs
      → Chain n head' (drop_object obj xs)
      → ((a : Ptr) → entry n a ≡ entry m a)
      → IsPending cfg.rounds n head' (drop_object obj xs)
  removed-IsPending m n head head' obj p c same =
      let old : entries n (drop_object obj xs) ≡ entries m (drop_object obj xs) =
        entries-frame m n (drop_object obj xs) (λ a h. same a) in
      let short = p.short in
      record {
        chain = c;
        distinct = Distinct-drop_object obj xs p.distinct;
        sorted = rw old (SortedFrom-drop_object m obj 0 xs p.sorted);
        times = rw old (All-drop_object m obj IsTime xs p.times);
        short = omega (arith, length-drop_object-le obj xs);
      }

  first-Chain :
      (m : Memory) (head obj : Ptr) (ys : List Ptr)
      → Chain m head ys
      → obj ≢ null
      → head ≡ obj
      → Chain m (m obj).next (drop_object obj ys)
  first-Chain m head obj [] c ne e = absurd (ne (sym e ∙ c))
  first-Chain m head obj (y ∷ ys) c ne e =
      let same : y ≡ obj = sym c.0 ∙ e in
      let found : (y == obj) ≡ true = ground arith in rw (found, ← same) c.2

  remove_event-Removes :
      (s : Sys H) (obj : Ptr)
      → IsValid cfg f bits xs s
      → obj ≢ null
      → Returns (λ s'. Removes s obj s' × (s'.critical ≡ s.critical)) (remove_event cfg i s obj)
  unfolding remove_event
  remove_event-Removes s obj v ne = elim (Bool-cases (s.queue.head == obj)) [
    | inl e ↦ rw e (
        let s1 : Sys H = record s { queue = record s.queue { head = (s.events obj).next } } in
        Returns-mono (λ s'. IsValid cfg f bits (drop_object obj xs) s' × SameLinks s1 s')
          (λ s'. Removes s obj s' × (s'.critical ≡ s.critical)) (schedule_interrupt cfg i s1)
          (schedule_interrupt-IsValid cfg i f bits (drop_object obj xs) s1 (record {
            timing =
                IsTiming-with_running f bits s.queue
                  (record (running s.queue) { head = (s.events obj).next }) v.timing v.timing.rest
                  v.timing.now;
            pending =
                removed-IsPending s.events s.events s.queue.head (s.events obj).next obj v.pending
                  (first-Chain s.events s.queue.head obj xs v.pending.chain ne (ground arith))
                  (λ a. refl);
          }))
          (λ s' (valid, same).
            ((valid, λ a. ap (λ (m : Memory). entry m a) same.events), same.critical)))
    | inr e ↦ rw e (
        Returns-bind (Unlinked s.events obj s.queue.head xs) _
          (unlink_after cfg.rounds s.events obj s.queue.head) _
          (unlink_after-Unlinked s.events obj ne cfg.rounds s.queue.head xs v.pending.chain
            v.pending.distinct e v.pending.short)
          (λ m u. (
            (
              record {
                timing = v.timing;
                pending =
                    removed-IsPending s.events m s.queue.head s.queue.head obj v.pending u.chain
                      u.same;
              },
              u.same,
            ),
            refl,
          )))
  ]

  -- `ticker_remove_event` on a valid ticker, inside `depth` critical sections: it returns, the
  -- object is no longer pending (and all others are, in their order), the ticker stays valid, and
  -- the interrupts are as they were. An object that is not pending may be passed too.
  pub ticker_remove_event-Removes :
      (before : Bool) (depth : ℕ) (s : Sys H) (obj : Ptr)
      → IsValid cfg f bits xs s
      → IsNested before depth s.critical
      → depth < uint32_max
      → obj ≢ null
      → Returns
          (λ s'. Removes s obj s' × IsNested before depth s'.critical)
          (ticker_remove_event cfg i s obj)
  unfolding ticker_remove_event
  ticker_remove_event-Removes before depth s obj v n lt ne =
      section_lem before depth (Removes s obj) (λ s1. remove_event cfg i s1 obj) s n lt
        (λ s' c (w, same). (record { timing = w.timing; pending = w.pending }, same))
        (λ c m.
          remove_event-Removes (record s { critical = c }) obj
            (record { timing = v.timing; pending = v.pending }) ne)

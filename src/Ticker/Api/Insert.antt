-- ===== src/Ticker/Api/Insert.antt =====
-- `insert_event`, `ticker_insert_event` and `ticker_insert_event_us` of
-- hal/source/mbed_ticker_api.c.
use mcu_driver_hal.Base.{
  ℕ, suc, ◌+◌, ◌<◌, ◌^◌, ◌≤◌, ◌≡◌, ◌≢◌, ap, subst, ◌∙◌, Bool, true, false, List, arith, ok, Returns,
  Returns-mono, Returns-bind, length, has, if◌then◌else◌,
}
use mcu_driver_hal.Base.Words.{u32}
use mcu_driver_hal.Critical.{Critical, uint32_max}
use mcu_driver_hal.Critical.Nesting.{IsNested}
use mcu_driver_hal.Ticker.Types.{Ptr, null, Interface, Queue, Config, Sys}
use mcu_driver_hal.Ticker.Events.{Memory, Linked, link}
use mcu_driver_hal.Ticker.Events.Chain.{entries, entry}
use mcu_driver_hal.Ticker.Events.Insert.{Inserted, link-Inserted}
use mcu_driver_hal.Ticker.Events.Splice.{place, insert_entry, insert_entry-SortedFrom}
use mcu_driver_hal.Ticker.Events.Place.{length-place, Distinct-place, All-insert_entry}
use mcu_driver_hal.Ticker.Ratio.Valid.{running}
use mcu_driver_hal.Ticker.Api.{
  update_present_time, schedule_interrupt, insert_event, ticker_insert_event,
  ticker_insert_event_us,
}
use mcu_driver_hal.Ticker.Clock.{convert_timestamp}
use mcu_driver_hal.Ticker.Clock.Convert.{convert_timestamp-first, convert_timestamp-lt}
use mcu_driver_hal.Ticker.Api.Section.{section_lem}
use mcu_driver_hal.Ticker.Api.Schedule.{
  IsValid, update-critical, IsTime, IsTiming-with_running, update-IsValid,
}
use mcu_driver_hal.Ticker.Api.Schedule.Keeps.{
  SameLinks, SameLinks-refl, update-SameLinks, schedule_interrupt-IsValid,
}

-- An object that can be inserted: not pending yet, and with room for one more in the walks.
pub record IsFree (rounds : ℕ) (obj : Ptr) (xs : List Ptr) : Type 0 where
  pub not_null : obj ≢ null
  pub not_pending : has obj xs ≡ false
  pub room : suc (length xs) < rounds

-- The pending events after an insertion, the state still valid.
pub record InsertedInto {H : Type 0} (cfg : Config) (f bits : ℕ) (obj : Ptr) (t id : ℕ)
    (xs : List Ptr) (s s' : Sys H) : Type 0 where
  pub valid : IsValid cfg f bits (place s.events t obj xs) s'
  pub order :
      entries s'.events (place s.events t obj xs) ≡ insert_entry (t, id) (entries s.events xs)
  pub others : (a : Ptr) → a ≢ obj → entry s'.events a ≡ entry s.events a
  pub suspended : s'.queue.suspended ≡ s.queue.suspended
  pub dispatching : s'.queue.dispatching ≡ s.queue.dispatching
  pub handler : s'.queue.event_handler ≡ s.queue.event_handler
  pub critical : s'.critical ≡ s.critical

-- The 32-bit time is the low word of `t`, which is the first such time from `now` on.
pub record IsFirstFrom (now timestamp t : ℕ) : Type 0 where
  pub low_word : u32 t ≡ timestamp
  pub not_before : now ≤ t
  pub within_round : t < now + 2 ^ 32

module _ {H : Type 0} (cfg : Config) (i : Interface H) (f bits : ℕ) (xs : List Ptr) where
  schedule_if :
      (b : Bool) (ys : List Ptr) (s : Sys H)
      → IsValid cfg f bits ys s
      → Returns
          (λ s'. IsValid cfg f bits ys s' × SameLinks s s')
          (if b then schedule_interrupt cfg i s else ok s)
  schedule_if true ys s v = schedule_interrupt-IsValid cfg i f bits ys s v
  schedule_if false ys s v = (v, SameLinks-refl s)

  linked-IsValid :
      (s : Sys H) (obj : Ptr) (t id : ℕ) (l : Linked)
      → IsValid cfg f bits xs s
      → IsFree cfg.rounds obj xs
      → t < 2 ^ 64
      → Inserted s.events obj t id xs l
      → IsValid cfg f bits
          (place s.events t obj xs)
          (record s { queue = record s.queue { head = l.head }; events = l.memory })
  linked-IsValid s obj t id l v free small n = record {
    timing =
        IsTiming-with_running f bits s.queue (record (running s.queue) { head = l.head }) v.timing
          v.timing.rest v.timing.now;
    pending = record {
      chain = n.chain;
      distinct = Distinct-place s.events t obj xs v.pending.distinct free.not_pending;
      sorted =
          rw n.order
            (insert_entry-SortedFrom 0 t id (entries s.events xs) (omega arith) v.pending.sorted);
      times = rw n.order (All-insert_entry IsTime t id (entries s.events xs) small v.pending.times);
      short = rw (length-place s.events t obj xs) free.room;
    };
  }

  -- `insert_event` returns on a valid ticker, puts the event behind all that are due no later, and
  -- leaves the ticker valid.
  pub insert_event-InsertedInto :
      (s : Sys H) (obj : Ptr) (t id : ℕ)
      → IsValid cfg f bits xs s
      → IsFree cfg.rounds obj xs
      → t < 2 ^ 64
      → Returns (InsertedInto cfg f bits obj t id xs s) (insert_event cfg i s obj t id)
  unfolding insert_event
  insert_event-InsertedInto s obj t id v free small =
      Returns-bind (Inserted s.events obj t id xs) _
        (link cfg.rounds s.events s.queue.head obj t id) _
        (link-Inserted cfg.rounds s.events s.queue.head obj t id xs v.pending.chain
          v.pending.distinct free.not_pending free.not_null v.pending.short)
        (λ l n.
          let s' : Sys H = record s {
            queue = record s.queue { head = l.head };
            events = l.memory;
          } in
          Returns-mono (λ s''. IsValid cfg f bits (place s.events t obj xs) s'' × SameLinks s' s'')
            (InsertedInto cfg f bits obj t id xs s) _
            (schedule_if _ (place s.events t obj xs) s'
              (linked-IsValid s obj t id l v free small n))
            (λ s'' (valid, same). record {
              valid = valid;
              order = rw same.events n.order;
              others = λ a ne. rw same.events (n.rest a ne);
              suspended = same.suspended;
              dispatching = same.dispatching;
              handler = same.handler;
              critical = same.critical;
            }))

  -- What the public insertions establish: the event stands in the list with its time.
  abbrev pub Accepts : Sys H → (obj : Ptr) → (t id : ℕ) → Sys H → Type 0
  Accepts s obj t id s' =
      IsValid cfg f bits (place s.events t obj xs) s'
      × (entries s'.events (place s.events t obj xs) ≡ insert_entry (t, id) (entries s.events xs))

  Accepts-critical :
      (s : Sys H) (obj : Ptr) (t id : ℕ) (s' : Sys H) (c : Critical)
      → Accepts s obj t id s'
      → Accepts s obj t id (record s' { critical = c })
  Accepts-critical s obj t id s' c (v, e) = (record { timing = v.timing; pending = v.pending }, e)

  insert_updated :
      (s : Sys H) (c : Critical) (obj : Ptr) (t id : ℕ)
      → IsValid cfg f bits xs s
      → IsFree cfg.rounds obj xs
      → t < 2 ^ 64
      → Returns
          (λ s'. Accepts s obj t id s' × (s'.critical ≡ c))
          (insert_event cfg i (update_present_time cfg i (record s { critical = c })) obj t id)
  insert_updated s c obj t id v free small =
      let s1 : Sys H = record s { critical = c } in
      let now = update_present_time cfg i s1 in
      let same = update-SameLinks cfg i f bits s1 in
      let valid =
        update-IsValid cfg i s1 f bits xs (record { timing = v.timing; pending = v.pending }) in
      Returns-mono (InsertedInto cfg f bits obj t id xs now)
        (λ s'. Accepts s obj t id s' × (s'.critical ≡ c)) _
        (insert_event-InsertedInto now obj t id valid free small)
        (λ s' n. (
          subst
              (λ (m : Memory).
                IsValid cfg f bits (place m t obj xs) s'
                × (entries s'.events (place m t obj xs) ≡ insert_entry (t, id) (entries m xs)))
              same.events (n.valid, n.order),
          n.critical ∙ same.critical,
        ))

  -- `ticker_insert_event_us` on a valid ticker, inside `depth` critical sections below the counter's
  -- bound, for an object that is not pending (with a round to spare) and a 64-bit time: it returns, the
  -- event is pending at its time behind all that are due no later, the ticker stays valid, and the
  -- interrupts are as they were.
  pub ticker_insert_event_us-Accepts :
      (before : Bool) (depth : ℕ) (s : Sys H) (obj : Ptr) (t id : ℕ)
      → IsValid cfg f bits xs s
      → IsNested before depth s.critical
      → depth < uint32_max
      → IsFree cfg.rounds obj xs
      → t < 2 ^ 64
      → Returns
          (λ s'. Accepts s obj t id s' × IsNested before depth s'.critical)
          (ticker_insert_event_us cfg i s obj t id)
  unfolding ticker_insert_event_us
  ticker_insert_event_us-Accepts before depth s obj t id v n lt free small =
      section_lem before depth (Accepts s obj t id)
        (λ s1. insert_event cfg i (update_present_time cfg i s1) obj t id) s n lt
        (Accepts-critical s obj t id) (λ c m. insert_updated s c obj t id v free small)

  -- `ticker_insert_event` on a valid ticker, inside `depth` critical sections below the counter's
  -- bound, for an object that is not pending (with a round to spare), and unless the updated present
  -- time is in its last 2^32 microseconds. It returns, and the event is pending at the first time
  -- from the updated present time on whose low word is the 32-bit time: that low word, not before
  -- the present time, and less than 2^32 microseconds after it. The ticker stays valid, and the
  -- interrupts are as they were.
  pub ticker_insert_event-Accepts :
      (before : Bool) (depth : ℕ) (s : Sys H) (obj : Ptr) (timestamp id : ℕ)
      → IsValid cfg f bits xs s
      → IsNested before depth s.critical
      → depth < uint32_max
      → IsFree cfg.rounds obj xs
      → timestamp < 2 ^ 32
      → (update_present_time cfg i s).queue.present_time + 2 ^ 32 ≤ 2 ^ 64
      → Returns
          (λ s'.
            ((t : ℕ) × IsFirstFrom (update_present_time cfg i s).queue.present_time timestamp t
              × Accepts s obj t id s')
            × IsNested before depth s'.critical)
          (ticker_insert_event cfg i s obj timestamp id)
  unfolding ticker_insert_event
  ticker_insert_event-Accepts before depth s obj timestamp id v n lt free small late =
      Returns-mono (λ s'. Accepts s obj (time s) id s' × IsNested before depth s'.critical) _ _
        (section_lem before depth (Accepts s obj (time s) id)
          (λ s1. insert_event cfg i (update_present_time cfg i s1) obj (time s1) id) s n lt
          (Accepts-critical s obj (time s) id)
          (λ c m. rw (time-critical c) (
            insert_updated s c obj (time s) id v free
              (convert_timestamp-lt _ timestamp late small))))
        (λ s' (a, m). ((time s, first, a), m))
    where
      time : Sys H → ℕ
      time s1 = convert_timestamp (update_present_time cfg i s1).queue.present_time timestamp

      first : IsFirstFrom (update_present_time cfg i s).queue.present_time timestamp (time s)
      first =
          let (low, from, within) = convert_timestamp-first _ timestamp late small in
          record { low_word = low; not_before = from; within_round = within }

      time-critical : (c : Critical) → time (record s { critical = c }) ≡ time s
      time-critical c =
          ap (λ (q : Queue). convert_timestamp q.present_time timestamp) (update-critical cfg i s c)

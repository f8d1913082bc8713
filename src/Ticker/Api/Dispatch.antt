-- ===== src/Ticker/Api/Dispatch.antt =====
-- `ticker_irq_handler` of hal/source/mbed_ticker_api.c: which handlers run, in which order and when.
use mcu_driver_hal.Base.{
  ℕ, zero, suc, ◌+◌, ◌<◌, ◌≤◌, ◌≡◌, ◌≢◌, refl, ap, subst, sym, ◌∙◌, inl, inr, true, false, List, [],
  ◌∷◌, ◌++◌, append_assoc, append-nil, arith, Run, ok, Returns, Returns-mono, leb, leb→le, ◌==◌,
  ==-ne, length, Bool-cases,
}
use mcu_driver_hal.Ticker.Types.{Ptr, null, Interface, Config, Sys}
use mcu_driver_hal.Ticker.Clock.Advance.{Advanced, total_ticks}
use mcu_driver_hal.Ticker.Events.Chain.{entries}
use mcu_driver_hal.Ticker.Events.Drop.{SortedFrom-weaken}
use mcu_driver_hal.Ticker.Ratio.Valid.{running}
use mcu_driver_hal.Ticker.Api.{run_handler, dispatch}
use mcu_driver_hal.Ticker.Api.Schedule.{
  updated, IsValid, IsTiming, IsTiming-with_running, update-IsValid, update_active,
}
use mcu_driver_hal.Ticker.Api.Schedule.Keeps.{SameLinks}
use mcu_driver_hal.Ticker.Api.Handlers.{Stamp, Logging, OnTime, NoneDue, last_read}
use mcu_driver_hal.Ticker.Api.Schedule.Reads.{active-SameLinks, first-Advanced, none-Advanced}

module _ {H : Type 0} (cfg : Config) (i : Interface H) (f bits : ℕ)
    (call : (handler id : ℕ) → Sys H → Run (Sys H)) (lg : Logging i call) where
  pub record Dispatched (xs : List Ptr) (s s' : Sys H) : Type 0 where
    pub served : List Ptr
    pub left : List Ptr
    pub stamps : List Stamp
    pub split : xs ≡ served ++ left
    pub valid : IsValid cfg f bits left s'
    pub none_due : NoneDue s.events s'.queue.present_time left
    pub calls : lg.log s'.hw ≡ lg.log s.hw ++ stamps
    pub on_time : OnTime s.events served stamps
    pub reads : List ℕ
    pub seen : lg.seen s'.hw ≡ lg.seen s.hw ++ reads
    pub one_each : length reads ≡ length served + last_read left
    pub advanced : Advanced s.queue (total_ticks bits s.queue.tick_last_read reads) s'.queue
    pub events : s'.events ≡ s.events
    pub suspended : s'.queue.suspended ≡ s.queue.suspended
    pub dispatching : s'.queue.dispatching ≡ s.queue.dispatching
    pub handler : s'.queue.event_handler ≡ s.queue.event_handler
    pub critical : s'.critical ≡ s.critical

  -- The state after the first event is taken off and its handler has run.
  abbrev served_first : Sys H → Sys H
  served_first now =
      let p = now.queue.head in
      record now {
        queue = record now.queue { head = (now.events p).next };
        hw = lg.effect now.queue.event_handler (now.events p).id now.queue.present_time now.hw;
      }

  served_first-IsValid :
      (x : Ptr) (xs : List Ptr) (now : Sys H)
      → IsValid cfg f bits (x ∷ xs) now
      → IsValid cfg f bits xs (served_first now)
  served_first-IsValid x xs now v = record {
    timing =
        IsTiming-with_running f bits now.queue
          (record (running now.queue) { head = (now.events now.queue.head).next }) v.timing
          v.timing.rest v.timing.now;
    pending = record {
      chain = rw v.pending.chain.0 v.pending.chain.2;
      distinct = v.pending.distinct.1;
      sorted =
          SortedFrom-weaken 0 (now.events x).timestamp (entries now.events xs) (omega arith)
            v.pending.sorted.1;
      times = v.pending.times.1;
      short = let short = v.pending.short in omega arith;
    };
  }

  stop : (s : Sys H) → IsValid cfg f bits [] s → Dispatched [] s s
  stop s v = record {
    served = [];
    left = [];
    stamps = [];
    reads = [];
    split = refl;
    valid = v;
    none_due = tt;
    calls = sym (append-nil (lg.log s.hw));
    on_time = tt;
    seen = sym (append-nil (lg.seen s.hw));
    one_each = refl;
    advanced = none-Advanced cfg i f bits s.queue v.timing;
    events = refl;
    suspended = refl;
    dispatching = refl;
    handler = refl;
    critical = refl;
  }

  wait :
      (x : Ptr) (xs : List Ptr) (s : Sys H)
      → IsValid cfg f bits (x ∷ xs) s
      → IsValid cfg f bits (x ∷ xs) (updated cfg i s)
      → s.queue.suspended ≡ false
      → NoneDue s.events (updated cfg i s).queue.present_time (x ∷ xs)
      → Dispatched (x ∷ xs) s (updated cfg i s)
  wait x xs s v nv active none =
      let same = active-SameLinks cfg i f bits s active in
      record {
        served = [];
        left = x ∷ xs;
        stamps = [];
        reads = (i.read s.hw).0 ∷ [];
        split = refl;
        valid = nv;
        none_due = none;
        calls = lg.log-read s.hw ∙ sym (append-nil (lg.log s.hw));
        on_time = tt;
        seen = lg.seen-read s.hw;
        one_each = refl;
        advanced =
            first-Advanced cfg i f bits s (updated cfg i s) (updated cfg i s).queue [] v.timing refl
              refl refl refl refl (none-Advanced cfg i f bits (updated cfg i s).queue nv.timing);
        events = same.events;
        suspended = same.suspended;
        dispatching = same.dispatching;
        handler = same.handler;
        critical = same.critical;
      }

  serve :
      (x : Ptr) (xs : List Ptr) (s s' : Sys H)
      → IsTiming f bits s.queue
      → s.queue.suspended ≡ false
      → (updated cfg i s).queue.head ≡ x
      → (s.events x).timestamp ≤ (updated cfg i s).queue.present_time
      → Dispatched xs (served_first (updated cfg i s)) s'
      → Dispatched (x ∷ xs) s s'
  serve x xs s s' t active at due d =
      let now = updated cfg i s in
      let same = active-SameLinks cfg i f bits s active in
      let id : ℕ = (now.events now.queue.head).id in
      let c : Stamp = (id, now.queue.present_time) in
      let r : ℕ = (i.read s.hw).0 in
      record {
        served = x ∷ d.served;
        left = d.left;
        stamps = c ∷ d.stamps;
        reads = r ∷ d.reads;
        split = ap (λ l. x ∷ l) d.split;
        valid = d.valid;
        none_due = d.none_due;
        calls =
            d.calls
            ∙ ap (λ l. l ++ d.stamps)
                (lg.log-effect now.queue.event_handler id now.queue.present_time now.hw
                  ∙ ap (λ l. l ++ c ∷ []) (lg.log-read s.hw))
            ∙ append_assoc (lg.log s.hw) (c ∷ []) d.stamps;
        on_time = (ap (λ p. (s.events p).id) at, due, d.on_time);
        seen =
            d.seen
            ∙ ap (λ l. l ++ d.reads)
                (lg.seen-effect now.queue.event_handler id now.queue.present_time now.hw
                  ∙ lg.seen-read s.hw)
            ∙ append_assoc (lg.seen s.hw) (r ∷ []) d.reads;
        one_each = let e = d.one_each in omega arith;
        advanced =
            first-Advanced cfg i f bits s s' (served_first now).queue d.reads t refl refl refl refl
              refl d.advanced;
        events = d.events;
        suspended = d.suspended ∙ same.suspended;
        dispatching = d.dispatching ∙ same.dispatching;
        handler = d.handler ∙ same.handler;
        critical = d.critical;
      }

  run_handler-ok :
      (id : ℕ) (s : Sys H)
      → s.queue.event_handler ≢ 0
      → run_handler cfg i call id s
        ≡ ok (record s { hw = lg.effect s.queue.event_handler id s.queue.present_time s.hw })
  unfolding run_handler
  run_handler-ok id s ne =
      rw (==-ne s.queue.event_handler 0 ne) (lg.runs s.queue.event_handler id s)

  -- On a valid ticker that is not suspended, with a handler that returns and leaves the ticker alone,
  -- and with more rounds than events, the loop ends. The events served are the first ones, in order,
  -- each at its time or later, and what is left is valid and not due. The counter is read once for
  -- each event served and once more where an event is left, and the ticker's time at the end took in
  -- exactly the ticks of these reads.
  pub dispatch-Dispatched :
      (rounds : ℕ) (xs : List Ptr) (s : Sys H)
      → IsValid cfg f bits xs s
      → s.queue.suspended ≡ false
      → s.queue.event_handler ≢ 0
      → length xs < rounds
      → Returns (Dispatched xs s) (dispatch cfg i call rounds s)
  unfolding dispatch
  dispatch-Dispatched zero xs s v active hd h = absurd (omega arith)
  dispatch-Dispatched (suc rounds) [] s v active hd h = rw first (stop s v)
    where
      first : (s.queue.head == null) ≡ true
      first = let e : s.queue.head ≡ null = v.pending.chain in ground arith
  dispatch-Dispatched (suc rounds) (x ∷ xs) s v active hd h =
      rw
        (
          ==-ne s.queue.head null (rw v.pending.chain.0 v.pending.chain.1),
          update_active cfg i s active,
        )
        (elim (Bool-cases (leb time now.queue.present_time)) [
          | inl due ↦
              rw (due, run_handler-ok (now.events now.queue.head).id popped now_handler)
                (Returns-mono (Dispatched xs (served_first now)) (Dispatched (x ∷ xs) s) _
                  (dispatch-Dispatched rounds xs (served_first now)
                    (served_first-IsValid x xs now nv) (same.suspended ∙ active) now_handler
                    (omega arith))
                  (λ s' d. serve x xs s s' v.timing active at (first_due due) d))
          | inr not_due ↦ rw not_due (wait x xs s v nv active (first_not_due not_due))
        ])
    where
      now : Sys H
      now = updated cfg i s

      same : SameLinks s now
      same = active-SameLinks cfg i f bits s active

      time : ℕ
      time = (now.events now.queue.head).timestamp

      popped : Sys H
      popped = record now { queue = record now.queue { head = (now.events now.queue.head).next } }

      nv : IsValid cfg f bits (x ∷ xs) now
      nv =
          subst (IsValid cfg f bits (x ∷ xs)) (update_active cfg i s active)
            (update-IsValid cfg i s f bits (x ∷ xs) v)

      at : now.queue.head ≡ x
      at = nv.pending.chain.0

      now_handler : now.queue.event_handler ≢ 0
      now_handler = rw same.handler hd

      first_due :
          leb time now.queue.present_time ≡ true → (s.events x).timestamp ≤ now.queue.present_time
      first_due due =
          subst (λ p. (s.events p).timestamp ≤ now.queue.present_time) at (leb→le _ _ due)

      first_not_due :
          leb time now.queue.present_time ≡ false → now.queue.present_time < (s.events x).timestamp
      first_not_due not_due =
          subst (λ p. now.queue.present_time < (s.events p).timestamp) at (ground arith)

-- ===== src/Ticker/Api/Irq.antt =====
-- `ticker_irq_handler` of hal/source/mbed_ticker_api.c as a whole.
use mcu_driver_hal.Base.{
  ℕ, ◌+◌, ◌^◌, ◌<◌, ◌≡◌, ◌≢◌, refl, ap, subst, sym, ◌∙◌, Bool, true, false, List, ◌++◌, Run, ◌>>=◌,
  Returns, Returns-mono, Returns-bind, Returns-both, length, if◌then◌else◌,
}
use mcu_driver_hal.Critical.{Critical, uint32_max}
use mcu_driver_hal.Critical.Nesting.{IsNested}
use mcu_driver_hal.Ticker.Types.{Ptr, Interface, Config, Sys}
use mcu_driver_hal.Ticker.Ratio.Valid.{running}
use mcu_driver_hal.Ticker.Api.{schedule_interrupt, dispatch, exit, ticker_irq_handler}
use mcu_driver_hal.Ticker.Api.Section.{enter-lem, exit-lem}
use mcu_driver_hal.Ticker.Api.Schedule.{IsValid, IsTiming-with_running, updated}
use mcu_driver_hal.Ticker.Api.Schedule.Outcome.{
  Scheduled, idle, due, ahead, reached, schedule_interrupt-Scheduled,
}
use mcu_driver_hal.Ticker.Api.Schedule.Keeps.{SameLinks, schedule_interrupt-IsValid}
use mcu_driver_hal.Ticker.Api.Dispatch.{Dispatched, dispatch-Dispatched}
use mcu_driver_hal.Ticker.Api.Handlers.{Logging}

module _ {H : Type 0} (cfg : Config) (i : Interface H) (f bits : ℕ)
    (call : (handler id : ℕ) → Sys H → Run (Sys H)) (lg : Logging i call) where
  -- The state in which the loop starts.
  abbrev pub loop_start : Sys H → Critical → Sys H
  loop_start s c = record s {
    critical = c;
    hw = i.clear_interrupt s.hw;
    queue = record s.queue { dispatching = true };
  }

  -- The state in which the next interrupt is chosen.
  abbrev pub loop_end : Sys H → Sys H
  loop_end s = record s { queue = record s.queue { dispatching = false } }

  -- The loop ran from its start, and afterwards the next interrupt was chosen, as
  -- `schedule_interrupt` does, after one more read of the counter.
  pub record Served (xs : List Ptr) (s : Sys H) (c : Critical) (s' : Sys H) : Type 0 where
    pub after_loop : Sys H
    pub loop : Dispatched cfg i f bits call lg xs (loop_start s c) after_loop
    pub valid : IsValid cfg f bits loop.left s'
    pub scheduled :
        Scheduled cfg i f bits
          (reached cfg i f bits)
          (updated cfg i (loop_end after_loop))
          (record s' { critical = after_loop.critical })
    pub calls : lg.log s'.hw ≡ lg.log s.hw ++ loop.stamps
    pub events : s'.events ≡ s.events
    pub idle_again : s'.queue.dispatching ≡ false

  log-fire_if : (b : Bool) (h : H) → lg.log (if b then i.fire_interrupt h else h) ≡ lg.log h
  log-fire_if true h = lg.log-fire h
  log-fire_if false h = refl

  log-Scheduled :
      (fires : (last cur steps : ℕ) → Bool) (s s' : Sys H)
      → Scheduled cfg i f bits fires s s'
      → lg.log s'.hw ≡ lg.log s.hw
  log-Scheduled fires s s' (idle _ e) = ap (λ (x : Sys H). lg.log x.hw) e ∙ lg.log-set _ s.hw
  log-Scheduled fires s s' (due _ _ e) = ap (λ (x : Sys H). lg.log x.hw) e ∙ lg.log-fire s.hw
  log-Scheduled fires s s' (ahead _ _ r _ _ _ read e) =
      ap (λ (x : Sys H). lg.log x.hw) e
      ∙ log-fire_if (fires s.queue.tick_last_read r.0 _) r.1
      ∙ ap (λ (p : ℕ × H). lg.log p.1) read
      ∙ lg.log-read _
      ∙ lg.log-set _ s.hw

  abbrev Settled : List Ptr → Sys H → Sys H → Type 0
  Settled xs s s' =
      (IsValid cfg f bits xs s' × SameLinks (loop_end s) s')
      × Scheduled cfg i f bits (reached cfg i f bits) (updated cfg i (loop_end s)) s'

  schedule_after :
      (xs : List Ptr) (s : Sys H)
      → ((h : H) → (i.read h).0 < 2 ^ bits)
      → IsValid cfg f bits xs s
      → s.queue.suspended ≡ false
      → Returns (Settled xs s) (schedule_interrupt cfg i (loop_end s))
  schedule_after xs s width v active =
      let e = loop_end s in
      let valid : IsValid cfg f bits xs e = record {
        timing =
            IsTiming-with_running f bits s.queue (record (running s.queue) { dispatching = false })
              v.timing v.timing.rest v.timing.now;
        pending = v.pending;
      } in
      Returns-both (λ s'. IsValid cfg f bits xs s' × SameLinks e s')
        (Scheduled cfg i f bits (reached cfg i f bits) (updated cfg i e)) _
        (schedule_interrupt-IsValid cfg i f bits xs e valid)
        (schedule_interrupt-Scheduled cfg i f bits xs e valid active refl width)

  -- `ticker_irq_handler` on a valid ticker that is not suspended and has a handler that returns and
  -- leaves the ticker alone, with more rounds than events, with a driver that reads ticks of its
  -- counter's width, inside `depth` critical sections. It returns. The first events are served, in
  -- order, each at its time or later, until the first that is left is not due; the counter is read
  -- for each of them, and the time takes in exactly the ticks of these reads. Then the next interrupt
  -- is chosen as `schedule_interrupt` promises. The ticker stays valid and is no longer dispatching,
  -- no handler is called beyond the events served, and the interrupts are as they were.
  pub ticker_irq_handler-Served :
      (before : Bool) (depth rounds : ℕ) (xs : List Ptr) (s : Sys H)
      → IsValid cfg f bits xs s
      → s.queue.suspended ≡ false
      → s.queue.event_handler ≢ 0
      → IsNested before depth s.critical
      → depth < uint32_max
      → length xs < rounds
      → ((h : H) → (i.read h).0 < 2 ^ bits)
      → Returns
          (λ s'.
            ((c : Critical) × IsNested before (depth + 1) c × Served xs s c s')
            × IsNested before depth s'.critical)
          (ticker_irq_handler cfg i call rounds s)
  unfolding ticker_irq_handler
  ticker_irq_handler-Served before depth rounds xs s v active hd n lt h width =
      Returns-bind
        (λ s1. (c : Critical) × IsNested before (depth + 1) c × (s1 ≡ record s { critical = c }))
        Post _ _ (enter-lem before depth s n lt)
        (λ s1 (c, m, e). rw e (
          subst (Returns Post) (sym (ap (λ b. if b then exit (cleared c) else rest c) active))
            (run c m)))
    where
      Post : Sys H → Type 0
      Post s' =
          ((c : Critical) × IsNested before (depth + 1) c × Served xs s c s')
          × IsNested before depth s'.critical

      cleared : Critical → Sys H
      cleared c = record s { critical = c; hw = i.clear_interrupt s.hw }

      rest : Critical → Run (Sys H)
      rest c = do
        s ← dispatch cfg i call rounds (loop_start s c)
        s ← schedule_interrupt cfg i (loop_end s)
        exit s

      start_valid : (c : Critical) → IsValid cfg f bits xs (loop_start s c)
      start_valid c = record {
        timing =
            IsTiming-with_running f bits s.queue (record (running s.queue) { dispatching = true })
              v.timing v.timing.rest v.timing.now;
        pending = v.pending;
      }

      settle :
          (c : Critical) (s2 s3 s4 : Sys H)
          (d : Dispatched cfg i f bits call lg xs (loop_start s c) s2)
          → Settled d.left s2 s3
          → (c4 : Critical) → s4 ≡ record s3 { critical = c4 }
          → Served xs s c s4
      settle c s2 s3 s4 d ((valid, same), chosen) c4 e = rw e (record {
        after_loop = s2;
        loop = d;
        valid = record { timing = valid.timing; pending = valid.pending };
        scheduled =
            subst
              (λ c3.
                Scheduled cfg i f bits (reached cfg i f bits) (updated cfg i (loop_end s2))
                  (record s3 { critical = c3 }))
              same.critical chosen;
        calls =
            log-Scheduled (reached cfg i f bits) (updated cfg i (loop_end s2)) s3 chosen
            ∙ lg.log-read s2.hw
            ∙ d.calls
            ∙ ap (λ l. l ++ d.stamps) (lg.log-clear s.hw);
        events = same.events ∙ d.events;
        idle_again = same.dispatching;
      })

      leave :
          (c : Critical)
          → IsNested before (depth + 1) c
          → (s2 s3 : Sys H) (d : Dispatched cfg i f bits call lg xs (loop_start s c) s2)
          → Settled d.left s2 s3
          → Returns Post (exit s3)
      leave c m s2 s3 d t =
          Returns-mono
            (λ s'. (c' : Critical) × IsNested before depth c' × (s' ≡ record s3 { critical = c' }))
            Post (exit s3) (exit-lem before depth s3 (rw (t.0.1.critical ∙ d.critical) m))
            (λ s4 (c4, m4, e4). ((c, m, settle c s2 s3 s4 d t c4 e4), rw e4 m4))

      run : (c : Critical) → IsNested before (depth + 1) c → Returns Post (rest c)
      run c m =
          Returns-bind (Dispatched cfg i f bits call lg xs (loop_start s c)) Post _ _
            (dispatch-Dispatched cfg i f bits call lg rounds xs (loop_start s c) (start_valid c)
              active hd h)
            (λ s2 d.
              Returns-bind (Settled d.left s2) Post _ _
                (schedule_after d.left s2 width d.valid (d.suspended ∙ active))
                (λ s3 t. leave c m s2 s3 d t))

-- ===== src/Ticker/Api.antt =====
-- The functions of hal/source/mbed_ticker_api.c that change state. A function that returns a value
-- returns it beside the new state.
pub mod Section
pub mod Insert
pub mod Remove
pub mod Handlers
pub mod Dispatch
pub mod Irq
pub mod Init
pub mod Read
pub mod Suspend
pub mod Schedule
use mcu_driver_hal.Base.{
  ℕ, zero, suc, ◌+◌, bit_and, Bool, true, false, ◌||◌, Option, none, some, Run, ok, out_of_fuel,
  ◌>>=◌, leb, ◌==◌, ◌!=◌, if◌then◌else◌,
}
use mcu_driver_hal.Base.Words.{u32}
use mcu_driver_hal.Critical.{
  mbed_assert, core_util_critical_section_enter, core_util_critical_section_exit,
}
use mcu_driver_hal.Ticker.Types.{Ptr, null, Event, Interface, Queue, Config, Sys}
use mcu_driver_hal.Ticker.Ratio.{configure}
use mcu_driver_hal.Ticker.Clock.{
  convert_timestamp, advance, compute_tick_round_up, _ticker_match_interval_passed,
}
use mcu_driver_hal.Ticker.Events.{set_next, link, unlink_after}

module _ {H : Type 0} where
  unfoldable pub enter : Sys H → Run (Sys H)
  enter s = do c ← core_util_critical_section_enter s.critical; ok (record s { critical = c })

  unfoldable pub exit : Sys H → Run (Sys H)
  exit s = do c ← core_util_critical_section_exit s.critical; ok (record s { critical = c })

  -- `MBED_ASSERT`, where the build has assertions.
  unfoldable pub assert_built : Config → Bool → Sys H → Run (Sys H)
  assert_built cfg c s = if cfg.assertions then mbed_assert c s else ok s

module _ {H : Type 0} (cfg : Config) (i : Interface H) where
  unfoldable pub update_present_time : Sys H → Sys H
  update_present_time s =
      if s.queue.suspended
      then s
      else (let (ticker_time, hw) = i.read s.hw in
          record s { queue = advance cfg s.queue ticker_time; hw = hw })

  -- The interrupt for a tick that is ahead, fired at once if the tick has passed meanwhile.
  unfoldable pub set_match : Sys H → (match_tick : ℕ) → Sys H
  set_match s match_tick =
      let (cur_tick, hw) = i.read (i.set_interrupt match_tick s.hw) in
      record s {
        hw =
            if _ticker_match_interval_passed s.queue.tick_last_read cur_tick match_tick
            then i.fire_interrupt hw
            else hw;
      }

  -- `schedule_interrupt` once the present time is updated.
  unfoldable pub schedule_from : Sys H → Run (Sys H)
  schedule_from s =
      let q = s.queue in
      let match_time = (s.events q.head).timestamp in
      let match_tick = compute_tick_round_up cfg q match_time in
      if q.head == null
      then ok (record s {
        hw = i.set_interrupt (bit_and (u32 (q.tick_last_read + q.max_delta)) q.bitmask) s.hw;
      })
      else if leb match_time q.present_time
      then ok (record s { hw = i.fire_interrupt s.hw })
      else do s ← assert_built cfg (match_tick != q.tick_last_read) s; ok (set_match s match_tick)

  unfoldable pub schedule_interrupt : Sys H → Run (Sys H)
  schedule_interrupt s =
      if s.queue.suspended || s.queue.dispatching
      then ok s
      else schedule_from (update_present_time s)

  -- The end of `initialize`, once the queue is configured.
  unfoldable pub start : Queue → H → Sys H → Sys H
  start q hw s =
      let (tick, hw) = i.read hw in
      record s {
        hw = hw;
        queue = record q {
          event_handler = 0;
          head = null;
          tick_last_read = tick;
          tick_remainder = 0;
          present_time = 0;
          dispatching = false;
          suspended = false;
          initialized = true;
        };
      }

  unfoldable pub initialize : Sys H → Run (Sys H)
  initialize s = if s.queue.initialized || s.queue.suspended then ok s else do
    let hw = i.init s.hw
    q ← configure cfg i.get_info s.queue
    schedule_interrupt (update_present_time (start q hw s))

  unfoldable pub insert_event : Sys H → (obj : Ptr) → (timestamp id : ℕ) → Run (Sys H)
  insert_event s obj timestamp id = do
    l ← link cfg.rounds s.events s.queue.head obj timestamp id
    let s' : Sys H = record s { queue = record s.queue { head = l.head }; events = l.memory }
    if (l.prev == null) || leb timestamp s'.queue.present_time then schedule_interrupt s' else ok s'

  unfoldable pub ticker_insert_event : Sys H → (obj : Ptr) → (timestamp id : ℕ) → Run (Sys H)
  ticker_insert_event s obj timestamp id = do
    s ← enter s
    let now = update_present_time s
    let absolute_timestamp = convert_timestamp now.queue.present_time timestamp
    s ← insert_event now obj absolute_timestamp id
    exit s

  unfoldable pub ticker_insert_event_us : Sys H → (obj : Ptr) → (timestamp id : ℕ) → Run (Sys H)
  ticker_insert_event_us s obj timestamp id = do
    s ← enter s
    s ← insert_event (update_present_time s) obj timestamp id
    exit s

  unfoldable pub remove_event : Sys H → (obj : Ptr) → Run (Sys H)
  remove_event s obj =
      if s.queue.head == obj
      then schedule_interrupt (record s { queue = record s.queue { head = (s.events obj).next } })
      else do m ← unlink_after cfg.rounds s.events obj s.queue.head; ok (record s { events = m })

  unfoldable pub ticker_remove_event : Sys H → (obj : Ptr) → Run (Sys H)
  ticker_remove_event s obj = do s ← enter s; s ← remove_event s obj; exit s

  unfoldable pub ticker_set_handler : Sys H → (handler : ℕ) → Run (Sys H)
  ticker_set_handler s handler = do
    s ← initialize s
    s ← enter s
    exit (record s { queue = record s.queue { event_handler = handler } })

  unfoldable pub ticker_read_us : Sys H → Run (ℕ × Sys H)
  ticker_read_us s = do
    s ← initialize s
    s ← enter s
    let now = update_present_time s
    s ← exit now
    ok (now.queue.present_time, s)

  unfoldable pub ticker_read : Sys H → Run (ℕ × Sys H)
  ticker_read s = do (us, s) ← ticker_read_us s; ok (u32 us, s)

  -- `none` is the return value 0, where `*timestamp` is not written.
  unfoldable pub ticker_get_next_timestamp_us : Sys H → Run (Option ℕ × Sys H)
  ticker_get_next_timestamp_us s = do
    s ← enter s
    let ret = if s.queue.head == null then none else some (s.events s.queue.head).timestamp
    s ← exit s
    ok (ret, s)

  unfoldable pub ticker_get_next_timestamp : Sys H → Run (Option ℕ × Sys H)
  ticker_get_next_timestamp s = do
    s ← enter s
    let ret = if s.queue.head == null then none else some (u32 (s.events s.queue.head).timestamp)
    s ← exit s
    ok (ret, s)

  unfoldable pub ticker_suspend : Sys H → Run (Sys H)
  ticker_suspend s = do s ← enter s; exit (record s { queue = record s.queue { suspended = true } })

  unfoldable pub resume : Sys H → Run (Sys H)
  resume s =
      if s.queue.initialized
      then (let (tick, hw) = i.read s.hw in
          schedule_interrupt (
            update_present_time
              (record s { queue = record s.queue { tick_last_read = tick }; hw = hw })))
      else initialize s

  unfoldable pub ticker_resume : Sys H → Run (Sys H)
  ticker_resume s = do
    s ← enter s
    s ← resume (record s { queue = record s.queue { suspended = false } })
    exit s

  -- `call handler id` is the effect of calling the handler at an address; it may insert events.
  module _ (call : (handler id : ℕ) → Sys H → Run (Sys H)) where
    unfoldable pub run_handler : (id : ℕ) → Sys H → Run (Sys H)
    run_handler id s = if s.queue.event_handler == 0 then ok s else call s.queue.event_handler id s

    -- The `while (1)` of `ticker_irq_handler`.
    unfoldable pub dispatch : (rounds : ℕ) → Sys H → Run (Sys H)
    dispatch zero s = out_of_fuel
    dispatch (suc rounds) s =
        if s.queue.head == null
        then ok s
        else (let now = update_present_time s in
            let p = now.queue.head in
            let popped : Sys H = record now {
              queue = record now.queue { head = (now.events p).next };
            } in
            if leb (now.events p).timestamp now.queue.present_time
            then (do s ← run_handler (now.events p).id popped; dispatch rounds s)
            else ok now)

    unfoldable pub ticker_irq_handler : (rounds : ℕ) → Sys H → Run (Sys H)
    ticker_irq_handler rounds s = do
      s ← enter s
      let cleared : Sys H = record s { hw = i.clear_interrupt s.hw }
      if cleared.queue.suspended then exit cleared else do
        s ← dispatch rounds (record cleared { queue = record cleared.queue { dispatching = true } })
        s ← schedule_interrupt (record s { queue = record s.queue { dispatching = false } })
        exit s

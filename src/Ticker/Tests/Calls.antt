-- ===== src/Ticker/Tests/Calls.antt =====
-- The public functions of hal/source/mbed_ticker_api.c at a concrete ticker.
use mcu_driver_hal.Base.{ℕ, ◌≡◌, refl, inr, true, false, [], ◌∷◌, arith, Returns}
use mcu_driver_hal.Critical.{
  Critical, mbed_assert, hal_critical_section_enter, hal_critical_section_exit,
  are_interrupts_enabled, core_util_critical_section_enter, core_util_critical_section_exit,
}
use mcu_driver_hal.Critical.Nesting.{IsNested}
use mcu_driver_hal.Ticker.Types.{Sys}
use mcu_driver_hal.Ticker.Clock.{
  advance, compute_tick_round_up, scale, split_scaled, ceil_scaled, _ticker_match_interval_passed,
}
use mcu_driver_hal.Ticker.Api.{
  update_present_time, schedule_interrupt, initialize, ticker_insert_event, ticker_insert_event_us,
  ticker_remove_event, ticker_read_us, ticker_resume, dispatch, ticker_irq_handler, enter, exit,
  run_handler, schedule_from, assert_built, set_match,
}
use mcu_driver_hal.Ticker.Api.Schedule.{updated}
use mcu_driver_hal.Ticker.Api.Schedule.Outcome.{Scheduled, reached, schedule_interrupt-Scheduled}
use mcu_driver_hal.Ticker.Api.Insert.{
  Accepts, IsFirstFrom, ticker_insert_event-Accepts, ticker_insert_event_us-Accepts,
}
use mcu_driver_hal.Ticker.Api.Remove.{Removes, ticker_remove_event-Removes}
use mcu_driver_hal.Ticker.Api.Dispatch.{Dispatched, dispatch-Dispatched}
use mcu_driver_hal.Ticker.Api.Irq.{Served, ticker_irq_handler-Served}
use mcu_driver_hal.Ticker.Api.Init.{Started, initialize-Started}
use mcu_driver_hal.Ticker.Api.Read.{ReadUs, ticker_read_us-ReadUs}
use mcu_driver_hal.Ticker.Api.Suspend.{Resumed, ticker_resume-Resumed}
use mcu_driver_hal.Ticker.Tests.Board.{
  Chip, driver, config, queue24, pending, board, board-IsNested, board-IsValid, object_30-IsFree,
  call, logging, driver-width,
}

-- At the interrupt 56 ticks are taken in: the first event is due, the second is not.
irq_serves :
    Returns (λ s. s.hw.calls ≡ (1, 6709) ∷ []) (ticker_irq_handler config driver call 5 board)
unfolding ticker_irq_handler enter exit core_util_critical_section_enter
    core_util_critical_section_exit dispatch run_handler update_present_time advance
    schedule_interrupt schedule_from assert_built set_match compute_tick_round_up mbed_assert scale
    split_scaled ceil_scaled _ticker_match_interval_passed hal_critical_section_enter
    hal_critical_section_exit are_interrupts_enabled
irq_serves = refl

ticker_irq_handler-Served_example :
    Returns
      (λ s'.
        ((c : Critical) × IsNested true 1 c
          × Served config driver 32768 24 call logging pending board c s')
        × IsNested true 0 s'.critical)
      (ticker_irq_handler config driver call 5 board)
ticker_irq_handler-Served_example =
    ticker_irq_handler-Served config driver 32768 24 call logging true 0 5 pending board
      (board-IsValid true false) refl (omega arith) board-IsNested (omega arith) (omega arith)
      driver-width

dispatch-Dispatched_example :
    Returns
      (Dispatched config driver 32768 24 call logging pending board)
      (dispatch config driver call 5 board)
dispatch-Dispatched_example =
    dispatch-Dispatched config driver 32768 24 call logging 5 pending board
      (board-IsValid true false) refl (omega arith) (omega arith)

ticker_insert_event_us-Accepts_example :
    Returns
      (λ s'.
        Accepts config driver 32768 24 pending board 30 6500 7 s' × IsNested true 0 s'.critical)
      (ticker_insert_event_us config driver board 30 6500 7)
ticker_insert_event_us-Accepts_example =
    ticker_insert_event_us-Accepts config driver 32768 24 pending true 0 board 30 6500 7
      (board-IsValid true false) board-IsNested (omega arith) object_30-IsFree (omega arith)

present_small : (update_present_time config driver board).queue.present_time ≡ 6709
unfolding update_present_time advance
present_small = refl

ticker_insert_event-Accepts_example :
    Returns
      (λ s'.
        ((t : ℕ) × IsFirstFrom (update_present_time config driver board).queue.present_time 6800 t
          × Accepts config driver 32768 24 pending board 30 t 7 s')
        × IsNested true 0 s'.critical)
      (ticker_insert_event config driver board 30 6800 7)
ticker_insert_event-Accepts_example =
    ticker_insert_event-Accepts config driver 32768 24 pending true 0 board 30 6800 7
      (board-IsValid true false) board-IsNested (omega arith) object_30-IsFree (omega arith)
      (omega (arith, present_small))

ticker_remove_event-Removes_example :
    Returns
      (λ s'. Removes config driver 32768 24 pending board 20 s' × IsNested true 0 s'.critical)
      (ticker_remove_event config driver board 20)
ticker_remove_event-Removes_example =
    ticker_remove_event-Removes config driver 32768 24 pending true 0 board 20
      (board-IsValid true false) board-IsNested (omega arith) (omega arith)

schedule_interrupt-Scheduled_example :
    Returns
      (Scheduled config driver 32768 24
        (reached config driver 32768 24)
        (updated config driver board))
      (schedule_interrupt config driver board)
schedule_interrupt-Scheduled_example =
    schedule_interrupt-Scheduled config driver 32768 24 pending board (board-IsValid true false)
      refl refl driver-width

abbrev fresh : Sys Chip
fresh = record board { queue = record queue24 { initialized = false } }

initialize-Started_example : Returns (Started config driver fresh) (initialize config driver fresh)
initialize-Started_example =
    initialize-Started config driver fresh refl refl (omega arith)
      (inr (omega arith, omega arith, omega arith)) (omega arith)

ticker_read_us-ReadUs_example :
    Returns
      (λ r. ReadUs config driver 32768 24 pending board r × IsNested true 0 r.1.critical)
      (ticker_read_us config driver board)
ticker_read_us-ReadUs_example =
    ticker_read_us-ReadUs config driver 32768 24 pending true 0 board (board-IsValid true false)
      refl refl board-IsNested (omega arith)

abbrev asleep : Sys Chip
asleep = record board { queue = record queue24 { suspended = true } }

ticker_resume-Resumed_example :
    Returns
      (λ s'. Resumed config driver 32768 24 pending asleep s' × IsNested true 0 s'.critical)
      (ticker_resume config driver asleep)
ticker_resume-Resumed_example =
    ticker_resume-Resumed config driver 32768 24 pending true 0 asleep (board-IsValid true true)
      refl refl board-IsNested (omega arith)

-- ===== src/Ticker/Tests/Times.antt =====
-- The arithmetic of hal/source/mbed_ticker_api.c at concrete numbers.
use mcu_driver_hal.Base.{ℕ, ◌+◌, ◌-◌, ◌%◌, ◌^◌, ◌≤◌, ◌≡◌, ◌↔◌, inr, true, [], ◌∷◌, arith, Returns}
use mcu_driver_hal.Ticker.Types.{Info}
use mcu_driver_hal.Ticker.Ratio.{configure}
use mcu_driver_hal.Ticker.Ratio.Valid.{IsSound, configure-IsConfigured}
use mcu_driver_hal.Ticker.Ratio.Fields.{IsConfigured}
use mcu_driver_hal.Ticker.Clock.{compute_tick_round_up, _ticker_match_interval_passed}
use mcu_driver_hal.Ticker.Clock.Interval.{ticks_after, match_interval_passed_iff}
use mcu_driver_hal.Ticker.Clock.Advance.{Advanced, advance_all, total_ticks, advance_all-Advanced}
use mcu_driver_hal.Ticker.Clock.RoundUp.{IsStep, compute_tick_round_up-IsStep}
use mcu_driver_hal.Ticker.Tests.Board.{config, queue24, queue24-IsConfigured}

configure-IsConfigured_example :
    Returns
      (IsConfigured 32768 24)
      (configure config (record { frequency = 32768; bits = 24 }) queue24)
configure-IsConfigured_example =
    configure-IsConfigured config (record { frequency = 32768; bits = 24 }) queue24 (omega arith)
      (inr (omega arith, omega arith, omega arith))

narrow : Info
narrow = record { frequency = 32768; bits = 3 }

narrow-unsound : ¬ IsSound narrow
unfolding narrow
narrow-unsound (_, wide, _) = omega arith

match_interval_passed_iff_example :
    (_ticker_match_interval_passed 250 7 3 ≡ true) ↔ (ticks_after 256 250 3 ≤ (7 + 256 - 250) % 256)
match_interval_passed_iff_example =
    match_interval_passed_iff 256 250 7 3 (omega arith) (omega arith) (omega arith)

advance_all-Advanced_example :
    Advanced queue24
      (total_ticks 24 0xff_fff0 (0xff_fffa ∷ 40 ∷ 41 ∷ []))
      (advance_all config queue24 (0xff_fffa ∷ 40 ∷ 41 ∷ []))
advance_all-Advanced_example =
    advance_all-Advanced config 32768 24 queue24 (0xff_fffa ∷ 40 ∷ 41 ∷ []) queue24-IsConfigured
      (omega arith) (omega arith)

compute_tick_round_up-IsStep_example :
    (steps : ℕ) × IsStep config 32768 24 queue24 queue24-IsConfigured (6000 - 5000) steps
    × (compute_tick_round_up config queue24 6000 ≡ (0xff_fff0 + steps) % 2 ^ 24)
compute_tick_round_up-IsStep_example =
    compute_tick_round_up-IsStep config 32768 24 queue24 queue24-IsConfigured 6000 (omega arith)
      (omega arith)

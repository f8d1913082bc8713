-- ===== src/Wait/Inline.antt =====
-- _wait_us_inline of bootstrap/mbed_wait_api.h.
use mcu_driver_hal.Base.{ℕ, ◌-◌, ◌*◌, Bool, true, ◌||◌, leb}
use mcu_driver_hal.Wait.Ticks.{IsClock}

module _ {H : Type 0} (us_ticker_read ticker_read : H → ℕ × H) (bits : ℕ) (running : H → Bool)
    (ticks : IsClock us_ticker_read bits running) (clock : IsClock ticker_read 32 (λ h. true)) where
  -- The time has passed since the first read, by the one counter in ticks of `num / den`
  -- microseconds or by the other in microseconds.
  abbrev pub has_waited : (num den us : ℕ) → (h h' : H) → Bool
  has_waited num den us h h' =
      leb (us * den) ((ticks.time h' - ticks.time (us_ticker_read h).1) * num)
      || leb us (clock.time h' - clock.time (ticker_read h).1)

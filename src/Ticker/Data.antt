-- ===== src/Ticker/Data.antt =====
-- hal/source/mbed_us_ticker_api.c and hal/source/mbed_lp_ticker_api.c: the interfaces of the two
-- tickers over the functions of a target, and their interrupt handlers. The low power ticker is the
-- one of builds without LPTICKER_DELAY_TICKS.
pub mod Flag
use mcu_driver_hal.Base.{
  Bool, true, false, Option, none, some, List, [], ◌∷◌, Run, ok, if◌then◌else◌,
}
use mcu_driver_hal.Ticker.Types.{Interface, Sys}

-- The target's state with the flag `_us_ticker_initialized`.
pub record Noted (H : Type 0) : Type 0 where
  pub initialized : Bool
  pub hw : H

-- One statement after the other.
abbrev pub run_all : {A : Type 0} → List (A → A) → A → A
run_all [] a = a
run_all (f ∷ fs) a = run_all fs (f a)

module _ {H : Type 0} (target : Interface H) where
  -- The two statements of note_us_ticker_init.
  abbrev pub note_init : List (Noted H → Noted H)
  note_init =
      (λ n. record n { hw = target.init n.hw }) ∷ (λ n. record n { initialized = true }) ∷ []

  -- The two statements of note_us_ticker_free.
  abbrev pub note_free : List (Noted H → Noted H)
  note_free =
      (λ n. record n { initialized = false }) ∷ (λ n. record n { hw = target.free n.hw }) ∷ []

  unfoldable pub note_us_ticker_init : Noted H → Noted H
  note_us_ticker_init n = run_all note_init n

  unfoldable pub note_us_ticker_free : Noted H → Noted H
  note_us_ticker_free n = run_all note_free n

  unfoldable pub block_us_ticker_free : Noted H → Noted H
  block_us_ticker_free n = n

  -- `at_boot` is MBED_CONF_TARGET_INIT_US_TICKER_AT_BOOT.
  unfoldable pub us_interface : (at_boot : Bool) → Interface (Noted H)
  us_interface at_boot = record {
    init = λ n. if at_boot then (record n { hw = target.init n.hw }) else note_us_ticker_init n;
    read = λ n. let (ticks, hw) = target.read n.hw in (ticks, record n { hw = hw });
    disable_interrupt = λ n. record n { hw = target.disable_interrupt n.hw };
    clear_interrupt = λ n. record n { hw = target.clear_interrupt n.hw };
    set_interrupt = λ ticks n. record n { hw = target.set_interrupt ticks n.hw };
    fire_interrupt = λ n. record n { hw = target.fire_interrupt n.hw };
    get_info = target.get_info;
    free = λ n. if at_boot then block_us_ticker_free n else note_us_ticker_free n;
    runs_in_deep_sleep = false;
  }

  unfoldable pub lp_interface : Interface H
  lp_interface = record target { runs_in_deep_sleep = true }

-- What `irq_handler` points to, `none` for NULL.
abbrev pub Handler : Type 0 → Type 0
Handler H = Option (Sys H → Run (Sys H))

-- The handler before, and the one from now on.
unfoldable pub set_us_ticker_irq_handler :
    {H : Type 0} → (ticker_irq_handler irq_handler : Handler H) → Handler H × Handler H
set_us_ticker_irq_handler ticker_irq_handler irq_handler = (irq_handler, ticker_irq_handler)

unfoldable pub set_lp_ticker_irq_handler :
    {H : Type 0} → (ticker_irq_handler irq_handler : Handler H) → Handler H × Handler H
set_lp_ticker_irq_handler ticker_irq_handler irq_handler = (irq_handler, ticker_irq_handler)

unfoldable pub us_ticker_irq_handler :
    {H : Type 0} → (irq_handler : Handler H) → Sys H → Run (Sys H)
us_ticker_irq_handler none s = ok s
us_ticker_irq_handler (some irq_handler) s = irq_handler s

unfoldable pub lp_ticker_irq_handler :
    {H : Type 0} → (irq_handler : Handler H) → Sys H → Run (Sys H)
lp_ticker_irq_handler none s = ok s
lp_ticker_irq_handler (some irq_handler) s = irq_handler s

-- ===== src/Ticker/Types.antt =====
-- The structures of hal/include/hal/ticker_api.h, and what the ticker's functions work on.
use mcu_driver_hal.Base.{ℕ, Bool}
use mcu_driver_hal.Base.Words.{ℤ}
use mcu_driver_hal.Critical.{Critical}

-- The address of a `ticker_event_t`.
abbrev pub Ptr : Type 0
Ptr = ℕ

abbrev pub null : Ptr
null = 0

-- `ticker_event_t`
pub record Event : Type 0 where
  pub timestamp : ℕ
  pub id : ℕ
  pub next : Ptr

-- `ticker_info_t`
pub record Info : Type 0 where
  pub frequency : ℕ
  pub bits : ℕ

-- `ticker_interface_t`: the functions of a target's driver, over the driver's own state `H`.
pub record Interface (H : Type 0) : Type 0 where
  pub init : H → H
  pub read : H → ℕ × H
  pub disable_interrupt : H → H
  pub clear_interrupt : H → H
  pub set_interrupt : ℕ → H → H
  pub fire_interrupt : H → H
  pub free : H → H
  pub get_info : Info
  pub runs_in_deep_sleep : Bool

-- `ticker_event_queue_t`. `event_handler` is the address of the handler, 0 for none.
pub record Queue : Type 0 where
  pub event_handler : ℕ
  pub head : Ptr
  pub period_num : ℕ
  pub period_den : ℕ
  pub bitmask : ℕ
  pub max_delta : ℕ
  pub max_delta_us : ℕ
  pub tick_last_read : ℕ
  pub tick_remainder : ℕ
  pub present_time : ℕ
  pub initialized : Bool
  pub dispatching : Bool
  pub suspended : Bool
  pub period_num_shifts : ℤ
  pub period_den_shifts : ℤ

-- The build's choices (SLOW_MULTIPLY, MBED_TRAP_ERRORS_ENABLED, assertions), and the rounds that
-- the model gives to each `while` over the list of events.
pub record Config : Type 0 where
  pub slow_multiply : Bool
  pub trap_errors : Bool
  pub assertions : Bool
  pub rounds : ℕ

-- What a call reads and writes: the queue, the event objects by address, the critical section's
-- variables and the driver.
pub record Sys (H : Type 0) : Type 0 where
  pub queue : Queue
  pub events : Ptr → Event
  pub critical : Critical
  pub hw : H

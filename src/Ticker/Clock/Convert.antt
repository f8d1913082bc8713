-- ===== src/Ticker/Clock/Convert.antt =====
-- `convert_timestamp` of hal/source/mbed_ticker_api.c.
use mcu_driver_hal.Base.{ℕ, ◌+◌, ◌^◌, ◌≤◌, ◌<◌, ◌≡◌, arith}
use mcu_driver_hal.Base.Words.{u32}
use mcu_driver_hal.Ticker.Clock.{convert_timestamp}

-- For a 32-bit timestamp, and unless the 64-bit time is in its last 2^32 microseconds,
-- `convert_timestamp` is the first time from the reference
-- on whose low 32 bits are the timestamp: the only one within 2^32 microseconds.
pub convert_timestamp-first :
    (ref timestamp : ℕ)
    → ref + 2 ^ 32 ≤ 2 ^ 64
    → timestamp < 2 ^ 32
    → (u32 (convert_timestamp ref timestamp) ≡ timestamp)
      × (ref ≤ convert_timestamp ref timestamp)
      × (convert_timestamp ref timestamp < ref + 2 ^ 32)
unfolding convert_timestamp
convert_timestamp-first ref timestamp h lt = (ground arith, ground arith, ground arith)

pub convert_timestamp-lt :
    (ref timestamp : ℕ)
    → ref + 2 ^ 32 ≤ 2 ^ 64
    → timestamp < 2 ^ 32
    → convert_timestamp ref timestamp < 2 ^ 64
unfolding convert_timestamp
convert_timestamp-lt ref timestamp h lt = ground arith

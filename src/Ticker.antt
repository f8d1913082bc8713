-- ===== src/Ticker.antt =====
-- The ticker: hal/source/mbed_ticker_api.c and hal/include/hal/ticker_api.h.
pub mod Data
pub mod Types
pub mod Ratio
pub mod Clock
pub mod Events
pub mod Api
mod Tests

-- ===== src/Ticker/Tests.antt =====
-- Instances of the theorems about hal/source/mbed_ticker_api.c on a ticker of 24 bits at 32768 Hz.
mod Board
mod Times
mod Calls
mod Flag

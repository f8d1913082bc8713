-- ===== src/Lib.antt =====
-- A verification library for MCU-Driver-HAL: the common driver layer that microcontroller targets
-- implement. Paths are from the repository's root.
--
-- Parts.
-- * Critical.antt, Critical/: nested critical sections, bootstrap/mbed_critical.c over
--   hal/source/mbed_critical_section_api.c. The record `Critical` holds the static variables of both
--   files and the interrupt flag of the core (PRIMASK); the functions keep their names.
-- * Ticker.antt, Ticker/: hal/source/mbed_ticker_api.c, which turns the counter of a target's timer
--   into a 64-bit time in microseconds and calls a handler for each event of a sorted list.
--   - Types: the structures of hal/include/hal/ticker_api.h. `Sys` is what a call reads and writes:
--     the queue, the event objects by address, the critical section and the driver's state.
--   - Ratio, Ratio/: gcd, exact_log2, and the fields that initialize computes.
--   - Clock, Clock/: convert_timestamp, update_present_time (`advance`), compute_tick_round_up,
--     _ticker_match_interval_passed.
--   - Events, Events/: the walks over the list and its writes in insert_event and
--     ticker_remove_event.
--   - Api, Api/: the functions that change the state, composed as the code composes them, each in a
--     critical section. A function keeps its name; helpers without a counterpart in the code
--     (enter, exit, start, set_match, schedule_from, remove_event, resume, run_handler, dispatch)
--     are a part of the function that calls them.
--   - Data: the interfaces of hal/source/mbed_us_ticker_api.c and hal/source/mbed_lp_ticker_api.c; Data/Flag
--     the flag _us_ticker_initialized after each statement.
--   - Tests/: a concrete ticker, on which the theorems are applied.
-- * Pinmap.antt, Pinmap/: hal/source/mbed_pinmap_common.c, the searches in a target's tables of pins.
--   The functions keep their names; `try_rows`, `is_candidate`, `already_in_use` and `next_unset` are
--   the loops of pinmap_find_peripheral_pins. Lookup is about one table, Usable says what a choice of
--   pins has to satisfy, Search is about the choice. The word of NC, pin_function and pin_mode are
--   the target's and parameters.
-- * Mpu.antt, Mpu/: bootstrap/mbed_mpu_mgmt.c, the lock counters of the memory protection; the
--   functions keep their names, and those of the unit are parameters that the theorem assumes to set
--   what can be read back (`Readable`).
-- * Printf.antt, Printf/: bootstrap/mbed_printf_implementation.c, the minimal printf, and
--   bootstrap/mbed_printf_wrapper.c. `Sink` is the buffer with the count of characters, and the stream.
--   - Output, Decimal, Digits, Hexadecimal: the conversions of a number, an address and a string.
--   - Scan: the arguments, and the walks over a directive of the format.
--   - Format.antt: mbed_minimal_formatted_string; `format_loop` is its loop over the format, and the
--     helpers below `convert` are the stages of one directive. Format/Directive has the grammar of a
--     directive and the text of each, apart from the code; Characters, Parse, Buffers and Refines lead
--     from the one to the other.
--   - Wrapper.antt: the eight functions of the C library.
-- * Trace.antt, Trace/: bootstrap/mbed_trace.c. The record `Trace` of Trace/State is the variable
--   m_trace with the memory of bytes that its pointers are addresses of; the functions keep their
--   names.
--   - Filters: the filters set and asked. Init: mbed_trace_init and mbed_trace_free.
--   - Array.antt, Array/: mbed_trace_array. Mutex, Leaves, Held: the count of the locks.
--   - Line.antt, Line/: mbed_vtracef. Each `append_` function is one piece of the line with the tests
--     around it; `Line` holds the local variables.
-- * Gpio.antt, Gpio/: hal/source/mbed_gpio.c, how a pin is set up; the functions keep their names and
--   those of the target are parameters (`Pins`).
-- * Mpu/Registers, Mpu/V7, Mpu/V8: hal/source/mpu/mbed_mpu_v7m.c and mbed_mpu_v8m.c over the
--   registers of a unit (`MpuUnit`, `IsUnit`). In each, Rules is what the regions mean for an
--   address, by the architecture, and Programmed the table after the functions. V8/Guards and
--   V8/Guards/Managed put it together with bootstrap/mbed_mpu_mgmt.c.
-- * Atomic.antt, Atomic/: bootstrap/mbed_atomic_impl.h with exclusive access. The macro for a group of
--   functions is one definition over an `Opcode` and an `IntType`; a `Round` is what interrupts do
--   during one run of the instructions.
-- * Itm.antt, Itm/: hal/source/mbed_itm_api.c; `Fields` are the positions of CMSIS. Sent has what a
--   port is taken to do, Block the loops over a block, Init the setup.
-- * Wait.antt, Wait/: bootstrap/mbed_wait_api_no_rtos.c and _wait_us_inline of
--   bootstrap/mbed_wait_api.h. Ticks and Inline are about waiting on a ticker, Cycles about the delay
--   loop.
-- * Base.antt, Base/: Boolean tests on numbers, lists, words with their wrap-around, bit masks, and
--   `Run`, the outcome of code that may stop.
--
-- Outside code. The allocator, the mutex, the printers, the prefix and the suffix of the trace are
-- parameters (`Env`), and so is the fputc of printf. The string functions and formats of the C
-- library that the trace uses are written as the standard has them. The target's driver
-- (`Interface`) and the event handlers (`call`) are parameters; of the driver the theorems assume
-- at most that it reads ticks of its counter's width, and Data/Flag more of a timer. The theorems
-- about handlers assume that a handler returns and leaves the ticker alone (`Logging`), which the
-- concrete handler of Tests/ does.
--
-- Stops and bounds. MBED_ERROR and a failed MBED_ASSERT never return: they are `halted`. Each
-- `while` over the events has a number of rounds (`rounds` of `Config`, and an argument of
-- `dispatch`), and is `out_of_fuel` when they are used up; the theorems show that more rounds than
-- pending events are enough. The recursion of pinmap_find_peripheral_pins has `rounds` too, and
-- more of them than pins are enough. A step that C leaves undefined, such as a read behind a
-- buffer or an argument that is missing, is `undefined`. The loop over a format has a round for
-- each character. Numbers are natural numbers with the wrap-around of their C type written out;
-- the exponent -1 of exact_log2 is `negsuc 0`.
--
-- Hardware. The registers of the memory protection unit, of the ITM and of the tickers that are
-- waited on are parameters with laws: `IsUnit` says what the functions of CMSIS do to the regions,
-- `KeepsRegions` that setting attributes leaves them, `IsPort` that a port of the ITM is ready
-- after a bounded number of reads and takes a write then, `IsWritable` that its control registers
-- hold what is written once the key 0xC5ACCE55 has opened it and where the bits of the trace
-- control register stand, `IsClock` that a counter that runs goes on by a bounded step from read
-- to read and stands still for a bounded number of reads, and `IsTimer` that a timer runs from its
-- initialization until it is freed. Waiting has a number of reads as its fuel, and more than a
-- port can be busy for, or than a counter can stand still for in all the ticks of the time, are
-- enough. The atomic operations have a list of rounds, and one round without an interrupt between
-- the load and the store is enough. Memory barriers have no part in the states.
--
-- Build. The ratio is computed from the frequency (COMPUTE_RATIO_FROM_FREQUENCY) and the mask from
-- the number of bits; slow multiplication, trapped errors and assertions are fields of `Config`.
-- The minimal printf is the one with 64-bit integers and without floating point.
--
-- Not modelled: builds with constant ratio and mask; core_util_is_isr_active; floating point and
-- 32-bit builds of the minimal printf; the atomic loads, stores and barriers, the atomic
-- operations of 64 bits, which the repository has no source of, and those without exclusive
-- access; the other files of bootstrap/ and hal/source/, which have no module here;
-- bootstrap/mbed_error.c among them has only stubs.
pub mod Atomic
pub mod Base
pub mod Critical
pub mod Gpio
pub mod Itm
pub mod Mpu
pub mod Pinmap
pub mod Printf
pub mod Ticker
pub mod Trace
pub mod Wait

-- ===== src/Ticker/Tests/Board.antt =====
-- A concrete ticker for hal/source/mbed_ticker_api.c: a counter of 24 bits at 32768 Hz that makes
-- three ticks at every read, two pending events, and a handler that is logged.
use mcu_driver_hal.Base.{
  ℕ, ◌+◌, ◌%◌, ◌^◌, ◌<◌, ◌≡◌, refl, inl, Bool, true, false, List, [], ◌∷◌, ◌++◌, arith, Run, ok,
  ◌==◌, if◌then◌else◌,
}
use native.Mathlib.Nat.{mod-lt}
use mcu_driver_hal.Base.Words.{pos, negsuc}
use mcu_driver_hal.Critical.Nesting.{IsNested}
use mcu_driver_hal.Ticker.Types.{Ptr, null, Event, Interface, Queue, Config, Sys}
use mcu_driver_hal.Ticker.Ratio.{gcd, exact_log2}
use mcu_driver_hal.Ticker.Ratio.Log2.{IsLog2, exact_log2-IsLog2}
use mcu_driver_hal.Ticker.Ratio.Fields.{IsConfigured}
use mcu_driver_hal.Ticker.Api.Schedule.{IsValid}
use mcu_driver_hal.Ticker.Api.Insert.{IsFree}
use mcu_driver_hal.Ticker.Api.Handlers.{Stamp, Logging}

-- The chip: its counter, the tick of its interrupt, and the handler's calls.
pub record Chip : Type 0 where
  pub counter : ℕ
  pub match_tick : ℕ
  pub fired : Bool
  pub calls : List Stamp
  pub ticks_read : List ℕ

abbrev pub driver : Interface Chip
driver = record {
  init = λ h. record h { counter = 0 };
  read = λ h. (
    h.counter % 2 ^ 24,
    record h { counter = h.counter + 3; ticks_read = h.ticks_read ++ (h.counter % 2 ^ 24) ∷ [] },
  );
  disable_interrupt = λ h. h;
  clear_interrupt = λ h. record h { fired = false };
  set_interrupt = λ t h. record h { match_tick = t };
  fire_interrupt = λ h. record h { fired = true };
  free = λ h. h;
  get_info = record { frequency = 32768; bits = 24 };
  runs_in_deep_sleep = true;
}

pub driver-width : (h : Chip) → (driver.read h).0 < 2 ^ 24
driver-width h = mod-lt h.counter {m = 2 ^ 24} (omega arith)

abbrev pub config : Config
config = record { slow_multiply = true; trap_errors = true; assertions = true; rounds = 8 }

abbrev pub queue24 : Queue
queue24 = record {
  event_handler = 1;
  head = 10;
  period_num = 15625;
  period_den = 512;
  bitmask = 0xff_ffff;
  max_delta = 7340032;
  max_delta_us = 224000000;
  tick_last_read = 0xff_fff0;
  tick_remainder = 100;
  present_time = 5000;
  initialized = true;
  dispatching = false;
  suspended = false;
  period_num_shifts = negsuc 0;
  period_den_shifts = pos 9;
}

num-IsLog2 : IsLog2 32 15625 (negsuc 0)
unfolding exact_log2
num-IsLog2 = exact_log2-IsLog2 15625

pub queue24-IsConfigured : IsConfigured 32768 24 queue24
queue24-IsConfigured = record {
  period = record {
    num_pos = omega arith;
    den_pos = omega arith;
    num_le = omega arith;
    ratio = refl;
    frequency_lt = omega arith;
    num_shifts = num-IsLog2;
    den_shifts = (omega arith, refl);
  };
  counter = record { bits_ge = omega arith; bits_le = omega arith; mask = refl; sixteenth = refl };
  delta_us = refl;
}

gcd_runs : gcd 32768 1000000 (omega arith) ≡ 64
unfolding gcd
gcd_runs = refl

abbrev pub objects : Ptr → Event
objects p =
    if p == 10
    then (record { timestamp = 6000; id = 1; next = 20 })
    else if p == 20
    then (record { timestamp = 7000; id = 2; next = null })
    else (record { timestamp = 0; id = 0; next = null })

abbrev pub pending : List Ptr
pending = 10 ∷ 20 ∷ []

abbrev pub board : Sys Chip
board = record {
  queue = queue24;
  events = objects;
  critical = record {
    interrupts_enabled = true;
    critical_interrupts_enabled = false;
    state_saved = false;
    reentrancy_counter = 0;
  };
  hw = record { counter = 40; match_tick = 0; fired = true; calls = []; ticks_read = [] };
}

pub board-IsNested : IsNested true 0 board.critical
board-IsNested = record { counted = refl; saved = refl; masked = refl; restores = inl refl }

-- With any flags, since validity does not depend on them.
pub board-IsValid :
    (initialized suspended : Bool)
    → IsValid config 32768 24 pending (record board {
      queue = record queue24 { initialized = initialized; suspended = suspended };
    })
board-IsValid initialized suspended = record {
  timing = record {
    configured = record {
      period = record {
        num_pos = omega arith;
        den_pos = omega arith;
        num_le = omega arith;
        ratio = refl;
        frequency_lt = omega arith;
        num_shifts = num-IsLog2;
        den_shifts = (omega arith, refl);
      };
      counter = record {
        bits_ge = omega arith;
        bits_le = omega arith;
        mask = refl;
        sixteenth = refl;
      };
      delta_us = refl;
    };
    rest = omega arith;
    now = omega arith;
  };
  pending = record {
    chain = (refl, omega arith, (refl, omega arith, refl));
    distinct = (refl, (refl, tt));
    sorted = (omega arith, (omega arith, tt));
    times = (omega arith, (omega arith, tt));
    short = omega arith;
  };
}

pub object_30-IsFree : IsFree 8 30 pending
object_30-IsFree = record { not_null = omega arith; not_pending = refl; room = omega arith }

-- A handler that only does something of its own, which the chip logs.
abbrev pub call : (handler id : ℕ) → Sys Chip → Run (Sys Chip)
call handler id s =
    ok (record s { hw = record s.hw { calls = s.hw.calls ++ (id, s.queue.present_time) ∷ [] } })

pub logging : Logging driver call
logging = record {
  log = λ h. h.calls;
  effect = λ handler id now h. record h { calls = h.calls ++ (id, now) ∷ [] };
  runs = λ handler id s. refl;
  log-effect = λ handler id now h. refl;
  log-read = λ h. refl;
  log-set = λ t h. refl;
  log-fire = λ h. refl;
  log-clear = λ h. refl;
  seen = λ h. h.ticks_read;
  seen-read = λ h. refl;
  seen-effect = λ handler id now h. refl;
}

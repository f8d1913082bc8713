-- ===== src/Ticker/Ratio/Valid.antt =====
-- What `initialize` of hal/source/mbed_ticker_api.c establishes of the ratio, the mask and the
-- largest step.
use mcu_driver_hal.Base.{
  ℕ, ◌+◌, ◌-◌, ◌*◌, ◌/◌, ◌^◌, ◌≤◌, ◌<◌, ◌≡◌, ◌⊎◌, Bool, true, false, ◌||◌, ap, arith, ok, halted,
  Returns, ltb, ◌==◌, if◌then◌else◌,
}
use mcu_driver_hal.Base.Words.{u64, sub64}
use mcu_driver_hal.Ticker.Types.{Ptr, Info, Queue, Config}
use mcu_driver_hal.Ticker.Ratio.{
  one_second_us, effective_frequency, effective_bits, set_ratio, set_mask, set_max_delta_us,
  configure,
}
use mcu_driver_hal.Ticker.Ratio.Fields.{
  IsRatio, IsMasked, IsConfigured, set_ratio-IsRatio, set_mask-IsMasked, max_delta-lt, den-lt,
}

set_max_delta_us-eq :
    (f bits : ℕ) (q : Queue)
    → IsRatio f q
    → IsMasked bits q
    → IsConfigured f bits (set_max_delta_us q)
unfolding set_max_delta_us
set_max_delta_us-eq f bits q r m = record {
  period = record {
    num_pos = r.num_pos;
    den_pos = r.den_pos;
    num_le = r.num_le;
    ratio = r.ratio;
    frequency_lt = r.frequency_lt;
    num_shifts = r.num_shifts;
    den_shifts = r.den_shifts;
  };
  counter = record {
    bits_ge = m.bits_ge;
    bits_le = m.bits_le;
    mask = m.mask;
    sixteenth = m.sixteenth;
  };
  delta_us = ap (λ t. t / q.period_den) exact;
}
  where
    fits : q.max_delta * q.period_num ≤ 2 ^ 31 * one_second_us
    fits = let a = (max_delta-lt bits q m).1 in let b = r.num_le in grind arith

    exact :
        sub64 (u64 (u64 (q.max_delta * q.period_num) + q.period_den)) 1
        ≡ q.max_delta * q.period_num + q.period_den - 1
    exact = omega (arith, fits, den-lt f q r, r.num_le, r.den_pos)

-- The frequency and the width that `initialize` goes on with where it does not trap.
abbrev pub usable_frequency : ℕ → ℕ
usable_frequency frequency = if frequency == 0 then one_second_us else frequency

abbrev pub usable_bits : ℕ → ℕ
usable_bits bits = if ltb 32 bits || ltb bits 4 then 32 else bits

abbrev pub IsSound : Info → Type 0
IsSound info = (0 < info.frequency) × (4 ≤ info.bits) × (info.bits ≤ 32)

set_mask-IsRatio : (f bits : ℕ) (q : Queue) → IsRatio f q → IsRatio f (set_mask bits q)
unfolding set_mask
set_mask-IsRatio f bits q r = record {
  num_pos = r.num_pos;
  den_pos = r.den_pos;
  num_le = r.num_le;
  ratio = r.ratio;
  frequency_lt = r.frequency_lt;
  num_shifts = r.num_shifts;
  den_shifts = r.den_shifts;
}

configured :
    (f bits : ℕ) (q : Queue)
    → 0 < f
    → f < 2 ^ 32
    → 4 ≤ bits
    → bits ≤ 32
    → IsConfigured f bits (set_max_delta_us (set_mask bits (set_ratio f q)))
configured f bits q h lt lo hi =
    set_max_delta_us-eq f bits _ (set_mask-IsRatio f bits _ (set_ratio-IsRatio f q h lt))
      (set_mask-IsMasked bits _ lo hi)

effective_frequency-ok :
    (cfg : Config) (f : ℕ)
    → (cfg.trap_errors ≡ false) ⊎ (0 < f)
    → effective_frequency cfg f ≡ ok (usable_frequency f)
unfolding effective_frequency
effective_frequency-ok cfg f h = ground arith

effective_bits-ok :
    (cfg : Config) (bits : ℕ)
    → (cfg.trap_errors ≡ false) ⊎ ((4 ≤ bits) × (bits ≤ 32))
    → effective_bits cfg bits ≡ ok (usable_bits bits)
unfolding effective_bits
effective_bits-ok cfg bits h = ground arith

-- For a 32-bit frequency, where errors are not trapped or the driver's information is sound: the configuration returns
-- and is valid for the usable frequency and width.
pub configure-IsConfigured :
    (cfg : Config) (info : Info) (q : Queue)
    → info.frequency < 2 ^ 32
    → (cfg.trap_errors ≡ false) ⊎ IsSound info
    → Returns
        (IsConfigured (usable_frequency info.frequency) (usable_bits info.bits))
        (configure cfg info q)
unfolding configure
configure-IsConfigured cfg info q lt h =
    rw
      (
        effective_frequency-ok cfg info.frequency (ground arith),
        effective_bits-ok cfg info.bits (ground arith),
      )
      (configured _ _ q (ground arith) (ground arith) (ground arith) (ground arith))

-- Where errors are trapped, unsound information stops the system.
pub configure-halted :
    (cfg : Config) (info : Info) (q : Queue)
    → cfg.trap_errors ≡ true
    → ¬ IsSound info
    → configure cfg info q ≡ halted
unfolding configure effective_frequency effective_bits
configure-halted cfg info q trap bad = ground arith

-- The fields that change after initialisation.
pub record Running : Type 0 where
  pub event_handler : ℕ
  pub head : Ptr
  pub tick_last_read : ℕ
  pub tick_remainder : ℕ
  pub present_time : ℕ
  pub initialized : Bool
  pub dispatching : Bool
  pub suspended : Bool

abbrev pub with_running : Queue → Running → Queue
with_running q r = record q {
  event_handler = r.event_handler;
  head = r.head;
  tick_last_read = r.tick_last_read;
  tick_remainder = r.tick_remainder;
  present_time = r.present_time;
  initialized = r.initialized;
  dispatching = r.dispatching;
  suspended = r.suspended;
}

abbrev pub running : Queue → Running
running q = record {
  event_handler = q.event_handler;
  head = q.head;
  tick_last_read = q.tick_last_read;
  tick_remainder = q.tick_remainder;
  present_time = q.present_time;
  initialized = q.initialized;
  dispatching = q.dispatching;
  suspended = q.suspended;
}

-- None of them matters to the configuration.
pub IsConfigured-with_running :
    (f bits : ℕ) (q : Queue) (w : Running)
    → IsConfigured f bits q
    → IsConfigured f bits (with_running q w)
IsConfigured-with_running f bits q w c =
    let r = c.period in
    let m = c.counter in
    record {
      period = record {
        num_pos = r.num_pos;
        den_pos = r.den_pos;
        num_le = r.num_le;
        ratio = r.ratio;
        frequency_lt = r.frequency_lt;
        num_shifts = r.num_shifts;
        den_shifts = r.den_shifts;
      };
      counter = record {
        bits_ge = m.bits_ge;
        bits_le = m.bits_le;
        mask = m.mask;
        sixteenth = m.sixteenth;
      };
      delta_us = c.delta_us;
    }

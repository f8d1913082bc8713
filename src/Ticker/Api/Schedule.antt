-- ===== src/Ticker/Api/Schedule.antt =====
-- `schedule_interrupt` and `update_present_time` of hal/source/mbed_ticker_api.c on a valid ticker.
pub mod Outcome
pub mod Keeps
pub mod Reads
use mcu_driver_hal.Base.{
  ℕ, zero, suc, ◌+◌, ◌-◌, ◌%◌, ◌^◌, ◌≤◌, ◌<◌, bit_and, ◌≡◌, ◌≢◌, refl, ap, ap₂, subst, sym, ◌∙◌,
  inl, inr, Bool, true, false, ◌||◌, List, [], ◌∷◌, arith, Run, ok, ◌>>=◌, Returns, All, ltb, leb,
  ◌==◌, ==-ne, length, has, Distinct, Bool-cases, if◌then◌else◌,
}
use mcu_driver_hal.Critical.{Critical}
use mcu_driver_hal.Ticker.Types.{Ptr, null, Event, Interface, Queue, Config, Sys}
use mcu_driver_hal.Ticker.Ratio.Valid.{IsConfigured-with_running, with_running, running, Running}
use mcu_driver_hal.Ticker.Ratio.Fields.{IsConfigured}
use mcu_driver_hal.Ticker.Clock.{advance}
use mcu_driver_hal.Ticker.Clock.Advance.{
  Advanced, advance-Advanced, advance-with_running, advance-IsConfigured,
}
use mcu_driver_hal.Ticker.Events.{Memory}
use mcu_driver_hal.Ticker.Events.Chain.{Chain, Entry, entries, SortedFrom}
use mcu_driver_hal.Ticker.Api.{update_present_time}

-- What the clock of a ticker keeps: a valid configuration, a remainder below one microsecond and a
-- 64-bit time.
pub record IsTiming (f bits : ℕ) (q : Queue) : Type 0 where
  pub configured : IsConfigured f bits q
  pub rest : q.tick_remainder < q.period_den
  pub now : q.present_time < 2 ^ 64

abbrev pub IsTime : Entry → Type 0
IsTime e = e.0 < 2 ^ 64

-- What the events keep: `xs` are the pending objects, in the order of their times.
pub record IsPending (rounds : ℕ) (m : Memory) (head : Ptr) (xs : List Ptr) : Type 0 where
  pub chain : Chain m head xs
  pub distinct : Distinct xs
  pub sorted : SortedFrom 0 (entries m xs)
  pub times : All IsTime (entries m xs)
  pub short : length xs < rounds

pub record IsValid {H : Type 0} (cfg : Config) (f bits : ℕ) (xs : List Ptr) (s : Sys H)
    : Type 0 where
  pub timing : IsTiming f bits s.queue
  pub pending : IsPending cfg.rounds s.events s.queue.head xs

pub IsTiming-with_running :
    (f bits : ℕ) (q : Queue) (w : Running)
    → IsTiming f bits q
    → w.tick_remainder < q.period_den
    → w.present_time < 2 ^ 64
    → IsTiming f bits (with_running q w)
IsTiming-with_running f bits q w t rest now = record {
  configured = IsConfigured-with_running f bits q w t.configured;
  rest = rest;
  now = now;
}

pub advance-IsTiming :
    (cfg : Config) (f bits : ℕ) (q : Queue) (t : ℕ)
    → IsTiming f bits q
    → IsTiming f bits (advance cfg q t)
advance-IsTiming cfg f bits q t v =
    let a = advance-Advanced cfg f bits q t v.configured.period v.configured.counter v.rest v.now in
    let den : (advance cfg q t).period_den ≡ q.period_den =
      ap (λ (x : Queue). x.period_den) (advance-with_running cfg q t) in
    record {
      configured = advance-IsConfigured cfg f bits q t v.configured;
      rest = rw den a.rest;
      now = omega (arith, a.present);
    }

module _ {H : Type 0} (cfg : Config) (i : Interface H) (s : Sys H) where
  -- The state after a read that is acted on.
  abbrev pub updated : Sys H
  updated = record s { queue = advance cfg s.queue (i.read s.hw).0; hw = (i.read s.hw).1 }

  pub update_suspended : s.queue.suspended ≡ true → update_present_time cfg i s ≡ s
  unfolding update_present_time
  update_suspended e = ap (λ b. if b then s else updated) e

  pub update_active : s.queue.suspended ≡ false → update_present_time cfg i s ≡ updated
  unfolding update_present_time
  update_active e = ap (λ b. if b then s else updated) e

  advanced : Queue
  advanced = advance cfg s.queue (i.read s.hw).0

  advanced-eq :
      advanced
      ≡ with_running s.queue (record (running s.queue) {
        tick_last_read = (i.read s.hw).0;
        tick_remainder = advanced.tick_remainder;
        present_time = advanced.present_time;
      })
  unfolding advanced
  advanced-eq = advance-with_running cfg s.queue (i.read s.hw).0

  -- An update leaves the events, the head and the flags alone.
  pub update-frame :
      ((update_present_time cfg i s).events ≡ s.events)
      × ((update_present_time cfg i s).queue.head ≡ s.queue.head)
      × ((update_present_time cfg i s).queue.suspended ≡ s.queue.suspended)
      × ((update_present_time cfg i s).queue.dispatching ≡ s.queue.dispatching)
      × ((update_present_time cfg i s).queue.event_handler ≡ s.queue.event_handler)
      × ((update_present_time cfg i s).critical ≡ s.critical)
      × ((update_present_time cfg i s).queue.initialized ≡ s.queue.initialized)
  unfolding advanced
  update-frame = elim (Bool-cases s.queue.suspended) [
    | inl e ↦ rw (update_suspended e) (refl, refl, refl, refl, refl, refl, refl)
    | inr e ↦ rw (update_active e) (
      refl,
      ap (λ (x : Queue). x.head) advanced-eq,
      ap (λ (x : Queue). x.suspended) advanced-eq,
      ap (λ (x : Queue). x.dispatching) advanced-eq,
      ap (λ (x : Queue). x.event_handler) advanced-eq,
      refl,
      ap (λ (x : Queue). x.initialized) advanced-eq,
    )
  ]

  pub update-IsTiming :
      (f bits : ℕ) → IsTiming f bits s.queue → IsTiming f bits (update_present_time cfg i s).queue
  update-IsTiming f bits v = elim (Bool-cases s.queue.suspended) [
    | inl e ↦ rw (update_suspended e) v
    | inr e ↦ rw (update_active e) (advance-IsTiming cfg f bits s.queue (i.read s.hw).0 v)
  ]

  pub update-IsValid :
      (f bits : ℕ) (xs : List Ptr)
      → IsValid cfg f bits xs s
      → IsValid cfg f bits xs (update_present_time cfg i s)
  update-IsValid f bits xs v = record {
    timing = update-IsTiming f bits v.timing;
    pending = rw (update-frame.0, update-frame.1) v.pending;
  }

  -- The clock does not depend on the critical section.
  pub update-critical :
      (c : Critical)
      → (update_present_time cfg i (record s { critical = c })).queue
        ≡ (update_present_time cfg i s).queue
  unfolding update_present_time
  update-critical c =
      elim s.queue.suspended
        as (λ b.
          (if b then record s { critical = c } else record updated { critical = c }).queue
          ≡ (if b then s else updated).queue) [ true ↦ refl | false ↦ refl ]

-- ===== src/Ticker/Clock/Interval.antt =====
-- `_ticker_match_interval_passed` of hal/source/mbed_ticker_api.c.
use mcu_driver_hal.Base.{
  ℕ, ◌+◌, ◌-◌, ◌%◌, ◌≤◌, ◌<◌, ◌≡◌, ◌↔◌, inl, inr, true, ◌∙◌, arith, ltb, ltb→lt, Bool-cases,
  if◌then◌else◌,
}
use native.Mathlib.Nat.{mod-eq_of_lt, mod-eq-sub-mod}
use mcu_driver_hal.Ticker.Clock.{_ticker_match_interval_passed}

-- Ticks from `a` to `b` on a counter with `n` values, a whole round where they are equal.
abbrev pub ticks_after : ℕ → ℕ → ℕ → ℕ
ticks_after n a b = (b + n - a - 1) % n + 1

mod-wrap : (n x : ℕ) → x < n + n → x % n ≡ (if ltb x n then x else x - n)
mod-wrap n x h = elim (Bool-cases (ltb x n)) [
  | inl e ↦ rw e (mod-eq_of_lt (ltb→lt x n e))
  | inr e ↦ let le : n ≤ x = ground arith in rw e (mod-eq-sub-mod le ∙ mod-eq_of_lt (omega arith))
]

-- For ticks of a counter that wraps at `n`, the function says exactly whether the counter, which
-- went from `prev` to `cur` in less than a round, has reached `match` on the way.
pub match_interval_passed_iff :
    (n prev cur m : ℕ)
    → prev < n
    → cur < n
    → m < n
    → (_ticker_match_interval_passed prev cur m ≡ true)
      ↔ (ticks_after n prev m ≤ (cur + n - prev) % n)
unfolding _ticker_match_interval_passed
match_interval_passed_iff n prev cur m hp hc hm =
    let wrap_m = mod-wrap n (m + n - prev - 1) (omega arith) in
    let wrap_c = mod-wrap n (cur + n - prev) (omega arith) in
    rw (wrap_m, wrap_c) (ground arith, ground arith)

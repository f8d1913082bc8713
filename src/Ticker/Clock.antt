-- ===== src/Ticker/Clock.antt =====
-- The time arithmetic of hal/source/mbed_ticker_api.c: ticks to microseconds and back.
pub mod Convert
pub mod Advance
pub mod RoundUp
pub mod Interval
use mcu_driver_hal.Base.{
  ℕ, ◌+◌, ◌-◌, ◌*◌, ◌/◌, ◌%◌, ◌^◌, bit_and, Bool, true, false, ◌&&◌, ◌||◌, ltb, leb, ◌==◌,
  if◌then◌else◌,
}
use mcu_driver_hal.Base.Words.{ℤ, pos, negsuc, u32, u64, sub32, sub64, shl64, shr}
use mcu_driver_hal.Ticker.Types.{Queue, Config}

-- `ref & ~UINT32_MAX` clears the low half of a 64-bit number, and `|` fills it.
unfoldable pub convert_timestamp : (ref timestamp : ℕ) → ℕ
convert_timestamp ref timestamp =
    let overflow = ltb timestamp (u32 ref) in
    let result = ref / 2 ^ 32 * 2 ^ 32 + timestamp in
    if overflow then u64 (result + 2 ^ 32) else result

-- `x << shifts` where the factor is a power of two and multiplication is slow, else `x * factor`.
unfoldable pub scale : (slow : Bool) (shifts : ℤ) (factor x : ℕ) → ℕ
scale slow (pos k) factor x = if slow then shl64 x k else u64 (x * factor)
scale slow (negsuc k) factor x = u64 (x * factor)

-- The elapsed microseconds and the new remainder, from the scaled ticks.
unfoldable pub split_scaled : (shifts : ℤ) (den remainder scaled_ticks : ℕ) → ℕ × ℕ
split_scaled (pos k) den remainder scaled_ticks =
    if k == 0
    then (scaled_ticks, remainder)
    else (let scaled = u64 (scaled_ticks + remainder) in
        let elapsed_us = shr scaled k in (elapsed_us, u32 (sub64 scaled (shl64 elapsed_us k))))
split_scaled (negsuc k) den remainder scaled_ticks =
    let scaled = u64 (scaled_ticks + remainder) in
    let elapsed_us = scaled / den in (elapsed_us, u32 (sub64 scaled (u64 (elapsed_us * den))))

-- `update_present_time` once the ticker is read, on a queue that is not suspended.
unfoldable pub advance : Config → Queue → (ticker_time : ℕ) → Queue
unfolding scale split_scaled
advance cfg q ticker_time =
    if ticker_time == q.tick_last_read
    then q
    else (let elapsed_ticks = bit_and (sub32 ticker_time q.tick_last_read) q.bitmask in
        let scaled_ticks = scale cfg.slow_multiply q.period_num_shifts q.period_num elapsed_ticks in
        let (elapsed_us, remainder) =
          split_scaled q.period_den_shifts q.period_den q.tick_remainder scaled_ticks in
        record q {
          tick_last_read = ticker_time;
          tick_remainder = remainder;
          present_time = u64 (q.present_time + elapsed_us);
        })

-- `scaled_delta` to ticks, rounded up.
unfoldable pub ceil_scaled : (shifts : ℤ) (num scaled_delta : ℕ) → ℕ
ceil_scaled (pos k) num scaled_delta =
    if k == 0 then u32 scaled_delta else u32 (shr (u64 (scaled_delta + sub32 num 1)) k)
ceil_scaled (negsuc k) num scaled_delta = u32 (u64 (scaled_delta + sub32 num 1) / num)

unfoldable pub compute_tick_round_up : Config → Queue → (timestamp : ℕ) → ℕ
unfolding scale ceil_scaled
compute_tick_round_up cfg q timestamp =
    let delta_us = sub64 timestamp q.present_time in
    let scaled_delta = scale cfg.slow_multiply q.period_den_shifts q.period_den delta_us in
    let delta = ceil_scaled q.period_num_shifts q.period_num scaled_delta in
    let capped = if ltb q.max_delta delta then q.max_delta else delta in
    let steps = if leb delta_us q.max_delta_us then capped else q.max_delta in
    bit_and (u32 (q.tick_last_read + steps)) q.bitmask

unfoldable pub _ticker_match_interval_passed : (prev_tick cur_tick match_tick : ℕ) → Bool
_ticker_match_interval_passed prev_tick cur_tick match_tick =
    if ltb prev_tick match_tick
    then leb match_tick cur_tick || ltb cur_tick prev_tick
    else ltb cur_tick prev_tick && leb match_tick cur_tick

-- ===== src/Trace/Array.antt =====
-- `mbed_trace_array` of bootstrap/mbed_trace.c.
pub mod Bounds
pub mod Written
use mcu_driver_hal.Base.{
  ℕ, zero, suc, ◌+◌, ◌-◌, ◌/◌, ◌%◌, ◌^◌, Bool, true, false, not, ◌&&◌, ◌||◌, Option, none, some,
  List, [], ◌∷◌, ◌++◌, Run, ok, undefined, ◌>>=◌, leb, ltb, ◌==◌, if◌then◌else◌,
}
use mcu_driver_hal.Printf.{Text, int2hex}
use mcu_driver_hal.Trace.{acquire}
use mcu_driver_hal.Trace.State.{Memory, write, write_bytes, Env, Trace}

-- What "%02x:" prints.
abbrev pub byte_text : ℕ → Text
byte_text b = int2hex false (b / 2 ^ 4 % 2 ^ 4) ∷ int2hex false (b % 2 ^ 4) ∷ b':' ∷ []

-- The pointer returned: to "", to "<null>" or into the temporary buffer.
pub data Pointer : Type 0 where
  to_empty to_null : Pointer
  to : ℕ → Pointer

-- tmp_data_left(), which is negative where the pointer is too far behind the buffer.
abbrev pub tmp_data_left : (tmp_length tmp ptr : ℕ) → ℕ × Bool
tmp_data_left tmp_length tmp ptr = (tmp_length + tmp - ptr, ltb (tmp_length + tmp) ptr)

-- The rest of the loop: the memory, `wptr` and `overflow`. snprintf writes three characters and NUL
-- where more than three are left.
unfoldable pub array_loop :
    (buf : Text) (len : ℕ) (left : ℕ) (wptr : ℕ) → Memory → Run (Memory × ℕ × Bool)
array_loop buf zero left wptr m = ok (m, wptr, false)
array_loop [] (suc len) left wptr m = if leb left 3 then ok (m, wptr, true) else undefined
array_loop (b ∷ buf) (suc len) left wptr m =
    let rest =
      array_loop buf len (left - 3) (wptr + 3) (write_bytes m wptr (byte_text b ++ 0 ∷ [])) in
    if leb left 3 then ok (m, wptr, true) else rest

-- The last character becomes a star on overflow, and NUL otherwise.
abbrev pub close_array : (str wptr : ℕ) → Bool → Memory → Memory
close_array str wptr overflow m =
    if ltb str wptr then write m (wptr - 1) (if overflow then b'*' else 0) else m

module _ {H : Type 0} (env : Env H) where
  unfoldable pub mbed_trace_array :
      (buf : Option Text) (len : ℕ) → Trace H → Run (Pointer × Trace H)
  mbed_trace_array buf len s0 =
      let s = acquire env s0 in
      let str = s.tmp_data_ptr in
      let (left, negative) = tmp_data_left s.tmp_data_length s.tmp_data str in
      if (len == 0) || (str == 0) || ((left == 0) && not negative)
      then ok (to_empty, s)
      else elim buf [
        | none ↦ ok (to_null, s)
        | some bytes ↦ do
          (m, wptr, overflow) ← array_loop bytes len left str (write s.memory str 0)
          ok (to str, record s { memory = close_array str wptr overflow m; tmp_data_ptr = wptr })
      ]

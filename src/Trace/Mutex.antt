-- ===== src/Trace/Mutex.antt =====
-- The mutex of bootstrap/mbed_trace.c: `mbed_trace_array` keeps it, and `mbed_vtracef` gives it back.
use mcu_driver_hal.Base.{
  ℕ, zero, suc, ◌+◌, ◌-◌, ◌<◌, ◌≡◌, ◌≢◌, refl, sym, ◌∙◌, inl, inr, true, not, ◌&&◌, ◌||◌, Option,
  some, [], ◌∷◌, ◌++◌, length, arith, ok, ◌>>=◌, Returns, Returns-bind, leb, ltb, ◌==◌, if-both,
}
use mcu_driver_hal.Printf.{Text}
use mcu_driver_hal.Trace.{acquire, release_all, release_mutex}
use mcu_driver_hal.Trace.State.{Memory, write, write_bytes, Env, Trace}
use mcu_driver_hal.Trace.Held.{with_mutex, acquire-cases, acquire-set, release-cases}
use mcu_driver_hal.Trace.Array.{byte_text, to_empty, to, array_loop, close_array, mbed_trace_array}
use mcu_driver_hal.Trace.Line.{mbed_vtracef}
use mcu_driver_hal.Trace.Line.Skipped.{HasFilters, traced, vtracef-eq}
use mcu_driver_hal.Trace.Leaves.{Counts, traced-Leaves}

array_loop-Returns :
    (bytes : Text) (left wptr : ℕ) (m : Memory)
    → Returns (λ r. Unit) (array_loop bytes (length bytes) left wptr m)
unfolding array_loop
array_loop-Returns [] left wptr m = tt
array_loop-Returns (b ∷ bytes) left wptr m =
    if-both (Returns (λ r. Unit)) (leb left 3) (ok (m, wptr, true))
      (array_loop bytes (length bytes) (left - 3) (wptr + 3)
        (write_bytes m wptr (byte_text b ++ 0 ∷ [])))
      tt
      (array_loop-Returns bytes (left - 3) (wptr + 3) (write_bytes m wptr (byte_text b ++ 0 ∷ [])))

module _ {H : Type 0} (env : Env H) (held : H → ℕ) (c : Counts env held) where
  -- The count that the code keeps is the mutex's own.
  abbrev pub IsBalanced : Trace H → Type 0
  IsBalanced s = s.mutex_lock_count ≡ held s.world

  acquire-IsBalanced : (s : Trace H) → IsBalanced s → IsBalanced (acquire env s)
  acquire-IsBalanced s b = elim (acquire-cases env s) [
    | inl e ↦ rw e b
    | inr e ↦ rw e (omega (arith, b, c.waits s.mutex_wait_f s.world))
  ]

  release_all-held :
      (f count : ℕ) (h : H) → 0 < count → held (release_all env f count h) ≡ held h - count
  unfolding release_all
  release_all-held f zero h more = absurd (omega arith)
  release_all-held f (suc zero) h more = c.releases f h
  release_all-held f (suc (suc count)) h more =
      release_all-held f (suc count) (env.release f h) (omega arith) ∙ omega (arith, c.releases f h)

  -- For a mutex that waiting locks once more, releasing once less and printing not at all:
  -- `mbed_trace_array` returns for every array of the length it is given, and where the count of the
  -- locks was how often the mutex is held, it is so afterwards.
  pub mbed_trace_array-IsBalanced :
      (bytes : Text) (s : Trace H)
      → IsBalanced s
      → Returns (λ r. IsBalanced r.1) (mbed_trace_array env (some bytes) (length bytes) s)
  unfolding mbed_trace_array
  mbed_trace_array-IsBalanced bytes s b =
      let t : Trace H = acquire env s in
      let left : ℕ = t.tmp_data_length + t.tmp_data - t.tmp_data_ptr in
      if-both (Returns (λ r. IsBalanced r.1))
        ((length bytes == 0)
          || (t.tmp_data_ptr == 0)
          || ((left == 0) && not (ltb (t.tmp_data_length + t.tmp_data) t.tmp_data_ptr)))
        (ok (to_empty, t))
        (do
          (m, wptr, overflow) ←
              array_loop bytes (length bytes) left t.tmp_data_ptr (write t.memory t.tmp_data_ptr 0)
          ok (
            to t.tmp_data_ptr,
            record t { memory = close_array t.tmp_data_ptr wptr overflow m; tmp_data_ptr = wptr },
          ))
        (acquire-IsBalanced s b)
        (Returns-bind (λ r. Unit) (λ r. IsBalanced r.1)
          (array_loop bytes (length bytes) left t.tmp_data_ptr (write t.memory t.tmp_data_ptr 0))
          (λ (m, wptr, overflow). ok (
            to t.tmp_data_ptr,
            record t { memory = close_array t.tmp_data_ptr wptr overflow m; tmp_data_ptr = wptr },
          ))
          (array_loop-Returns bytes left t.tmp_data_ptr (write t.memory t.tmp_data_ptr 0))
          (λ r u. acquire-IsBalanced s b))

  -- The mutex is free, and so is the count.
  abbrev pub IsFree : Trace H → Type 0
  IsFree r = (held r.world ≡ 0) × (r.mutex_lock_count ≡ 0)

  release_mutex-IsFree :
      (s : Trace H)
      → s.mutex_release_f ≢ 0
      → 0 < s.mutex_lock_count
      → IsBalanced s
      → IsFree (release_mutex env s)
  release_mutex-IsFree s real more b = elim (release-cases env s) [
    | inl (z, e) ↦ absurd (real (ground arith))
    | inr (z, e) ↦ rw e (
      release_all-held s.mutex_release_f s.mutex_lock_count s.world more ∙ omega (arith, b),
      refl,
    )
  ]

  -- For a mutex that waiting locks once more, releasing once less and printing not at all, with
  -- functions to wait for it and to release it, a line buffer that is not NULL and apart from the
  -- filter buffers, these holding texts that end in them, and the count of the locks being how often
  -- the mutex is held: `mbed_vtracef` returns for every level, group, text and configuration, and
  -- after it the mutex is not held any more, however often it was held before, and the count is 0.
  pub mbed_vtracef-IsFree :
      (dlevel : ℕ) (grp body : Option Text) (exclude include : Text) (s : Trace H)
      → s.mutex_wait_f ≢ 0
      → s.mutex_release_f ≢ 0
      → s.line ≢ 0
      → HasFilters exclude include (with_mutex env s)
      → IsBalanced s
      → Returns IsFree (mbed_vtracef env dlevel grp body s)
  mbed_vtracef-IsFree dlevel grp body exclude include s waits real set f b =
      let t : Trace H = with_mutex env s in
      let (same, count, release) = traced-Leaves env held c dlevel exclude include grp body t in
      let held_one : acquire env s ≡ t = acquire-set env s waits in
      rw (vtracef-eq env dlevel grp body exclude include s t held_one set f) (
        release_mutex-IsFree (traced env dlevel exclude include grp body t)
          (λ e. real (sym release ∙ e)) (omega (arith, count))
          (omega (arith, count, same, b, c.waits s.mutex_wait_f s.world)))

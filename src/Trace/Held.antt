-- ===== src/Trace/Held.antt =====
-- The mutex of bootstrap/mbed_trace.c: what acquiring and releasing it leaves as it was.
use mcu_driver_hal.Base.{
  ℕ, ◌+◌, ◌≡◌, ◌≢◌, ◌⊎◌, refl, inl, inr, true, false, arith, ◌==◌, Bool-cases, if◌then◌else◌,
}
use mcu_driver_hal.Trace.{acquire, release_all, release_mutex}
use mcu_driver_hal.Trace.State.{Env, Trace}

module _ {H : Type 0} (env : Env H) where
  abbrev pub with_mutex : Trace H → Trace H
  with_mutex t = record t {
    world = env.wait t.mutex_wait_f t.world;
    mutex_lock_count = t.mutex_lock_count + 1;
  }

  pub acquire-cases : (s : Trace H) → (acquire env s ≡ s) ⊎ (acquire env s ≡ with_mutex s)
  unfolding acquire
  acquire-cases s = elim (Bool-cases (s.mutex_wait_f == 0)) [
    | inl e ↦ inl (rw e refl)
    | inr e ↦ inr (rw e refl)
  ]

  pub acquire-set : (s : Trace H) → s.mutex_wait_f ≢ 0 → acquire env s ≡ with_mutex s
  unfolding acquire
  acquire-set s set = let e : (s.mutex_wait_f == 0) ≡ false = ground arith in rw e refl

  abbrev pub without_mutex : Trace H → Trace H
  without_mutex t = record t {
    mutex_lock_count = 0;
    world = release_all env t.mutex_release_f t.mutex_lock_count t.world;
  }

  pub release-cases :
      (s : Trace H)
      → ((s.mutex_release_f == 0) ≡ true) × (release_mutex env s ≡ s)
        ⊎ ((s.mutex_release_f == 0) ≡ false) × (release_mutex env s ≡ without_mutex s)
  unfolding release_mutex
  release-cases s = elim (Bool-cases (s.mutex_release_f == 0)) [
    | inl e ↦ inl (e, rw e refl)
    | inr e ↦ inr (e, rw e refl)
  ]

  pub release_mutex-memory : (s : Trace H) → (release_mutex env s).memory ≡ s.memory
  release_mutex-memory s = elim (release-cases s) [
    | inl (z, e) ↦ rw e refl
    | inr (z, e) ↦ rw e refl
  ]

  -- What is outside, after the mutex is released where there is a function to release it.
  abbrev pub released : (release_f count : ℕ) → H → H
  released release_f count h = if release_f == 0 then h else release_all env release_f count h

  pub release_mutex-world :
      (s : Trace H)
      → (release_mutex env s).world ≡ released s.mutex_release_f s.mutex_lock_count s.world
  release_mutex-world s = elim (release-cases s) [
    | inl (z, e) ↦ simp (e, z) refl
    | inr (z, e) ↦ simp (e, z) refl
  ]

  pub release_mutex-tmp : (s : Trace H) → (release_mutex env s).tmp_data_ptr ≡ s.tmp_data_ptr
  release_mutex-tmp s = elim (release-cases s) [ inl (z, e) ↦ rw e refl | inr (z, e) ↦ rw e refl ]

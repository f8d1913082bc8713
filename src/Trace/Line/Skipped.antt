-- ===== src/Trace/Line/Skipped.antt =====
-- The filters' part in `mbed_vtracef` of bootstrap/mbed_trace.c.
use mcu_driver_hal.Base.{
  ℕ, ◌+◌, ◌≤◌, ◌<◌, ◌≡◌, ◌≢◌, ◌⊎◌, refl, ap, sym, ◌∙◌, inl, inr, Bool, false, ◌&&◌, Option, none,
  some, length, arith, ok, ltb, ◌==◌, Bool-cases, if◌then◌else◌,
}
use mcu_driver_hal.Printf.{Text}
use mcu_driver_hal.Trace.{mbed_trace_reset_tmp, mbed_trace_skip, acquire, release_mutex}
use mcu_driver_hal.Trace.State.{Memory, write, Env, Trace}
use mcu_driver_hal.Trace.Line.{trace_given, mbed_vtracef}
use mcu_driver_hal.Trace.Filters.{IsPlain, is_skipped, skip-Stands}
use mcu_driver_hal.Trace.Array.Bounds.{Stands, Stands-frame, write-off}

-- The filter buffers hold these texts, and the line does not begin in one of them.
pub record HasFilters {H : Type 0} (exclude include : Text) (s : Trace H) : Type 0 where
  pub exclude_plain : IsPlain exclude
  pub include_plain : IsPlain include
  pub exclude_short : length exclude < s.filters_length
  pub include_short : length include < s.filters_length
  pub exclude_text : Stands s.memory s.filters_exclude exclude
  pub include_text : Stands s.memory s.filters_include include
  pub exclude_apart : (s.line < s.filters_exclude) ⊎ (s.filters_exclude + s.filters_length ≤ s.line)
  pub include_apart : (s.line < s.filters_include) ⊎ (s.filters_include + s.filters_length ≤ s.line)

abbrev pub is_filtered : (dlevel : ℕ) (exclude include : Text) (grp : Option Text) → Bool
is_filtered dlevel exclude include none = false
is_filtered dlevel exclude include (some grp) = ltb dlevel 128 && is_skipped exclude include grp

abbrev pub cleared : {H : Type 0} → Trace H → Trace H
cleared s = record s { memory = write s.memory s.line 0 }

clear-Stands :
    (m : Memory) (line p n : ℕ) (t : Text)
    → length t < n
    → (line < p) ⊎ (p + n ≤ line)
    → Stands m p t
    → Stands (write m line 0) p t
clear-Stands m line p n t short apart s =
    Stands-frame m (write m line 0) p t
      (λ a lo hi.
        write-off m line 0 a
          (elim apart [ inl h ↦ (λ e. omega arith) | inr h ↦ (λ e. omega arith) ]))
      s

module _ {H : Type 0} where
  skip-eq :
      (dlevel : ℕ) (grp : Option Text) (exclude include : Text) (s : Trace H)
      → HasFilters exclude include s
      → mbed_trace_skip dlevel grp (cleared s) ≡ ok (is_filtered dlevel exclude include grp)
  unfolding mbed_trace_skip
  skip-eq dlevel none exclude include s f = refl
  skip-eq dlevel (some grp) exclude include s f = elim (Bool-cases (ltb dlevel 128)) [
    | inl low ↦
        (skip-Stands dlevel grp exclude include (cleared s) (ground arith) f.exclude_plain
          f.include_plain f.exclude_short f.include_short
          (clear-Stands s.memory s.line s.filters_exclude s.filters_length exclude f.exclude_short
            f.exclude_apart f.exclude_text)
          (clear-Stands s.memory s.line s.filters_include s.filters_length include f.include_short
            f.include_apart f.include_text))
        ∙ ap (λ b. ok (b && is_skipped exclude include grp)) (sym low)
    | inr high ↦ rw high refl
  ]

module _ {H : Type 0} (env : Env H) where
  -- What runs between the two uses of the mutex.
  abbrev pub traced :
      (dlevel : ℕ) (exclude include : Text) (grp body : Option Text) → Trace H → Trace H
  traced dlevel exclude include grp body s =
      if is_filtered dlevel exclude include grp
      then mbed_trace_reset_tmp (cleared s)
      else trace_given env dlevel grp body (cleared s)

  pub vtracef-eq :
      (dlevel : ℕ) (grp body : Option Text) (exclude include : Text) (s0 s : Trace H)
      → acquire env s0 ≡ s
      → s.line ≢ 0
      → HasFilters exclude include s
      → mbed_vtracef env dlevel grp body s0
        ≡ ok (release_mutex env (traced dlevel exclude include grp body s))
  unfolding mbed_vtracef
  vtracef-eq dlevel grp body exclude include s0 s held set f =
      let real : (s.line == 0) ≡ false = ground arith in
      rw (held, real, skip-eq dlevel grp exclude include s f) refl

-- ===== src/Trace/Line/Printed/Call.antt =====
-- A whole call of `mbed_vtracef` of bootstrap/mbed_trace.c that prints a decorated line.
use mcu_driver_hal.Base.{
  ℕ, ◌<◌, ◌≡◌, ◌≢◌, refl, ap, sym, subst, ◌∙◌, inl, inr, true, false, ◌||◌, some, length, arith,
  Returns, ◌==◌, ◌!=◌, bit_and,
}
use mcu_driver_hal.Printf.{Text}
use mcu_driver_hal.Trace.{mbed_trace_reset_tmp, acquire, release_mutex}
use mcu_driver_hal.Trace.State.{Env, Trace}
use mcu_driver_hal.Trace.Held.{
  acquire-cases, released, release_mutex-memory, release_mutex-world, release_mutex-tmp,
}
use mcu_driver_hal.Trace.Line.{make_line, trace_line, trace_body, trace_given, mbed_vtracef}
use mcu_driver_hal.Trace.Line.Bounds.{start-Kept}
use mcu_driver_hal.Trace.Line.Pieces.{append_nil}
use mcu_driver_hal.Trace.Line.Skipped.{HasFilters, is_filtered, cleared, traced, vtracef-eq}
use mcu_driver_hal.Trace.Line.Printed.{make_line-Kept}
use mcu_driver_hal.Trace.Line.Content.{line_text}
use mcu_driver_hal.Trace.Array.Bounds.{Stands}

module _ {H : Type 0} (env : Env H) where
  -- The text stands at the line, the printer was given it between the uses of the mutex, and the
  -- temporary buffer is empty again.
  pub record Prints (text : Text) (h : H) (s r : Trace H) : Type 0 where
    pub stands : Stands r.memory s.line text
    pub told :
        r.world
        ≡ released env s.mutex_release_f s.mutex_lock_count (env.print s.printf r.memory s.line h)
    pub reset : r.tmp_data_ptr ≡ s.tmp_data

  traced-eq :
      (dlevel : ℕ) (grp body exclude include : Text) (s : Trace H)
      → is_filtered dlevel exclude include (some grp) ≡ false
      → s.printf ≢ 0
      → (bit_and (bit_and s.trace_config 0x1F) dlevel != 0) ≡ true
      → ((bit_and s.trace_config 0x80 != 0) || (dlevel == 0x01)) ≡ false
      → traced env dlevel exclude include (some grp) (some body) s
        ≡ mbed_trace_reset_tmp (trace_line env dlevel grp body (cleared s))
  unfolding trace_given trace_body
  traced-eq dlevel grp body exclude include s wanted printer enabled decorated =
      let given : (s.printf == 0) ≡ false = ground arith in
      simp (wanted, given, enabled, decorated) refl

  trace_line-Prints :
      (dlevel : ℕ) (grp body : Text) (s : Trace H)
      → 0 < s.line_length
      → length (line_text env dlevel grp body s).0 < s.line_length
      → Prints
          (line_text env dlevel grp body s).0
          (line_text env dlevel grp body s).1
          s
          (release_mutex env (mbed_trace_reset_tmp (trace_line env dlevel grp body (cleared s))))
  unfolding trace_line mbed_trace_reset_tmp
  trace_line-Prints dlevel grp body s room fits =
      let t : Trace H = mbed_trace_reset_tmp (trace_line env dlevel grp body (cleared s)) in
      let l = make_line env dlevel grp body (cleared s) in
      let (kept, world) =
        make_line-Kept env s.memory dlevel grp body (cleared s) (start-Kept env s room) fits in
      let same : (release_mutex env t).memory ≡ l.memory = release_mutex-memory env t in
      record {
        stands =
            subst (λ m. Stands m s.line (line_text env dlevel grp body s).0) (sym same)
              (subst (Stands l.memory s.line) (append_nil (line_text env dlevel grp body s).0)
                kept.text);
        told =
            release_mutex-world env t
            ∙ ap
                (λ h.
                  released env s.mutex_release_f s.mutex_lock_count
                    (env.print s.printf l.memory s.line h))
                world
            ∙ ap
                (λ m.
                  released env s.mutex_release_f s.mutex_lock_count
                    (env.print s.printf m s.line (line_text env dlevel grp body s).1))
                (sym same);
        reset = release_mutex-tmp env t;
      }

  -- A line that is not filtered, at an enabled level other than the command level and not in plain
  -- mode, with a printer, a line buffer not NULL and apart from the filter buffers, these holding texts that end
  -- in them, and a text that fits in the buffer with all that decorates it: `mbed_vtracef` returns,
  -- the line is the clearing, the color, the prefix, the group's tag, the text, the suffix and the
  -- color's end. The color and its end are there in color mode only, and so is the clearing, the
  -- carriage return with the sequence that empties the line, which without color is left out even
  -- where a carriage return is configured. An empty text drops the suffix and the color's end and an
  -- empty suffix drops the color's end. The printer gets the line once, after the mutex is acquired
  -- and before it is released, and the temporary buffer is empty again.
  pub mbed_vtracef-Prints :
      (dlevel : ℕ) (grp body exclude include : Text) (s : Trace H)
      → s.line ≢ 0
      → HasFilters exclude include (acquire env s)
      → is_filtered dlevel exclude include (some grp) ≡ false
      → (acquire env s).printf ≢ 0
      → (bit_and (bit_and (acquire env s).trace_config 0x1F) dlevel != 0) ≡ true
      → ((bit_and (acquire env s).trace_config 0x80 != 0) || (dlevel == 0x01)) ≡ false
      → length (line_text env dlevel grp body (acquire env s)).0 < (acquire env s).line_length
      → Returns
          (Prints
            (line_text env dlevel grp body (acquire env s)).0
            (line_text env dlevel grp body (acquire env s)).1
            (acquire env s))
          (mbed_vtracef env dlevel (some grp) (some body) s)
  mbed_vtracef-Prints dlevel grp body exclude include s0 set f wanted printer enabled decorated
        fits =
      let s : Trace H = acquire env s0 in
      let real : s.line ≢ 0 = elim (acquire-cases env s0) [
        | inl e ↦ subst (λ t. t.line ≢ 0) (sym e) set
        | inr e ↦ subst (λ t. t.line ≢ 0) (sym e) set
      ] in
      rw
        (
          vtracef-eq env dlevel (some grp) (some body) exclude include s0 s refl real f,
          traced-eq dlevel grp body exclude include s wanted printer enabled decorated,
        )
        (trace_line-Prints dlevel grp body s (omega (arith, fits)) fits)

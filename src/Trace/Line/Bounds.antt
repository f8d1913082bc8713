-- ===== src/Trace/Line/Bounds.antt =====
-- Where `mbed_vtracef` of bootstrap/mbed_trace.c writes.
use mcu_driver_hal.Base.{
  ℕ, suc, ◌-◌, ◌<◌, ◌≡◌, ◌≢◌, sym, subst, inl, inr, ◌||◌, Option, none, some, [], arith, Returns,
  ◌==◌, ◌!=◌, bit_and, if-both, if◌then◌else◌,
}
use mcu_driver_hal.Printf.{Text}
use mcu_driver_hal.Printf.Output.{take_text}
use mcu_driver_hal.Trace.{mbed_trace_reset_tmp, acquire}
use mcu_driver_hal.Trace.State.{Env, Trace}
use mcu_driver_hal.Trace.Held.{with_mutex, acquire-cases, release_mutex-memory}
use mcu_driver_hal.Trace.Line.{
  start_line, make_line, trace_plain, trace_line, trace_body, trace_given, mbed_vtracef,
}
use mcu_driver_hal.Trace.Line.Pieces.{Kept, snprintf-Kept, length-take_text}
use mcu_driver_hal.Trace.Line.Skipped.{HasFilters, is_filtered, cleared, traced, vtracef-eq}
use mcu_driver_hal.Trace.Array.Bounds.{write-off, write-at}
use mcu_driver_hal.Trace.Line.Within.{InLine, IsLine-InLine, make_line-IsLine}

module _ {H : Type 0} (env : Env H) where
  pub start-Kept :
      (s : Trace H)
      → 0 < s.line_length
      → Kept s.memory s.line s.line_length [] [] (start_line env (cleared s))
  start-Kept s room = record {
    text = write-at s.memory s.line 0;
    at = omega arith;
    room = omega arith;
    short = omega arith;
    frame = λ a h.
        write-off s.memory s.line 0 a
          (elim h [ inl lo ↦ (λ e. omega arith) | inr hi ↦ (λ e. omega arith) ]);
  }

  abbrev pub WritesLine : Trace H → Trace H → Type 0
  WritesLine s r = InLine s.memory s.line s.line_length r.memory

  cleared-WritesLine : (s : Trace H) → 0 < s.line_length → WritesLine s (cleared s)
  cleared-WritesLine s room =
      IsLine-InLine s.memory s.line s.line_length (start_line env (cleared s))
        (record { base = []; extra = []; kept = start-Kept s room })

  trace_plain-WritesLine :
      (dlevel : ℕ) (body : Text) (s : Trace H)
      → 0 < s.line_length
      → WritesLine s (trace_plain env dlevel body (cleared s))
  unfolding trace_plain
  trace_plain-WritesLine dlevel body s room =
      let some_room : s.line_length ≡ suc (s.line_length - 1) = omega arith in
      let (text, frame) =
        snprintf-Kept s.memory s.line s.line_length [] [] body (start_line env (cleared s))
          (s.line_length - 1) (start-Kept s room) some_room in
      record {
        text = take_text (s.line_length - 1) body;
        stands = text;
        short = omega (arith, length-take_text (s.line_length - 1) body);
        frame = frame;
      }

  trace_line-WritesLine :
      (dlevel : ℕ) (grp body : Text) (s : Trace H)
      → 0 < s.line_length
      → WritesLine s (trace_line env dlevel grp body (cleared s))
  unfolding trace_line
  trace_line-WritesLine dlevel grp body s room =
      IsLine-InLine s.memory s.line s.line_length (make_line env dlevel grp body (cleared s)) (
        make_line-IsLine s.memory s.line s.line_length env dlevel grp body (cleared s)
          (record { base = []; extra = []; kept = start-Kept s room }))

  trace_body-WritesLine :
      (dlevel : ℕ) (grp body : Text) (s : Trace H)
      → 0 < s.line_length
      → WritesLine s (trace_body env dlevel grp body (cleared s))
  unfolding trace_body mbed_trace_reset_tmp
  trace_body-WritesLine dlevel grp body s room =
      if-both (WritesLine s) (bit_and (bit_and s.trace_config 0x1F) dlevel != 0)
        (mbed_trace_reset_tmp (
          if (bit_and s.trace_config 0x80 != 0) || (dlevel == 0x01)
          then trace_plain env dlevel body (cleared s)
          else trace_line env dlevel grp body (cleared s)))
        (cleared s)
        (if-both (λ r. WritesLine s (mbed_trace_reset_tmp r))
          ((bit_and s.trace_config 0x80 != 0) || (dlevel == 0x01))
          (trace_plain env dlevel body (cleared s)) (trace_line env dlevel grp body (cleared s))
          (trace_plain-WritesLine dlevel body s room)
          (trace_line-WritesLine dlevel grp body s room))
        (cleared-WritesLine s room)

  trace_given-WritesLine :
      (dlevel : ℕ) (grp body : Option Text) (s : Trace H)
      → 0 < s.line_length
      → WritesLine s (trace_given env dlevel grp body (cleared s))
  unfolding trace_given mbed_trace_reset_tmp
  trace_given-WritesLine dlevel none body s room = cleared-WritesLine s room
  trace_given-WritesLine dlevel (some grp) none s room = cleared-WritesLine s room
  trace_given-WritesLine dlevel (some grp) (some body) s room =
      if-both (WritesLine s) (s.printf == 0) (mbed_trace_reset_tmp (cleared s))
        (trace_body env dlevel grp body (cleared s)) (cleared-WritesLine s room)
        (trace_body-WritesLine dlevel grp body s room)

  traced-WritesLine :
      (dlevel : ℕ) (exclude include : Text) (grp body : Option Text) (s : Trace H)
      → 0 < s.line_length
      → WritesLine s (traced env dlevel exclude include grp body s)
  unfolding mbed_trace_reset_tmp
  traced-WritesLine dlevel exclude include grp body s room =
      if-both (WritesLine s) (is_filtered dlevel exclude include grp)
        (mbed_trace_reset_tmp (cleared s)) (trace_given env dlevel grp body (cleared s))
        (cleared-WritesLine s room) (trace_given-WritesLine dlevel grp body s room)

  held-WritesLine :
      (dlevel : ℕ) (grp body : Option Text) (exclude include : Text) (s0 s : Trace H)
      → acquire env s0 ≡ s
      → s.line ≢ 0
      → 0 < s.line_length
      → HasFilters exclude include s
      → Returns (WritesLine s) (mbed_vtracef env dlevel grp body s0)
  held-WritesLine dlevel grp body exclude include s0 s held set room f =
      let t : Trace H = traced env dlevel exclude include grp body s in
      rw (vtracef-eq env dlevel grp body exclude include s0 s held set f) (
        subst (InLine s.memory s.line s.line_length) (sym (release_mutex-memory env t))
          (traced-WritesLine dlevel exclude include grp body s room))

  -- With a line buffer that is neither NULL nor empty, apart from the filter buffers and these holding texts
  -- that end in them, `mbed_vtracef` returns for every level, group, text and configuration; its
  -- line then holds a text that ends in the buffer, and no byte outside the buffer is changed.
  pub mbed_vtracef-WritesLine :
      (dlevel : ℕ) (grp body : Option Text) (exclude include : Text) (s : Trace H)
      → s.line ≢ 0
      → 0 < s.line_length
      → HasFilters exclude include s
      → Returns (WritesLine s) (mbed_vtracef env dlevel grp body s)
  mbed_vtracef-WritesLine dlevel grp body exclude include s set room f =
      elim (acquire-cases env s) [
        | inl e ↦ held-WritesLine dlevel grp body exclude include s s e set room f
        | inr e ↦
            held-WritesLine dlevel grp body exclude include s (with_mutex env s) e set room
              (record {
                exclude_plain = f.exclude_plain;
                include_plain = f.include_plain;
                exclude_short = f.exclude_short;
                include_short = f.include_short;
                exclude_text = f.exclude_text;
                include_text = f.include_text;
                exclude_apart = f.exclude_apart;
                include_apart = f.include_apart;
              })
      ]

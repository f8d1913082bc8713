-- ===== src/Trace/Leaves.antt =====
-- How often the mutex of bootstrap/mbed_trace.c is held while a line is made and printed.
use mcu_driver_hal.Base.{
  ℕ, ◌+◌, ◌-◌, ◌≡◌, refl, ◌∙◌, Bool, ◌&&◌, ◌||◌, Option, none, some, [], ◌∷◌, length, ltb, ◌==◌,
  ◌!=◌, bit_and, if-both, if◌then◌else◌,
}
use mcu_driver_hal.Printf.{Text}
use mcu_driver_hal.Trace.{mbed_trace_reset_tmp}
use mcu_driver_hal.Trace.State.{Memory, Env, Trace}
use mcu_driver_hal.Trace.Line.{
  Line, snprintf, tag_text, color_text, append_text, append_clear, append_hue, append_color,
  append_tag, append_body, append_reset, append_prefix, append_suffix, start_line, make_line,
  trace_plain, trace_line, trace_body, trace_given,
}
use mcu_driver_hal.Trace.Line.Skipped.{is_filtered, cleared, traced}

-- How often the mutex is held: waiting adds one, releasing takes one, and printing changes nothing.
pub record Counts {H : Type 0} (env : Env H) (held : H → ℕ) : Type 0 where
  pub waits : (f : ℕ) (h : H) → held (env.wait f h) ≡ held h + 1
  pub releases : (f : ℕ) (h : H) → held (env.release f h) ≡ held h - 1
  pub prints : (f : ℕ) (m : Memory) (p : ℕ) (h : H) → held (env.print f m p h) ≡ held h
  pub prints_text : (f : ℕ) (t : Text) (h : H) → held (env.print_text f t h) ≡ held h
  pub prefixes : (f sz : ℕ) (h : H) → held (env.prefix f sz h).1 ≡ held h
  pub suffixes : (f : ℕ) (h : H) → held (env.suffix f h).1 ≡ held h

module _ {H : Type 0} (env : Env H) (held : H → ℕ) (c : Counts env held) where
  -- What a step of a line leaves: how often the mutex is held.
  abbrev Holds : Line H → Line H → Type 0
  Holds l l' = held l'.world ≡ held l.world

  append_text-Holds : (t : Text) (l : Line H) → Holds l (append_text t l)
  unfolding append_text
  append_text-Holds t l = refl

  append_hue-Holds : (o : Option Text) (l : Line H) → Holds l (append_hue o l)
  append_hue-Holds none l = refl
  append_hue-Holds (some t) l = append_text-Holds t l

  append_color-Holds : (dlevel : ℕ) (l : Line H) → Holds l (append_color dlevel l)
  unfolding append_color
  append_color-Holds dlevel l =
      if-both (Holds l) (l.color && ltb 0 l.left) (append_hue (color_text dlevel) l) l
        (append_hue-Holds (color_text dlevel) l) refl

  append_prefix-Holds :
      (prefix_f : ℕ) (body : Text) (l : Line H) → Holds l (append_prefix env prefix_f body l)
  unfolding append_prefix append_text
  append_prefix-Holds prefix_f body l =
      let sz : ℕ = length body + l.retval + (if l.retval == 0 then 0 else 4) in
      let r : Text × H = env.prefix prefix_f sz l.world in
      if-both (Holds l) (ltb 0 l.left && (prefix_f != 0))
        (append_text r.0 (record l { world = r.1 })) l (c.prefixes prefix_f sz l.world) refl

  append_suffix-Holds : (suffix_f : ℕ) (l : Line H) → Holds l (append_suffix env suffix_f l)
  unfolding append_suffix append_text
  append_suffix-Holds suffix_f l =
      let r : Text × H = env.suffix suffix_f l.world in
      if-both (Holds l) (ltb 0 l.retval && ltb 0 l.left && (suffix_f != 0))
        (append_text r.0 (record l { world = r.1 })) l (c.suffixes suffix_f l.world) refl

  append_clear-Holds : (cr : Bool) (l : Line H) → Holds l (append_clear cr l)
  unfolding append_clear append_text
  append_clear-Holds cr l = if-both (Holds l) (l.color && cr) (append_text clearing l) l refl refl
    where
      clearing : Text
      clearing = b'\r' ∷ b'\x1b' ∷ b'[' ∷ b'2' ∷ b'K' ∷ []

  append_tag-Holds : (dlevel : ℕ) (grp : Text) (l : Line H) → Holds l (append_tag dlevel grp l)
  unfolding append_tag append_text
  append_tag-Holds dlevel grp l =
      if-both (Holds l) (ltb 0 l.left) (append_text (tag_text dlevel grp) l) l refl refl

  append_body-Holds : (body : Text) (l : Line H) → Holds l (append_body body l)
  unfolding append_body append_text
  append_body-Holds body l =
      if-both (Holds l) (ltb 0 l.retval && ltb 0 l.left) (append_text body l) l refl refl

  append_reset-Holds : (l : Line H) → Holds l (append_reset l)
  unfolding append_reset append_text
  append_reset-Holds l =
      let t : Text = b'\x1b' ∷ b'[' ∷ b'0' ∷ b'm' ∷ [] in
      if-both (Holds l) (ltb 0 l.retval && ltb 0 l.left && l.color) (append_text t l) l refl refl

  make_line-Holds :
      (dlevel : ℕ) (grp body : Text) (s : Trace H)
      → held (make_line env dlevel grp body s).world ≡ held s.world
  unfolding make_line
  make_line-Holds dlevel grp body s =
      let cr : Bool = bit_and s.trace_config 0x20 != 0 in
      let l0 : Line H = start_line env s in
      let l1 : Line H = append_clear cr l0 in
      let l2 : Line H = append_color dlevel l1 in
      let l3 : Line H = append_prefix env s.prefix_f body l2 in
      let l4 : Line H = append_tag dlevel grp l3 in
      let l5 : Line H = append_body body l4 in
      let l6 : Line H = append_suffix env s.suffix_f l5 in
      append_reset-Holds l6
      ∙ append_suffix-Holds s.suffix_f l5
      ∙ append_body-Holds body l4
      ∙ append_tag-Holds dlevel grp l3
      ∙ append_prefix-Holds s.prefix_f body l2
      ∙ append_color-Holds dlevel l1
      ∙ append_clear-Holds cr l0

  -- What a call leaves between the uses of the mutex.
  abbrev pub Leaves : Trace H → Trace H → Type 0
  Leaves s r =
      (held r.world ≡ held s.world)
      × (r.mutex_lock_count ≡ s.mutex_lock_count)
      × (r.mutex_release_f ≡ s.mutex_release_f)

  trace_plain-Leaves :
      (dlevel : ℕ) (body : Text) (s : Trace H) → Leaves s (trace_plain env dlevel body s)
  unfolding trace_plain
  trace_plain-Leaves dlevel body s =
      let m : Memory = snprintf s.line s.line_length body s.memory in
      (
        if-both (λ h. held h ≡ held s.world) ((dlevel == 0x01) && (s.cmd_printf != 0))
            (env.print_text s.cmd_printf (b'\n' ∷ []) (env.print s.cmd_printf m s.line s.world))
            (env.print s.printf m s.line s.world)
            (c.prints_text s.cmd_printf (b'\n' ∷ []) (env.print s.cmd_printf m s.line s.world)
              ∙ c.prints s.cmd_printf m s.line s.world)
            (c.prints s.printf m s.line s.world),
        refl,
        refl,
      )

  trace_line-Leaves :
      (dlevel : ℕ) (grp body : Text) (s : Trace H) → Leaves s (trace_line env dlevel grp body s)
  unfolding trace_line
  trace_line-Leaves dlevel grp body s =
      let l : Line H = make_line env dlevel grp body s in
      (c.prints s.printf l.memory s.line l.world ∙ make_line-Holds dlevel grp body s, refl, refl)

  trace_given-Leaves :
      (dlevel : ℕ) (grp body : Option Text) (s : Trace H)
      → Leaves s (trace_given env dlevel grp body s)
  unfolding trace_given trace_body mbed_trace_reset_tmp
  trace_given-Leaves dlevel none body s = (refl, refl, refl)
  trace_given-Leaves dlevel (some grp) none s = (refl, refl, refl)
  trace_given-Leaves dlevel (some grp) (some body) s =
      let plain : Bool = (bit_and s.trace_config 0x80 != 0) || (dlevel == 0x01) in
      if-both (Leaves s) (s.printf == 0) (mbed_trace_reset_tmp s) (trace_body env dlevel grp body s)
        (refl, refl, refl)
        (if-both (Leaves s) (bit_and (bit_and s.trace_config 0x1F) dlevel != 0)
          (mbed_trace_reset_tmp
            (if plain then trace_plain env dlevel body s else trace_line env dlevel grp body s))
          s
          (if-both (λ r. Leaves s (mbed_trace_reset_tmp r)) plain (trace_plain env dlevel body s)
            (trace_line env dlevel grp body s) (trace_plain-Leaves dlevel body s)
            (trace_line-Leaves dlevel grp body s))
          (refl, refl, refl))

  pub traced-Leaves :
      (dlevel : ℕ) (exclude include : Text) (grp body : Option Text) (s : Trace H)
      → Leaves s (traced env dlevel exclude include grp body s)
  unfolding mbed_trace_reset_tmp
  traced-Leaves dlevel exclude include grp body s =
      if-both (Leaves s) (is_filtered dlevel exclude include grp) (mbed_trace_reset_tmp (cleared s))
        (trace_given env dlevel grp body (cleared s)) (refl, refl, refl)
        (trace_given-Leaves dlevel grp body (cleared s))

-- ===== src/Trace/Line.antt =====
-- `mbed_vtracef` of bootstrap/mbed_trace.c. The text that the caller's format and arguments print
-- is its argument `body`, none where the format is NULL.
pub mod Skipped
pub mod Pieces
pub mod Bounds
pub mod Content
pub mod Steps
pub mod Within
pub mod Printed
use mcu_driver_hal.Base.{
  ℕ, zero, suc, ◌+◌, ◌-◌, bit_and, Bool, true, false, not, ◌&&◌, ◌||◌, Option, none, some, List, [],
  ◌∷◌, ◌++◌, Run, ok, ◌>>=◌, length, ltb, leb, ◌==◌, ◌!=◌, if◌then◌else◌,
}
use mcu_driver_hal.Printf.{Text}
use mcu_driver_hal.Printf.Output.{take_text}
use mcu_driver_hal.Trace.{mbed_trace_reset_tmp, mbed_trace_skip, acquire, release_mutex}
use mcu_driver_hal.Trace.State.{Memory, write, write_bytes, Env, Trace}

-- snprintf and vsnprintf: what fits before the NUL is written.
abbrev pub snprintf : (p n : ℕ) → Text → Memory → Memory
snprintf p zero t m = m
snprintf p (suc n) t m = write_bytes m p (take_text n t ++ 0 ∷ [])

-- TRACE_LEVEL_ERROR, TRACE_LEVEL_WARN, TRACE_LEVEL_INFO and TRACE_LEVEL_DEBUG
abbrev pub color_text : (dlevel : ℕ) → Option Text
color_text dlevel =
    if dlevel == 0x02
    then some (b'\x1b' ∷ b'[' ∷ b'3' ∷ b'1' ∷ b'm' ∷ [])
    else if dlevel == 0x04
    then some (b'\x1b' ∷ b'[' ∷ b'3' ∷ b'3' ∷ b'm' ∷ [])
    else if dlevel == 0x08
    then some (b'\x1b' ∷ b'[' ∷ b'3' ∷ b'9' ∷ b'm' ∷ [])
    else if dlevel == 0x10
    then some (b'\x1b' ∷ b'[' ∷ b'9' ∷ b'0' ∷ b'm' ∷ [])
    else none

-- "%-4s"
abbrev pub padded : (width : ℕ) → Text → Text
padded zero t = t
padded (suc width) [] = b' ' ∷ padded width []
padded (suc width) (c ∷ t) = c ∷ padded width t

abbrev pub group_text : (a b c d : ℕ) → (grp : Text) → Text
group_text a b c d grp =
    b'[' ∷ a ∷ b ∷ c ∷ d ∷ b']' ∷ b'[' ∷ (padded 4 grp ++ b']' ∷ b':' ∷ b' ' ∷ [])

abbrev pub tag_text : (dlevel : ℕ) (grp : Text) → Text
tag_text dlevel grp =
    if dlevel == 0x02
    then group_text b'E' b'R' b'R' b' ' grp
    else if dlevel == 0x04
    then group_text b'W' b'A' b'R' b'N' grp
    else if dlevel == 0x08
    then group_text b'I' b'N' b'F' b'O' grp
    else if dlevel == 0x10
    then group_text b'D' b'B' b'G' b' ' grp
    else padded 14 []

-- The local variables of the line being built, with the memory and what is outside.
pub record Line (H : Type 0) : Type 0 where
  pub ptr : ℕ
  pub left : ℕ
  pub retval : ℕ
  pub color : Bool
  pub memory : Memory
  pub world : H

module _ {H : Type 0} where
  -- One `retval = snprintf(ptr, bLeft, ...)` with the two tests behind it; a `retval` of 0 moves
  -- nothing.
  unfoldable pub append_text : Text → Line H → Line H
  append_text t l =
      let retval : ℕ = if leb l.left (length t) then 0 else length t in
      record l {
        memory = snprintf l.ptr l.left t l.memory;
        ptr = l.ptr + retval;
        left = l.left - retval;
        retval = retval;
      }

  unfoldable pub append_clear : (cr : Bool) → Line H → Line H
  append_clear cr l =
      if l.color && cr then append_text (b'\r' ∷ b'\x1b' ∷ b'[' ∷ b'2' ∷ b'K' ∷ []) l else l

  -- The switch: an unknown level has no color to take back.
  abbrev pub append_hue : Option Text → Line H → Line H
  append_hue none l = record l { color = false; retval = 0 }
  append_hue (some t) l = append_text t l

  unfoldable pub append_color : (dlevel : ℕ) → Line H → Line H
  append_color dlevel l = if l.color && ltb 0 l.left then append_hue (color_text dlevel) l else l

  unfoldable pub append_tag : (dlevel : ℕ) (grp : Text) → Line H → Line H
  append_tag dlevel grp l = if ltb 0 l.left then append_text (tag_text dlevel grp) l else l

  unfoldable pub append_body : (body : Text) → Line H → Line H
  append_body body l = if ltb 0 l.retval && ltb 0 l.left then append_text body l else l

  unfoldable pub append_reset : Line H → Line H
  append_reset l =
      if ltb 0 l.retval && ltb 0 l.left && l.color
      then append_text (b'\x1b' ∷ b'[' ∷ b'0' ∷ b'm' ∷ []) l
      else l

module _ {H : Type 0} (env : Env H) where
  unfoldable pub append_prefix : (prefix_f : ℕ) (body : Text) → Line H → Line H
  append_prefix prefix_f body l =
      if ltb 0 l.left && (prefix_f != 0)
      then (let sz : ℕ = length body + l.retval + (if l.retval == 0 then 0 else 4) in
          let (t, h) = env.prefix prefix_f sz l.world in append_text t (record l { world = h }))
      else l

  unfoldable pub append_suffix : (suffix_f : ℕ) → Line H → Line H
  append_suffix suffix_f l =
      if ltb 0 l.retval && ltb 0 l.left && (suffix_f != 0)
      then (let (t, h) = env.suffix suffix_f l.world in append_text t (record l { world = h }))
      else l

  abbrev pub start_line : Trace H → Line H
  start_line s = record {
    ptr = s.line;
    left = s.line_length;
    retval = 0;
    color = bit_and s.trace_config 0x40 != 0;
    memory = s.memory;
    world = s.world;
  }

  unfoldable pub make_line : (dlevel : ℕ) (grp body : Text) → Trace H → Line H
  make_line dlevel grp body s =
      let cr : Bool = bit_and s.trace_config 0x20 != 0 in
      append_reset (
        append_suffix s.suffix_f (
          append_body body (
            append_tag dlevel grp (
              append_prefix s.prefix_f body
                (append_color dlevel (append_clear cr (start_line s)))))))

  -- The line printed without decorations.
  unfoldable pub trace_plain : (dlevel : ℕ) (body : Text) → Trace H → Trace H
  trace_plain dlevel body s =
      let m = snprintf s.line s.line_length body s.memory in
      record s {
        memory = m;
        world =
            if (dlevel == 0x01) && (s.cmd_printf != 0)
            then env.print_text s.cmd_printf (b'\n' ∷ []) (env.print s.cmd_printf m s.line s.world)
            else env.print s.printf m s.line s.world;
      }

  unfoldable pub trace_line : (dlevel : ℕ) (grp body : Text) → Trace H → Trace H
  trace_line dlevel grp body s =
      let l = make_line dlevel grp body s in
      record s { memory = l.memory; world = env.print s.printf l.memory s.line l.world }

  -- The two cases behind the test of the level.
  unfoldable pub trace_body : (dlevel : ℕ) (grp body : Text) → Trace H → Trace H
  trace_body dlevel grp body s =
      if bit_and (bit_and s.trace_config 0x1F) dlevel != 0
      then mbed_trace_reset_tmp (
          if (bit_and s.trace_config 0x80 != 0) || (dlevel == 0x01)
          then trace_plain dlevel body s
          else trace_line dlevel grp body s)
      else s

  unfoldable pub trace_given : (dlevel : ℕ) (grp body : Option Text) → Trace H → Trace H
  trace_given dlevel none body s = mbed_trace_reset_tmp s
  trace_given dlevel (some grp) none s = mbed_trace_reset_tmp s
  trace_given dlevel (some grp) (some body) s =
      if s.printf == 0 then mbed_trace_reset_tmp s else trace_body dlevel grp body s

  unfoldable pub mbed_vtracef : (dlevel : ℕ) (grp body : Option Text) → Trace H → Run (Trace H)
  mbed_vtracef dlevel grp body s0 =
      let s1 = acquire env s0 in
      if s1.line == 0
      then ok (release_mutex env s1)
      else let s = record s1 { memory = write s1.memory s1.line 0 } in
        (do
          skip ← mbed_trace_skip dlevel grp s
          ok (
              release_mutex env
                (if skip then mbed_trace_reset_tmp s else trace_given dlevel grp body s)))

  unfoldable pub mbed_tracef : (dlevel : ℕ) (grp body : Option Text) → Trace H → Run (Trace H)
  mbed_tracef dlevel grp body s = mbed_vtracef dlevel grp body s

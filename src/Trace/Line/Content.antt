-- ===== src/Trace/Line/Content.antt =====
-- The text of a line that `mbed_vtracef` of bootstrap/mbed_trace.c prints where all of it fits.
use mcu_driver_hal.Base.{
  ℕ, ◌+◌, Bool, true, false, ◌&&◌, ◌||◌, Option, none, some, [], ◌∷◌, ◌++◌, length, ◌==◌, ◌!=◌,
  bit_and, if◌then◌else◌,
}
use mcu_driver_hal.Printf.{Text}
use mcu_driver_hal.Trace.State.{Env, Trace}
use mcu_driver_hal.Trace.Filters.{is_given}
use mcu_driver_hal.Trace.Line.{color_text, tag_text}

abbrev pub clear_piece : (color cr : Bool) → Text
clear_piece color cr = if color && cr then b'\r' ∷ b'\x1b' ∷ b'[' ∷ b'2' ∷ b'K' ∷ [] else []

abbrev pub text_of : Option Text → Text
text_of none = []
text_of (some t) = t

abbrev pub is_known : Option Text → Bool
is_known none = false
is_known (some t) = true

abbrev pub color_piece : (color : Bool) (dlevel : ℕ) → Text
color_piece color dlevel = if color then text_of (color_text dlevel) else []

-- The color is taken back behind a text, and behind a suffix, that is not empty.
abbrev pub is_reset :
    (color : Bool) (dlevel : ℕ) (body : Text) (suffix_f : ℕ) (suffix : Text) → Bool
is_reset color dlevel body suffix_f suffix =
    (is_given body && ((suffix_f == 0) || is_given suffix))
    && (color && is_known (color_text dlevel))

abbrev pub reset_piece : Bool → Text
reset_piece reset = if reset then b'\x1b' ∷ b'[' ∷ b'0' ∷ b'm' ∷ [] else []

module _ {H : Type 0} (env : Env H) where
  -- The prefix function is told how much else there is to print.
  abbrev pub prefix_piece : (prefix_f sz : ℕ) → H → Text × H
  prefix_piece prefix_f sz h = if prefix_f != 0 then env.prefix prefix_f sz h else ([], h)

  abbrev pub suffix_piece : (suffix_f : ℕ) (body : Text) → H → Text × H
  suffix_piece suffix_f body h =
      if is_given body && (suffix_f != 0) then env.suffix suffix_f h else ([], h)

  -- The text of the line, and what is outside after its parts were asked for.
  abbrev pub line_text : (dlevel : ℕ) (grp body : Text) → Trace H → Text × H
  line_text dlevel grp body s =
      let color : Bool = bit_and s.trace_config 0x40 != 0 in
      let cr : Bool = bit_and s.trace_config 0x20 != 0 in
      let hue : Text = color_piece color dlevel in
      let sz : ℕ = length body + length hue + (if length hue == 0 then 0 else 4) in
      let before : Text × H = prefix_piece s.prefix_f sz s.world in
      let after : Text × H = suffix_piece s.suffix_f body before.1 in
      (
        (((((clear_piece color cr ++ hue) ++ before.0) ++ tag_text dlevel grp) ++ body) ++ after.0)
            ++ reset_piece (is_reset color dlevel body s.suffix_f after.0),
        after.1,
      )

-- ===== src/Trace/Line/Printed.antt =====
-- A line that `mbed_vtracef` of bootstrap/mbed_trace.c prints where all of it fits.
pub mod Call
use mcu_driver_hal.Base.{
  ℕ, zero, suc, ◌+◌, ◌-◌, ◌≤◌, ◌<◌, ◌≡◌, ◌≢◌, ◌⊎◌, refl, ap, sym, subst, ◌∙◌, inl, inr, Bool, true,
  false, not, ◌&&◌, ◌||◌, Option, none, some, List, [], ◌∷◌, ◌++◌, length, arith, leb, ltb, ◌==◌,
  ◌!=◌, bit_and, Bool-cases, if◌then◌else◌,
}
use mcu_driver_hal.Printf.{Text}
use mcu_driver_hal.Trace.State.{Memory, Env, Trace}
use mcu_driver_hal.Trace.Filters.{is_given}
use mcu_driver_hal.Trace.Line.{
  color_text, tag_text, Line, append_text, append_clear, append_hue, append_color, append_tag,
  append_body, append_reset, append_prefix, append_suffix, start_line, make_line,
}
use mcu_driver_hal.Trace.Line.Pieces.{Kept, append_text-fits, length-append, append_nil}
use mcu_driver_hal.Trace.Line.Content.{
  clear_piece, text_of, is_known, color_piece, is_reset, reset_piece, prefix_piece, suffix_piece,
  line_text,
}
use mcu_driver_hal.Trace.Line.Steps.{
  Laid, front-fits, tag-more, color_piece-plain, clear-Laid, color-Laid, tag-Laid, body-Laid,
  reset-Laid, prefix-Laid, suffix-Laid,
}

module _ {H : Type 0} (env : Env H) (m : Memory) where
  pub make_line-Kept :
      (dlevel : ℕ) (grp body : Text) (s : Trace H)
      → Kept m s.line s.line_length [] [] (start_line env s)
      → length (line_text env dlevel grp body s).0 < s.line_length
      → Kept m s.line s.line_length
          (line_text env dlevel grp body s).0
          []
          (make_line env dlevel grp body s)
        × ((make_line env dlevel grp body s).world ≡ (line_text env dlevel grp body s).1)
  unfolding make_line
  make_line-Kept dlevel grp body s k fits =
      let color : Bool = bit_and s.trace_config 0x40 != 0 in
      let cr : Bool = bit_and s.trace_config 0x20 != 0 in
      let hue : Text = color_piece color dlevel in
      let sz : ℕ = length body + length hue + (if length hue == 0 then 0 else 4) in
      let before : Text × H = prefix_piece env s.prefix_f sz s.world in
      let after : Text × H = suffix_piece env s.suffix_f body before.1 in
      let t1 : Text = clear_piece color cr in
      let t2 : Text = t1 ++ hue in
      let t3 : Text = t2 ++ before.0 in
      let t4 : Text = t3 ++ tag_text dlevel grp in
      let t5 : Text = t4 ++ body in
      let t6 : Text = t5 ++ after.0 in
      let t7 : Text = reset_piece (is_reset color dlevel body s.suffix_f after.0) in
      let n : ℕ = s.line_length in
      let f6 : length t6 < n = front-fits t6 t7 n fits in
      let f5 : length t5 < n = front-fits t5 after.0 n f6 in
      let f4 : length t4 < n = front-fits t4 body n f5 in
      let f3 : length t3 < n = front-fits t3 (tag_text dlevel grp) n f4 in
      let f2 : length t2 < n = front-fits t2 before.0 n f3 in
      let f1 : length t1 < n = front-fits t1 hue n f2 in
      let l0 : Line H = start_line env s in
      let l1 : Line H = append_clear cr l0 in
      let l2 : Line H = append_color dlevel l1 in
      let l3 : Line H = append_prefix env s.prefix_f body l2 in
      let l4 : Line H = append_tag dlevel grp l3 in
      let l5 : Line H = append_body body l4 in
      let l6 : Line H = append_suffix env s.suffix_f l5 in
      let known : Bool = color && is_known (color_text dlevel) in
      let (a1, r1) =
        clear-Laid m s.line n color cr s.world l0
          (record { kept = k; color_is = refl; world_is = refl }) refl f1 in
      let (a2, r2) =
        color-Laid m s.line n dlevel t1 color s.world l1 a1
          (λ e. r1 ∙ color_piece-plain dlevel cr color e) f2 in
      let a3 : Laid m s.line n t3 known before.1 l3 =
        prefix-Laid m s.line n env s.prefix_f sz body t2 known s.world l2 a2
          (ap (λ k. length body + k + (if k == 0 then 0 else 4)) r2) f3 in
      let (a4, r4) = tag-Laid m s.line n dlevel grp t3 known before.1 l3 a3 f4 in
      let (a5, r5) =
        body-Laid m s.line n body t4 known before.1 l4 a4 (ap (ltb 0) r4 ∙ tag-more dlevel grp)
          f5 in
      let (a6, r6) = suffix-Laid m s.line n env s.suffix_f body t5 known before.1 l5 a5 r5 f6 in
      let a7 : Laid m s.line n (t6 ++ t7) known after.1 (append_reset l6) =
        reset-Laid m s.line n t6 known (is_given body && ((s.suffix_f == 0) || is_given after.0))
          after.1 l6 a6 r6 fits in
      (a7.kept, a7.world_is)

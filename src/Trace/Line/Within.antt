-- ===== src/Trace/Line/Within.antt =====
-- What the steps of a line in bootstrap/mbed_trace.c write stays in the line.
use mcu_driver_hal.Base.{
  ℕ, ◌+◌, ◌≤◌, ◌<◌, ◌≡◌, ◌⊎◌, Bool, false, ◌&&◌, Option, none, some, [], ◌∷◌, ◌++◌, length, arith,
  ltb, ◌==◌, ◌!=◌, bit_and, if-both, if◌then◌else◌,
}
use mcu_driver_hal.Printf.{Text}
use mcu_driver_hal.Trace.State.{Memory, Env, Trace}
use mcu_driver_hal.Trace.Line.{
  color_text, Line, append_text, append_clear, append_hue, append_color, append_tag, append_body,
  append_reset, append_prefix, append_suffix, tag_text, start_line, make_line,
}
use mcu_driver_hal.Trace.Line.Pieces.{IsLine, append_text-IsLine, length-append}
use mcu_driver_hal.Trace.Array.Bounds.{Stands}

-- The line holds a text that ends in it, and no other byte differs from `m`.
pub record InLine (m : Memory) (line limit : ℕ) (m' : Memory) : Type 0 where
  pub text : Text
  pub stands : Stands m' line text
  pub short : length text < limit
  pub frame : (a : ℕ) → (a < line) ⊎ (line + limit ≤ a) → m' a ≡ m a

module _ {H : Type 0} (m : Memory) (line limit : ℕ) where
  pub IsLine-InLine : (l : Line H) → IsLine m line limit l → InLine m line limit l.memory
  IsLine-InLine l k = record {
    text = k.base ++ k.extra;
    stands = k.kept.text;
    short = omega (arith, k.kept.short, length-append k.base k.extra);
    frame = k.kept.frame;
  }

  -- Fields that are not the text's.
  IsLine-moved :
      (l : Line H) (retval : ℕ) (color : Bool) (h : H)
      → IsLine m line limit l
      → IsLine m line limit (record l { retval = retval; color = color; world = h })
  IsLine-moved l retval color h k = record {
    base = k.base;
    extra = k.extra;
    kept = record {
      text = k.kept.text;
      at = k.kept.at;
      room = k.kept.room;
      short = k.kept.short;
      frame = k.kept.frame;
    };
  }

  colored-IsLine :
      (o : Option Text) (l : Line H) → IsLine m line limit l → IsLine m line limit (append_hue o l)
  colored-IsLine none l k = IsLine-moved l 0 false l.world k
  colored-IsLine (some t) l k = append_text-IsLine m line limit t l k

  append_clear-IsLine :
      (cr : Bool) (l : Line H) → IsLine m line limit l → IsLine m line limit (append_clear cr l)
  unfolding append_clear
  append_clear-IsLine cr l k =
      let t : Text = b'\r' ∷ b'\x1b' ∷ b'[' ∷ b'2' ∷ b'K' ∷ [] in
      if-both (IsLine m line limit) (l.color && cr) (append_text t l) l
        (append_text-IsLine m line limit t l k) k

  append_color-IsLine :
      (dlevel : ℕ) (l : Line H)
      → IsLine m line limit l
      → IsLine m line limit (append_color dlevel l)
  unfolding append_color
  append_color-IsLine dlevel l k =
      if-both (IsLine m line limit) (l.color && ltb 0 l.left) (append_hue (color_text dlevel) l) l
        (colored-IsLine (color_text dlevel) l k) k

  append_tag-IsLine :
      (dlevel : ℕ) (grp : Text) (l : Line H)
      → IsLine m line limit l
      → IsLine m line limit (append_tag dlevel grp l)
  unfolding append_tag
  append_tag-IsLine dlevel grp l k =
      let t : Text = tag_text dlevel grp in
      if-both (IsLine m line limit) (ltb 0 l.left) (append_text t l) l
        (append_text-IsLine m line limit t l k) k

  append_body-IsLine :
      (body : Text) (l : Line H) → IsLine m line limit l → IsLine m line limit (append_body body l)
  unfolding append_body
  append_body-IsLine body l k =
      if-both (IsLine m line limit) (ltb 0 l.retval && ltb 0 l.left) (append_text body l) l
        (append_text-IsLine m line limit body l k) k

  append_reset-IsLine : (l : Line H) → IsLine m line limit l → IsLine m line limit (append_reset l)
  unfolding append_reset
  append_reset-IsLine l k =
      let t : Text = b'\x1b' ∷ b'[' ∷ b'0' ∷ b'm' ∷ [] in
      if-both (IsLine m line limit) (ltb 0 l.retval && ltb 0 l.left && l.color) (append_text t l) l
        (append_text-IsLine m line limit t l k) k

  module _ (env : Env H) where
    append_prefix-IsLine :
        (prefix_f : ℕ) (body : Text) (l : Line H)
        → IsLine m line limit l
        → IsLine m line limit (append_prefix env prefix_f body l)
    unfolding append_prefix
    append_prefix-IsLine prefix_f body l k =
        let sz : ℕ = length body + l.retval + (if l.retval == 0 then 0 else 4) in
        let r : Text × H = env.prefix prefix_f sz l.world in
        if-both (IsLine m line limit) (ltb 0 l.left && (prefix_f != 0))
          (append_text r.0 (record l { world = r.1 })) l
          (append_text-IsLine m line limit r.0 (record l { world = r.1 })
            (IsLine-moved l l.retval l.color r.1 k))
          k

    append_suffix-IsLine :
        (suffix_f : ℕ) (l : Line H)
        → IsLine m line limit l
        → IsLine m line limit (append_suffix env suffix_f l)
    unfolding append_suffix
    append_suffix-IsLine suffix_f l k =
        let r : Text × H = env.suffix suffix_f l.world in
        if-both (IsLine m line limit) (ltb 0 l.retval && ltb 0 l.left && (suffix_f != 0))
          (append_text r.0 (record l { world = r.1 })) l
          (append_text-IsLine m line limit r.0 (record l { world = r.1 })
            (IsLine-moved l l.retval l.color r.1 k))
          k

    pub make_line-IsLine :
        (dlevel : ℕ) (grp body : Text) (s : Trace H)
        → IsLine m line limit (start_line env s)
        → IsLine m line limit (make_line env dlevel grp body s)
    unfolding make_line
    make_line-IsLine dlevel grp body s k =
        let cr : Bool = bit_and s.trace_config 0x20 != 0 in
        let l1 : Line H = append_color dlevel (append_clear cr (start_line env s)) in
        let l2 : Line H = append_tag dlevel grp (append_prefix env s.prefix_f body l1) in
        let k1 : IsLine m line limit l1 =
          append_color-IsLine dlevel (append_clear cr (start_line env s))
            (append_clear-IsLine cr (start_line env s) k) in
        let k2 : IsLine m line limit l2 =
          append_tag-IsLine dlevel grp (append_prefix env s.prefix_f body l1)
            (append_prefix-IsLine s.prefix_f body l1 k1) in
        let l3 : Line H = append_suffix env s.suffix_f (append_body body l2) in
        append_reset-IsLine l3
          (append_suffix-IsLine s.suffix_f (append_body body l2) (append_body-IsLine body l2 k2))

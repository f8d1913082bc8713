-- ===== src/Trace/Line/Steps.antt =====
-- Each step of a line in `mbed_vtracef` of bootstrap/mbed_trace.c, where its piece fits.
use mcu_driver_hal.Base.{
  ℕ, ◌+◌, ◌<◌, ◌≡◌, refl, ap, sym, subst, ◌∙◌, inl, inr, Bool, true, false, ◌&&◌, ◌||◌, Option,
  none, some, [], ◌∷◌, ◌++◌, length, arith, ltb, ◌==◌, ◌!=◌, Bool-cases, if◌then◌else◌,
}
use mcu_driver_hal.Printf.{Text}
use mcu_driver_hal.Trace.State.{Memory, Env}
use mcu_driver_hal.Trace.Filters.{is_given}
use mcu_driver_hal.Trace.Line.{
  color_text, tag_text, Line, append_text, append_clear, append_hue, append_color, append_tag,
  append_body, append_reset, append_prefix, append_suffix,
}
use mcu_driver_hal.Trace.Line.Pieces.{Kept, append_text-fits, length-append, append_nil}
use mcu_driver_hal.Trace.Line.Content.{
  clear_piece, text_of, is_known, color_piece, reset_piece, prefix_piece, suffix_piece,
}

-- The line so far is `base`, complete.
pub record Laid {H : Type 0} (m : Memory) (line limit : ℕ) (base : Text) (color : Bool) (h : H)
    (l : Line H) : Type 0 where
  pub kept : Kept m line limit base [] l
  pub color_is : l.color ≡ color
  pub world_is : l.world ≡ h

pub front-fits : (a b : Text) (n : ℕ) → length (a ++ b) < n → length a < n
front-fits a b n h = omega (arith, length-append a b)

is_given-length : (t : Text) → ltb 0 (length t) ≡ is_given t
is_given-length [] = ground arith
is_given-length (c ∷ t) = ground arith

module _ {H : Type 0} (m : Memory) (line limit : ℕ) where
  left-some : (base : Text) (l : Line H) → Kept m line limit base [] l → ltb 0 l.left ≡ true
  left-some base l k = ground (arith, k.room, k.short)

  append-Laid :
      (base t : Text) (c : Bool) (h : H) (l : Line H)
      → Laid m line limit base c h l
      → length (base ++ t) < limit
      → Laid m line limit (base ++ t) c h (append_text t l) × ((append_text t l).retval ≡ length t)
  unfolding append_text
  append-Laid base t c h l a fits =
      let (kept, retval) =
        append_text-fits m line limit base [] t l a.kept (omega (arith, length-append base t)) in
      (record { kept = kept; color_is = a.color_is; world_is = a.world_is }, retval)

  -- A step that adds nothing.
  same-Laid :
      (base : Text) (c : Bool) (h : H) (l : Line H)
      → Laid m line limit base c h l
      → Laid m line limit (base ++ []) c h l
  same-Laid base c h l a = subst (λ b. Laid m line limit b c h l) (sym (append_nil base)) a

  pub clear-Laid :
      (c cr : Bool) (h : H) (l : Line H)
      → Laid m line limit [] c h l
      → l.retval ≡ 0
      → length (clear_piece c cr) < limit
      → Laid m line limit (clear_piece c cr) c h (append_clear cr l)
        × ((append_clear cr l).retval ≡ length (clear_piece c cr))
  unfolding append_clear
  clear-Laid true true h l a zero_yet fits =
      simp (a.color_is) (append-Laid [] (b'\r' ∷ b'\x1b' ∷ b'[' ∷ b'2' ∷ b'K' ∷ []) true h l a fits)
  clear-Laid true false h l a zero_yet fits = simp (a.color_is) (a, zero_yet)
  clear-Laid false cr h l a zero_yet fits = simp (a.color_is) (a, zero_yet)

  hue-Laid :
      (o : Option Text) (base : Text) (h : H) (l : Line H)
      → Laid m line limit base true h l
      → length (base ++ text_of o) < limit
      → Laid m line limit (base ++ text_of o) (is_known o) h (append_hue o l)
        × ((append_hue o l).retval ≡ length (text_of o))
  hue-Laid none base h l a fits =
      let k : Kept m line limit base [] l = a.kept in
      let k' : Kept m line limit base [] (record l { color = false; retval = 0 }) = record {
        text = k.text;
        at = k.at;
        room = k.room;
        short = k.short;
        frame = k.frame;
      } in
      (
        same-Laid base false h (record l { color = false; retval = 0 })
            (record { kept = k'; color_is = refl; world_is = a.world_is }),
        refl,
      )
  hue-Laid (some t) base h l a fits = append-Laid base t true h l a fits

  pub color-Laid :
      (dlevel : ℕ) (base : Text) (c : Bool) (h : H) (l : Line H)
      → Laid m line limit base c h l
      → (c ≡ false → l.retval ≡ 0)
      → length (base ++ color_piece c dlevel) < limit
      → Laid m line limit
          (base ++ color_piece c dlevel)
          (c && is_known (color_text dlevel))
          h
          (append_color dlevel l)
        × ((append_color dlevel l).retval ≡ length (color_piece c dlevel))
  unfolding append_color
  color-Laid dlevel base true h l a zero_yet fits =
      simp (a.color_is, left-some base l a.kept) (hue-Laid (color_text dlevel) base h l a fits)
  color-Laid dlevel base false h l a zero_yet fits =
      simp (a.color_is) (same-Laid base false h l a, zero_yet refl)

  pub tag-Laid :
      (dlevel : ℕ) (grp base : Text) (c : Bool) (h : H) (l : Line H)
      → Laid m line limit base c h l
      → length (base ++ tag_text dlevel grp) < limit
      → Laid m line limit (base ++ tag_text dlevel grp) c h (append_tag dlevel grp l)
        × ((append_tag dlevel grp l).retval ≡ length (tag_text dlevel grp))
  unfolding append_tag
  tag-Laid dlevel grp base c h l a fits =
      rw (left-some base l a.kept) (append-Laid base (tag_text dlevel grp) c h l a fits)

  pub body-Laid :
      (body base : Text) (c : Bool) (h : H) (l : Line H)
      → Laid m line limit base c h l
      → ltb 0 l.retval ≡ true
      → length (base ++ body) < limit
      → Laid m line limit (base ++ body) c h (append_body body l)
        × ((append_body body l).retval ≡ length body)
  unfolding append_body
  body-Laid body base c h l a more fits =
      rw (more, left-some base l a.kept) (append-Laid base body c h l a fits)

  pub reset-Laid :
      (base : Text) (c after : Bool) (h : H) (l : Line H)
      → Laid m line limit base c h l
      → ltb 0 l.retval ≡ after
      → length (base ++ reset_piece (after && c)) < limit
      → Laid m line limit (base ++ reset_piece (after && c)) c h (append_reset l)
  unfolding append_reset
  reset-Laid base c false h l a e fits = rw e (same-Laid base c h l a)
  reset-Laid base false true h l a e fits =
      simp (e, left-some base l a.kept, a.color_is) (same-Laid base false h l a)
  reset-Laid base true true h l a e fits =
      simp (e, left-some base l a.kept, a.color_is)
        (append-Laid base (b'\x1b' ∷ b'[' ∷ b'0' ∷ b'm' ∷ []) true h l a fits).0

  moved-Laid :
      (base : Text) (c : Bool) (h h' : H) (l : Line H)
      → Laid m line limit base c h l
      → Laid m line limit base c h' (record l { world = h' })
  moved-Laid base c h h' l a =
      let k : Kept m line limit base [] l = a.kept in
      record {
        kept = record { text = k.text; at = k.at; room = k.room; short = k.short; frame = k.frame };
        color_is = a.color_is;
        world_is = refl;
      }

  module _ (env : Env H) where
    pub prefix-Laid :
        (prefix_f sz : ℕ) (body base : Text) (c : Bool) (h : H) (l : Line H)
        → Laid m line limit base c h l
        → length body + l.retval + (if l.retval == 0 then 0 else 4) ≡ sz
        → length (base ++ (prefix_piece env prefix_f sz h).0) < limit
        → Laid m line limit
            (base ++ (prefix_piece env prefix_f sz h).0)
            c
            (prefix_piece env prefix_f sz h).1
            (append_prefix env prefix_f body l)
    unfolding append_prefix
    prefix-Laid prefix_f sz body base c h l a size fits = elim (Bool-cases (prefix_f != 0)) [
      | inl given ↦
          let r : Text × H = env.prefix prefix_f sz h in
          let asked : env.prefix prefix_f
                (length body + l.retval + (if l.retval == 0 then 0 else 4)) l.world
              ≡ r =
            ap (λ k. env.prefix prefix_f k l.world) size ∙ ap (env.prefix prefix_f sz) a.world_is in
          simp (given, left-some base l a.kept, asked)
            (append-Laid base r.0 c r.1 (record l { world = r.1 }) (moved-Laid base c h r.1 l a)
              (subst
                (λ b. length (base ++ (if b then env.prefix prefix_f sz h else ([], h)).0) < limit)
                given fits)).0
      | inr absent ↦ simp (absent, left-some base l a.kept) (same-Laid base c h l a)
    ]

    pub suffix-Laid :
        (suffix_f : ℕ) (body base : Text) (c : Bool) (h : H) (l : Line H)
        → Laid m line limit base c h l
        → l.retval ≡ length body
        → length (base ++ (suffix_piece env suffix_f body h).0) < limit
        → Laid m line limit
            (base ++ (suffix_piece env suffix_f body h).0)
            c
            (suffix_piece env suffix_f body h).1
            (append_suffix env suffix_f l)
          × (ltb 0 (append_suffix env suffix_f l).retval ≡ (
              is_given body && ((suffix_f == 0) || is_given (suffix_piece env suffix_f body h).0)))
    unfolding append_suffix
    suffix-Laid suffix_f [] base c h l a done fits =
        let empty : ltb 0 l.retval ≡ false = ground arith in
        simp (empty) (same-Laid base c h l a, refl)
    suffix-Laid suffix_f (b ∷ body) base c h l a done fits = elim (Bool-cases (suffix_f == 0)) [
      | inl absent ↦
          let more : ltb 0 l.retval ≡ true = ground arith in
          let not_asked : (suffix_f != 0) ≡ false = ground arith in
          simp (more, not_asked, absent, left-some base l a.kept) (same-Laid base c h l a, refl)
      | inr given ↦
          let more : ltb 0 l.retval ≡ true = ground arith in
          let asked : (suffix_f != 0) ≡ true = ground arith in
          let r : Text × H = env.suffix suffix_f h in
          let told : env.suffix suffix_f l.world ≡ r = ap (env.suffix suffix_f) a.world_is in
          let (laid, retval) =
            append-Laid base r.0 c r.1 (record l { world = r.1 }) (moved-Laid base c h r.1 l a)
              (subst
                (λ b. length (base ++ (if b then env.suffix suffix_f h else ([], h)).0) < limit)
                asked fits) in
          simp (more, asked, given, left-some base l a.kept, told)
            (laid, ap (ltb 0) retval ∙ is_given-length r.0)
    ]

pub tag-more : (dlevel : ℕ) (grp : Text) → ltb 0 (length (tag_text dlevel grp)) ≡ true
tag-more dlevel grp =
    if-all (λ t. ltb 0 (length t) ≡ true) (dlevel == 0x02) (ground arith)
      (if-all (λ t. ltb 0 (length t) ≡ true) (dlevel == 0x04) (ground arith)
        (if-all (λ t. ltb 0 (length t) ≡ true) (dlevel == 0x08) (ground arith)
          (if-all (λ t. ltb 0 (length t) ≡ true) (dlevel == 0x10) (ground arith) (ground arith))))
  where
    if-all : {A : Type 0} (P : A → Type 0) (b : Bool) {x y : A} → P x → P y → P (if b then x else y)
    if-all P true px py = px
    if-all P false px py = py

pub color_piece-plain :
    (dlevel : ℕ) (cr : Bool) → (c : Bool) → c ≡ false → length (clear_piece c cr) ≡ 0
color_piece-plain dlevel cr c e = rw e refl

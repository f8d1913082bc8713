-- ===== src/Trace/Filters.antt =====
-- The filters of bootstrap/mbed_trace.c, set and then asked.
use mcu_driver_hal.Base.{
  ℕ, zero, suc, ◌+◌, ◌≤◌, ◌<◌, ◌≡◌, ◌≢◌, ◌⊎◌, refl, ap, ◌∙◌, inl, inr, Bool, true, false, not, ◌&&◌,
  ◌||◌, some, [], ◌∷◌, length, arith, ok, undefined, ltb, ◌!=◌, ==-ne, if◌then◌else◌,
}
use mcu_driver_hal.Printf.{Text}
use mcu_driver_hal.Trace.{
  mbed_trace_exclude_filters_set, mbed_trace_include_filters_set, is_excluded, is_not_included,
  mbed_trace_skip,
}
use mcu_driver_hal.Trace.State.{Memory, write, Trace, c_string, strncpy, strstr}
use mcu_driver_hal.Trace.Array.Bounds.{Stands, Stands-frame, write-off, write-at}

-- No NUL among the characters.
abbrev pub IsPlain : Text → Type 0
IsPlain [] = Unit
IsPlain (c ∷ cs) = (c ≢ 0) × IsPlain cs

strncpy-off :
    (m : Memory) (p : ℕ) (cs : Text) (n a : ℕ) → (a < p) ⊎ (p + n ≤ a) → strncpy m p cs n a ≡ m a
unfolding strncpy
strncpy-off m p cs zero a h = refl
strncpy-off m p [] (suc n) a h =
    strncpy-off (write m p 0) (suc p) [] n a
      (elim h [ inl lo ↦ inl (omega arith) | inr hi ↦ inr (omega arith) ])
    ∙ write-off m p 0 a (elim h [ inl lo ↦ (λ e. omega arith) | inr hi ↦ (λ e. omega arith) ])
strncpy-off m p (c ∷ cs) (suc n) a h =
    strncpy-off (write m p c) (suc p) cs n a
      (elim h [ inl lo ↦ inl (omega arith) | inr hi ↦ inr (omega arith) ])
    ∙ write-off m p c a (elim h [ inl lo ↦ (λ e. omega arith) | inr hi ↦ (λ e. omega arith) ])

strncpy-Stands :
    (m : Memory) (p : ℕ) (cs : Text) (n : ℕ) → length cs < n → Stands (strncpy m p cs n) p cs
unfolding strncpy
strncpy-Stands m p cs zero short = absurd (omega arith)
strncpy-Stands m p [] (suc n) short =
    strncpy-off (write m p 0) (suc p) [] n p (inl (omega arith)) ∙ write-at m p 0
strncpy-Stands m p (c ∷ cs) (suc n) short = (
  strncpy-off (write m p c) (suc p) cs n p (inl (omega arith)) ∙ write-at m p c,
  strncpy-Stands (write m p c) (suc p) cs n (omega arith),
)

pub c_string-Stands :
    (bound : ℕ) (m : Memory) (p : ℕ) (cs : Text)
    → IsPlain cs
    → length cs < bound
    → Stands m p cs
    → c_string bound m p ≡ ok cs
unfolding c_string
c_string-Stands zero m p cs plain short s = absurd (omega arith)
c_string-Stands (suc bound) m p [] plain short s = rw s refl
c_string-Stands (suc bound) m p (c ∷ cs) (other, plain) short (e, s) =
    rw (e, ==-ne c 0 other, c_string-Stands bound m (suc p) cs plain (omega arith) s) refl

!=-yes : (c : ℕ) → c ≢ 0 → (c != 0) ≡ true
!=-yes c h = ground arith

strncpy-first :
    (m : Memory) (p : ℕ) (cs : Text) (n : ℕ)
    → IsPlain cs
    → 0 < n
    → n ≤ length cs
    → (strncpy m p cs n p != 0) ≡ true
unfolding strncpy
strncpy-first m p cs zero plain room long = absurd (omega arith)
strncpy-first m p [] (suc n) plain room long = absurd (omega arith)
strncpy-first m p (c ∷ cs) (suc n) (other, plain) room long =
    ap (λ k. k != 0) (strncpy-off (write m p c) (suc p) cs n p (inl (omega arith)) ∙ write-at m p c)
    ∙ !=-yes c other

-- A text that fills its buffer leaves no NUL.
c_string-full :
    (n : ℕ) (m : Memory) (p : ℕ) (cs : Text)
    → IsPlain cs
    → n ≤ length cs
    → c_string n (strncpy m p cs n) p ≡ undefined
unfolding c_string strncpy
c_string-full zero m p cs plain long = refl
c_string-full (suc n) m p [] plain long = absurd (omega arith)
c_string-full (suc n) m p (c ∷ cs) (other, plain) long =
    let first : strncpy (write m p c) (suc p) cs n p ≡ c =
      strncpy-off (write m p c) (suc p) cs n p (inl (omega arith)) ∙ write-at m p c in
    rw (first, ==-ne c 0 other, c_string-full n (write m p c) (suc p) cs plain (omega arith)) refl

abbrev pub is_given : Text → Bool
is_given [] = false
is_given (c ∷ cs) = true

-- What the filters ask for: nothing that the first mentions, and where the second is not empty only
-- what it mentions.
abbrev pub is_skipped : (exclude include grp : Text) → Bool
is_skipped exclude include grp =
    (is_given exclude && strstr exclude grp) || (is_given include && not (strstr include grp))

skip-or : (a b : Bool) → (if a then ok true else ok b) ≡ ok (a || b)
skip-or true b = refl
skip-or false b = refl

module _ {H : Type 0} where
  excluded-eq :
      (grp cs : Text) (s : Trace H)
      → IsPlain cs
      → length cs < s.filters_length
      → Stands s.memory s.filters_exclude cs
      → is_excluded grp s ≡ ok (is_given cs && strstr cs grp)
  unfolding is_excluded
  excluded-eq grp [] s plain short t = rw t refl
  excluded-eq grp (c ∷ cs) s (other, plain) short (e, t) =
      rw
        (
          e,
          !=-yes c other,
          c_string-Stands s.filters_length s.memory s.filters_exclude (c ∷ cs) (other, plain) short
              (e, t),
        )
        refl

  included-eq :
      (grp cs : Text) (s : Trace H)
      → IsPlain cs
      → length cs < s.filters_length
      → Stands s.memory s.filters_include cs
      → is_not_included grp s ≡ ok (is_given cs && not (strstr cs grp))
  unfolding is_not_included
  included-eq grp [] s plain short t = rw t refl
  included-eq grp (c ∷ cs) s (other, plain) short (e, t) =
      rw
        (
          e,
          !=-yes c other,
          c_string-Stands s.filters_length s.memory s.filters_include (c ∷ cs) (other, plain) short
              (e, t),
        )
        refl

  pub skip-Stands :
      (dlevel : ℕ) (grp exclude include : Text) (s : Trace H)
      → dlevel < 128
      → IsPlain exclude
      → IsPlain include
      → length exclude < s.filters_length
      → length include < s.filters_length
      → Stands s.memory s.filters_exclude exclude
      → Stands s.memory s.filters_include include
      → mbed_trace_skip dlevel (some grp) s ≡ ok (is_skipped exclude include grp)
  unfolding mbed_trace_skip
  skip-Stands dlevel grp exclude include s level pe pi se si te ti =
      let real : ltb dlevel 128 ≡ true = ground arith in
      rw (real, excluded-eq grp exclude s pe se te, included-eq grp include s pi si ti)
        (skip-or (is_given exclude && strstr exclude grp)
          (is_given include && not (strstr include grp)))

  -- After two texts without NUL and shorter than the filter buffers are set as the filters to
  -- exclude and to include, in buffers that do not overlap, a line of a group, at a level that is
  -- not negative as an int8_t, is skipped just where the first text is not empty and contains the
  -- group's name or the second is not empty and does not. So it is the filter text that is searched
  -- for the group, not the group for the filter text.
  pub filters_set-skip :
      (dlevel : ℕ) (grp exclude include : Text) (s : Trace H)
      → dlevel < 128
      → IsPlain exclude
      → IsPlain include
      → length exclude < s.filters_length
      → length include < s.filters_length
      → (s.filters_exclude + s.filters_length ≤ s.filters_include)
        ⊎ (s.filters_include + s.filters_length ≤ s.filters_exclude)
      → mbed_trace_skip dlevel (some grp) (
          mbed_trace_include_filters_set
            (some include)
            (mbed_trace_exclude_filters_set (some exclude) s))
        ≡ ok (is_skipped exclude include grp)
  unfolding mbed_trace_include_filters_set mbed_trace_exclude_filters_set
  filters_set-skip dlevel grp exclude include s level pe pi se si apart =
      let m : Memory = strncpy s.memory s.filters_exclude exclude s.filters_length in
      skip-Stands dlevel grp exclude include
        (mbed_trace_include_filters_set (some include)
          (mbed_trace_exclude_filters_set (some exclude) s))
        level pe pi se si
        (Stands-frame m (strncpy m s.filters_include include s.filters_length) s.filters_exclude
          exclude
          (λ a lo hi.
            strncpy-off m s.filters_include include s.filters_length a
              (elim apart [ inl h ↦ inl (omega arith) | inr h ↦ inr (omega arith) ]))
          (strncpy-Stands s.memory s.filters_exclude exclude s.filters_length se))
        (strncpy-Stands m s.filters_include include s.filters_length si)

  excluded-full :
      (grp filters : Text) (s : Trace H)
      → IsPlain filters
      → 0 < s.filters_length
      → s.filters_length ≤ length filters
      → is_excluded grp (mbed_trace_exclude_filters_set (some filters) s) ≡ undefined
  unfolding mbed_trace_exclude_filters_set is_excluded
  excluded-full grp filters s plain room long =
      rw
        (
          strncpy-first s.memory s.filters_exclude filters s.filters_length plain room long,
          c_string-full s.filters_length s.memory s.filters_exclude filters plain long,
        )
        refl

  -- After a text without NUL that is as long as the filter buffer or longer is set as the filter to
  -- exclude, the test of any group at a level that is not negative as an int8_t reads behind the
  -- buffer.
  pub exclude_filters_set-unterminated :
      (dlevel : ℕ) (grp filters : Text) (s : Trace H)
      → dlevel < 128
      → IsPlain filters
      → 0 < s.filters_length
      → s.filters_length ≤ length filters
      → mbed_trace_skip dlevel (some grp) (mbed_trace_exclude_filters_set (some filters) s)
        ≡ undefined
  unfolding mbed_trace_skip
  exclude_filters_set-unterminated dlevel grp filters s level plain room long =
      let real : ltb dlevel 128 ≡ true = ground arith in
      rw (real, excluded-full grp filters s plain room long) refl

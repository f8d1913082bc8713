-- ===== src/Printf/Format/Buffers.antt =====
-- Where the writers of bootstrap/mbed_printf_implementation.c put a text: into a buffer of limited
-- size, or into a stream until it fails.
use mcu_driver_hal.Base.{
  ℕ, zero, suc, ◌+◌, ◌-◌, ◌≤◌, ◌<◌, ◌≡◌, refl, ap, ap₂, sym, ◌∙◌, inl, inr, Bool, true, false, ◌&&◌,
  Option, none, some, [], ◌∷◌, length, arith, leb, ltb, ◌==◌, Bool-cases, if◌then◌else◌,
}
use mcu_driver_hal.Base.Words.{ℤ, pos}
use mcu_driver_hal.Printf.{
  Text, int_max, Buffer, Sink, eof, write_byte, store, after_fputc, put_all, mbed_minimal_putchar,
}

-- The character at an index of a text, and `d` behind its end.
abbrev pub at_or : Text → ℕ → ℕ → ℕ
at_or [] i d = d
at_or (c ∷ cs) zero d = c
at_or (c ∷ cs) (suc i) d = at_or cs i d

abbrev pub smaller : ℕ → ℕ → ℕ
smaller a b = if ltb a b then a else b

-- The text written from index `n` on, as far as it stands below `size`.
abbrev pub overlay : (size : ℕ) → Buffer → (n : ℕ) → Text → Buffer
overlay size b n [] = b
overlay size b n (c ∷ cs) = overlay size (if ltb n size then write_byte b n c else b) (suc n) cs

overlay_past : (size : ℕ) (b : Buffer) (n : ℕ) (t : Text) → size ≤ n → overlay size b n t ≡ b
overlay_past size b n [] h = refl
overlay_past size b n (c ∷ cs) h =
    let full : ltb n size ≡ false = ground arith in
    rw full (overlay_past size b (suc n) cs (omega arith))

at_or-suc : (c : ℕ) (cs : Text) (k d : ℕ) → 0 < k → at_or (c ∷ cs) k d ≡ at_or cs (k - 1) d
at_or-suc c cs zero d h = absurd (omega arith)
at_or-suc c cs (suc k) d h = ap (λ j. at_or cs j d) (omega arith)

pub overlay-at :
    (size : ℕ) (b : Buffer) (n : ℕ) (t : Text) (i : ℕ)
    → overlay size b n t i ≡ (if leb n i && ltb i size then at_or t (i - n) (b i) else b i)
overlay-at size b n [] i = ground arith
overlay-at size b n (c ∷ cs) i =
    overlay-at size (if ltb n size then write_byte b n c else b) (suc n) cs i ∙ step
  where
    one : i - suc n ≡ i - n - 1
    one = omega arith

    step :
        (if leb (suc n) i && ltb i size
          then at_or cs (i - suc n) ((if ltb n size then write_byte b n c else b) i)
          else (if ltb n size then write_byte b n c else b) i)
        ≡ (if leb n i && ltb i size then at_or (c ∷ cs) (i - n) (b i) else b i)
    step = elim (Bool-cases (ltb n size)) [
      | inr full ↦
          let off : (leb (suc n) i && ltb i size) ≡ false = ground arith in
          let off2 : (leb n i && ltb i size) ≡ false = ground arith in rw (full, off, off2)
      | inl room ↦ elim (Bool-cases (i == n)) [
        | inl at ↦
            let same : i ≡ n = ground arith in
            let off : (leb (suc n) i && ltb i size) ≡ false = ground arith in
            let on : (leb n i && ltb i size) ≡ true = ground arith in
            let zero_off : i - n ≡ 0 = omega (arith, same) in rw (room, off, on, at, zero_off)
        | inr away ↦ elim (Bool-cases (leb (suc n) i && ltb i size)) [
          | inl inside ↦
              let on : (leb n i && ltb i size) ≡ true = ground arith in
              rw (room, inside, on, away, one) (sym (at_or-suc c cs (i - n) (b i) (ground arith)))
          | inr outside ↦
              let off : (leb n i && ltb i size) ≡ false = ground arith in
              rw (room, outside, off, away)
        ]
      ]
    ]

module _ {S : Type 0} (fputc : (c : ℕ) → S → Bool × S) where
  -- A stream takes the characters one after the other until `fputc` fails.
  abbrev pub send : Text → S → ℕ → S × ℤ
  send [] s n = (s, pos n)
  send (c ∷ cs) s n =
      let rest = send cs (fputc c s).1 (n + 1) in
      if (fputc c s).0 then ((fputc c s).1, eof) else rest

module _ {S : Type 0} (fputc : (c : ℕ) → S → Bool × S) (size : ℕ) where
  -- A sink without a stream.
  abbrev pub in_buffer : Option Buffer → ℕ → Sink S
  in_buffer b n = record { buffer = b; stream = none; result = pos n }

  abbrev pub overlay_all : Option Buffer → ℕ → Text → Option Buffer
  overlay_all none n t = none
  overlay_all (some b) n t = some (overlay size b n t)

  overlay_all-nil : (b : Option Buffer) (n : ℕ) → overlay_all b n [] ≡ b
  overlay_all-nil none n = refl
  overlay_all-nil (some b) n = refl

  overlay_all-cons :
      (b : Option Buffer) (n c : ℕ) (cs : Text)
      → overlay_all b n (c ∷ cs) ≡ overlay_all (store size n c b) (suc n) cs
  overlay_all-cons none n c cs = refl
  overlay_all-cons (some b) n c cs = refl

  pub overlay_all-past : (b : Option Buffer) (n : ℕ) (t : Text) → size ≤ n → overlay_all b n t ≡ b
  overlay_all-past none n t h = refl
  overlay_all-past (some b) n t h = ap some (overlay_past size b n t h)

  -- The result counts what does not fit into the buffer too, up to the largest `int`.
  pub put_all-in_buffer :
      (t : Text) (b : Option Buffer) (n : ℕ)
      → size ≤ int_max
      → n ≤ int_max
      → put_all fputc size t (in_buffer b n)
        ≡ in_buffer (overlay_all b n t) (smaller (n + length t) int_max)
  unfolding put_all mbed_minimal_putchar
  put_all-in_buffer [] b n small le = ap₂ in_buffer (sym (overlay_all-nil b n)) (ground arith)
  put_all-in_buffer (c ∷ cs) b n small le = elim (Bool-cases (leb n (int_max - 1))) [
    | inl more ↦
        let next : n + 1 ≡ suc n = omega arith in
        rw (more, next)
          (put_all-in_buffer cs (store size n c b) (suc n) small (ground arith)
            ∙ ap₂ in_buffer (sym (overlay_all-cons b n c cs)) (
                ap (λ k. smaller k int_max) {x = suc n + length cs} {y = n + length (c ∷ cs)}
                  (omega arith)))
    | inr full ↦
        let past : size ≤ n = ground arith in
        rw full (
          put_all-in_buffer cs b n small le
          ∙ ap₂ in_buffer (overlay_all-past b n cs past ∙ sym (overlay_all-past b n (c ∷ cs) past))
              (ground arith))
  ]

  put_all-failed :
      (t : Text) (b : Option Buffer) (s : Option S)
      → put_all fputc size t (record { buffer = b; stream = s; result = eof })
        ≡ record { buffer = b; stream = s; result = eof }
  unfolding put_all mbed_minimal_putchar
  put_all-failed [] b s = refl
  put_all-failed (c ∷ cs) b s = put_all-failed cs b s

  pub put_all-send :
      (t : Text) (b : Option Buffer) (s : S) (n : ℕ)
      → n + length t ≤ int_max
      → put_all fputc size t (record { buffer = b; stream = some s; result = pos n })
        ≡ record { buffer = b; stream = some (send fputc t s n).0; result = (send fputc t s n).1 }
  unfolding put_all mbed_minimal_putchar
  put_all-send [] b s n h = refl
  put_all-send (c ∷ cs) b s n h =
      let more : leb n (int_max - 1) ≡ true = ground arith in
      rw more (after (fputc c s) (put_all-send cs b (fputc c s).1 (n + 1) (omega arith)))
    where
      after :
          (r : Bool × S)
          → put_all fputc size cs (record { buffer = b; stream = some r.1; result = pos (n + 1) })
            ≡ record {
              buffer = b;
              stream = some (send fputc cs r.1 (n + 1)).0;
              result = (send fputc cs r.1 (n + 1)).1;
            }
          → put_all fputc size cs
              (after_fputc fputc n (record { buffer = b; stream = some s; result = pos n }) r)
            ≡ record {
              buffer = b;
              stream = some (if r.0 then (r.1, eof) else send fputc cs r.1 (n + 1)).0;
              result = (if r.0 then (r.1, eof) else send fputc cs r.1 (n + 1)).1;
            }
      after (true, s') ih = put_all-failed cs b (some s')
      after (false, s') ih = ih

pub at_or-inside : (t : Text) (i d e : ℕ) → i < length t → at_or t i d ≡ at_or t i e
at_or-inside [] i d e h = absurd (omega arith)
at_or-inside (c ∷ cs) zero d e h = refl
at_or-inside (c ∷ cs) (suc i) d e h = at_or-inside cs i d e (omega arith)

pub at_or-outside : (t : Text) (i d : ℕ) → length t ≤ i → at_or t i d ≡ d
at_or-outside [] i d h = refl
at_or-outside (c ∷ cs) zero d h = absurd (omega arith)
at_or-outside (c ∷ cs) (suc i) d h = at_or-outside cs i d (omega arith)

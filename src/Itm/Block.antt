-- ===== src/Itm/Block.antt =====
-- The loops of mbed_itm_send_block in hal/source/mbed_itm_api.c, and the functions as a whole.
use mcu_driver_hal.Base.{
  ℕ, zero, suc, ◌+◌, ◌%◌, ◌^◌, ◌<◌, ◌≡◌, ◌⊎◌, refl, sym, ap, ◌∙◌, inl, inr, false, List, [], ◌∷◌,
  ◌++◌, append_assoc, append-nil, arith, Returns, Returns-bind, Returns-mono, ◌==◌, ◌!=◌,
  Bool-cases, if◌then◌else◌,
}
use mcu_driver_hal.Itm.{
  Fields, ItmUnit, Walk, read_word, is_enabled, itm_out8, itm_out32, align_loop, word_loop,
  byte_loop, mbed_itm_send_block,
}
use mcu_driver_hal.Itm.Sent.{
  word, bytes_of, slice, IsPort, read_word-slice, Added, Added-join, itm_out8-Added,
  itm_out32-Added,
}

module _ {H : Type 0} (u : ItmUnit H) (s : IsPort u) (fuel : ℕ) (enough : s.rounds < fuel)
    (memory : ℕ → ℕ) (bytes : (a : ℕ) → memory a < 2 ^ 8) (p : ℕ) where
  -- Some bytes were sent, and those that are left complete the block.
  abbrev Walked : (ptr len : ℕ) → H → Walk H → Type 0
  Walked ptr len h w =
      (l : List ℕ) × Added u s fuel p l h w.hw
      × (l ++ slice memory w.ptr w.len ≡ slice memory ptr len)

  Walked-here : (ptr len : ℕ) (h : H) → Walked ptr len h (record { ptr = ptr; len = len; hw = h })
  Walked-here ptr len h = ([], (sym (append-nil (bytes_of (s.sent h p))), λ q other. refl), refl)

  Walked-after :
      (l m : List ℕ) (ptr len : ℕ) (h h' : H) (w : Walk H)
      → Added u s fuel p l h h'
      → Walked ptr len h' w
      → l ++ slice memory ptr len ≡ m
      → (k : List ℕ) × Added u s fuel p k h w.hw × (k ++ slice memory w.ptr w.len ≡ m)
  Walked-after l m ptr len h h' w a (k, b, e) join = (
    l ++ k,
    Added-join u s fuel p l k h h' w.hw a b,
    append_assoc l k _ ∙ ap (λ t. l ++ t) e ∙ join,
  )

  -- Only at the end of the block may the pointer not be aligned.
  abbrev IsAligned : Walk H → Type 0
  IsAligned w = (w.ptr % 4 ≡ 0) ⊎ (w.len ≡ 0)

  align_loop-Walked :
      (ptr len : ℕ) (h : H)
      → Returns (λ w. Walked ptr len h w × IsAligned w) (align_loop u memory fuel p ptr len h)
  unfolding align_loop
  align_loop-Walked ptr zero h = (Walked-here ptr 0 h, inr refl)
  align_loop-Walked ptr (suc len) h = elim (Bool-cases (ptr % 4 != 0)) [
    | inl off ↦ rw off (
        Returns-bind _ _ (itm_out8 u fuel p (memory ptr) h) _
          (itm_out8-Added u s fuel p (memory ptr) h enough)
          (λ h' a.
            Returns-mono _ _ (align_loop u memory fuel p (ptr + 1) len h')
              (align_loop-Walked (ptr + 1) len h')
              (λ w b. (Walked-after (memory ptr ∷ []) _ (ptr + 1) len h h' w a b.0 refl, b.1))))
    | inr on ↦ rw on (Walked-here ptr (suc len) h, inl (ground arith))
  ]

  word_loop-Walked :
      (ptr len : ℕ) (h : H)
      → (ptr % 4 ≡ 0) ⊎ (len ≡ 0)
      → Returns (Walked ptr len h) (word_loop u memory fuel p ptr len h)
  unfolding word_loop
  word_loop-Walked ptr zero h aligned = Walked-here ptr 0 h
  word_loop-Walked ptr (suc zero) h aligned = Walked-here ptr 1 h
  word_loop-Walked ptr (suc (suc zero)) h aligned = Walked-here ptr 2 h
  word_loop-Walked ptr (suc (suc (suc zero))) h aligned = Walked-here ptr 3 h
  word_loop-Walked ptr (suc (suc (suc (suc len)))) h aligned =
      let on : ptr % 4 ≡ 0 = omega (arith, aligned) in
      let next : (ptr + 4) % 4 ≡ 0 = omega arith in
      let e : ptr + 1 + 1 + 1 + 1 ≡ ptr + 4 = omega arith in
      Returns-bind _ _ (read_word memory ptr) _ (read_word-slice memory bytes ptr on) (λ w four.
        Returns-bind _ _ (itm_out32 u fuel p w h) _ (itm_out32-Added u s fuel p w h enough) (λ h' a.
          Returns-mono _ _ (word_loop u memory fuel p (ptr + 4) len h')
            (word_loop-Walked (ptr + 4) len h' (inl next))
            (λ v b. Walked-after (bytes_of (word w ∷ [])) _ (ptr + 4) len h h' v a b (
              ap (λ t. t ++ slice memory (ptr + 4) len) four
              ∙ ap (λ k. slice memory ptr 4 ++ slice memory k len) (sym e)))))

  byte_loop-Added :
      (ptr len : ℕ) (h : H)
      → Returns (Added u s fuel p (slice memory ptr len) h) (byte_loop u memory fuel p ptr len h)
  unfolding byte_loop
  byte_loop-Added ptr zero h = (sym (append-nil (bytes_of (s.sent h p))), λ q other. refl)
  byte_loop-Added ptr (suc len) h =
      Returns-bind _ _ (itm_out8 u fuel p (memory ptr) h) _
        (itm_out8-Added u s fuel p (memory ptr) h enough)
        (λ h' a.
          Returns-mono _ _ (byte_loop u memory fuel p (ptr + 1) len h')
            (byte_loop-Added (ptr + 1) len h')
            (λ h'' b.
              Added-join u s fuel p (memory ptr ∷ []) (slice memory (ptr + 1) len) h h' h'' a b))

module _ {H : Type 0} (u : ItmUnit H) (s : IsPort u) (f : Fields) (fuel : ℕ) where
  -- With a memory of bytes, and more reads of a port than it can be busy for: a block of any length
  -- at any address is sent, with every word read at a multiple of 4. Where the ITM and the port are
  -- enabled the bytes that the writes to the port carry are those of the block, in order; otherwise
  -- nothing is written. In both cases nothing is written to another port.
  pub mbed_itm_send_block-sends :
      (memory : ℕ → ℕ) (p ptr len : ℕ) (h : H)
      → ((a : ℕ) → memory a < 2 ^ 8)
      → s.rounds < fuel
      → Returns
          (λ h'.
            (bytes_of (s.sent h' p)
              ≡ bytes_of (s.sent h p) ++ (if is_enabled u f p h then slice memory ptr len else []))
            × ((q : ℕ) → (q == p) ≡ false → s.sent h' q ≡ s.sent h q))
          (mbed_itm_send_block u f fuel memory p ptr len h)
  unfolding mbed_itm_send_block
  mbed_itm_send_block-sends memory p ptr len h bytes enough =
      elim (Bool-cases (is_enabled u f p h)) [
        | inl on ↦ rw on (
            Returns-bind _ _ (align_loop u memory fuel p ptr len h) _
              (align_loop-Walked u s fuel enough memory bytes p ptr len h)
              (λ w a.
                Returns-bind _ _ (word_loop u memory fuel p w.ptr w.len w.hw) _
                  (word_loop-Walked u s fuel enough memory bytes p w.ptr w.len w.hw a.1)
                  (λ v b.
                    Returns-mono _ _ (byte_loop u memory fuel p v.ptr v.len v.hw)
                      (byte_loop-Added u s fuel enough memory bytes p v.ptr v.len v.hw)
                      (λ h' c. complete h h' w v a.0 b c))))
        | inr off ↦ rw off (sym (append-nil (bytes_of (s.sent h p))), λ q other. refl)
      ]
    where
      complete :
          (h h' : H) (w v : Walk H)
          → Walked u s fuel enough memory bytes p ptr len h w
          → Walked u s fuel enough memory bytes p w.ptr w.len w.hw v
          → Added u s fuel p (slice memory v.ptr v.len) v.hw h'
          → Added u s fuel p (slice memory ptr len) h h'
      complete h h' w v (l, a, e) (k, b, g) c =
          let joined =
            Added-join u s fuel p l (k ++ slice memory v.ptr v.len) h w.hw h' a
              (Added-join u s fuel p k (slice memory v.ptr v.len) w.hw v.hw h' b c) in
          let all : l ++ (k ++ slice memory v.ptr v.len) ≡ slice memory ptr len =
            ap (λ t. l ++ t) g ∙ e in
          (joined.0 ∙ ap (λ t. bytes_of (s.sent h p) ++ t) all, joined.1)

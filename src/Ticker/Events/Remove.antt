-- ===== src/Ticker/Events/Remove.antt =====
-- Removal from the list of events (`ticker_remove_event` of hal/source/mbed_ticker_api.c).
use mcu_driver_hal.Base.{
  ℕ, zero, suc, ◌<◌, ◌≡◌, ◌≢◌, refl, subst, sym, ◌∙◌, inl, inr, true, false, List, [], ◌∷◌, arith,
  Returns, Returns-mono, ◌==◌, ==-ne, length, has, Distinct, Bool-cases, if◌then◌else◌,
}
use mcu_driver_hal.Ticker.Types.{Ptr, null}
use mcu_driver_hal.Ticker.Events.{Memory, set_next, unlink_after}
use mcu_driver_hal.Ticker.Events.Chain.{Chain, Chain-frame, entry}

-- The objects in order without `obj`.
abbrev pub drop_object : Ptr → List Ptr → List Ptr
drop_object obj [] = []
drop_object obj (x ∷ xs) = let rest = drop_object obj xs in if x == obj then xs else x ∷ rest

-- The chain that starts at `p` lost `obj`; nothing else changed.
pub record Unlinked (m : Memory) (obj p : Ptr) (xs : List Ptr) (n : Memory) : Type 0 where
  pub chain : Chain n p (drop_object obj xs)
  pub same : (a : Ptr) → entry n a ≡ entry m a
  pub outside : (a : Ptr) → has a xs ≡ false → (n a).next ≡ (m a).next

module _ (m : Memory) (obj : Ptr) (ne : obj ≢ null) where
  cut :
      (x : Ptr) (xs : List Ptr)
      → Chain m x (x ∷ xs)
      → Distinct (x ∷ xs)
      → (x == obj) ≡ false
      → (m x).next ≡ obj
      → Unlinked m obj x (x ∷ xs) (set_next m x (m obj).next)
  cut x [] c d other e = absurd (ne (sym e ∙ c.2))
  cut x (y ∷ ys) c d other e = record {
    chain = rw (other, found) (refl, c.1, rw (jump, y-eq) kept);
    same = λ a. ground arith;
    outside = λ a h. ground arith;
  }
    where
      n : Memory
      n = set_next m x (m obj).next

      y-eq : obj ≡ y
      y-eq = sym e ∙ c.2.0

      found : (y == obj) ≡ true
      found = ground arith

      jump : (set_next m x (m obj).next x).next ≡ (m obj).next
      jump = ground arith

      kept : Chain (set_next m x (m obj).next) (m y).next ys
      kept = Chain-frame m n (m y).next ys c.2.2 (λ a h. ground (arith, d.0))

  skip :
      (x : Ptr) (xs : List Ptr) (n : Memory)
      → Chain m x (x ∷ xs)
      → Distinct (x ∷ xs)
      → (x == obj) ≡ false
      → Unlinked m obj (m x).next xs n
      → Unlinked m obj x (x ∷ xs) n
  skip x xs n c d other u = record {
    chain = rw other (refl, c.1, rw (u.outside x d.0) u.chain);
    same = u.same;
    outside = λ a h. u.outside a (ground arith);
  }

  next-ne :
      (x : Ptr) (xs : List Ptr) → Chain m x (x ∷ xs) → ((m x).next == obj) ≡ true → (m x).next ≡ obj
  next-ne x xs c h = ground arith

  unlink_from :
      (rounds : ℕ) (x : Ptr) (xs : List Ptr)
      → Chain m x (x ∷ xs)
      → Distinct (x ∷ xs)
      → (x == obj) ≡ false
      → suc (length xs) < rounds
      → Returns (Unlinked m obj x (x ∷ xs)) (unlink_after rounds m obj x)
  unfolding unlink_after
  unlink_from zero x xs c d other h = absurd (omega arith)
  unlink_from (suc zero) x xs c d other h = absurd (omega arith)
  unlink_from (suc (suc rounds)) x [] c d other h =
      rw (==-ne x null c.1, c.2, ==-ne null obj (λ e. ne (sym e)))
        (skip x [] m c d other (record { chain = c.2; same = λ a. refl; outside = λ a k. refl }))
  unlink_from (suc (suc rounds)) x (y ∷ ys) c d other h =
      rw (==-ne x null c.1) (elim (Bool-cases ((m x).next == obj)) [
        | inl e ↦ rw e (cut x (y ∷ ys) c d other (next-ne x (y ∷ ys) c e))
        | inr e ↦
            rw (e, c.2.0)
              (Returns-mono (Unlinked m obj y (y ∷ ys)) (Unlinked m obj x (x ∷ y ∷ ys)) _
                (unlink_from (suc rounds) y ys (refl, c.2.1, c.2.2) d.1 (rw (← c.2.0) e)
                  (omega arith))
                (λ n u.
                  skip x (y ∷ ys) n c d other
                    (subst (λ k. Unlinked m obj k (y ∷ ys) n) (sym c.2.0) u)))
      ])

  -- With enough rounds the walk ends with `obj` taken out, wherever it stood, and an object that is
  -- not pending leaves everything as it is.
  pub unlink_after-Unlinked :
      (rounds : ℕ) (p : Ptr) (xs : List Ptr)
      → Chain m p xs
      → Distinct xs
      → (p == obj) ≡ false
      → length xs < rounds
      → Returns (Unlinked m obj p xs) (unlink_after rounds m obj p)
  unfolding unlink_after
  unlink_after-Unlinked zero p xs c d other h = absurd (omega arith)
  unlink_after-Unlinked (suc rounds) p [] c d other h =
      rw c (record { chain = refl; same = λ a. refl; outside = λ a k. refl })
  unlink_after-Unlinked (suc rounds) p (x ∷ xs) c d other h =
      let at : p ≡ x = c.0 in
      subst (λ k. Returns (Unlinked m obj k (x ∷ xs)) (unlink_after (suc rounds) m obj k)) (sym at)
        (unlink_from (suc rounds) x xs (refl, c.1, c.2) d (rw (← at) other) h)

  -- An object that is not pending leaves the list as it is.
  pub drop_object_of_not_has : (xs : List Ptr) → has obj xs ≡ false → drop_object obj xs ≡ xs
  drop_object_of_not_has [] h = refl
  drop_object_of_not_has (x ∷ xs) h = ground (arith, drop_object_of_not_has xs)

  pub has-drop_object : (xs : List Ptr) → Distinct xs → has obj (drop_object obj xs) ≡ false
  has-drop_object [] d = refl
  has-drop_object (x ∷ xs) d = ground (arith, has-drop_object xs)

-- ===== src/Ticker/Events/Place.antt =====
-- The list of objects after an insertion: length, members and times (`insert_event` of
-- hal/source/mbed_ticker_api.c).
use mcu_driver_hal.Base.{
  ℕ, suc, ◌≡◌, refl, inl, inr, false, ◌||◌, List, [], ◌∷◌, arith, All, ◌==◌, ltb, length, has,
  Distinct, Bool-cases,
}
use mcu_driver_hal.Ticker.Types.{Ptr}
use mcu_driver_hal.Ticker.Events.{Memory}
use mcu_driver_hal.Ticker.Events.Chain.{Entry}
use mcu_driver_hal.Ticker.Events.Splice.{place, insert_entry}

module _ (m : Memory) (t : ℕ) (obj : Ptr) where
  pub has-place : (a : Ptr) (xs : List Ptr) → has a (place m t obj xs) ≡ ((a == obj) || has a xs)
  has-place a [] = refl
  has-place a (x ∷ xs) = ground (arith, has-place a xs)

  pub length-place : (xs : List Ptr) → length (place m t obj xs) ≡ suc (length xs)
  length-place [] = refl
  length-place (x ∷ xs) = ground (arith, length-place xs)

  pub Distinct-place :
      (xs : List Ptr) → Distinct xs → has obj xs ≡ false → Distinct (place m t obj xs)
  Distinct-place [] d h = (refl, tt)
  Distinct-place (x ∷ xs) d h = elim (Bool-cases (ltb t (m x).timestamp)) [
    | inl e ↦ rw e (h, d)
    | inr e ↦ rw e (ground (arith, has-place x xs), Distinct-place xs d.1 (ground arith))
  ]

pub All-insert_entry :
    (P : Entry → Type 0) (t i : ℕ) (es : List Entry)
    → P (t, i)
    → All P es
    → All P (insert_entry (t, i) es)
unfolding insert_entry
All-insert_entry P t i [] p ps = (p, tt)
All-insert_entry P t i ((u, j) ∷ es) p ps = elim (Bool-cases (ltb t u)) [
  | inl e ↦ rw e (p, ps)
  | inr e ↦ rw e (ps.0, All-insert_entry P t i es p ps.1)
]

-- ===== src/Ticker/Events/Drop.antt =====
-- The list of objects after a removal: order, members and times (`ticker_remove_event` of
-- hal/source/mbed_ticker_api.c).
use mcu_driver_hal.Base.{
  ℕ, ◌≤◌, ◌≡◌, inl, inr, false, List, [], ◌∷◌, arith, All, ◌==◌, length, has, Distinct, Bool-cases,
}
use mcu_driver_hal.Ticker.Types.{Ptr}
use mcu_driver_hal.Ticker.Events.{Memory}
use mcu_driver_hal.Ticker.Events.Chain.{Entry, entries, SortedFrom}
use mcu_driver_hal.Ticker.Events.Remove.{drop_object}

pub SortedFrom-weaken : (t u : ℕ) (es : List Entry) → t ≤ u → SortedFrom u es → SortedFrom t es
SortedFrom-weaken t u [] h s = s
SortedFrom-weaken t u (e ∷ es) h s = (omega arith, s.1)

module _ (m : Memory) (obj : Ptr) where
  pub SortedFrom-drop_object :
      (t : ℕ) (xs : List Ptr)
      → SortedFrom t (entries m xs)
      → SortedFrom t (entries m (drop_object obj xs))
  SortedFrom-drop_object t [] s = s
  SortedFrom-drop_object t (x ∷ xs) s = elim (Bool-cases (x == obj)) [
    | inl e ↦ rw e (SortedFrom-weaken t (m x).timestamp (entries m xs) s.0 s.1)
    | inr e ↦ rw e (s.0, SortedFrom-drop_object (m x).timestamp xs s.1)
  ]

  pub All-drop_object :
      (P : Entry → Type 0) (xs : List Ptr)
      → All P (entries m xs)
      → All P (entries m (drop_object obj xs))
  All-drop_object P [] ps = ps
  All-drop_object P (x ∷ xs) ps = elim (Bool-cases (x == obj)) [
    | inl e ↦ rw e ps.1
    | inr e ↦ rw e (ps.0, All-drop_object P xs ps.1)
  ]

module _ (obj : Ptr) where
  pub length-drop_object-le : (xs : List Ptr) → length (drop_object obj xs) ≤ length xs
  length-drop_object-le [] = omega arith
  length-drop_object-le (x ∷ xs) = ground (arith, length-drop_object-le xs)

  pub has-drop_object-false :
      (a : Ptr) (xs : List Ptr) → has a xs ≡ false → has a (drop_object obj xs) ≡ false
  has-drop_object-false a [] h = h
  has-drop_object-false a (x ∷ xs) h = ground (arith, has-drop_object-false a xs)

  pub Distinct-drop_object : (xs : List Ptr) → Distinct xs → Distinct (drop_object obj xs)
  Distinct-drop_object [] d = d
  Distinct-drop_object (x ∷ xs) d = elim (Bool-cases (x == obj)) [
    | inl e ↦ rw e d.1
    | inr e ↦ rw e (has-drop_object-false x xs d.0, Distinct-drop_object xs d.1)
  ]

-- ===== src/Pinmap/Usable.antt =====
-- What a choice of pins by hal/source/mbed_pinmap_common.c has to satisfy.
use mcu_driver_hal.Base.{
  ℕ, zero, suc, ◌+◌, ◌<◌, ◌≤◌, ◌≡◌, ◌≢◌, ◌⊎◌, inl, inr, Bool, true, false, ◌&&◌, ◌||◌, List, [],
  ◌∷◌, arith, refl, sym, ◌∙◌, ap, has, ◌==◌, Bool-cases, if◌then◌else◌, none, some,
}
use mcu_driver_hal.Pinmap.{Table, Pins, pinmap_list_has_pin, already_in_use, next_unset}

pub pinmap_list_has_pin-eq : (list : List ℕ) (p : ℕ) → pinmap_list_has_pin list p ≡ has p list
unfolding pinmap_list_has_pin
pinmap_list_has_pin-eq [] p = refl
pinmap_list_has_pin-eq (x ∷ xs) p = ground (arith, pinmap_list_has_pin-eq xs p)

module _ (nc : ℕ) where
  -- The table has a row, before the one that ends it, of the pin for the peripheral.
  abbrev pub offers : (per : ℕ) → Table → (pin : ℕ) → Bool
  offers per [] pin = false
  offers per (m ∷ map) pin =
      let rest = offers per map pin in
      if m.pin == nc then false else ((m.pin == pin) && (m.peripheral == per)) || rest

  pub offers-ne : (per : ℕ) (map : Table) (pin : ℕ) → offers per map pin ≡ true → pin ≢ nc
  offers-ne per [] pin h e = ground arith
  offers-ne per (m ∷ map) pin h e = ground (arith, offers-ne per map pin)

  module _ (whitelist blacklist : List ℕ) (per : ℕ) (maps : ℕ → Table) (count : ℕ) where
    -- `ps` completes `pins`: a pin that was chosen stays, and each other one is offered by its
    -- table for the peripheral, allowed by both lists, and unlike all other pins.
    pub record Completes (pins ps : Pins) : Type 0 where
      pub kept : (j : ℕ) → (pins j ≢ nc) ⊎ (count ≤ j) → ps j ≡ pins j
      pub offered : (j : ℕ) → j < count → pins j ≡ nc → offers per (maps j) (ps j) ≡ true
      pub allowed :
          (j : ℕ)
          → j < count
          → pins j ≡ nc
          → (has (ps j) whitelist ≡ true) × (has (ps j) blacklist ≡ false)
      pub apart : (j l : ℕ) → j < count → pins j ≡ nc → l < count → l ≢ j → ps l ≢ ps j

  pub already_in_use-false :
      (i p : ℕ) (pins : Pins) (left j l : ℕ)
      → already_in_use nc i p pins left j ≡ false
      → j ≤ l
      → l < j + left
      → l ≢ i
      → pins l ≢ p
  unfolding already_in_use
  already_in_use-false i p pins zero j l h lo hi ne e = absurd (omega arith)
  already_in_use-false i p pins (suc left) j l h lo hi ne e = elim (Bool-cases (l == j)) [
    | inl at ↦
        let same : l ≡ j = ground arith in
        let here : pins j ≡ p = ap pins (sym same) ∙ e in ground arith
    | inr past ↦
        already_in_use-false i p pins left (suc j) l (ground arith) (ground arith) (omega arith) ne
          e
  ]

  pub already_in_use-true :
      (i p : ℕ) (pins : Pins) (left j : ℕ)
      → already_in_use nc i p pins left j ≡ true
      → (l : ℕ) × (j ≤ l) × (l < j + left) × (l ≢ i) × (pins l ≡ p)
  unfolding already_in_use
  already_in_use-true i p pins zero j h = ground arith
  already_in_use-true i p pins (suc left) j h = elim (Bool-cases (j == i)) [
    | inl at ↦
        let (l, a, b, c, d) = already_in_use-true i p pins left (suc j) (ground arith) in
        (l, omega arith, omega arith, c, d)
    | inr off ↦ elim (Bool-cases (p == pins j)) [
      | inl same ↦ (j, omega arith, omega arith, ground arith, ground arith)
      | inr other ↦
          let (l, a, b, c, d) = already_in_use-true i p pins left (suc j) (ground arith) in
          (l, omega arith, omega arith, c, d)
    ]
  ]

  pub next_unset-none :
      (pins : Pins) (left i : ℕ)
      → next_unset nc pins left i ≡ none
      → (l : ℕ) → i ≤ l
      → l < i + left
      → pins l ≢ nc
  unfolding next_unset
  next_unset-none pins zero i h l lo hi e = absurd (omega arith)
  next_unset-none pins (suc left) i h l lo hi e = elim (Bool-cases (pins i == nc)) [
    | inl unset ↦ ground arith
    | inr is_set ↦ elim (Bool-cases (l == i)) [
      | inl at ↦
          let same : l ≡ i = ground arith in
          let here : pins i ≡ nc = ap pins (sym same) ∙ e in ground arith
      | inr past ↦ next_unset-none pins left (suc i) (ground arith) l (ground arith) (omega arith) e
    ]
  ]

  pub next_unset-some :
      (pins : Pins) (left i k : ℕ)
      → next_unset nc pins left i ≡ some k
      → (pins k ≡ nc) × (i ≤ k) × (k < i + left) × ((l : ℕ) → i ≤ l → l < k → pins l ≢ nc)
  unfolding next_unset
  next_unset-some pins zero i k h = ground arith
  next_unset-some pins (suc left) i k h = elim (Bool-cases (pins i == nc)) [
    | inl unset ↦
        let same : i ≡ k = ground arith in
        rw (← same) (ground arith, omega arith, omega arith, λ l lo hi. absurd (omega arith))
    | inr is_set ↦
        let (a, b, c, d) = next_unset-some pins left (suc i) k (ground arith) in
        (
          a,
          omega arith,
          omega arith,
          λ l lo hi e. elim (Bool-cases (l == i)) [
            | inl at ↦
                let same : l ≡ i = ground arith in
                let here : pins i ≡ nc = ap pins (sym same) ∙ e in ground arith
            | inr past ↦ d l (ground arith) hi e
          ],
        )
  ]

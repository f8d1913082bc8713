-- ===== src/Pinmap/Search.antt =====
-- `pinmap_find_peripheral_pins` of hal/source/mbed_pinmap_common.c.
use mcu_driver_hal.Base.{
  ℕ, zero, suc, ◌+◌, ◌<◌, ◌≤◌, ◌≡◌, ◌≢◌, ◌⊎◌, inl, inr, Bool, true, false, List, [], ◌∷◌, arith,
  refl, subst, sym, ◌∙◌, ap, has, ◌==◌, ==_refl, ==-ne, ltb, Bool-cases, Option-cases,
  if◌then◌else◌, Option, none, some, fun_ext, Run, ok, Returns, Returns-bind,
}
use mcu_driver_hal.Pinmap.{
  PinMap, Table, Pins, set_pin, already_in_use, next_unset, is_candidate, try_rows,
  pinmap_find_peripheral_pins,
}
use mcu_driver_hal.Pinmap.Usable.{
  pinmap_list_has_pin-eq, offers, Completes, already_in_use-false, already_in_use-true,
  next_unset-none, next_unset-some,
}

set_pin-twice : (pins : Pins) (i p q : ℕ) → set_pin (set_pin pins i q) i p ≡ set_pin pins i p
set_pin-twice pins i p q = fun_ext (λ j. ground arith)

set_pin-same : (pins : Pins) (i p : ℕ) → pins i ≡ p → set_pin pins i p ≡ pins
set_pin-same pins i p e = fun_ext (λ j. elim (Bool-cases (j == i)) [
  | inl at ↦ let same : j ≡ i = ground arith in rw (at, same) (sym e)
  | inr off ↦ rw off
])

set_pin-at : (pins : Pins) (i p : ℕ) → set_pin pins i p i ≡ p
set_pin-at pins i p = rw (==_refl i)

set_pin-off : (pins : Pins) (i p j : ℕ) → j ≢ i → set_pin pins i p j ≡ pins j
set_pin-off pins i p j ne = rw (==-ne j i ne)

module _ (nc : ℕ) (whitelist blacklist : List ℕ) (per : ℕ) (maps : ℕ → Table) (count : ℕ) where
  -- What the function promises of its return value and of the pins that it leaves.
  abbrev pub Result : Pins → Bool × Pins → Type 0
  Result pins (true, ps) = Completes nc whitelist blacklist per maps count pins ps
  Result pins (false, ps) =
      (ps ≡ pins) × ((s : Pins) → ¬ Completes nc whitelist blacklist per maps count pins s)

  abbrev candidate : ℕ → PinMap → Pins → Bool
  candidate = is_candidate nc whitelist blacklist per maps count

  abbrev rows : (Pins → Run (Bool × Pins)) → ℕ → Table → Pins → Run (Bool × Pins)
  rows = try_rows nc whitelist blacklist per maps count

  abbrev Solution : Pins → Pins → Type 0
  Solution = Completes nc whitelist blacklist per maps count

  candidate-all :
      (i : ℕ) (m : PinMap) (pins : Pins)
      → candidate i m pins ≡ true
      → (m.peripheral ≡ per)
        × (has m.pin whitelist ≡ true)
        × (has m.pin blacklist ≡ false)
        × (already_in_use nc i m.pin pins count 0 ≡ false)
  unfolding is_candidate
  candidate-all i m pins h =
      let w = pinmap_list_has_pin-eq whitelist m.pin in
      let b = pinmap_list_has_pin-eq blacklist m.pin in
      (ground arith, ground arith, ground arith, ground arith)

  candidate-none :
      (i : ℕ) (m : PinMap) (pins : Pins)
      → candidate i m pins ≡ false
      → m.peripheral ≡ per
      → has m.pin whitelist ≡ true
      → has m.pin blacklist ≡ false
      → already_in_use nc i m.pin pins count 0 ≡ true
  unfolding is_candidate
  candidate-none i m pins h e a c =
      let w = pinmap_list_has_pin-eq whitelist m.pin in
      let b = pinmap_list_has_pin-eq blacklist m.pin in ground arith

  module _ (i : ℕ) (pins : Pins) (unset : pins i ≡ nc) (inside : i < count) where
    -- A completion after `p` is chosen completes the pins.
    complete :
        (p : ℕ) (ps : Pins)
        → p ≢ nc
        → offers nc per (maps i) p ≡ true
        → has p whitelist ≡ true
        → has p blacklist ≡ false
        → ((l : ℕ) → l < count → l ≢ i → pins l ≢ p)
        → Solution (set_pin pins i p) ps
        → Solution pins ps
    complete p ps ne off w b free c = record {
      kept = λ j h. c.kept j (still j h) ∙ set_pin-off pins i p j (not_i j h);
      offered = λ j lt e. elim (Bool-cases (j == i)) [
        | inl at ↦ let same : j ≡ i = ground arith in rw (same, here) off
        | inr other ↦ c.offered j lt (set_pin-off pins i p j (ground arith) ∙ e)
      ];
      allowed = λ j lt e. elim (Bool-cases (j == i)) [
        | inl at ↦ let same : j ≡ i = ground arith in rw (same, here) (w, b)
        | inr other ↦ c.allowed j lt (set_pin-off pins i p j (ground arith) ∙ e)
      ];
      apart = λ j l lt e l_lt differ same_pin. elim (Bool-cases (j == i)) [
        | inl at ↦
            let same : j ≡ i = ground arith in
            first l l_lt (λ q. differ (q ∙ sym same)) (same_pin ∙ ap ps same)
        | inr other ↦
            c.apart j l lt (set_pin-off pins i p j (ground arith) ∙ e) l_lt differ same_pin
      ];
    }
      where
        here : ps i ≡ p
        here = c.kept i (inl (rw (set_pin-at pins i p) ne)) ∙ set_pin-at pins i p

        not_i : (j : ℕ) → (pins j ≢ nc) ⊎ (count ≤ j) → j ≢ i
        not_i j (inl h) e = h (ap pins e ∙ unset)
        not_i j (inr h) e = omega (arith, e)

        still : (j : ℕ) → (pins j ≢ nc) ⊎ (count ≤ j) → (set_pin pins i p j ≢ nc) ⊎ (count ≤ j)
        still j (inl h) = inl (λ e. h (sym (set_pin-off pins i p j (not_i j (inl h))) ∙ e))
        still j (inr h) = inr h

        first : (l : ℕ) → l < count → l ≢ i → ps l ≢ ps i
        first l lt differ e = elim (Bool-cases (pins l == nc)) [
          | inl free_pin ↦
              c.apart l i lt (set_pin-off pins i p l differ ∙ ground arith) inside
                (λ q. differ (sym q)) (sym e)
          | inr chosen ↦
              let fixed = c.kept l (still l (inl (ground arith))) ∙ set_pin-off pins i p l differ in
              free l lt differ (sym fixed ∙ e ∙ here)
        ]

    -- A completion of the pins that has `p` there is one after `p` is chosen.
    restrict :
        (p : ℕ) (s : Pins) → p ≢ nc → s i ≡ p → Solution pins s → Solution (set_pin pins i p) s
    restrict p s ne at c = record {
      kept = λ j h. elim (Bool-cases (j == i)) [
        | inl e ↦ let same : j ≡ i = ground arith in rw same (at ∙ sym (set_pin-at pins i p))
        | inr e ↦
            let off = set_pin-off pins i p j (ground arith) in c.kept j (was j off h) ∙ sym off
      ];
      offered = λ j lt e. c.offered j lt (was_unset j e);
      allowed = λ j lt e. c.allowed j lt (was_unset j e);
      apart = λ j l lt e. c.apart j l lt (was_unset j e);
    }
      where
        was :
            (j : ℕ)
            → set_pin pins i p j ≡ pins j
            → (set_pin pins i p j ≢ nc) ⊎ (count ≤ j)
            → (pins j ≢ nc) ⊎ (count ≤ j)
        was j off (inl h) = inl (λ e. h (off ∙ e))
        was j off (inr h) = inr h

        was_unset : (j : ℕ) → set_pin pins i p j ≡ nc → pins j ≡ nc
        was_unset j e = elim (Bool-cases (j == i)) [
          | inl b ↦ let same : j ≡ i = ground arith in ap pins same ∙ unset
          | inr b ↦ sym (set_pin-off pins i p j (ground arith)) ∙ e
        ]

    -- A row that is skipped is no completion's.
    skipped :
        (m : PinMap) (q : ℕ) (s : Pins)
        → m.pin ≢ nc
        → m.peripheral ≡ per
        → candidate i m (set_pin pins i q) ≡ false
        → Solution pins s
        → s i ≢ m.pin
    skipped m q s ne e rejected c at =
        let (w, b) = c.allowed i inside unset in
        let used =
          candidate-none i m (set_pin pins i q) rejected e (ap (λ t. has t whitelist) (sym at) ∙ w)
            (ap (λ t. has t blacklist) (sym at) ∙ b) in
        let (l, _, lt, differ, same) =
          already_in_use-true nc i m.pin (set_pin pins i q) count 0 used in
        let there : pins l ≡ m.pin = sym (set_pin-off pins i q l differ) ∙ same in
        c.apart i l inside unset (omega arith) differ
          (c.kept l (inl (λ z. ne (sym there ∙ z))) ∙ there ∙ sym at)

    module _ (again : Pins → Run (Bool × Pins))
        (again-Result : (p : ℕ)
          → p ≢ nc
          → Returns (Result (set_pin pins i p)) (again (set_pin pins i p))) where
      -- The loop over the rows: those before are ruled out.
      try_rows-Result :
          (map : Table) (q : ℕ)
          → ((p : ℕ) → offers nc per map p ≡ true → offers nc per (maps i) p ≡ true)
          → ((s : Pins) → Solution pins s → offers nc per map (s i) ≡ true)
          → Returns (Result pins) (rows again i map (set_pin pins i q))
      unfolding try_rows
      try_rows-Result [] q sub missed = (
        set_pin-twice pins i nc q ∙ set_pin-same pins i nc unset,
        λ s c. ground (arith, missed s c),
      )
      try_rows-Result (m ∷ map) q sub missed = elim (Bool-cases (m.pin == nc)) [
        | inl end ↦ rw end (
          set_pin-twice pins i nc q ∙ set_pin-same pins i nc unset,
          λ s c. ground (arith, missed s c),
        )
        | inr row ↦ elim (Bool-cases (candidate i m (set_pin pins i q))) [
          | inl good ↦
              rw (row, good, set_pin-twice pins i m.pin q)
                (Returns-bind (Result (set_pin pins i m.pin)) (Result pins)
                  (again (set_pin pins i m.pin)) _ (again-Result m.pin (ground arith))
                  (λ (found, ps) r.
                    after good (ground arith) row
                      (λ q' miss. try_rows-Result map q' (λ p h. sub p (ground arith)) miss) found
                      ps r))
          | inr bad ↦
              rw (row, bad)
                (try_rows-Result map q (λ p h. sub p (ground arith))
                  (λ s c. elim (Bool-cases (m.peripheral == per)) [
                    | inl e ↦
                        let ne = skipped m q s (ground arith) (ground arith) bad c in
                        ground (arith, missed s c)
                    | inr e ↦ ground (arith, missed s c)
                  ]))
        ]
      ]
        where
          after :
              candidate i m (set_pin pins i q) ≡ true
              → m.pin ≢ nc
              → (m.pin == nc) ≡ false
              → ((q' : ℕ)
                  → ((s : Pins) → Solution pins s → offers nc per map (s i) ≡ true)
                  → Returns (Result pins) (rows again i map (set_pin pins i q')))
              → (found : Bool) (ps : Pins) → Result (set_pin pins i m.pin) (found, ps)
              → Returns (Result pins) (if found then ok (true, ps) else rows again i map ps)
          after good ne row rest true ps r =
              let (e, w, b, free) = candidate-all i m (set_pin pins i q) good in
              complete m.pin ps ne (sub m.pin (ground arith)) w b
                (λ l lt differ same.
                  already_in_use-false nc i m.pin (set_pin pins i q) count 0 l free (omega arith)
                    (omega arith) differ (set_pin-off pins i q l differ ∙ same))
                r
          after good ne row rest false ps (same, none_left) = rw same (
              rest m.pin (λ s c. elim (Bool-cases (m.pin == s i)) [
                | inl e ↦ absurd (none_left s (restrict m.pin s ne (ground arith) c))
                | inr e ↦ ground (arith, missed s c)
              ]))

  abbrev search : ℕ → Pins → Run (Bool × Pins)
  search = pinmap_find_peripheral_pins nc whitelist blacklist per maps count

  abbrev Branch : ℕ → Pins → Option ℕ → Type 0
  Branch rounds pins o =
      Returns (Result pins)
        (elim o [ none ↦ ok (true, pins) | some i ↦ rows (search rounds) i (maps i) pins ])

  search-Result :
      (rounds k : ℕ) (pins : Pins)
      → ((j : ℕ) → j < k → pins j ≢ nc)
      → k ≤ count
      → count < rounds + k
      → Returns
          (Result pins)
          (pinmap_find_peripheral_pins nc whitelist blacklist per maps count rounds pins)
  unfolding pinmap_find_peripheral_pins
  search-Result zero k pins chosen le lt = absurd (omega arith)
  search-Result (suc rounds) k pins chosen le lt =
      elim (Option-cases (next_unset nc pins count 0)) [
        | inl e ↦ subst (Branch rounds pins) (sym e) (record {
          kept = λ j h. refl;
          offered =
              λ j lt q. absurd (next_unset-none nc pins count 0 e j (omega arith) (omega arith) q);
          allowed =
              λ j lt q. absurd (next_unset-none nc pins count 0 e j (omega arith) (omega arith) q);
          apart = λ j l lt q.
              absurd (next_unset-none nc pins count 0 e j (omega arith) (omega arith) q);
        })
        | inr (i, e) ↦
            let (unset, _, inside, before) = next_unset-some nc pins count 0 i e in
            let later : k ≤ i = elim (Bool-cases (ltb i k)) [
              | inl early ↦ absurd (chosen i (ground arith) unset)
              | inr late ↦ ground arith
            ] in
            subst (Branch rounds pins) (sym e) (
              subst (λ ps. Returns (Result pins) (rows (search rounds) i (maps i) ps))
                (set_pin-same pins i nc unset)
                (try_rows-Result i pins unset (omega arith) (search rounds)
                  (λ p ne.
                    search-Result rounds (suc i) (set_pin pins i p)
                      (λ j below. elim (Bool-cases (j == i)) [
                        | inl at ↦ rw at ne
                        | inr off ↦ rw off (before j (omega arith) (ground arith))
                      ])
                      (omega arith) (omega arith))
                  (maps i) nc (λ p h. h) (λ s c. c.offered i (omega arith) unset)))
      ]

  -- With more rounds than pins the search ends. Where it returns true, the pins it leaves complete
  -- the given ones; where it returns false, the pins are as they were and nothing completes them.
  pub pinmap_find_peripheral_pins-Result :
      (rounds : ℕ) (pins : Pins)
      → count < rounds
      → Returns
          (Result pins)
          (pinmap_find_peripheral_pins nc whitelist blacklist per maps count rounds pins)
  pinmap_find_peripheral_pins-Result rounds pins lt =
      search-Result rounds 0 pins (λ j h. absurd (omega arith)) (omega arith) (omega arith)

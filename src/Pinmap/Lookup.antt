-- ===== src/Pinmap/Lookup.antt =====
-- The searches in one table and `pinmap_merge` of hal/source/mbed_pinmap_common.c.
use mcu_driver_hal.Base.{
  ℕ, ◌≡◌, ◌≢◌, ◌↔◌, ◌⊎◌, [], ◌∷◌, All, arith, ok, halted, ◌>>=◌, ◌==◌, if◌then◌else◌,
}
use mcu_driver_hal.Pinmap.{
  PinMap, Table, pinmap_find_function, pinmap_function, pinmap_merge, pinout_loop, pinmap_pinout,
}

module _ (nc : ℕ) where
  -- `pinmap_merge` returns exactly a word to which both of its arguments can be read, NC being
  -- open, and that is one of them.
  pub pinmap_merge_iff :
      (a b r : ℕ)
      → (pinmap_merge nc a b ≡ ok r)
        ↔ (((a ≡ r) ⊎ (a ≡ nc)) × ((b ≡ r) ⊎ (b ≡ nc)) × ((r ≡ a) ⊎ (r ≡ b)))
  unfolding pinmap_merge
  pinmap_merge_iff a b r = (λ e. ground arith, λ h. ground arith)

  module _ {H : Type 0} (pin_function : (pin function : ℕ) → H → H)
      (pull_none : (pin : ℕ) → H → H) where
    pinout_loop-eq :
        (pin : ℕ) (map : Table) (h : H)
        → All (λ (m : PinMap). m.function ≢ nc) map
        → pinout_loop nc pin_function pull_none pin map h ≡ (
            if nc == pinmap_find_function nc pin map
            then halted
            else ok (pull_none pin (pin_function pin (pinmap_find_function nc pin map) h)))
    unfolding pinout_loop pinmap_find_function
    pinout_loop-eq pin [] h all = ground arith
    pinout_loop-eq pin (m ∷ map) h (ne, all) = ground (arith, pinout_loop-eq pin map h all)

    -- For a pin that is not NC and a table in which no function is NC's word: `pinmap_pinout` sets
    -- the pin to the function that `pinmap_function` finds, without a pull, and stops where that
    -- stops.
    pub pinmap_pinout-function :
        (pin : ℕ) (map : Table) (h : H)
        → pin ≢ nc
        → All (λ (m : PinMap). m.function ≢ nc) map
        → pinmap_pinout nc pin_function pull_none pin map h
          ≡ (pinmap_function nc pin map >>= λ f. ok (pull_none pin (pin_function pin f h)))
    unfolding pinmap_pinout pinmap_function
    pinmap_pinout-function pin map h ne all = ground (arith, pinout_loop-eq pin map h all)

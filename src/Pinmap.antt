-- ===== src/Pinmap.antt =====
-- hal/source/mbed_pinmap_common.c: searches in a target's tables of pins. A pin, a peripheral and a
-- function are the numbers of their 32-bit words; `nc`, the word of NC, is the target's.
pub mod Lookup
pub mod Usable
pub mod Search
mod Tests
use mcu_driver_hal.Base.{
  ℕ, zero, suc, Bool, true, false, not, ◌&&◌, Option, none, some, List, [], ◌∷◌, Run, ok, halted,
  out_of_fuel, ◌>>=◌, ◌==◌, if◌then◌else◌,
}

-- `PinMap`
pub record PinMap : Type 0 where
  pub pin : ℕ
  pub peripheral : ℕ
  pub function : ℕ

-- The rows of a table; the row of NC that ends it is the end of the list, or a row of the list.
abbrev pub Table : Type 0
Table = List PinMap

unfoldable pub pinmap_list_has_pin : List ℕ → ℕ → Bool
pinmap_list_has_pin [] pin = false
pinmap_list_has_pin (p ∷ pins) pin = if p == pin then true else pinmap_list_has_pin pins pin

unfoldable pub pinmap_list_has_peripheral : List ℕ → ℕ → Bool
pinmap_list_has_peripheral [] peripheral = false
pinmap_list_has_peripheral (p ∷ list) peripheral =
    if p == peripheral then true else pinmap_list_has_peripheral list peripheral

-- The pins that the pointers `pins[i]` lead to, by index; the pointers are distinct.
abbrev pub Pins : Type 0
Pins = ℕ → ℕ

abbrev pub set_pin : Pins → ℕ → ℕ → Pins
set_pin pins i p j = if j == i then p else pins j

module _ (nc : ℕ) where
  unfoldable pub pinmap_find_peripheral : (pin : ℕ) → Table → ℕ
  pinmap_find_peripheral pin [] = nc
  pinmap_find_peripheral pin (m ∷ map) =
      let rest = pinmap_find_peripheral pin map in
      if m.pin == nc then nc else if m.pin == pin then m.peripheral else rest

  unfoldable pub pinmap_find_function : (pin : ℕ) → Table → ℕ
  pinmap_find_function pin [] = nc
  pinmap_find_function pin (m ∷ map) =
      let rest = pinmap_find_function pin map in
      if m.pin == nc then nc else if m.pin == pin then m.function else rest

  unfoldable pub pinmap_peripheral : (pin : ℕ) → Table → Run ℕ
  pinmap_peripheral pin map =
      let peripheral = pinmap_find_peripheral pin map in
      if pin == nc then ok nc else if nc == peripheral then halted else ok peripheral

  unfoldable pub pinmap_function : (pin : ℕ) → Table → Run ℕ
  pinmap_function pin map =
      let function = pinmap_find_function pin map in
      if pin == nc then ok nc else if nc == function then halted else ok function

  unfoldable pub pinmap_merge : (a b : ℕ) → Run ℕ
  pinmap_merge a b =
      if a == b then ok a else if a == nc then ok b else if b == nc then ok a else halted

  -- The loop of `pinmap_pinout`; `pin_function` and `pin_mode`, to `PullNone`, are the target's.
  module _ {H : Type 0} (pin_function : (pin function : ℕ) → H → H)
      (pull_none : (pin : ℕ) → H → H) where
    unfoldable pub pinout_loop : (pin : ℕ) → Table → H → Run H
    pinout_loop pin [] h = halted
    pinout_loop pin (m ∷ map) h =
        let rest = pinout_loop pin map h in
        if m.pin == nc
        then halted
        else if m.pin == pin
        then ok (pull_none pin (pin_function pin m.function h))
        else rest

    unfoldable pub pinmap_pinout : (pin : ℕ) → Table → H → Run H
    pinmap_pinout pin map h = let rest = pinout_loop pin map h in if pin == nc then ok h else rest

  -- Whether one of the `left` pins from index `j` on, other than that of `i`, is `pin`.
  unfoldable pub already_in_use : (i pin : ℕ) → Pins → (left j : ℕ) → Bool
  already_in_use i pin pins zero j = false
  already_in_use i pin pins (suc left) j =
      let rest = already_in_use i pin pins left (suc j) in
      if j == i then rest else if pin == pins j then true else rest

  -- The first of the `left` indexes from `i` on whose pin is not chosen yet.
  unfoldable pub next_unset : Pins → (left i : ℕ) → Option ℕ
  next_unset pins zero i = none
  next_unset pins (suc left) i =
      let rest = next_unset pins left (suc i) in if pins i == nc then some i else rest

  module _ (whitelist blacklist : List ℕ) (per : ℕ) (maps : ℕ → Table) (count : ℕ) where
    -- Whether no `continue` skips the row.
    unfoldable pub is_candidate : (i : ℕ) → PinMap → Pins → Bool
    is_candidate i m pins =
        (m.peripheral == per)
        && pinmap_list_has_pin whitelist m.pin
        && not (pinmap_list_has_pin blacklist m.pin)
        && not (already_in_use i m.pin pins count 0)

    -- The loop over a table for the pin of index `i`; `again` is the recursive call.
    unfoldable pub try_rows :
        (again : Pins → Run (Bool × Pins)) → (i : ℕ) → Table → Pins → Run (Bool × Pins)
    try_rows again i [] pins = ok (false, set_pin pins i nc)
    try_rows again i (m ∷ map) pins =
        let skipped = try_rows again i map pins in
        let tried = (do
          (found, pins) ← again (set_pin pins i m.pin)
          if found then ok (true, pins) else try_rows again i map pins) in
        if m.pin == nc
        then ok (false, set_pin pins i nc)
        else if is_candidate i m pins
        then tried
        else skipped

    -- The depth of the recursion is bounded by `rounds`.
    unfoldable pub pinmap_find_peripheral_pins : (rounds : ℕ) → Pins → Run (Bool × Pins)
    pinmap_find_peripheral_pins zero pins = out_of_fuel
    pinmap_find_peripheral_pins (suc rounds) pins = elim (next_unset pins count 0) [
      | none ↦ ok (true, pins)
      | some i ↦ try_rows (pinmap_find_peripheral_pins rounds) i (maps i) pins
    ]

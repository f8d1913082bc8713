-- ===== src/Pinmap/Tests.antt =====
-- Concrete tables for hal/source/mbed_pinmap_common.c, and the theorems at them.
use mcu_driver_hal.Base.{
  ℕ, ◌≡◌, refl, true, List, [], ◌∷◌, ◌++◌, arith, Returns, ◌==◌, if◌then◌else◌,
}
use mcu_driver_hal.Pinmap.{
  PinMap, Table, Pins, pinmap_find_peripheral_pins, next_unset, try_rows, is_candidate,
  already_in_use, pinmap_list_has_pin,
}
use mcu_driver_hal.Pinmap.Search.{Result, pinmap_find_peripheral_pins-Result}

abbrev nc : ℕ
nc = 0xffff_ffff

abbrev row : ℕ → ℕ → PinMap
row pin peripheral = record { pin = pin; peripheral = peripheral; function = 7 }

abbrev transmit : Table
transmit = row 1 5 ∷ row 2 4 ∷ row 3 5 ∷ row nc nc ∷ []

abbrev receive : Table
receive = row 1 5 ∷ row 9 5 ∷ []

abbrev tables : ℕ → Table
tables i = if i == 0 then transmit else receive

abbrev open_pins : Pins
open_pins i = nc

abbrev white : List ℕ
white = 1 ∷ 2 ∷ 3 ∷ []

-- Pin 9 is not allowed and pin 1 is the only one left to receive, so the first choice is undone.
search_undoes :
    Returns
      (λ (found, ps). (found ≡ true) × (ps 0 ≡ 3) × (ps 1 ≡ 1))
      (pinmap_find_peripheral_pins nc white [] 5 tables 2 3 open_pins)
unfolding pinmap_find_peripheral_pins next_unset try_rows is_candidate already_in_use
    pinmap_list_has_pin
search_undoes = (refl, refl, refl)

pinmap_find_peripheral_pins-Result_example :
    Returns
      (Result nc white [] 5 tables 2 open_pins)
      (pinmap_find_peripheral_pins nc white [] 5 tables 2 3 open_pins)
pinmap_find_peripheral_pins-Result_example =
    pinmap_find_peripheral_pins-Result nc white [] 5 tables 2 3 open_pins (omega arith)

abbrev i2c : ℕ
i2c = 4

-- A target whose state is the list of the settings made.
abbrev set_function : (pin function : ℕ) → List (ℕ × ℕ) → List (ℕ × ℕ)
set_function pin function h = h ++ (pin, function) ∷ []

abbrev no_pull : (pin : ℕ) → List (ℕ × ℕ) → List (ℕ × ℕ)
no_pull pin h = h ++ (pin, 0) ∷ []

-- ===== src/Atomic/Tests.antt =====
-- The operations of bootstrap/mbed_atomic_impl.h on a variable that interrupts change.
use mcu_driver_hal.Base.{◌≡◌, refl, false, List, [], ◌∷◌, arith, ok, Returns}
use mcu_driver_hal.Atomic.{
  Cell, quiet, interrupted, Round, round, u8, adds, core_util_atomic_exchange,
  core_util_atomic_fetch, core_util_atomic_op_fetch, core_util_atomic_cas,
}
use mcu_driver_hal.Atomic.Linear.{Linear, Fetched, Updated, core_util_atomic-IsLinear}
use mcu_driver_hal.Atomic.Compare.{LinearIn, cas-LinearIn, core_util_atomic_exchange-exchange}

abbrev variable : Cell
variable = record { value = 250; exclusive = false }

-- Twice an interrupt comes between the load and the store.
abbrev rounds : List Round
rounds =
    round quiet (interrupted 255)
    ∷ round (interrupted 3) (interrupted 254)
    ∷ round quiet quiet
    ∷ round quiet quiet
    ∷ []

fetch_3 :
    core_util_atomic_fetch adds u8 3 rounds variable
    ≡ ok (record {
      returned = 254;
      cell = record { value = 1; exclusive = false };
      rounds = round quiet quiet ∷ [];
    })
unfolding core_util_atomic_fetch
fetch_3 = refl

core_util_atomic-IsLinear_example :
    Returns
      (Linear (Fetched adds u8 3 (omega arith)) rounds 250)
      (core_util_atomic_fetch adds u8 3 rounds variable)
    × Returns
        (Linear (Updated adds u8 3 (omega arith)) rounds 250)
        (core_util_atomic_op_fetch adds u8 3 rounds variable)
core_util_atomic-IsLinear_example =
    core_util_atomic-IsLinear adds u8 3 (omega arith) rounds variable refl

cas-LinearIn_example :
    Returns (LinearIn u8 254 7 rounds 250) (core_util_atomic_cas u8 254 7 rounds variable)
cas-LinearIn_example =
    cas-LinearIn u8 254 7 (omega arith) rounds variable refl (omega arith) (omega arith)

core_util_atomic_exchange-exchange_example :
    ((core_util_atomic_exchange u8 7 (round quiet (interrupted 9)) variable).0 ≡ 250)
    × ((core_util_atomic_exchange u8 8
          (round quiet quiet)
          (core_util_atomic_exchange u8 7 (round quiet (interrupted 9)) variable).1).0
        ≡ 9)
core_util_atomic_exchange-exchange_example =
    core_util_atomic_exchange-exchange u8 7 8 quiet (interrupted 9) quiet variable

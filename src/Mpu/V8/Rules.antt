-- ===== src/Mpu/V8/Rules.antt =====
-- What the regions of hal/source/mpu/mbed_mpu_v8m.c mean for an address, by the rules of the ARMv8-M
-- architecture: a region goes from its base to its limit in units of 32 bytes, an address in two
-- enabled regions faults, and one in none is as in the default memory map.
use mcu_driver_hal.Base.{
  ℕ, zero, suc, ◌+◌, ◌*◌, ◌/◌, Bool, true, false, not, ◌&&◌, ◌||◌, List, [], ◌∷◌, leb, ltb,
  if◌then◌else◌,
}
use mcu_driver_hal.Mpu.Registers.{Ctrl, Entry, Rights}
use mcu_driver_hal.Mpu.V8.{Region}

abbrev pub covers : Region → ℕ → Bool
covers r a = leb (r.base / 32 * 32) a && ltb a (r.limit / 32 * 32 + 32)

abbrev pub rights_of : Region → Rights
rights_of r = record { execute = not r.execute_never; write = not r.read_only }

abbrev pub default_rights : ℕ → Rights
default_rights a = record {
  execute = ltb a 0x40000000 || (leb 0x60000000 a && ltb a 0xA0000000);
  write = true;
}

-- The enabled regions below `n` that have the address.
abbrev pub hits : (n : ℕ) → (ℕ → Entry Region) → ℕ → List Region
hits zero table a = []
hits (suc n) table a =
    if (table n).enabled && covers (table n).config a
    then (table n).config ∷ hits n table a
    else hits n table a

abbrev pub decide : List Region → ℕ → Rights
decide [] a = default_rights a
decide (r ∷ []) a = rights_of r
decide (r ∷ r' ∷ rs) a = record { execute = false; write = false }

abbrev pub rights : (regions : ℕ) → Ctrl → (ℕ → Entry Region) → ℕ → Rights
rights regions ctrl table a =
    if ctrl.enable then decide (hits regions table a) a else default_rights a

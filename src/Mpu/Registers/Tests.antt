-- ===== src/Mpu/Registers/Tests.antt =====
-- hal/source/mpu/ on the registers of a concrete protection unit of eight regions.
use mcu_driver_hal.Base.{
  ℕ, ◌≡◌, refl, inl, true, false, List, [], ◌∷◌, arith, ◌>>=◌, Returns, ◌==◌, if◌then◌else◌,
}
use mcu_driver_hal.Mpu.{Manager}
use mcu_driver_hal.Mpu.Counting.{LockCall, lock_ram, unlock_ram, lock_rom, call_all}
use mcu_driver_hal.Mpu.Registers.{Ctrl, MpuUnit, Entry, IsUnit}
use mcu_driver_hal.Mpu.V7.{Access}
use mcu_driver_hal.Mpu.V7.Protects.{protection, mbed_mpu_init-Protects}
use mcu_driver_hal.Mpu.V8.{driver}
use mcu_driver_hal.Mpu.V8.Table.{KeepsRegions}
use mcu_driver_hal.Mpu.V8.Found.{guarded}
use mcu_driver_hal.Mpu.V8.Guards.Managed.{mbed_mpu_init-call_all-guards}
use mcu_driver_hal.Mpu.V7 as V7
use mcu_driver_hal.Mpu.V8 as V8
use mcu_driver_hal.Mpu.V7.Rules as V7Rules
use mcu_driver_hal.Mpu.V8.Rules as V8Rules

record Hardware (R : Type 0) : Type 0 where
  ctrl : Ctrl
  rnr : ℕ
  table : ℕ → Entry R

module _ {R : Type 0} (none_set : R) where
  abbrev off : Entry R
  off = record { enabled = false; config = none_set }

  abbrev unit : MpuUnit R (Hardware R)
  unit = record {
    dregion = λ h. 8;
    write_ctrl = λ c h. record h { ctrl = c };
    clr_region = λ i h. record h { table = λ j. if j == i then off else h.table j };
    set_region = λ i r h. record h {
      table = λ j. if j == i then record { enabled = true; config = r } else h.table j;
    };
    select = λ i h. record h { rnr = i };
    write_enable = λ b h. record h {
      table = λ j.
          if j == h.rnr then record { enabled = b; config = (h.table j).config } else h.table j;
    };
  }

  abbrev unit_laws : IsUnit unit
  unit_laws = record {
    table = λ h. h.table;
    ctrl = λ h. h.ctrl;
    cleared = off;
    cleared_off = refl;
    ctrl_write = λ c h. refl;
    ctrl_clr = λ i h. refl;
    ctrl_set = λ i r h. refl;
    ctrl_enable = λ i b h. refl;
    table_write = λ c h j. refl;
    table_clr = λ i h j. refl;
    table_set = λ i r h j. refl;
    table_enable = λ i b h j. refl;
  }

  -- Every region is enabled.
  abbrev registers : Hardware R
  registers = record {
    ctrl = record { privdefena = false; hfnmiena = false; enable = true };
    rnr = 7;
    table = λ j. record { enabled = true; config = none_set };
  }

-- The ROM is the lowest 64 MB.
abbrev rom_end : ℕ
rom_end = 0x03FFFFFF

abbrev some_v7 : V7.Region
some_v7 = V7.rom_region 0x1FFFFFFF

abbrev some_v8 : V8.Region
some_v8 = V8.rom_region 0x1FFFFFFF

mbed_mpu_init-Protects_example :
    Returns
      (λ r. (a : ℕ) → V7Rules.rights 8 r.ctrl r.table a ≡ protection rom_end a)
      (V7.mbed_mpu_init (unit some_v7) rom_end (registers some_v7))
mbed_mpu_init-Protects_example =
    mbed_mpu_init-Protects (unit some_v7) (unit_laws some_v7) rom_end 0 (registers some_v7) refl
      (omega arith) (omega arith)

abbrev manager : Manager (Hardware V8.Region)
manager = record {
  mem_xn_lock = 0;
  mem_wn_lock = 0;
  critical = record {
    interrupts_enabled = true;
    critical_interrupts_enabled = false;
    state_saved = false;
    reentrancy_counter = 0;
  };
  hw = registers some_v8;
}

abbrev keeps_regions : KeepsRegions (unit_laws some_v8) (λ i o n h. h)
keeps_regions = record { table_attr = λ i o n h j. refl }

abbrev lock_calls : List LockCall
lock_calls = lock_ram ∷ lock_rom ∷ unlock_ram ∷ []

mbed_mpu_init-call_all-guards_example :
    Returns
      (λ t. (a : ℕ) → V8Rules.rights 8 t.hw.ctrl t.hw.table a ≡ guarded rom_end false true a)
      (V8.mbed_mpu_init (unit some_v8) (λ i o n h. h) rom_end (registers some_v8) >>= λ h.
        call_all (driver (unit some_v8) rom_end) lock_calls (record manager { hw = h }))
mbed_mpu_init-call_all-guards_example =
    mbed_mpu_init-call_all-guards (unit some_v8) (unit_laws some_v8) (λ i o n h. h) keeps_regions
      rom_end 0x200000 true 0 lock_calls (0, 1) manager refl (omega arith) (omega arith) refl refl
      (record { counted = refl; saved = refl; masked = refl; restores = inl refl }) (omega arith)
      (omega arith) refl

-- ===== src/Mpu/V7.antt =====
-- hal/source/mpu/mbed_mpu_v7m.c. `rom_end` is MBED_MPU_ROM_END; barriers have no part in the state.
pub mod Rules
pub mod Programmed
pub mod Protects
use mcu_driver_hal.Base.{
  ℕ, ◌+◌, Bool, true, false, not, List, [], ◌∷◌, Run, ok, ◌>>=◌, leb, ltb, ◌==◌, if◌then◌else◌,
}
use mcu_driver_hal.Critical.{mbed_assert}
use mcu_driver_hal.Mpu.Registers.{
  MpuUnit, turn_off, turn_on, clr_regions, enable_region, enable_regions,
}

pub data Access : Type 0 where
  access_ro access_full : Access

-- The arguments of ARM_MPU_RBAR and ARM_MPU_RASR, the size in bytes and the disabled sub-regions as
-- the bits of their mask, the lowest first.
pub record Region : Type 0 where
  pub base : ℕ
  pub disable_exec : Bool
  pub access_permission : Access
  pub type_ext_field : ℕ
  pub is_shareable : Bool
  pub is_cacheable : Bool
  pub is_bufferable : Bool
  pub sub_region_disable : List Bool
  pub size : ℕ

-- MBED_MPU_RAM_START
abbrev pub ram_start : (rom_end : ℕ) → ℕ
ram_start rom_end = rom_end + 1

abbrev pub rom_region : (rom_end : ℕ) → Region
rom_region rom_end = record {
  base = 0x00000000;
  disable_exec = false;
  access_permission = access_ro;
  type_ext_field = 0;
  is_shareable = false;
  is_cacheable = true;
  is_bufferable = false;
  sub_region_disable =
      not (leb 0x00000000 rom_end)
      ∷ not (leb 0x04000000 rom_end)
      ∷ not (leb 0x08000000 rom_end)
      ∷ not (leb 0x0C000000 rom_end)
      ∷ not (leb 0x10000000 rom_end)
      ∷ not (leb 0x14000000 rom_end)
      ∷ not (leb 0x18000000 rom_end)
      ∷ not (leb 0x1C000000 rom_end)
      ∷ [];
  size = 0x20000000;
}

-- Region 3, the RAM of the code area.
abbrev pub code_ram_region : (rom_end : ℕ) → Region
code_ram_region rom_end = record {
  base = 0x00000000;
  disable_exec = true;
  access_permission = access_full;
  type_ext_field = 0;
  is_shareable = false;
  is_cacheable = true;
  is_bufferable = false;
  sub_region_disable =
      not (leb (ram_start rom_end) 0x04000000)
      ∷ not (leb (ram_start rom_end) 0x08000000)
      ∷ not (leb (ram_start rom_end) 0x0C000000)
      ∷ not (leb (ram_start rom_end) 0x10000000)
      ∷ not (leb (ram_start rom_end) 0x14000000)
      ∷ not (leb (ram_start rom_end) 0x18000000)
      ∷ not (leb (ram_start rom_end) 0x1C000000)
      ∷ not (leb (ram_start rom_end) 0x20000000)
      ∷ [];
  size = 0x20000000;
}

-- Region 1, the RAM from 0x20000000 and from 0x60000000 on.
abbrev pub ram_region : Region
ram_region = record {
  base = 0x00000000;
  disable_exec = true;
  access_permission = access_full;
  type_ext_field = 1;
  is_shareable = false;
  is_cacheable = true;
  is_bufferable = true;
  sub_region_disable = true ∷ false ∷ true ∷ false ∷ true ∷ true ∷ true ∷ true ∷ [];
  size = 0x100000000;
}

-- Region 2, the RAM from 0x80000000 on.
abbrev pub wt_ram_region : Region
wt_ram_region = record {
  base = 0x80000000;
  disable_exec = true;
  access_permission = access_full;
  type_ext_field = 0;
  is_shareable = false;
  is_cacheable = true;
  is_bufferable = false;
  sub_region_disable = false ∷ false ∷ false ∷ false ∷ false ∷ false ∷ false ∷ false ∷ [];
  size = 0x20000000;
}

-- LAST_RAM_REGION
abbrev pub last_ram_region : (rom_end : ℕ) → ℕ
last_ram_region rom_end = if ltb (ram_start rom_end) 0x20000000 then 3 else 2

module _ {H : Type 0} (u : MpuUnit Region H) (rom_end : ℕ) where
  -- #if MBED_MPU_RAM_START < 0x20000000
  abbrev pub set_code_ram : H → H
  set_code_ram h =
      if ltb (ram_start rom_end) 0x20000000 then u.set_region 3 (code_ram_region rom_end) h else h

  unfoldable pub mbed_mpu_init : H → Run H
  mbed_mpu_init h0 = do
    regions ←
        mbed_assert (leb (if ram_start rom_end == 0x20000000 then 3 else 4) (u.dregion h0))
          (u.dregion h0)
    let h = clr_regions u 0 regions (turn_off u h0)
    let h = set_code_ram (u.set_region 0 (rom_region rom_end) h)
    ok (turn_on u (u.set_region 2 wt_ram_region (u.set_region 1 ram_region h)))

  unfoldable pub mbed_mpu_free : H → H
  mbed_mpu_free h = turn_off u h

  unfoldable pub mbed_mpu_enable_rom_wn : Bool → H → H
  mbed_mpu_enable_rom_wn enable h = enable_region u enable 0 h

  unfoldable pub mbed_mpu_enable_ram_xn : Bool → H → H
  mbed_mpu_enable_ram_xn enable h = enable_regions u enable 1 (last_ram_region rom_end) h

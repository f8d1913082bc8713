-- ===== src/Mpu/V8.antt =====
-- hal/source/mpu/mbed_mpu_v8m.c. `rom_end` is MBED_MPU_ROM_END; barriers have no part in the state.
pub mod Rules
pub mod Programmed
pub mod Table
pub mod Found
pub mod Guards
use mcu_driver_hal.Base.{
  ℕ, ◌+◌, Bool, true, false, Run, ok, ◌>>=◌, leb, ltb, ◌==◌, ◌!=◌, if◌then◌else◌,
}
use mcu_driver_hal.Critical.{mbed_assert}
use mcu_driver_hal.Mpu.{MpuDriver}
use mcu_driver_hal.Mpu.Registers.{
  MpuUnit, turn_off, turn_on, clr_regions, enable_region, enable_regions,
}

-- The arguments of ARM_MPU_RBAR and ARM_MPU_RLAR; every region is of ARM_MPU_SH_NON.
pub record Region : Type 0 where
  pub base : ℕ
  pub read_only : Bool
  pub non_privileged : Bool
  pub execute_never : Bool
  pub limit : ℕ
  pub attribute : ℕ

-- The arguments of ARM_MPU_ATTR_MEMORY_.
pub record MemoryAttribute : Type 0 where
  pub non_transient : Bool
  pub write_back : Bool
  pub read_allocate : Bool
  pub write_allocate : Bool

abbrev pub wtra : MemoryAttribute
wtra = record {
  non_transient = true;
  write_back = false;
  read_allocate = true;
  write_allocate = false;
}

abbrev pub wbwara : MemoryAttribute
wbwara = record {
  non_transient = true;
  write_back = true;
  read_allocate = true;
  write_allocate = true;
}

abbrev pub attr_index_wtra : ℕ
attr_index_wtra = 0

abbrev pub attr_index_wbwara : ℕ
attr_index_wbwara = 1

-- MBED_MPU_RAM_START
abbrev pub ram_start : (rom_end : ℕ) → ℕ
ram_start rom_end = rom_end + 1

abbrev pub rom_region : (rom_end : ℕ) → Region
rom_region rom_end = record {
  base = 0x00000000;
  read_only = true;
  non_privileged = true;
  execute_never = false;
  limit = rom_end;
  attribute = attr_index_wtra;
}

-- A region of RAM that cannot be executed.
abbrev pub ram_region : (base limit attribute : ℕ) → Region
ram_region base limit attribute = record {
  base = base;
  read_only = false;
  non_privileged = true;
  execute_never = true;
  limit = limit;
  attribute = attribute;
}

-- LAST_RAM_REGION
abbrev pub last_ram_region : (rom_end : ℕ) → ℕ
last_ram_region rom_end = if ram_start rom_end != 0x20000000 then 4 else 3

-- `set_mem_attr` is ARM_MPU_SetMemAttr with the outer and the inner attribute.
module _ {H : Type 0} (u : MpuUnit Region H)
    (set_mem_attr : ℕ → (outer inner : MemoryAttribute) → H → H) (rom_end : ℕ) where
  -- #if MBED_MPU_RAM_START != 0x20000000
  abbrev pub set_code_ram : H → H
  set_code_ram h =
      if ram_start rom_end != 0x20000000
      then u.set_region 4 (ram_region (ram_start rom_end) 0x1FFFFFFF attr_index_wtra) h
      else h

  unfoldable pub mbed_mpu_init : H → Run H
  mbed_mpu_init h0 = do
    regions ←
        mbed_assert (leb (if ram_start rom_end == 0x20000000 then 4 else 5) (u.dregion h0))
          (u.dregion h0)
    let h = clr_regions u 0 regions (turn_off u h0)
    let h = set_mem_attr attr_index_wbwara wbwara wbwara (set_mem_attr attr_index_wtra wtra wtra h)
    let h = set_code_ram (u.set_region 0 (rom_region rom_end) h)
    let h = u.set_region 1 (ram_region 0x20000000 0x3FFFFFFF attr_index_wbwara) h
    let h = u.set_region 2 (ram_region 0x60000000 0x7FFFFFFF attr_index_wbwara) h
    ok (turn_on u (u.set_region 3 (ram_region 0x80000000 0x9FFFFFFF attr_index_wtra) h))

module _ {H : Type 0} (u : MpuUnit Region H) where
  unfoldable pub mbed_mpu_free : H → H
  mbed_mpu_free h = turn_off u h

  unfoldable pub mbed_mpu_enable_rom_wn : Bool → H → H
  mbed_mpu_enable_rom_wn enable h = enable_region u enable 0 h

  unfoldable pub mbed_mpu_enable_ram_xn : (rom_end : ℕ) → Bool → H → H
  mbed_mpu_enable_ram_xn rom_end enable h = enable_regions u enable 1 (last_ram_region rom_end) h

  -- The functions that bootstrap/mbed_mpu_mgmt.c calls.
  abbrev pub driver : (rom_end : ℕ) → MpuDriver H
  driver rom_end = record {
    mbed_mpu_enable_ram_xn = mbed_mpu_enable_ram_xn rom_end;
    mbed_mpu_enable_rom_wn = mbed_mpu_enable_rom_wn;
  }

-- ===== src/Mpu.antt =====
-- bootstrap/mbed_mpu_mgmt.c: two counters that hold off the memory protection while they are not 0.
pub mod Counting
pub mod Keeping
pub mod Registers
pub mod V7
pub mod V8
use mcu_driver_hal.Base.{
  ℕ, ◌+◌, ◌-◌, ◌%◌, ◌^◌, Bool, true, false, Run, ok, ◌>>=◌, ◌==◌, ◌!=◌, if◌then◌else◌,
}
use mcu_driver_hal.Critical.{
  Critical, mbed_assert, core_util_critical_section_enter, core_util_critical_section_exit,
}

-- The target's functions of hal/include/hal/mpu_api.h, over a state of its own.
pub record MpuDriver (H : Type 0) : Type 0 where
  pub mbed_mpu_enable_ram_xn : Bool → H → H
  pub mbed_mpu_enable_rom_wn : Bool → H → H

-- The static variables, the critical section and the unit.
pub record Manager (H : Type 0) : Type 0 where
  pub mem_xn_lock : ℕ
  pub mem_wn_lock : ℕ
  pub critical : Critical
  pub hw : H

abbrev pub ushrt_max : ℕ
ushrt_max = 0xffff

module _ {H : Type 0} (d : MpuDriver H) where
  unfoldable pub mbed_mpu_manager_lock_ram_execution : Manager H → Run (Manager H)
  mbed_mpu_manager_lock_ram_execution s = do
    c ← core_util_critical_section_enter s.critical
    hw ←
        mbed_assert (s.mem_xn_lock != ushrt_max)
          (if s.mem_xn_lock == 0 then d.mbed_mpu_enable_ram_xn false s.hw else s.hw)
    c ← core_util_critical_section_exit c
    ok (record s { mem_xn_lock = (s.mem_xn_lock + 1) % 2 ^ 16; critical = c; hw = hw })

  unfoldable pub mbed_mpu_manager_unlock_ram_execution : Manager H → Run (Manager H)
  mbed_mpu_manager_unlock_ram_execution s = do
    c ← core_util_critical_section_enter s.critical
    left ← mbed_assert (s.mem_xn_lock != 0) (s.mem_xn_lock - 1)
    let hw = if left == 0 then d.mbed_mpu_enable_ram_xn true s.hw else s.hw
    c ← core_util_critical_section_exit c
    ok (record s { mem_xn_lock = left; critical = c; hw = hw })

  unfoldable pub mbed_mpu_manager_lock_rom_write : Manager H → Run (Manager H)
  mbed_mpu_manager_lock_rom_write s = do
    c ← core_util_critical_section_enter s.critical
    hw ←
        mbed_assert (s.mem_wn_lock != ushrt_max)
          (if s.mem_wn_lock == 0 then d.mbed_mpu_enable_rom_wn false s.hw else s.hw)
    c ← core_util_critical_section_exit c
    ok (record s { mem_wn_lock = (s.mem_wn_lock + 1) % 2 ^ 16; critical = c; hw = hw })

  unfoldable pub mbed_mpu_manager_unlock_rom_write : Manager H → Run (Manager H)
  mbed_mpu_manager_unlock_rom_write s = do
    c ← core_util_critical_section_enter s.critical
    left ← mbed_assert (s.mem_wn_lock != 0) (s.mem_wn_lock - 1)
    let hw = if left == 0 then d.mbed_mpu_enable_rom_wn true s.hw else s.hw
    c ← core_util_critical_section_exit c
    ok (record s { mem_wn_lock = left; critical = c; hw = hw })

-- ===== src/Critical.antt =====
-- Critical sections: bootstrap/mbed_critical.c over hal/source/mbed_critical_section_api.c.
-- The state is the two files' static variables beside the one CPU flag that they use.
pub mod Nesting
mod Tests
use mcu_driver_hal.Base.{
  ℕ, ◌+◌, ◌-◌, ◌^◌, Bool, true, false, not, Run, ok, halted, ◌>>=◌, ltb, ◌==◌, if◌then◌else◌,
}

pub record Critical : Type 0 where
  -- PRIMASK bit 0 is clear
  pub interrupts_enabled : Bool
  -- static variables of mbed_critical_section_api.c
  pub critical_interrupts_enabled : Bool
  pub state_saved : Bool
  -- static variable of mbed_critical.c
  pub reentrancy_counter : ℕ

abbrev pub uint32_max : ℕ
uint32_max = 2 ^ 32 - 1

-- `MBED_ASSERT`, where assertions are compiled in.
unfoldable pub mbed_assert {ℓ} : {A : Type ℓ} → Bool → A → Run A
mbed_assert c a = if c then ok a else halted

-- `are_interrupts_enabled`, and `core_util_are_interrupts_enabled`.
unfoldable pub are_interrupts_enabled : Critical → Bool
are_interrupts_enabled c = c.interrupts_enabled

unfoldable pub hal_critical_section_enter : Critical → Critical
unfolding are_interrupts_enabled
hal_critical_section_enter c =
    let interrupt_state = are_interrupts_enabled c in
    let disabled : Critical = record c { interrupts_enabled = false } in
    if c.state_saved
    then disabled
    else (record disabled { critical_interrupts_enabled = interrupt_state; state_saved = true })

unfoldable pub hal_critical_section_exit : Critical → Run Critical
unfolding mbed_assert are_interrupts_enabled
hal_critical_section_exit c = do
  c ← mbed_assert (not (are_interrupts_enabled c)) c
  let unsaved : Critical = record c { state_saved = false }
  ok (
      if unsaved.critical_interrupts_enabled
      then (record unsaved { interrupts_enabled = true })
      else unsaved)

unfoldable pub hal_in_critical_section : Critical → Bool
hal_in_critical_section c = c.state_saved

unfoldable pub core_util_critical_section_enter : Critical → Run Critical
unfolding hal_critical_section_enter mbed_assert
core_util_critical_section_enter c = do
  c ← mbed_assert (ltb c.reentrancy_counter uint32_max) (hal_critical_section_enter c)
  ok (record c { reentrancy_counter = c.reentrancy_counter + 1 })

unfoldable pub core_util_critical_section_exit : Critical → Run Critical
unfolding hal_critical_section_exit
core_util_critical_section_exit c =
    if c.reentrancy_counter == 0
    then ok c
    else (let left : Critical = record c { reentrancy_counter = c.reentrancy_counter - 1 } in
        if left.reentrancy_counter == 0 then hal_critical_section_exit left else ok left)

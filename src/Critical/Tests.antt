-- ===== src/Critical/Tests.antt =====
-- Runs of the critical sections at concrete states, and an instance of their theorem.
use mcu_driver_hal.Base.{◌≡◌, refl, inl, true, false, List, [], ◌∷◌, arith, Returns}
use mcu_driver_hal.Critical.{
  Critical, core_util_critical_section_enter, core_util_critical_section_exit,
}
use mcu_driver_hal.Critical.Nesting.{IsNested, Call, enter, exit, run, run-IsNested}

abbrev outside : Critical
outside = record {
  interrupts_enabled = true;
  critical_interrupts_enabled = false;
  state_saved = false;
  reentrancy_counter = 0;
}

abbrev calls : List Call
calls = exit ∷ enter ∷ enter ∷ exit ∷ enter ∷ exit ∷ exit ∷ []

outside-IsNested : IsNested true 0 outside
outside-IsNested = record { counted = refl; saved = refl; masked = refl; restores = inl refl }

run_calls : Returns (λ c. c.interrupts_enabled ≡ true) (run calls outside)
unfolding run core_util_critical_section_enter core_util_critical_section_exit
run_calls = refl

run-IsNested_example : Returns (IsNested true 0) (run calls outside)
run-IsNested_example = run-IsNested true 0 calls outside outside-IsNested (omega arith)

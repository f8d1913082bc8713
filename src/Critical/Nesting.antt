-- ===== src/Critical/Nesting.antt =====
-- Nesting of critical sections (bootstrap/mbed_critical.c).
use mcu_driver_hal.Base.{
  ℕ, ◌+◌, ◌-◌, ◌≤◌, ◌<◌, ◌≡◌, ◌⊎◌, Bool, true, false, arith, Run, ok, ◌>>=◌, Returns, Returns-bind,
  List, [], ◌∷◌, length, ◌==◌, if◌then◌else◌,
}
use mcu_driver_hal.Critical.{
  Critical, uint32_max, core_util_critical_section_enter, core_util_critical_section_exit,
}

-- `before` is the interrupt flag outside every section, `depth` the number of open ones.
pub record IsNested (before : Bool) (depth : ℕ) (c : Critical) : Type 0 where
  pub counted : c.reentrancy_counter ≡ depth
  pub saved : c.state_saved ≡ (if depth == 0 then false else true)
  pub masked : c.interrupts_enabled ≡ (if depth == 0 then before else false)
  pub restores : (depth ≡ 0) ⊎ (c.critical_interrupts_enabled ≡ before)

pub enter-IsNested :
    (before : Bool) (depth : ℕ) (c : Critical)
    → IsNested before depth c
    → depth < uint32_max
    → Returns (IsNested before (depth + 1)) (core_util_critical_section_enter c)
unfolding core_util_critical_section_enter
enter-IsNested before depth c n small = ground arith

pub exit-IsNested :
    (before : Bool) (depth : ℕ) (c : Critical)
    → IsNested before (depth + 1) c
    → Returns (IsNested before depth) (core_util_critical_section_exit c)
unfolding core_util_critical_section_exit
exit-IsNested before depth c n = ground arith

-- A call of `core_util_critical_section_enter` or of `core_util_critical_section_exit`.
pub data Call : Type 0 where
  enter exit : Call

unfoldable pub run : List Call → Critical → Run Critical
run [] c = ok c
run (enter ∷ cs) c = core_util_critical_section_enter c >>= run cs
run (exit ∷ cs) c = core_util_critical_section_exit c >>= run cs

-- The sections left open: an exit with none open does nothing.
abbrev pub depth_after : ℕ → List Call → ℕ
depth_after d [] = d
depth_after d (enter ∷ cs) = depth_after (d + 1) cs
depth_after d (exit ∷ cs) = depth_after (d - 1) cs

exit_any :
    (before : Bool) (depth : ℕ) (c : Critical)
    → IsNested before depth c
    → Returns (IsNested before (depth - 1)) (core_util_critical_section_exit c)
unfolding core_util_critical_section_exit
exit_any before depth c n = ground arith

-- Whatever the order of the calls, as long as the counter has room for them: none halts, and
-- afterwards the interrupts are masked exactly while a section is open, and otherwise as they were
-- before the first.
pub run-IsNested :
    (before : Bool) (depth : ℕ) (cs : List Call) (c : Critical)
    → IsNested before depth c
    → depth + length cs ≤ uint32_max
    → Returns (IsNested before (depth_after depth cs)) (run cs c)
unfolding run
run-IsNested before depth [] c n h = n
run-IsNested before depth (enter ∷ cs) c n h =
    Returns-bind (IsNested before (depth + 1)) _ _ (run cs)
      (enter-IsNested before depth c n (omega arith))
      (λ c' m. run-IsNested before (depth + 1) cs c' m (omega arith))
run-IsNested before depth (exit ∷ cs) c n h =
    Returns-bind (IsNested before (depth - 1)) _ _ (run cs) (exit_any before depth c n)
      (λ c' m. run-IsNested before (depth - 1) cs c' m (omega arith))

-- ===== src/Mpu/Keeping.antt =====
-- A property of the unit that both functions of the target keep is kept by the calls of
-- bootstrap/mbed_mpu_mgmt.c.
use mcu_driver_hal.Base.{
  ◌-◌, Bool, true, false, List, [], ◌∷◌, Run, ok, halted, undefined, out_of_fuel, ◌>>=◌, Returns,
  ◌==◌, if◌then◌else◌,
}
use mcu_driver_hal.Critical.{
  Critical, mbed_assert, core_util_critical_section_enter, core_util_critical_section_exit,
}
use mcu_driver_hal.Mpu.{
  MpuDriver, Manager, mbed_mpu_manager_lock_ram_execution, mbed_mpu_manager_unlock_ram_execution,
  mbed_mpu_manager_lock_rom_write, mbed_mpu_manager_unlock_rom_write,
}
use mcu_driver_hal.Mpu.Counting.{LockCall, lock_ram, unlock_ram, lock_rom, unlock_rom, call_all}

-- What holds of a result where there is one.
abbrev pub Result : {A : Type 0} → (A → Type 0) → Run A → Type 0
Result P (ok a) = P a
Result P halted = Unit
Result P undefined = Unit
Result P out_of_fuel = Unit

Result-bind :
    {A B : Type 0} (P : A → Type 0) (Q : B → Type 0) (r : Run A) (f : A → Run B)
    → Result P r
    → ((a : A) → P a → Result Q (f a))
    → Result Q (r >>= f)
Result-bind P Q (ok a) f p next = next a p
Result-bind P Q halted f p next = p
Result-bind P Q undefined f p next = p
Result-bind P Q out_of_fuel f p next = p

Result-any : {A : Type 0} (r : Run A) → Result (λ a. Unit) r
Result-any (ok a) = tt
Result-any halted = tt
Result-any undefined = tt
Result-any out_of_fuel = tt

Result-assert :
    {A B : Type 0} (Q : B → Type 0) (test : Bool) (a : A) (f : A → Run B)
    → Result Q (f a)
    → Result Q (mbed_assert test a >>= f)
unfolding mbed_assert
Result-assert Q true a f q = q
Result-assert Q false a f q = tt

pub Returns-Result :
    {A : Type 0} (P Q : A → Type 0) (r : Run A)
    → Returns P r
    → Result Q r
    → Returns (λ a. P a × Q a) r
Returns-Result P Q (ok a) p q = (p, q)
Returns-Result P Q halted p q = p
Returns-Result P Q undefined p q = p
Returns-Result P Q out_of_fuel p q = p

module _ {H : Type 0} (d : MpuDriver H) (P : H → Type 0)
    (keeps_ram : (b : Bool) (h : H) → P h → P (d.mbed_mpu_enable_ram_xn b h))
    (keeps_rom : (b : Bool) (h : H) → P h → P (d.mbed_mpu_enable_rom_wn b h)) where
  keeps_if : (test : Bool) (h h' : H) → P h → P h' → P (if test then h' else h)
  keeps_if true h h' p p' = p'
  keeps_if false h h' p p' = p

  -- The end of all four functions.
  exit-Result :
      (f : Critical → Manager H) (c : Critical)
      → ((c' : Critical) → P (f c').hw)
      → Result (λ s. P s.hw) (core_util_critical_section_exit c >>= λ c'. ok (f c'))
  exit-Result f c p =
      Result-bind (λ c'. Unit) (λ s. P s.hw) (core_util_critical_section_exit c) (λ c'. ok (f c'))
        (Result-any (core_util_critical_section_exit c)) (λ c' t. p c')

  enter-Result :
      (s : Manager H) (f : Critical → Run (Manager H))
      → ((c : Critical) → Result (λ t. P t.hw) (f c))
      → Result (λ t. P t.hw) (core_util_critical_section_enter s.critical >>= f)
  enter-Result s f p =
      Result-bind (λ c. Unit) (λ t. P t.hw) (core_util_critical_section_enter s.critical) f
        (Result-any (core_util_critical_section_enter s.critical)) (λ c t. p c)

  keeps-lock_ram :
      (s : Manager H) → P s.hw → Result (λ t. P t.hw) (mbed_mpu_manager_lock_ram_execution d s)
  unfolding mbed_mpu_manager_lock_ram_execution
  keeps-lock_ram s p = enter-Result s _ (λ c.
      Result-assert (λ t. P t.hw) _ _ _
        (exit-Result _ c (λ c'.
          keeps_if (s.mem_xn_lock == 0) s.hw (d.mbed_mpu_enable_ram_xn false s.hw) p
            (keeps_ram false s.hw p))))

  keeps-unlock_ram :
      (s : Manager H) → P s.hw → Result (λ t. P t.hw) (mbed_mpu_manager_unlock_ram_execution d s)
  unfolding mbed_mpu_manager_unlock_ram_execution
  keeps-unlock_ram s p = enter-Result s _ (λ c.
      Result-assert (λ t. P t.hw) _ _ _
        (exit-Result _ c (λ c'.
          keeps_if (s.mem_xn_lock - 1 == 0) s.hw (d.mbed_mpu_enable_ram_xn true s.hw) p
            (keeps_ram true s.hw p))))

  keeps-lock_rom :
      (s : Manager H) → P s.hw → Result (λ t. P t.hw) (mbed_mpu_manager_lock_rom_write d s)
  unfolding mbed_mpu_manager_lock_rom_write
  keeps-lock_rom s p = enter-Result s _ (λ c.
      Result-assert (λ t. P t.hw) _ _ _
        (exit-Result _ c (λ c'.
          keeps_if (s.mem_wn_lock == 0) s.hw (d.mbed_mpu_enable_rom_wn false s.hw) p
            (keeps_rom false s.hw p))))

  keeps-unlock_rom :
      (s : Manager H) → P s.hw → Result (λ t. P t.hw) (mbed_mpu_manager_unlock_rom_write d s)
  unfolding mbed_mpu_manager_unlock_rom_write
  keeps-unlock_rom s p = enter-Result s _ (λ c.
      Result-assert (λ t. P t.hw) _ _ _
        (exit-Result _ c (λ c'.
          keeps_if (s.mem_wn_lock - 1 == 0) s.hw (d.mbed_mpu_enable_rom_wn true s.hw) p
            (keeps_rom true s.hw p))))

  pub keeps-call_all :
      (cs : List LockCall) (s : Manager H) → P s.hw → Result (λ t. P t.hw) (call_all d cs s)
  unfolding call_all
  keeps-call_all [] s p = p
  keeps-call_all (lock_ram ∷ cs) s p =
      Result-bind (λ t. P t.hw) _ _ _ (keeps-lock_ram s p) (λ t q. keeps-call_all cs t q)
  keeps-call_all (unlock_ram ∷ cs) s p =
      Result-bind (λ t. P t.hw) _ _ _ (keeps-unlock_ram s p) (λ t q. keeps-call_all cs t q)
  keeps-call_all (lock_rom ∷ cs) s p =
      Result-bind (λ t. P t.hw) _ _ _ (keeps-lock_rom s p) (λ t q. keeps-call_all cs t q)
  keeps-call_all (unlock_rom ∷ cs) s p =
      Result-bind (λ t. P t.hw) _ _ _ (keeps-unlock_rom s p) (λ t q. keeps-call_all cs t q)

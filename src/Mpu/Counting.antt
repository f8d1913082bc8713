-- ===== src/Mpu/Counting.antt =====
-- Sequences of calls of bootstrap/mbed_mpu_mgmt.c.
use mcu_driver_hal.Base.{
  ℕ, zero, suc, ◌+◌, ◌-◌, ◌<◌, ◌≤◌, ◌≡◌, ◌≢◌, refl, subst, ap, ◌∙◌, Bool, true, false, Option, none,
  some, List, [], ◌∷◌, length, arith, Run, ok, ◌>>=◌, Returns, Returns-bind, ◌==◌, ◌!=◌,
  if◌then◌else◌,
}
use mcu_driver_hal.Critical.{uint32_max, mbed_assert}
use mcu_driver_hal.Critical.Nesting.{IsNested, enter-IsNested, exit-IsNested}
use mcu_driver_hal.Mpu.{
  MpuDriver, Manager, ushrt_max, mbed_mpu_manager_lock_ram_execution,
  mbed_mpu_manager_unlock_ram_execution, mbed_mpu_manager_lock_rom_write,
  mbed_mpu_manager_unlock_rom_write,
}

-- The two protections can be read back as they were last enabled or disabled, and neither call
-- touches the other one.
pub record Readable {H : Type 0} (d : MpuDriver H) : Type 0 where
  pub ram_xn : H → Bool
  pub rom_wn : H → Bool
  pub ram_xn-ram : (b : Bool) (h : H) → ram_xn (d.mbed_mpu_enable_ram_xn b h) ≡ b
  pub ram_xn-rom : (b : Bool) (h : H) → ram_xn (d.mbed_mpu_enable_rom_wn b h) ≡ ram_xn h
  pub rom_wn-rom : (b : Bool) (h : H) → rom_wn (d.mbed_mpu_enable_rom_wn b h) ≡ b
  pub rom_wn-ram : (b : Bool) (h : H) → rom_wn (d.mbed_mpu_enable_ram_xn b h) ≡ rom_wn h

pub data LockCall : Type 0 where
  lock_ram unlock_ram lock_rom unlock_rom : LockCall

-- The open locks of both kinds afterwards; `none` where a call unlocks what is not locked.
abbrev pub open_locks : (ram rom : ℕ) → List LockCall → Option (ℕ × ℕ)
open_locks ram rom [] = some (ram, rom)
open_locks ram rom (lock_ram ∷ cs) = open_locks (suc ram) rom cs
open_locks zero rom (unlock_ram ∷ cs) = none
open_locks (suc ram) rom (unlock_ram ∷ cs) = open_locks ram rom cs
open_locks ram rom (lock_rom ∷ cs) = open_locks ram (suc rom) cs
open_locks ram zero (unlock_rom ∷ cs) = none
open_locks ram (suc rom) (unlock_rom ∷ cs) = open_locks ram rom cs

suc-ne-zero : (a : ℕ) → (suc a != 0) ≡ true
suc-ne-zero a = ground arith

suc-less : (a : ℕ) → suc a - 1 ≡ a
suc-less a = omega arith

some_inj : {p q : ℕ × ℕ} → ◌≡◌ {A = Option (ℕ × ℕ)} (some p) (some q) → p ≡ q
some_inj {p} e = ap (λ o. elim o [ none ↦ p | some l ↦ l ]) e

none-ne : {q : ℕ × ℕ} → ◌≢◌ {A = Option (ℕ × ℕ)} none (some q)
none-ne e = ground arith

module _ {H : Type 0} (d : MpuDriver H) where
  unfoldable pub call_all : List LockCall → Manager H → Run (Manager H)
  call_all [] s = ok s
  call_all (lock_ram ∷ cs) s = mbed_mpu_manager_lock_ram_execution d s >>= call_all cs
  call_all (unlock_ram ∷ cs) s = mbed_mpu_manager_unlock_ram_execution d s >>= call_all cs
  call_all (lock_rom ∷ cs) s = mbed_mpu_manager_lock_rom_write d s >>= call_all cs
  call_all (unlock_rom ∷ cs) s = mbed_mpu_manager_unlock_rom_write d s >>= call_all cs

module _ {H : Type 0} (d : MpuDriver H) (r : Readable d) (before : Bool) (depth : ℕ) where
  -- The counters count the open locks, and a protection is on exactly while none is open.
  pub record IsGuarded (locks : ℕ × ℕ) (s : Manager H) : Type 0 where
    pub ram : s.mem_xn_lock ≡ locks.0
    pub rom : s.mem_wn_lock ≡ locks.1
    pub ram_xn : r.ram_xn s.hw ≡ (locks.0 == 0)
    pub rom_wn : r.rom_wn s.hw ≡ (locks.1 == 0)
    pub nested : IsNested before depth s.critical

  ram_xn_switch :
      (test v : Bool) (h : H)
      → r.ram_xn (if test then d.mbed_mpu_enable_ram_xn v h else h)
        ≡ (if test then v else r.ram_xn h)
  ram_xn_switch true v h = r.ram_xn-ram v h
  ram_xn_switch false v h = refl

  rom_wn_frame :
      (test v : Bool) (h : H)
      → r.rom_wn (if test then d.mbed_mpu_enable_ram_xn v h else h) ≡ r.rom_wn h
  rom_wn_frame true v h = r.rom_wn-ram v h
  rom_wn_frame false v h = refl

  lock_ram_lem :
      (a b : ℕ) (s : Manager H)
      → IsGuarded (a, b) s
      → depth < uint32_max
      → a < ushrt_max
      → Returns (IsGuarded (suc a, b)) (mbed_mpu_manager_lock_ram_execution d s)
  unfolding mbed_mpu_manager_lock_ram_execution mbed_assert
  lock_ram_lem a b s g deep room =
      Returns-bind (IsNested before (depth + 1)) _ _ _
        (enter-IsNested before depth s.critical g.nested deep)
        (λ c n.
          rw (fits, ap (λ t. t == 0) g.ram)
            (Returns-bind (IsNested before depth) _ _ _ (exit-IsNested before depth c n) (λ c' n'.
              record {
                ram = omega (arith, g.ram, room);
                rom = g.rom;
                ram_xn = ram_xn_switch (a == 0) false s.hw ∙ off;
                rom_wn = rom_wn_frame (a == 0) false s.hw ∙ g.rom_wn;
                nested = n';
              })))
    where
      fits : (s.mem_xn_lock != ushrt_max) ≡ true
      fits = let e = g.ram in ground arith

      off : (if a == 0 then false else r.ram_xn s.hw) ≡ (suc a == 0)
      off = let e = g.ram_xn in ground arith

  unlock_ram_lem :
      (a b : ℕ) (s : Manager H)
      → IsGuarded (suc a, b) s
      → depth < uint32_max
      → Returns (IsGuarded (a, b)) (mbed_mpu_manager_unlock_ram_execution d s)
  unfolding mbed_mpu_manager_unlock_ram_execution mbed_assert
  unlock_ram_lem a b s g deep =
      Returns-bind (IsNested before (depth + 1)) _ _ _
        (enter-IsNested before depth s.critical g.nested deep)
        (λ c n.
          rw (g.ram, suc-ne-zero a, suc-less a)
            (Returns-bind (IsNested before depth) _ _ _ (exit-IsNested before depth c n) (λ c' n'.
              record {
                ram = refl;
                rom = g.rom;
                ram_xn = ram_xn_switch (a == 0) true s.hw ∙ on;
                rom_wn = rom_wn_frame (a == 0) true s.hw ∙ g.rom_wn;
                nested = n';
              })))
    where
      on : (if a == 0 then true else r.ram_xn s.hw) ≡ (a == 0)
      on = let e = g.ram_xn in ground arith

  rom_wn_switch :
      (test v : Bool) (h : H)
      → r.rom_wn (if test then d.mbed_mpu_enable_rom_wn v h else h)
        ≡ (if test then v else r.rom_wn h)
  rom_wn_switch true v h = r.rom_wn-rom v h
  rom_wn_switch false v h = refl

  ram_xn_frame :
      (test v : Bool) (h : H)
      → r.ram_xn (if test then d.mbed_mpu_enable_rom_wn v h else h) ≡ r.ram_xn h
  ram_xn_frame true v h = r.ram_xn-rom v h
  ram_xn_frame false v h = refl

  lock_rom_lem :
      (a b : ℕ) (s : Manager H)
      → IsGuarded (b, a) s
      → depth < uint32_max
      → a < ushrt_max
      → Returns (IsGuarded (b, suc a)) (mbed_mpu_manager_lock_rom_write d s)
  unfolding mbed_mpu_manager_lock_rom_write mbed_assert
  lock_rom_lem a b s g deep room =
      Returns-bind (IsNested before (depth + 1)) _ _ _
        (enter-IsNested before depth s.critical g.nested deep)
        (λ c n.
          rw (fits, ap (λ t. t == 0) g.rom)
            (Returns-bind (IsNested before depth) _ _ _ (exit-IsNested before depth c n) (λ c' n'.
              record {
                rom = omega (arith, g.rom, room);
                ram = g.ram;
                rom_wn = rom_wn_switch (a == 0) false s.hw ∙ off;
                ram_xn = ram_xn_frame (a == 0) false s.hw ∙ g.ram_xn;
                nested = n';
              })))
    where
      fits : (s.mem_wn_lock != ushrt_max) ≡ true
      fits = let e = g.rom in ground arith

      off : (if a == 0 then false else r.rom_wn s.hw) ≡ (suc a == 0)
      off = let e = g.rom_wn in ground arith

  unlock_rom_lem :
      (a b : ℕ) (s : Manager H)
      → IsGuarded (b, suc a) s
      → depth < uint32_max
      → Returns (IsGuarded (b, a)) (mbed_mpu_manager_unlock_rom_write d s)
  unfolding mbed_mpu_manager_unlock_rom_write mbed_assert
  unlock_rom_lem a b s g deep =
      Returns-bind (IsNested before (depth + 1)) _ _ _
        (enter-IsNested before depth s.critical g.nested deep)
        (λ c n.
          rw (g.rom, suc-ne-zero a, suc-less a)
            (Returns-bind (IsNested before depth) _ _ _ (exit-IsNested before depth c n) (λ c' n'.
              record {
                rom = refl;
                ram = g.ram;
                rom_wn = rom_wn_switch (a == 0) true s.hw ∙ on;
                ram_xn = ram_xn_frame (a == 0) true s.hw ∙ g.ram_xn;
                nested = n';
              })))
    where
      on : (if a == 0 then true else r.rom_wn s.hw) ≡ (a == 0)
      on = let e = g.rom_wn in ground arith

  -- A sequence of calls that never unlocks what is not locked, and opens at most 65535 locks in all,
  -- made inside `depth` critical sections below the counter's bound, from a guarded state: all calls
  -- return, and afterwards each protection is on exactly while no lock of its kind is open.
  pub call_all-IsGuarded :
      (ram rom : ℕ) (cs : List LockCall) (locks : ℕ × ℕ) (s : Manager H)
      → IsGuarded (ram, rom) s
      → depth < uint32_max
      → ram + rom + length cs ≤ ushrt_max
      → open_locks ram rom cs ≡ some locks
      → Returns (IsGuarded locks) (call_all d cs s)
  unfolding call_all
  call_all-IsGuarded ram rom [] locks s g deep h e = subst (λ l. IsGuarded l s) (some_inj e) g
  call_all-IsGuarded ram rom (lock_ram ∷ cs) locks s g deep h e =
      Returns-bind (IsGuarded (suc ram, rom)) _ _ _ (lock_ram_lem ram rom s g deep (omega arith))
        (λ s' g'. call_all-IsGuarded (suc ram) rom cs locks s' g' deep (omega arith) e)
  call_all-IsGuarded zero rom (unlock_ram ∷ cs) locks s g deep h e = absurd (none-ne e)
  call_all-IsGuarded (suc ram) rom (unlock_ram ∷ cs) locks s g deep h e =
      Returns-bind (IsGuarded (ram, rom)) _ _ _ (unlock_ram_lem ram rom s g deep)
        (λ s' g'. call_all-IsGuarded ram rom cs locks s' g' deep (omega arith) e)
  call_all-IsGuarded ram rom (lock_rom ∷ cs) locks s g deep h e =
      Returns-bind (IsGuarded (ram, suc rom)) _ _ _ (lock_rom_lem rom ram s g deep (omega arith))
        (λ s' g'. call_all-IsGuarded ram (suc rom) cs locks s' g' deep (omega arith) e)
  call_all-IsGuarded ram zero (unlock_rom ∷ cs) locks s g deep h e = absurd (none-ne e)
  call_all-IsGuarded ram (suc rom) (unlock_rom ∷ cs) locks s g deep h e =
      Returns-bind (IsGuarded (ram, rom)) _ _ _ (unlock_rom_lem rom ram s g deep)
        (λ s' g'. call_all-IsGuarded ram rom cs locks s' g' deep (omega arith) e)

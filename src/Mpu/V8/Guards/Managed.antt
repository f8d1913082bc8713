-- ===== src/Mpu/V8/Guards/Managed.antt =====
-- bootstrap/mbed_mpu_mgmt.c over hal/source/mpu/mbed_mpu_v8m.c.
use mcu_driver_hal.Base.{
  ℕ, ◌+◌, ◌*◌, ◌≤◌, ◌<◌, ◌≡◌, sym, ap, ◌∙◌, inl, Bool, true, some, List, length, arith, ◌>>=◌,
  Returns, Returns-bind, Returns-mono, ◌==◌, if◌then◌else◌,
}
use mcu_driver_hal.Critical.{uint32_max}
use mcu_driver_hal.Critical.Nesting.{IsNested}
use mcu_driver_hal.Mpu.{Manager, ushrt_max}
use mcu_driver_hal.Mpu.Counting.{
  Readable, LockCall, open_locks, IsGuarded, call_all, call_all-IsGuarded,
}
use mcu_driver_hal.Mpu.Keeping.{Returns-Result, keeps-call_all}
use mcu_driver_hal.Mpu.Registers.{MpuUnit, IsUnit, enable_region}
use mcu_driver_hal.Mpu.V8.{
  Region, MemoryAttribute, ram_start, last_ram_region, mbed_mpu_init, mbed_mpu_enable_rom_wn,
  mbed_mpu_enable_ram_xn, driver,
}
use mcu_driver_hal.Mpu.V8.Rules.{rights}
use mcu_driver_hal.Mpu.V8.Programmed.{
  enable_rom-IsProgrammed, enable_ram-IsProgrammed, init-IsProgrammed,
}
use mcu_driver_hal.Mpu.V8.Table.{
  KeepsRegions, IsProgrammed, enable_regions-inside, enable_regions-outside,
}
use mcu_driver_hal.Mpu.V8.Guards.{IsProgrammed-guarded}
use mcu_driver_hal.Mpu.V8.Found.{guarded}

last-ge : (rom_end : ℕ) → 3 ≤ last_ram_region rom_end
last-ge rom_end = ground arith

module _ {H : Type 0} (u : MpuUnit Region H) (s : IsUnit u) (rom_end : ℕ) where
  ram_xn-ram_lem :
      (b : Bool) (h : H) → (s.table (mbed_mpu_enable_ram_xn u rom_end b h) 1).enabled ≡ b
  unfolding mbed_mpu_enable_ram_xn
  ram_xn-ram_lem b h =
      ap (λ e. e.enabled)
        (enable_regions-inside u s b 1 (last_ram_region rom_end) h 1 (omega arith)
          (omega (arith, last-ge rom_end)))

  ram_xn-rom_lem :
      (b : Bool) (h : H)
      → (s.table (mbed_mpu_enable_rom_wn u b h) 1).enabled ≡ (s.table h 1).enabled
  unfolding mbed_mpu_enable_rom_wn enable_region
  ram_xn-rom_lem b h = ap (λ e. e.enabled) (s.table_enable 0 b h 1)

  rom_wn-rom_lem : (b : Bool) (h : H) → (s.table (mbed_mpu_enable_rom_wn u b h) 0).enabled ≡ b
  unfolding mbed_mpu_enable_rom_wn enable_region
  rom_wn-rom_lem b h = ap (λ e. e.enabled) (s.table_enable 0 b h 0)

  rom_wn-ram_lem :
      (b : Bool) (h : H)
      → (s.table (mbed_mpu_enable_ram_xn u rom_end b h) 0).enabled ≡ (s.table h 0).enabled
  unfolding mbed_mpu_enable_ram_xn
  rom_wn-ram_lem b h =
      ap (λ e. e.enabled)
        (enable_regions-outside u s b 1 (last_ram_region rom_end) h 0 (inl (omega arith)))

  -- The protections can be read back from the enable bits of the regions 0 and 1.
  abbrev readable : Readable (driver u rom_end)
  readable = record {
    ram_xn = λ h. (s.table h 1).enabled;
    rom_wn = λ h. (s.table h 0).enabled;
    ram_xn-ram = ram_xn-ram_lem;
    ram_xn-rom = ram_xn-rom_lem;
    rom_wn-rom = rom_wn-rom_lem;
    rom_wn-ram = rom_wn-ram_lem;
  }

  -- Programmed, with some protections.
  abbrev Holds : (regions : ℕ) → H → Type 0
  Holds regions h = (wn : Bool) × (xn : Bool) × IsProgrammed u s rom_end regions wn xn h

  Holds-guarded :
      (m n : ℕ) (before : Bool) (depth : ℕ) (locks : ℕ × ℕ) (t : Manager H)
      → rom_end + 1 ≡ 32 * m
      → rom_end + 1 ≤ 0x20000000
      → last_ram_region rom_end < n
      → IsGuarded (driver u rom_end) readable before depth locks t
      → Holds n t.hw
      → (a : ℕ)
      → rights n (s.ctrl t.hw) (s.table t.hw) a ≡ guarded rom_end (locks.1 == 0) (locks.0 == 0) a
  Holds-guarded m n before depth locks t whole small enough g (wn, xn, p) a =
      let rom_on : wn ≡ (locks.1 == 0) =
        sym (ap (λ e. e.enabled) (p.entries 0 (omega arith))) ∙ g.rom_wn in
      let ram_on : xn ≡ (locks.0 == 0) =
        sym (ap (λ e. e.enabled) (p.entries 1 (omega (arith, last-ge rom_end)))) ∙ g.ram_xn in
      IsProgrammed-guarded u s rom_end m whole small n wn xn t.hw p enough a
      ∙ ap (λ w. guarded rom_end w xn a) rom_on
      ∙ ap (λ x. guarded rom_end (locks.1 == 0) x a) ram_on

module _ {H : Type 0} (u : MpuUnit Region H) (s : IsUnit u)
    (set_mem_attr : ℕ → (outer inner : MemoryAttribute) → H → H)
    (keeps : KeepsRegions s set_mem_attr) (rom_end m : ℕ) where
  -- For an end of the ROM in the code area that is a multiple of 32 bytes, and a unit that has the
  -- regions for it, however it was programmed before: `mbed_mpu_init` returns, and so do then all
  -- calls of a sequence that never unlocks what is not locked and opens at most 65535 locks, made
  -- inside `depth` critical sections below the counter's bound. Afterwards the ROM can be executed,
  -- and be written exactly while a lock of its kind is open; the RAM can be written, and be executed
  -- exactly while a lock of its kind is open; all else can be written and not be executed.
  pub mbed_mpu_init-call_all-guards :
      (before : Bool) (depth : ℕ) (cs : List LockCall) (locks : ℕ × ℕ) (t : Manager H)
      → rom_end + 1 ≡ 32 * m
      → rom_end + 1 ≤ 0x20000000
      → (if ram_start rom_end == 0x20000000 then 4 else 5) ≤ u.dregion t.hw
      → t.mem_xn_lock ≡ 0
      → t.mem_wn_lock ≡ 0
      → IsNested before depth t.critical
      → depth < uint32_max
      → length cs ≤ ushrt_max
      → open_locks 0 0 cs ≡ some locks
      → Returns
          (λ t'.
            (a : ℕ)
            → rights (u.dregion t.hw) (s.ctrl t'.hw) (s.table t'.hw) a
              ≡ guarded rom_end (locks.1 == 0) (locks.0 == 0) a)
          (mbed_mpu_init u set_mem_attr rom_end t.hw >>= λ h.
            call_all (driver u rom_end) cs (record t { hw = h }))
  mbed_mpu_init-call_all-guards before depth cs locks t whole small enough no_ram no_rom nested deep
        few paired =
      let n : ℕ = u.dregion t.hw in
      Returns-bind (IsProgrammed u s rom_end n true true) _
        (mbed_mpu_init u set_mem_attr rom_end t.hw) _
        (init-IsProgrammed u s set_mem_attr keeps rom_end t.hw (ground arith))
        (λ h p.
          Returns-mono _ _ (call_all (driver u rom_end) cs (record t { hw = h }))
            (Returns-Result (IsGuarded (driver u rom_end) (readable u s rom_end) before depth locks)
              (λ t'. Holds u s rom_end n t'.hw)
              (call_all (driver u rom_end) cs (record t { hw = h }))
              (call_all-IsGuarded (driver u rom_end) (readable u s rom_end) before depth 0 0 cs
                locks (record t { hw = h })
                (record {
                  ram = no_ram;
                  rom = no_rom;
                  ram_xn = ap (λ e. e.enabled) (p.entries 1 (omega (arith, last-ge rom_end)));
                  rom_wn = ap (λ e. e.enabled) (p.entries 0 (omega arith));
                  nested = nested;
                })
                deep (omega arith) paired)
              (keeps-call_all (driver u rom_end) (Holds u s rom_end n)
                (λ b h' q.
                  let (wn, xn, r) = q in
                  (wn, b, enable_ram-IsProgrammed u s rom_end n wn xn b h' r))
                (λ b h' q.
                  let (wn, xn, r) = q in
                  (b, xn, enable_rom-IsProgrammed u s rom_end n wn xn b h' r))
                cs (record t { hw = h }) (true, true, p)))
            (λ t' both a.
              Holds-guarded u s rom_end m n before depth locks t' whole small (ground arith) both.0
                both.1 a))

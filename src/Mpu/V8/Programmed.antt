-- ===== src/Mpu/V8/Programmed.antt =====
-- The registers after `mbed_mpu_init` of hal/source/mpu/mbed_mpu_v8m.c and the functions that enable
-- and disable the two protections.
use mcu_driver_hal.Base.{
  ℕ, zero, suc, ◌≤◌, ◌<◌, ◌≡◌, refl, ap, ◌∙◌, inl, inr, Bool, true, false, arith, Returns, leb,
  ◌==◌, ◌!=◌, Bool-cases, if◌then◌else◌,
}
use mcu_driver_hal.Critical.{mbed_assert}
use mcu_driver_hal.Mpu.Registers.{
  MpuUnit, Entry, IsUnit, turn_off, turn_on, clr_regions, enable_region, enable_regions,
}
use mcu_driver_hal.Mpu.V7.Programmed.{clr_regions-table}
use mcu_driver_hal.Mpu.V8.{
  Region, MemoryAttribute, ram_start, rom_region, ram_region, attr_index_wtra, attr_index_wbwara,
  wtra, wbwara, last_ram_region, set_code_ram, mbed_mpu_init, mbed_mpu_enable_rom_wn,
  mbed_mpu_enable_ram_xn,
}
use mcu_driver_hal.Mpu.V8.Table.{
  KeepsRegions, regions_of, IsProgrammed, last-le, enable_regions-ctrl, enable_regions-outside,
  enable_regions-inside,
}

module _ {H : Type 0} (u : MpuUnit Region H) (s : IsUnit u) (rom_end n : ℕ) where
  pub enable_rom-IsProgrammed :
      (wn xn b : Bool) (h : H)
      → IsProgrammed u s rom_end n wn xn h
      → IsProgrammed u s rom_end n b xn (mbed_mpu_enable_rom_wn u b h)
  unfolding mbed_mpu_enable_rom_wn enable_region
  enable_rom-IsProgrammed wn xn b h p = record {
    running = ap (λ c. c.enable) (s.ctrl_enable 0 b h) ∙ p.running;
    entries = λ j le. s.table_enable 0 b h j ∙ switch j le;
    rest = λ j lo hi.
        let other : (j == 0) ≡ false = ground arith in
        ap (λ e. e.enabled)
          (s.table_enable 0 b h j
            ∙ ap
                (λ t.
                  if t then record { enabled = b; config = (s.table h j).config } else s.table h j)
                other)
        ∙ p.rest j lo hi;
  }
    where
      switch :
          (j : ℕ)
          → j ≤ last_ram_region rom_end
          → (if j == 0 then record { enabled = b; config = (s.table h j).config } else s.table h j)
            ≡ regions_of rom_end b xn j
      switch zero le = ap (λ e. record { enabled = b; config = e.config }) (p.entries 0 le)
      switch (suc j) le =
          let other : (suc j == 0) ≡ false = ground arith in
          rw (other, p.entries (suc j) le, other) refl

  pub enable_ram-IsProgrammed :
      (wn xn b : Bool) (h : H)
      → IsProgrammed u s rom_end n wn xn h
      → IsProgrammed u s rom_end n wn b (mbed_mpu_enable_ram_xn u rom_end b h)
  unfolding mbed_mpu_enable_ram_xn
  enable_ram-IsProgrammed wn xn b h p = record {
    running =
        ap (λ c. c.enable) (enable_regions-ctrl u s b 1 (last_ram_region rom_end) h) ∙ p.running;
    entries = λ j le. switch j le;
    rest = λ j lo hi.
        ap (λ e. e.enabled)
          (enable_regions-outside u s b 1 (last_ram_region rom_end) h j (inr (omega arith)))
        ∙ p.rest j lo hi;
  }
    where
      moved :
          (j : ℕ)
          → record { enabled = b; config = (regions_of rom_end wn xn (suc j)).config }
            ≡ regions_of rom_end wn b (suc j)
      moved j =
          let other : (suc j == 0) ≡ false = ground arith in
          rw other elim (Bool-cases (suc j == 1)) [
            | inl e ↦ rw e refl
            | inr e ↦ rw e elim (Bool-cases (suc j == 2)) [
              | inl f ↦ rw f refl
              | inr f ↦
                  rw f elim (Bool-cases (suc j == 3)) [ inl g ↦ rw g refl | inr g ↦ rw g refl ]
            ]
          ]

      switch :
          (j : ℕ)
          → j ≤ last_ram_region rom_end
          → s.table (enable_regions u b 1 (last_ram_region rom_end) h) j ≡ regions_of rom_end wn b j
      switch zero le =
          enable_regions-outside u s b 1 (last_ram_region rom_end) h 0 (inl (omega arith))
          ∙ p.entries 0 le
      switch (suc j) le =
          enable_regions-inside u s b 1 (last_ram_region rom_end) h (suc j) (omega arith)
            (omega arith)
          ∙ ap (λ e. record { enabled = b; config = e.config }) (p.entries (suc j) le)
          ∙ moved j

module _ {H : Type 0} (u : MpuUnit Region H) (s : IsUnit u)
    (set_mem_attr : ℕ → (outer inner : MemoryAttribute) → H → H)
    (keeps : KeepsRegions s set_mem_attr) (rom_end : ℕ) where
  abbrev on : Region → Entry Region
  on r = record { enabled = true; config = r }

  set_code_ram-table :
      (h : H) (j : ℕ)
      → s.table (set_code_ram u set_mem_attr rom_end h) j ≡ (
          if ram_start rom_end != 0x20000000
          then (if j == 4
              then on (ram_region (ram_start rom_end) 0x1FFFFFFF attr_index_wtra)
              else s.table h j)
          else s.table h j)
  set_code_ram-table h j = elim (Bool-cases (ram_start rom_end != 0x20000000)) [
    | inl e ↦ rw e (s.table_set 4 (ram_region (ram_start rom_end) 0x1FFFFFFF attr_index_wtra) h j)
    | inr e ↦ rw e refl
  ]

  abbrev sram : Entry Region
  sram = on (ram_region 0x20000000 0x3FFFFFFF attr_index_wbwara)

  abbrev wb_ram : Entry Region
  wb_ram = on (ram_region 0x60000000 0x7FFFFFFF attr_index_wbwara)

  abbrev wt_ram : Entry Region
  wt_ram = on (ram_region 0x80000000 0x9FFFFFFF attr_index_wtra)

  abbrev code_ram : Entry Region
  code_ram = on (ram_region (ram_start rom_end) 0x1FFFFFFF attr_index_wtra)

  abbrev programmed : H → H
  programmed h = turn_on u (
      u.set_region 3 wt_ram.config (
        u.set_region 2 wb_ram.config (
          u.set_region 1 sram.config
            (set_code_ram u set_mem_attr rom_end (u.set_region 0 (rom_region rom_end) h)))))

  init-table :
      (h : H) (j : ℕ)
      → s.table (programmed h) j ≡ (
          if j == 3
          then wt_ram
          else if j == 2
          then wb_ram
          else if j == 1
          then sram
          else if ram_start rom_end != 0x20000000
          then (if j == 4
              then code_ram
              else if j == 0
              then on (rom_region rom_end)
              else s.table h j)
          else if j == 0
          then on (rom_region rom_end)
          else s.table h j)
  init-table h j =
      let h0 : H = u.set_region 0 (rom_region rom_end) h in
      let h4 : H = set_code_ram u set_mem_attr rom_end h0 in
      let h1 : H = u.set_region 1 sram.config h4 in
      let h2 : H = u.set_region 2 wb_ram.config h1 in
      s.table_write (record { privdefena = true; hfnmiena = true; enable = true })
        (u.set_region 3 wt_ram.config h2) j
      ∙ s.table_set 3 wt_ram.config h2 j
      ∙ ap (λ t. if j == 3 then wt_ram else t)
          (s.table_set 2 wb_ram.config h1 j
            ∙ ap (λ t. if j == 2 then wb_ram else t)
                (s.table_set 1 sram.config h4 j
                  ∙ ap (λ t. if j == 1 then sram else t)
                      (set_code_ram-table h0 j
                        ∙ ap
                            (λ t.
                              if ram_start rom_end != 0x20000000
                              then (if j == 4 then code_ram else t)
                              else t)
                            (s.table_set 0 (rom_region rom_end) h j))))

  init-entries :
      (h : H) (j : ℕ)
      → j ≤ last_ram_region rom_end
      → s.table (programmed h) j ≡ regions_of rom_end true true j
  init-entries h zero le = init-table h 0 ∙ both (ram_start rom_end != 0x20000000)
    where
      both :
          (b : Bool)
          → (if b then on (rom_region rom_end) else on (rom_region rom_end))
            ≡ on (rom_region rom_end)
      both true = refl
      both false = refl
  init-entries h (suc zero) le = init-table h 1
  init-entries h (suc (suc zero)) le = init-table h 2
  init-entries h (suc (suc (suc zero))) le = init-table h 3
  init-entries h (suc (suc (suc (suc zero)))) le =
      let split : (ram_start rom_end != 0x20000000) ≡ true = ground arith in
      init-table h 4 ∙ rw split refl
  init-entries h (suc (suc (suc (suc (suc j))))) le = absurd (omega (arith, le, last-le rom_end))

  init-rest : (h : H) (j : ℕ) → last_ram_region rom_end < j → s.table (programmed h) j ≡ s.table h j
  init-rest h j past =
      let e0 : (j == 0) ≡ false = ground arith in
      let e1 : (j == 1) ≡ false = ground arith in
      let e2 : (j == 2) ≡ false = ground arith in
      let e3 : (j == 3) ≡ false = ground arith in
      init-table h j
      ∙ rw (e0, e1, e2, e3)
          elim (Bool-cases (ram_start rom_end != 0x20000000)) [
            | inl split ↦ let e4 : (j == 4) ≡ false = ground arith in rw (split, e4) refl
            | inr whole ↦ rw whole refl
          ]

  -- However the unit was programmed before.
  pub init-IsProgrammed :
      (h : H)
      → leb (if ram_start rom_end == 0x20000000 then 4 else 5) (u.dregion h) ≡ true
      → Returns
          (IsProgrammed u s rom_end (u.dregion h) true true)
          (mbed_mpu_init u set_mem_attr rom_end h)
  unfolding mbed_mpu_init mbed_assert
  init-IsProgrammed h enough =
      let n : ℕ = u.dregion h in
      let c : H = clr_regions u 0 n (turn_off u h) in
      let a : H = set_mem_attr attr_index_wtra wtra wtra c in
      let h0 : H = set_mem_attr attr_index_wbwara wbwara wbwara a in
      rw enough (record {
        running =
            ap (λ t. t.enable)
              (s.ctrl_write (record { privdefena = true; hfnmiena = true; enable = true }) _);
        entries = init-entries h0;
        rest = λ j past hi.
            ap (λ e. e.enabled)
              (init-rest h0 j past
                ∙ keeps.table_attr attr_index_wbwara wbwara wbwara a j
                ∙ keeps.table_attr attr_index_wtra wtra wtra c j)
            ∙ clr_regions-table u s 0 n (turn_off u h) j (omega arith) (omega arith);
      })

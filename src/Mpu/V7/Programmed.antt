-- ===== src/Mpu/V7/Programmed.antt =====
-- The registers after `mbed_mpu_init` of hal/source/mpu/mbed_mpu_v7m.c.
use mcu_driver_hal.Base.{
  ℕ, zero, suc, ◌+◌, ◌≤◌, ◌<◌, ◌≡◌, refl, ap, ◌∙◌, inl, inr, Bool, true, false, ◌&&◌, arith,
  Returns, leb, ltb, ◌==◌, Bool-cases, if◌then◌else◌,
}
use mcu_driver_hal.Critical.{mbed_assert}
use mcu_driver_hal.Mpu.Registers.{MpuUnit, Entry, IsUnit, turn_off, turn_on, clr_regions}
use mcu_driver_hal.Mpu.V7.{
  Region, ram_start, rom_region, code_ram_region, ram_region, wt_ram_region, set_code_ram,
  mbed_mpu_init,
}

abbrev pub on : Region → Entry Region
on r = record { enabled = true; config = r }

-- The table of `regions` regions and the control register.
pub record IsProgrammed {H : Type 0} (u : MpuUnit Region H) (s : IsUnit u) (rom_end regions : ℕ)
    (h : H) : Type 0 where
  pub running : (s.ctrl h).enable ≡ true
  pub rom : s.table h 0 ≡ on (rom_region rom_end)
  pub ram : s.table h 1 ≡ on ram_region
  pub wt_ram : s.table h 2 ≡ on wt_ram_region
  pub code_ram :
      ltb (ram_start rom_end) 0x20000000 ≡ true → s.table h 3 ≡ on (code_ram_region rom_end)
  pub no_code_ram :
      ltb (ram_start rom_end) 0x20000000 ≡ false → 3 < regions → (s.table h 3).enabled ≡ false
  pub rest : (j : ℕ) → 4 ≤ j → j < regions → (s.table h j).enabled ≡ false

module _ {R H : Type 0} (u : MpuUnit R H) (s : IsUnit u) where
  pub clr_regions-below :
      (i left : ℕ) (h : H) (j : ℕ) → j < i → s.table (clr_regions u i left h) j ≡ s.table h j
  unfolding clr_regions
  clr_regions-below i zero h j lo = refl
  clr_regions-below i (suc left) h j lo =
      let other : (j == i) ≡ false = ground arith in
      clr_regions-below (suc i) left (u.clr_region i h) j (omega arith)
      ∙ s.table_clr i h j
      ∙ rw other refl

  pub clr_regions-table :
      (i left : ℕ) (h : H) (j : ℕ)
      → i ≤ j
      → j < i + left
      → (s.table (clr_regions u i left h) j).enabled ≡ false
  unfolding clr_regions
  clr_regions-table i zero h j lo hi = absurd (omega arith)
  clr_regions-table i (suc left) h j lo hi = elim (Bool-cases (j == i)) [
    | inl here ↦
        ap (λ e. e.enabled)
          (clr_regions-below (suc i) left (u.clr_region i h) j (ground arith) ∙ s.table_clr i h j)
        ∙ rw here s.cleared_off
    | inr later ↦ clr_regions-table (suc i) left (u.clr_region i h) j (ground arith) (omega arith)
  ]

module _ {H : Type 0} (u : MpuUnit Region H) (s : IsUnit u) (rom_end : ℕ) where
  set_code_ram-table :
      (h : H) (j : ℕ)
      → s.table (set_code_ram u rom_end h) j ≡ (
          if (j == 3) && ltb (ram_start rom_end) 0x20000000
          then on (code_ram_region rom_end)
          else s.table h j)
  set_code_ram-table h j = elim (Bool-cases (ltb (ram_start rom_end) 0x20000000)) [
    | inl low ↦ rw low (s.table_set 3 (code_ram_region rom_end) h j ∙ and-true (j == 3))
    | inr high ↦ rw high (and-false (j == 3))
  ]
    where
      and-true :
          (b : Bool)
          → (if b then on (code_ram_region rom_end) else s.table h j)
            ≡ (if b && true then on (code_ram_region rom_end) else s.table h j)
      and-true true = refl
      and-true false = refl

      and-false :
          (b : Bool)
          → s.table h j ≡ (if b && false then on (code_ram_region rom_end) else s.table h j)
      and-false true = refl
      and-false false = refl

  init-table :
      (h : H) (j : ℕ)
      → s.table
          (turn_on u (
            u.set_region 2 wt_ram_region (
              u.set_region 1 ram_region
                (set_code_ram u rom_end (u.set_region 0 (rom_region rom_end) h)))))
          j
        ≡ (if j == 2
            then on wt_ram_region
            else if j == 1
            then on ram_region
            else if (j == 3) && ltb (ram_start rom_end) 0x20000000
            then on (code_ram_region rom_end)
            else if j == 0
            then on (rom_region rom_end)
            else s.table h j)
  init-table h j =
      let h0 : H = u.set_region 0 (rom_region rom_end) h in
      let h3 : H = set_code_ram u rom_end h0 in
      let h1 : H = u.set_region 1 ram_region h3 in
      s.table_write (record { privdefena = true; hfnmiena = true; enable = true })
        (u.set_region 2 wt_ram_region h1) j
      ∙ s.table_set 2 wt_ram_region h1 j
      ∙ ap (λ t. if j == 2 then on wt_ram_region else t)
          (s.table_set 1 ram_region h3 j
            ∙ ap (λ t. if j == 1 then on ram_region else t)
                (set_code_ram-table h0 j
                  ∙ ap
                      (λ t.
                        if (j == 3) && ltb (ram_start rom_end) 0x20000000
                        then on (code_ram_region rom_end)
                        else t)
                      (s.table_set 0 (rom_region rom_end) h j)))

  other-table :
      (h : H) (j : ℕ)
      → 4 ≤ j
      → (if j == 2
          then on wt_ram_region
          else if j == 1
          then on ram_region
          else if (j == 3) && ltb (ram_start rom_end) 0x20000000
          then on (code_ram_region rom_end)
          else if j == 0
          then on (rom_region rom_end)
          else s.table h j)
        ≡ s.table h j
  other-table h j lo =
      let e0 : (j == 0) ≡ false = ground arith in
      let e1 : (j == 1) ≡ false = ground arith in
      let e2 : (j == 2) ≡ false = ground arith in
      let e3 : (j == 3) ≡ false = ground arith in rw (e0, e1, e2, e3) refl

  third-table :
      (h : H)
      → ltb (ram_start rom_end) 0x20000000 ≡ false
      → s.table
          (turn_on u (
            u.set_region 2 wt_ram_region (
              u.set_region 1 ram_region
                (set_code_ram u rom_end (u.set_region 0 (rom_region rom_end) h)))))
          3
        ≡ s.table h 3
  third-table h high =
      init-table h 3 ∙ ap (λ b. if b then on (code_ram_region rom_end) else s.table h 3) high

  -- However the unit was programmed before.
  pub init-IsProgrammed :
      (h : H)
      → leb (if ram_start rom_end == 0x20000000 then 3 else 4) (u.dregion h) ≡ true
      → Returns (IsProgrammed u s rom_end (u.dregion h)) (mbed_mpu_init u rom_end h)
  unfolding mbed_mpu_init mbed_assert
  init-IsProgrammed h enough =
      let n : ℕ = u.dregion h in
      let h0 : H = clr_regions u 0 n (turn_off u h) in
      let h1 : H = set_code_ram u rom_end (u.set_region 0 (rom_region rom_end) h0) in
      rw enough (record {
        running =
            ap (λ c. c.enable)
              (s.ctrl_write (record { privdefena = true; hfnmiena = true; enable = true })
                (u.set_region 2 wt_ram_region (u.set_region 1 ram_region h1)));
        rom = init-table h0 0;
        ram = init-table h0 1;
        wt_ram = init-table h0 2;
        code_ram = λ low. init-table h0 3 ∙ rw low refl;
        no_code_ram = λ high more.
            ap (λ e. e.enabled) (third-table h0 high)
            ∙ clr_regions-table u s 0 n (turn_off u h) 3 (omega arith) (omega arith);
        rest = λ j lo hi.
            ap (λ e. e.enabled) (init-table h0 j ∙ other-table h0 j lo)
            ∙ clr_regions-table u s 0 n (turn_off u h) j (omega arith) (omega arith);
      })

-- ===== src/Mpu/V8/Table.antt =====
-- The registers of hal/source/mpu/mbed_mpu_v8m.c as they are programmed.
use mcu_driver_hal.Base.{
  ℕ, zero, suc, ◌+◌, ◌≤◌, ◌<◌, ◌≡◌, ◌⊎◌, refl, ap, ◌∙◌, inl, inr, Bool, true, false, arith, ◌==◌,
  Bool-cases, if◌then◌else◌,
}
use mcu_driver_hal.Mpu.Registers.{MpuUnit, Entry, IsUnit, enable_region, enable_regions}
use mcu_driver_hal.Mpu.V8.{
  Region, MemoryAttribute, ram_start, rom_region, ram_region, attr_index_wtra, attr_index_wbwara,
  last_ram_region,
}

-- Setting the attributes of memory leaves the regions and the control register.
pub record KeepsRegions {H : Type 0} {u : MpuUnit Region H} (s : IsUnit u)
    (set_mem_attr : ℕ → (outer inner : MemoryAttribute) → H → H) : Type 0 where
  pub table_attr :
      (i : ℕ) (o n : MemoryAttribute) (h : H) (j : ℕ)
      → s.table (set_mem_attr i o n h) j ≡ s.table h j

-- The configurations that stand in the table, with the protections `wn` of the ROM and `xn` of the
-- RAM.
abbrev pub regions_of : (rom_end : ℕ) → (wn xn : Bool) → (j : ℕ) → Entry Region
regions_of rom_end wn xn j =
    if j == 0
    then record { enabled = wn; config = rom_region rom_end }
    else if j == 1
    then record { enabled = xn; config = ram_region 0x20000000 0x3FFFFFFF attr_index_wbwara }
    else if j == 2
    then record { enabled = xn; config = ram_region 0x60000000 0x7FFFFFFF attr_index_wbwara }
    else if j == 3
    then record { enabled = xn; config = ram_region 0x80000000 0x9FFFFFFF attr_index_wtra }
    else record { enabled = xn; config = ram_region (ram_start rom_end) 0x1FFFFFFF attr_index_wtra }

pub record IsProgrammed {H : Type 0} (u : MpuUnit Region H) (s : IsUnit u) (rom_end regions : ℕ)
    (wn xn : Bool) (h : H) : Type 0 where
  pub running : (s.ctrl h).enable ≡ true
  pub entries : (j : ℕ) → j ≤ last_ram_region rom_end → s.table h j ≡ regions_of rom_end wn xn j
  pub rest : (j : ℕ) → last_ram_region rom_end < j → j < regions → (s.table h j).enabled ≡ false

module _ {R H : Type 0} (u : MpuUnit R H) (s : IsUnit u) where
  pub enable_regions-ctrl :
      (b : Bool) (i left : ℕ) (h : H) → s.ctrl (enable_regions u b i left h) ≡ s.ctrl h
  unfolding enable_regions enable_region
  enable_regions-ctrl b i zero h = refl
  enable_regions-ctrl b i (suc left) h =
      enable_regions-ctrl b (suc i) left (enable_region u b i h) ∙ s.ctrl_enable i b h

  pub enable_regions-outside :
      (b : Bool) (i left : ℕ) (h : H) (j : ℕ)
      → (j < i) ⊎ (i + left ≤ j)
      → s.table (enable_regions u b i left h) j ≡ s.table h j
  unfolding enable_regions enable_region
  enable_regions-outside b i zero h j out = refl
  enable_regions-outside b i (suc left) h j out =
      let other : (j == i) ≡ false = elim out [ inl lo ↦ ground arith | inr hi ↦ ground arith ] in
      enable_regions-outside b (suc i) left (enable_region u b i h) j
        (elim out [ inl lo ↦ inl (omega arith) | inr hi ↦ inr (omega arith) ])
      ∙ s.table_enable i b h j
      ∙ ap (λ t. if t then record { enabled = b; config = (s.table h j).config } else s.table h j)
          other

  pub enable_regions-inside :
      (b : Bool) (i left : ℕ) (h : H) (j : ℕ)
      → i ≤ j
      → j < i + left
      → s.table (enable_regions u b i left h) j
        ≡ record { enabled = b; config = (s.table h j).config }
  unfolding enable_regions enable_region
  enable_regions-inside b i zero h j lo hi = absurd (omega arith)
  enable_regions-inside b i (suc left) h j lo hi = elim (Bool-cases (j == i)) [
    | inl here ↦
        enable_regions-outside b (suc i) left (enable_region u b i h) j (inl (ground arith))
        ∙ s.table_enable i b h j
        ∙ ap (λ t. if t then record { enabled = b; config = (s.table h j).config } else s.table h j)
            here
    | inr later ↦
        enable_regions-inside b (suc i) left (enable_region u b i h) j (ground arith) (omega arith)
        ∙ ap (λ e. record { enabled = b; config = e.config })
            (s.table_enable i b h j
              ∙ ap
                  (λ t.
                    if t
                    then record { enabled = b; config = (s.table h j).config }
                    else s.table h j)
                  later)
  ]

pub last-le : (rom_end : ℕ) → last_ram_region rom_end ≤ 4
last-le rom_end = ground arith

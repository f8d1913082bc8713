-- ===== src/Mpu/Registers.antt =====
-- The registers of a memory protection unit, as hal/source/mpu/ writes them through the functions
-- of CMSIS, which are parameters. `R` is what describes a region, besides whether it is enabled.
mod Tests
use mcu_driver_hal.Base.{ℕ, zero, suc, ◌≡◌, Bool, true, false, ◌==◌, if◌then◌else◌}

-- MPU->CTRL
pub record Ctrl : Type 0 where
  pub privdefena : Bool
  pub hfnmiena : Bool
  pub enable : Bool

-- `dregion` is the number of regions in MPU->TYPE, `select` writes MPU->RNR, and `write_enable` the
-- enable bit of the selected region.
pub record MpuUnit (R H : Type 0) : Type 0 where
  pub dregion : H → ℕ
  pub write_ctrl : Ctrl → H → H
  pub clr_region : (region : ℕ) → H → H
  pub set_region : (region : ℕ) → R → H → H
  pub select : (region : ℕ) → H → H
  pub write_enable : Bool → H → H

-- A region as it is programmed.
pub record Entry (R : Type 0) : Type 0 where
  pub enabled : Bool
  pub config : R

-- What the functions do to the control register and to the table of the regions.
pub record IsUnit {R H : Type 0} (u : MpuUnit R H) : Type 0 where
  pub table : H → ℕ → Entry R
  pub ctrl : H → Ctrl
  pub cleared : Entry R
  pub cleared_off : cleared.enabled ≡ false
  pub ctrl_write : (c : Ctrl) (h : H) → ctrl (u.write_ctrl c h) ≡ c
  pub ctrl_clr : (i : ℕ) (h : H) → ctrl (u.clr_region i h) ≡ ctrl h
  pub ctrl_set : (i : ℕ) (r : R) (h : H) → ctrl (u.set_region i r h) ≡ ctrl h
  pub ctrl_enable : (i : ℕ) (b : Bool) (h : H) → ctrl (u.write_enable b (u.select i h)) ≡ ctrl h
  pub table_write : (c : Ctrl) (h : H) (j : ℕ) → table (u.write_ctrl c h) j ≡ table h j
  pub table_clr :
      (i : ℕ) (h : H) (j : ℕ) → table (u.clr_region i h) j ≡ (if j == i then cleared else table h j)
  pub table_set :
      (i : ℕ) (r : R) (h : H) (j : ℕ)
      → table (u.set_region i r h) j
        ≡ (if j == i then record { enabled = true; config = r } else table h j)
  pub table_enable :
      (i : ℕ) (b : Bool) (h : H) (j : ℕ)
      → table (u.write_enable b (u.select i h)) j
        ≡ (if j == i then record { enabled = b; config = (table h j).config } else table h j)

-- What may be done at an address.
pub record Rights : Type 0 where
  pub execute : Bool
  pub write : Bool

module _ {R H : Type 0} (u : MpuUnit R H) where
  -- MPU->CTRL = 0
  abbrev pub turn_off : H → H
  turn_off h = u.write_ctrl (record { privdefena = false; hfnmiena = false; enable = false }) h

  abbrev pub turn_on : H → H
  turn_on h = u.write_ctrl (record { privdefena = true; hfnmiena = true; enable = true }) h

  -- The loop over the regions, `left` of them still to come.
  unfoldable pub clr_regions : (i left : ℕ) → H → H
  clr_regions i zero h = h
  clr_regions i (suc left) h = clr_regions (suc i) left (u.clr_region i h)

  unfoldable pub enable_region : (enable : Bool) (region : ℕ) → H → H
  enable_region enable region h = u.write_enable enable (u.select region h)

  -- The loop from `region` on, `left` regions still to come.
  unfoldable pub enable_regions : (enable : Bool) (region left : ℕ) → H → H
  enable_regions enable region zero h = h
  enable_regions enable region (suc left) h =
      enable_regions enable (suc region) left (enable_region enable region h)

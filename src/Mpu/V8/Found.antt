-- ===== src/Mpu/V8/Found.antt =====
-- The regions of hal/source/mpu/mbed_mpu_v8m.c that have an address.
use mcu_driver_hal.Base.{
  ℕ, zero, suc, ◌≤◌, ◌<◌, ◌≡◌, refl, inl, inr, Bool, true, false, not, ◌&&◌, ◌||◌, List, [], ◌∷◌,
  arith, leb, ltb, Bool-cases, if◌then◌else◌,
}
use mcu_driver_hal.Mpu.Registers.{Entry, Rights}
use mcu_driver_hal.Mpu.V8.{
  Region, ram_start, rom_region, ram_region, attr_index_wtra, attr_index_wbwara,
}
use mcu_driver_hal.Mpu.V8.Rules.{default_rights, hits, decide}

abbrev pub in_ram : ℕ → Bool
in_ram a = ltb a 0x40000000 || (leb 0x60000000 a && ltb a 0xA0000000)

-- The ROM is executed, and written where `wn` is off; the RAM is written, and executed where `xn`
-- is off; all else is written and not executed.
abbrev pub guarded : (rom_end : ℕ) (wn xn : Bool) (a : ℕ) → Rights
guarded rom_end wn xn a =
    if ltb a (ram_start rom_end)
    then record { execute = true; write = not wn }
    else if in_ram a
    then record { execute = not xn; write = true }
    else record { execute = false; write = true }

pub hits-skip :
    (k n : ℕ) (table : ℕ → Entry Region) (a : ℕ)
    → k ≤ n
    → ((j : ℕ) → k ≤ j → j < n → (table j).enabled ≡ false)
    → hits n table a ≡ hits k table a
hits-skip k zero table a h off = let e : k ≡ 0 = omega arith in rw e refl
hits-skip k (suc n) table a h off = elim (Bool-cases (leb k n)) [
  | inl more ↦
      rw (off n (ground arith) (omega arith))
        (hits-skip k n table a (ground arith) (λ j lo hi. off j lo (omega arith)))
  | inr last ↦ let e : k ≡ suc n = ground arith in rw e refl
]

pub hits-entries :
    (k : ℕ) (table table' : ℕ → Entry Region) (a : ℕ)
    → ((j : ℕ) → j < k → table j ≡ table' j)
    → hits k table a ≡ hits k table' a
hits-entries zero table table' a same = refl
hits-entries (suc k) table table' a same =
    rw (same k (omega arith), hits-entries k table table' a (λ j lo. same j (omega arith))) refl

module _ (rom_end : ℕ) where
  abbrev pub rom : Region
  rom = rom_region rom_end

  abbrev sram : Region
  sram = ram_region 0x20000000 0x3FFFFFFF attr_index_wbwara

  abbrev wb_ram : Region
  wb_ram = ram_region 0x60000000 0x7FFFFFFF attr_index_wbwara

  abbrev wt_ram : Region
  wt_ram = ram_region 0x80000000 0x9FFFFFFF attr_index_wtra

  abbrev pub code_ram : Region
  code_ram = ram_region (ram_start rom_end) 0x1FFFFFFF attr_index_wtra

  -- The regions that have the address, by the results of the tests, without the RAM in the code area.
  abbrev found_ram : (wn xn in_rom in_sram in_wb in_wt : Bool) → List Region
  found_ram wn xn in_rom in_sram in_wb in_wt =
      let l0 : List Region = if wn && in_rom then rom ∷ [] else [] in
      let l1 : List Region = if xn && in_sram then sram ∷ l0 else l0 in
      let l2 : List Region = if xn && in_wb then wb_ram ∷ l1 else l1 in
      if xn && in_wt then wt_ram ∷ l2 else l2

  abbrev pub found : (wn xn in_rom in_sram in_wb in_wt in_code : Bool) → List Region
  found wn xn in_rom in_sram in_wb in_wt in_code =
      let ram : List Region = found_ram wn xn in_rom in_sram in_wb in_wt in
      if xn && in_code then code_ram ∷ ram else ram

  pub found-rom :
      (wn xn : Bool) (a : ℕ)
      → decide (found wn xn true false false false false) a
        ≡ (if wn then record { execute = true; write = false } else default_rights a)
  found-rom true true a = refl
  found-rom true false a = refl
  found-rom false true a = refl
  found-rom false false a = refl

  pub found-sram :
      (wn xn : Bool) (a : ℕ)
      → decide (found wn xn false true false false false) a
        ≡ (if xn then record { execute = false; write = true } else default_rights a)
  found-sram true true a = refl
  found-sram true false a = refl
  found-sram false true a = refl
  found-sram false false a = refl

  pub found-wb :
      (wn xn : Bool) (a : ℕ)
      → decide (found wn xn false false true false false) a
        ≡ (if xn then record { execute = false; write = true } else default_rights a)
  found-wb true true a = refl
  found-wb true false a = refl
  found-wb false true a = refl
  found-wb false false a = refl

  pub found-wt :
      (wn xn : Bool) (a : ℕ)
      → decide (found wn xn false false false true false) a
        ≡ (if xn then record { execute = false; write = true } else default_rights a)
  found-wt true true a = refl
  found-wt true false a = refl
  found-wt false true a = refl
  found-wt false false a = refl

  pub found-code :
      (wn xn : Bool) (a : ℕ)
      → decide (found wn xn false false false false true) a
        ≡ (if xn then record { execute = false; write = true } else default_rights a)
  found-code true true a = refl
  found-code true false a = refl
  found-code false true a = refl
  found-code false false a = refl

  pub found-none :
      (wn xn : Bool) (a : ℕ)
      → decide (found wn xn false false false false false) a ≡ default_rights a
  found-none true true a = refl
  found-none true false a = refl
  found-none false true a = refl
  found-none false false a = refl

  pub no_code_ram :
      (wn xn in_rom in_sram in_wb in_wt : Bool)
      → found wn xn in_rom in_sram in_wb in_wt false ≡ found_ram wn xn in_rom in_sram in_wb in_wt
  no_code_ram wn true in_rom in_sram in_wb in_wt = refl
  no_code_ram wn false in_rom in_sram in_wb in_wt = refl

-- ===== src/Mpu/V8/Guards.antt =====
-- The regions of hal/source/mpu/mbed_mpu_v8m.c together: what an address may be used for.
pub mod Managed
use mcu_driver_hal.Base.{
  ℕ, zero, suc, ◌+◌, ◌-◌, ◌*◌, ◌/◌, ◌%◌, ◌≤◌, ◌<◌, ◌≡◌, ◌⊎◌, refl, sym, ap, ◌∙◌, inl, inr, Bool,
  true, false, not, ◌&&◌, ◌||◌, List, [], ◌∷◌, arith, leb, ltb, ◌==◌, ◌!=◌, Bool-cases,
  if◌then◌else◌,
}
use mcu_driver_hal.Mpu.Registers.{MpuUnit, Entry, IsUnit, Rights}
use mcu_driver_hal.Mpu.V8.{
  Region, ram_start, rom_region, ram_region, attr_index_wtra, attr_index_wbwara, last_ram_region,
}
use mcu_driver_hal.Mpu.V8.Rules.{covers, rights_of, default_rights, hits, decide, rights}
use mcu_driver_hal.Mpu.V8.Table.{regions_of, IsProgrammed}
use mcu_driver_hal.Mpu.V8.Found.{
  in_ram, guarded, hits-skip, hits-entries, rom, code_ram, found, found-rom, found-sram, found-wb,
  found-wt, found-code, found-none, no_code_ram,
}

module _ (rom_end m : ℕ) (whole : rom_end + 1 ≡ 32 * m) (small : rom_end + 1 ≤ 0x20000000)
    (wn xn : Bool) (a : ℕ) where
  -- The five tests.
  abbrev in_rom : Bool
  in_rom = ltb a (ram_start rom_end)

  abbrev in_sram : Bool
  in_sram = leb 0x20000000 a && ltb a 0x40000000

  abbrev in_wb : Bool
  in_wb = leb 0x60000000 a && ltb a 0x80000000

  abbrev in_wt : Bool
  in_wt = leb 0x80000000 a && ltb a 0xA0000000

  abbrev in_code : Bool
  in_code = leb (ram_start rom_end) a && ltb a 0x20000000

  rom-covers : covers (rom rom_end) a ≡ in_rom
  rom-covers = ground arith

  code_ram-covers : covers (code_ram rom_end) a ≡ in_code
  code_ram-covers = ground arith

  write-guarded :
      default_rights a ≡ record { execute = true; write = true }
      → (if wn then record { execute = true; write = false } else default_rights a)
        ≡ record { execute = true; write = not wn }
  write-guarded e = elim (Bool-cases wn) [ inl on ↦ rw on refl | inr off ↦ rw off e ]

  execute-guarded :
      default_rights a ≡ record { execute = true; write = true }
      → (if xn then record { execute = false; write = true } else default_rights a)
        ≡ record { execute = not xn; write = true }
  execute-guarded e = elim (Bool-cases xn) [ inl on ↦ rw on refl | inr off ↦ rw off e ]

  default-ram : in_ram a ≡ true → default_rights a ≡ record { execute = true; write = true }
  default-ram e = ap (λ b. record { execute = b; write = true }) e

  tests :
      (r s b t c : Bool)
      → in_rom ≡ r
      → in_sram ≡ s
      → in_wb ≡ b
      → in_wt ≡ t
      → in_code ≡ c
      → decide (found rom_end wn xn in_rom in_sram in_wb in_wt in_code) a
        ≡ decide (found rom_end wn xn r s b t c) a
  tests r s b t c er es eb et ec =
      ap (λ k. decide (found rom_end wn xn k in_sram in_wb in_wt in_code) a) er
      ∙ ap (λ k. decide (found rom_end wn xn r k in_wb in_wt in_code) a) es
      ∙ ap (λ k. decide (found rom_end wn xn r s k in_wt in_code) a) eb
      ∙ ap (λ k. decide (found rom_end wn xn r s b k in_code) a) et
      ∙ ap (λ k. decide (found rom_end wn xn r s b t k) a) ec

  guarded-ram :
      in_rom ≡ false
      → in_ram a ≡ true
      → record { execute = not xn; write = true } ≡ guarded rom_end wn xn a
  guarded-ram no_rom ram = rw (no_rom, ram) refl

  decide-guarded :
      decide (found rom_end wn xn in_rom in_sram in_wb in_wt in_code) a ≡ guarded rom_end wn xn a
  decide-guarded = elim (Bool-cases in_rom) [
    | inl r ↦
        tests true false false false false r (ground arith) (ground arith) (ground arith)
          (ground arith)
        ∙ found-rom rom_end wn xn a
        ∙ write-guarded (default-ram (ground arith))
        ∙ rw r refl
    | inr r ↦ elim (Bool-cases in_code) [
      | inl c ↦
          tests false false false false true r (ground arith) (ground arith) (ground arith) c
          ∙ found-code rom_end wn xn a
          ∙ execute-guarded (default-ram (ground arith))
          ∙ guarded-ram r (ground arith)
      | inr c ↦ elim (Bool-cases in_sram) [
        | inl s ↦
            tests false true false false false r s (ground arith) (ground arith) c
            ∙ found-sram rom_end wn xn a
            ∙ execute-guarded (default-ram (ground arith))
            ∙ guarded-ram r (ground arith)
        | inr s ↦ elim (Bool-cases in_wb) [
          | inl b ↦
              tests false false true false false r s b (ground arith) c
              ∙ found-wb rom_end wn xn a
              ∙ execute-guarded (default-ram (ground arith))
              ∙ guarded-ram r (ground arith)
          | inr b ↦ elim (Bool-cases in_wt) [
            | inl t ↦
                tests false false false true false r s b t c
                ∙ found-wt rom_end wn xn a
                ∙ execute-guarded (default-ram (ground arith))
                ∙ guarded-ram r (ground arith)
            | inr t ↦
                let outside : in_ram a ≡ false = ground arith in
                tests false false false false false r s b t c
                ∙ found-none rom_end wn xn a
                ∙ rw (r, outside) refl
          ]
        ]
      ]
    ]
  ]

  regions-rights :
      decide (hits (last_ram_region rom_end + 1) (regions_of rom_end wn xn) a) a
      ≡ guarded rom_end wn xn a
  regions-rights = elim (Bool-cases (ram_start rom_end != 0x20000000)) [
    | inl split ↦ rw split (rw (rom-covers, code_ram-covers) decide-guarded)
    | inr all_rom ↦
        let none_left : in_code ≡ false = ground arith in
        rw all_rom (
          rw rom-covers (
            ap (λ l. decide l a) (sym (no_code_ram rom_end wn xn in_rom in_sram in_wb in_wt))
            ∙ sym (tests in_rom in_sram in_wb in_wt false refl refl refl refl none_left)
            ∙ decide-guarded))
  ]

module _ {H : Type 0} (u : MpuUnit Region H) (s : IsUnit u) (rom_end m : ℕ)
    (whole : rom_end + 1 ≡ 32 * m) (small : rom_end + 1 ≤ 0x20000000) where
  pub IsProgrammed-guarded :
      (n : ℕ) (wn xn : Bool) (h : H)
      → IsProgrammed u s rom_end n wn xn h
      → last_ram_region rom_end < n
      → (a : ℕ) → rights n (s.ctrl h) (s.table h) a ≡ guarded rom_end wn xn a
  IsProgrammed-guarded n wn xn h p enough a =
      let k : ℕ = last_ram_region rom_end + 1 in
      rw p.running (
        ap (λ l. decide l a)
          (hits-skip k n (s.table h) a (omega arith) (λ j lo hi. p.rest j (omega arith) hi)
            ∙ hits-entries k (s.table h) (regions_of rom_end wn xn) a
                (λ j lo. p.entries j (omega arith)))
        ∙ regions-rights rom_end m whole small wn xn a)

-- ===== src/Mpu/V7/Protects.antt =====
-- What `mbed_mpu_init` of hal/source/mpu/mbed_mpu_v7m.c protects.
use mcu_driver_hal.Base.{
  ℕ, zero, suc, ◌+◌, ◌-◌, ◌*◌, ◌≤◌, ◌<◌, ◌≡◌, refl, sym, ap, ◌∙◌, inl, inr, Bool, true, false, ◌&&◌,
  ◌||◌, arith, Returns, Returns-mono, leb, ltb, ◌==◌, Bool-cases, if◌then◌else◌,
}
use mcu_driver_hal.Mpu.Registers.{MpuUnit, Entry, IsUnit, Rights}
use mcu_driver_hal.Mpu.V7.{Region, ram_start, mbed_mpu_init}
use mcu_driver_hal.Mpu.V7.Rules.{
  default_rights, rights_below, rights, rom_region-covers, code_ram_region-covers,
  ram_region-covers, wt_ram_region-covers,
}
use mcu_driver_hal.Mpu.V7.Programmed.{IsProgrammed, init-IsProgrammed}

-- Where the protection of the ROM ends: with the ROM where that is all of the code area, and one
-- eighth of the code area before its end otherwise.
abbrev pub protected_end : (rom_end : ℕ) → ℕ
protected_end rom_end =
    if ram_start rom_end == 0x20000000 then 0x20000000 else ram_start rom_end - 0x04000000

abbrev pub code : Rights
code = record { execute = true; write = false }

abbrev pub no_code : Rights
no_code = record { execute = false; write = true }

-- Code is read-only, and all else is not executed.
abbrev pub protection : (rom_end a : ℕ) → Rights
protection rom_end a = if ltb a (protected_end rom_end) then code else no_code

abbrev in_ram : ℕ → Bool
in_ram a = (leb 0x20000000 a && ltb a 0x40000000) || (leb 0x60000000 a && ltb a 0x80000000)

abbrev in_wt_ram : ℕ → Bool
in_wt_ram a = leb 0x80000000 a && ltb a 0xA0000000

default-no_code :
    (a : ℕ) → 0x20000000 ≤ a → in_ram a ≡ false → in_wt_ram a ≡ false → default_rights a ≡ no_code
default-no_code a high ram wt =
    let e : (ltb a 0x40000000 || (leb 0x60000000 a && ltb a 0xA0000000)) ≡ false = ground arith in
    ap (λ b. record { execute = b; write = true }) e

-- The three regions that a whole code area of ROM needs.
decide-three :
    (a end : ℕ)
    → end ≤ 0x20000000
    → (if in_wt_ram a
        then no_code
        else if in_ram a
        then no_code
        else if ltb a end
        then code
        else default_rights a)
      ≡ (if ltb a 0x20000000 then (if ltb a end then code else default_rights a) else no_code)
decide-three a end h = elim (Bool-cases (ltb a 0x20000000)) [
  | inl low ↦
      let ram : in_ram a ≡ false = ground arith in
      let wt : in_wt_ram a ≡ false = ground arith in rw (low, ram, wt) refl
  | inr high ↦ rw high elim (Bool-cases (in_wt_ram a)) [
    | inl wt ↦ rw wt refl
    | inr no_wt ↦ rw no_wt elim (Bool-cases (in_ram a)) [
      | inl ram ↦ rw ram refl
      | inr no_ram ↦
          let over : ltb a end ≡ false = ground arith in
          rw (no_ram, over) (default-no_code a (ground arith) no_ram no_wt)
    ]
  ]
]

decide-four :
    (a start end : ℕ)
    → start ≤ end
    → end ≤ 0x20000000
    → (if leb start a && ltb a 0x20000000
        then no_code
        else if ltb a 0x20000000
        then (if ltb a end then code else default_rights a)
        else no_code)
      ≡ (if ltb a start then code else no_code)
decide-four a start end h h' = elim (Bool-cases (ltb a start)) [
  | inl low ↦
      let not_ram : (leb start a && ltb a 0x20000000) ≡ false = ground arith in
      let in_code : ltb a 0x20000000 ≡ true = ground arith in
      let in_rom : ltb a end ≡ true = ground arith in rw (low, not_ram, in_code, in_rom) refl
  | inr high ↦ rw high elim (Bool-cases (ltb a 0x20000000)) [
    | inl in_code ↦ let past : leb start a ≡ true = ground arith in rw (in_code, past) refl
    | inr outside ↦
        let e : (leb start a && ltb a 0x20000000) ≡ false = ground arith in rw (e, outside) refl
  ]
]

if-same :
    (b : Bool) (x y z : Rights) → (if b then (if b then x else y) else z) ≡ (if b then x else z)
if-same true x y z = refl
if-same false x y z = refl

rights_below-skip :
    (k n : ℕ) (table : ℕ → Entry Region) (a : ℕ)
    → k ≤ n
    → ((j : ℕ) → k ≤ j → j < n → (table j).enabled ≡ false)
    → rights_below n table a ≡ rights_below k table a
rights_below-skip k zero table a h off = let e : k ≡ 0 = omega arith in rw e refl
rights_below-skip k (suc n) table a h off = elim (Bool-cases (leb k n)) [
  | inl more ↦
      rw (off n (ground arith) (omega arith))
        (rights_below-skip k n table a (ground arith) (λ j lo hi. off j lo (omega arith)))
  | inr last ↦ let e : k ≡ suc n = ground arith in rw e refl
]

module _ {H : Type 0} (u : MpuUnit Region H) (s : IsUnit u) (rom_end k : ℕ) where
  -- With RAM in the code area.
  rights-split :
      (n : ℕ) (h : H)
      → IsProgrammed u s rom_end n h
      → rom_end + 1 ≡ 0x04000000 * (k + 1)
      → k < 7
      → 4 ≤ n
      → (a : ℕ)
      → rights n (s.ctrl h) (s.table h) a ≡ (if ltb a (0x04000000 * k) then code else no_code)
  rights-split n h p whole few enough a =
      let low : ltb (ram_start rom_end) 0x20000000 ≡ true = ground arith in
      rw
        (
          p.running,
          rights_below-skip 4 n (s.table h) a enough p.rest,
          p.code_ram low,
          p.wt_ram,
          p.ram,
          p.rom,
          code_ram_region-covers rom_end k a whole (omega arith),
          wt_ram_region-covers a,
          ram_region-covers a,
          rom_region-covers rom_end (k + 1) a whole (omega arith),
        )
        (ap (λ t. if leb (0x04000000 * k) a && ltb a 0x20000000 then no_code else t)
            (decide-three a (ram_start rom_end) (omega arith))
          ∙ decide-four a (0x04000000 * k) (ram_start rom_end) (omega arith) (omega arith))

  rights-whole :
      (n : ℕ) (h : H)
      → IsProgrammed u s rom_end n h
      → rom_end + 1 ≡ 0x20000000
      → 3 ≤ n
      → (a : ℕ) → rights n (s.ctrl h) (s.table h) a ≡ (if ltb a 0x20000000 then code else no_code)
  rights-whole n h p whole enough a =
      let high : ltb (ram_start rom_end) 0x20000000 ≡ false = ground arith in
      rw
        (
          p.running,
          rights_below-skip 3 n (s.table h) a enough (λ j lo hi. elim (Bool-cases (j == 3)) [
            | inl here ↦
                let e : j ≡ 3 = ground arith in
                ap (λ i. (s.table h i).enabled) e ∙ p.no_code_ram high (omega arith)
            | inr later ↦ p.rest j (ground arith) hi
          ]),
          p.wt_ram,
          p.ram,
          p.rom,
          wt_ram_region-covers a,
          ram_region-covers a,
          rom_region-covers rom_end 8 a whole (omega arith),
        )
        (decide-three a (ram_start rom_end) (omega arith) ∙ whole-rom)
    where
      whole-rom :
          (if ltb a 0x20000000
            then (if ltb a (ram_start rom_end) then code else default_rights a)
            else no_code)
          ≡ (if ltb a 0x20000000 then code else no_code)
      whole-rom = rw whole (if-same (ltb a 0x20000000) code (default_rights a) no_code)

module _ {H : Type 0} (u : MpuUnit Region H) (s : IsUnit u) where
  -- For an end of the ROM that is a multiple of 64 MB in the code area, and a unit that has the
  -- regions for it, however it was programmed before: after `mbed_mpu_init` the ROM can be executed
  -- and not be written, and no other address can be executed, except that, where the ROM does not
  -- fill the code area, its last 64 MB can be written and not be executed.
  pub mbed_mpu_init-Protects :
      (rom_end k : ℕ) (h : H)
      → rom_end + 1 ≡ 0x04000000 * (k + 1)
      → k < 8
      → (if ram_start rom_end == 0x20000000 then 3 else 4) ≤ u.dregion h
      → Returns
          (λ r. (a : ℕ) → rights (u.dregion h) (s.ctrl r) (s.table r) a ≡ protection rom_end a)
          (mbed_mpu_init u rom_end h)
  mbed_mpu_init-Protects rom_end k h whole few enough =
      Returns-mono (IsProgrammed u s rom_end (u.dregion h)) _ (mbed_mpu_init u rom_end h)
        (init-IsProgrammed u s rom_end h (ground arith))
        (λ r p a. elim (Bool-cases (k == 7)) [
          | inl last ↦
              let all : rom_end + 1 ≡ 0x20000000 = ground arith in
              let e : protected_end rom_end ≡ 0x20000000 = ground arith in
              rights-whole u s rom_end k (u.dregion h) r p all (ground arith) a
              ∙ ap (λ t. if ltb a t then code else no_code) (sym e)
          | inr before ↦
              let e : protected_end rom_end ≡ 0x04000000 * k = ground arith in
              rights-split u s rom_end k (u.dregion h) r p whole (ground arith) (ground arith) a
              ∙ ap (λ t. if ltb a t then code else no_code) (sym e)
        ])

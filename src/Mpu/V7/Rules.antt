-- ===== src/Mpu/V7/Rules.antt =====
-- What the regions of hal/source/mpu/mbed_mpu_v7m.c mean for an address, by the rules of the
-- ARMv7-M architecture: the enabled region of the highest number that has the address decides, with
-- an eighth of it left out for each bit of its mask, and the default memory map where there is none.
use mcu_driver_hal.Base.{
  ℕ, zero, suc, ◌+◌, ◌-◌, ◌*◌, ◌/◌, ◌≤◌, ◌<◌, ◌≡◌, refl, sym, ap, ◌∙◌, Bool, true, false, not, ◌&&◌,
  ◌||◌, List, [], ◌∷◌, inl, inr, Bool-cases, arith, leb, ltb, ◌==◌, if◌then◌else◌,
}
use mcu_driver_hal.Mpu.Registers.{Ctrl, Entry, Rights}
use mcu_driver_hal.Mpu.V7.{
  Access, access_ro, access_full, Region, ram_start, rom_region, code_ram_region, ram_region,
  wt_ram_region,
}

abbrev pub bit_at : List Bool → ℕ → Bool
bit_at [] k = false
bit_at (b ∷ bs) zero = b
bit_at (b ∷ bs) (suc k) = bit_at bs k

abbrev pub covers : Region → ℕ → Bool
covers r a =
    leb r.base a
    && ltb a (r.base + r.size)
    && not (bit_at r.sub_region_disable ((a - r.base) / (r.size / 8)))

abbrev pub is_full : Access → Bool
is_full access_ro = false
is_full access_full = true

abbrev pub rights_of : Region → Rights
rights_of r = record { execute = not r.disable_exec; write = is_full r.access_permission }

abbrev pub default_rights : ℕ → Rights
default_rights a = record {
  execute = ltb a 0x40000000 || (leb 0x60000000 a && ltb a 0xA0000000);
  write = true;
}

-- The regions below `n`.
abbrev pub rights_below : (n : ℕ) → (ℕ → Entry Region) → ℕ → Rights
rights_below zero table a = default_rights a
rights_below (suc n) table a =
    if (table n).enabled && covers (table n).config a
    then rights_of (table n).config
    else rights_below n table a

abbrev pub rights : (regions : ℕ) → Ctrl → (ℕ → Entry Region) → ℕ → Rights
rights regions ctrl table a = if ctrl.enable then rights_below regions table a else default_rights a

rom_bit :
    (rom_end q : ℕ)
    → q < 8
    → bit_at (rom_region rom_end).sub_region_disable q ≡ not (leb (0x04000000 * q) rom_end)
rom_bit rom_end zero h = refl
rom_bit rom_end (suc zero) h = refl
rom_bit rom_end (suc (suc zero)) h = refl
rom_bit rom_end (suc (suc (suc zero))) h = refl
rom_bit rom_end (suc (suc (suc (suc zero)))) h = refl
rom_bit rom_end (suc (suc (suc (suc (suc zero))))) h = refl
rom_bit rom_end (suc (suc (suc (suc (suc (suc zero)))))) h = refl
rom_bit rom_end (suc (suc (suc (suc (suc (suc (suc zero))))))) h = refl
rom_bit rom_end (suc (suc (suc (suc (suc (suc (suc (suc q)))))))) h = absurd (omega arith)

code_ram_bit :
    (rom_end q : ℕ)
    → q < 8
    → bit_at (code_ram_region rom_end).sub_region_disable q
      ≡ not (leb (ram_start rom_end) (0x04000000 * (q + 1)))
code_ram_bit rom_end zero h = refl
code_ram_bit rom_end (suc zero) h = refl
code_ram_bit rom_end (suc (suc zero)) h = refl
code_ram_bit rom_end (suc (suc (suc zero))) h = refl
code_ram_bit rom_end (suc (suc (suc (suc zero)))) h = refl
code_ram_bit rom_end (suc (suc (suc (suc (suc zero))))) h = refl
code_ram_bit rom_end (suc (suc (suc (suc (suc (suc zero)))))) h = refl
code_ram_bit rom_end (suc (suc (suc (suc (suc (suc (suc zero))))))) h = refl
code_ram_bit rom_end (suc (suc (suc (suc (suc (suc (suc (suc q)))))))) h = absurd (omega arith)

not-not : (b : Bool) → not (not b) ≡ b
not-not true = refl
not-not false = refl

ram_bit : (q : ℕ) → q < 8 → bit_at ram_region.sub_region_disable q ≡ not ((q == 1) || (q == 3))
ram_bit zero h = refl
ram_bit (suc zero) h = refl
ram_bit (suc (suc zero)) h = refl
ram_bit (suc (suc (suc zero))) h = refl
ram_bit (suc (suc (suc (suc zero)))) h = refl
ram_bit (suc (suc (suc (suc (suc zero))))) h = refl
ram_bit (suc (suc (suc (suc (suc (suc zero)))))) h = refl
ram_bit (suc (suc (suc (suc (suc (suc (suc zero))))))) h = refl
ram_bit (suc (suc (suc (suc (suc (suc (suc (suc q)))))))) h = absurd (omega arith)

wt_ram_bit : (q : ℕ) → q < 8 → bit_at wt_ram_region.sub_region_disable q ≡ false
wt_ram_bit zero h = refl
wt_ram_bit (suc zero) h = refl
wt_ram_bit (suc (suc zero)) h = refl
wt_ram_bit (suc (suc (suc zero))) h = refl
wt_ram_bit (suc (suc (suc (suc zero)))) h = refl
wt_ram_bit (suc (suc (suc (suc (suc zero))))) h = refl
wt_ram_bit (suc (suc (suc (suc (suc (suc zero)))))) h = refl
wt_ram_bit (suc (suc (suc (suc (suc (suc (suc zero))))))) h = refl
wt_ram_bit (suc (suc (suc (suc (suc (suc (suc (suc q)))))))) h = absurd (omega arith)

-- An address in the region's range, and the eighth that it lies in.
covers-inside :
    (r : Region) (a q : ℕ)
    → leb r.base a ≡ true
    → ltb a (r.base + r.size) ≡ true
    → (a - r.base) / (r.size / 8) ≡ q
    → covers r a ≡ not (bit_at r.sub_region_disable q)
covers-inside r a q lo hi e = rw (lo, hi, e) refl

covers-outside :
    (r : Region) (a : ℕ) → (leb r.base a && ltb a (r.base + r.size)) ≡ false → covers r a ≡ false
covers-outside r a out = rw out refl

-- The region of the ROM ends with it.
pub rom_region-covers :
    (rom_end k a : ℕ)
    → rom_end + 1 ≡ 0x04000000 * k
    → k ≤ 8
    → covers (rom_region rom_end) a ≡ ltb a (ram_start rom_end)
rom_region-covers rom_end k a whole few = elim (Bool-cases (ltb a 0x20000000)) [
  | inl low ↦
      let q : ℕ = a / 0x04000000 in
      let below : q < 8 = ground arith in
      covers-inside (rom_region rom_end) a q (ground arith) low
        (ap (λ t. t / 0x04000000) (omega arith))
      ∙ ap not (rom_bit rom_end q below)
      ∙ not-not (leb (0x04000000 * q) rom_end)
      ∙ ground arith
  | inr high ↦ covers-outside (rom_region rom_end) a (rw high (ground arith)) ∙ ground arith
]

-- The RAM of the code area begins one eighth of its region too early.
pub code_ram_region-covers :
    (rom_end k a : ℕ)
    → rom_end + 1 ≡ 0x04000000 * (k + 1)
    → k < 8
    → covers (code_ram_region rom_end) a ≡ leb (0x04000000 * k) a && ltb a 0x20000000
code_ram_region-covers rom_end k a whole few = elim (Bool-cases (ltb a 0x20000000)) [
  | inl low ↦
      let q : ℕ = a / 0x04000000 in
      let below : q < 8 = ground arith in
      covers-inside (code_ram_region rom_end) a q (ground arith) low
        (ap (λ t. t / 0x04000000) (omega arith))
      ∙ ap not (code_ram_bit rom_end q below)
      ∙ not-not (leb (ram_start rom_end) (0x04000000 * (q + 1)))
      ∙ ground arith
  | inr high ↦ covers-outside (code_ram_region rom_end) a (rw high (ground arith)) ∙ ground arith
]

pub ram_region-covers :
    (a : ℕ)
    → covers ram_region a
      ≡ ((leb 0x20000000 a && ltb a 0x40000000) || (leb 0x60000000 a && ltb a 0x80000000))
ram_region-covers a = elim (Bool-cases (ltb a 0x100000000)) [
  | inl low ↦
      let q : ℕ = a / 0x20000000 in
      let below : q < 8 = ground arith in
      covers-inside ram_region a q (ground arith) low (ap (λ t. t / 0x20000000) (omega arith))
      ∙ ap not (ram_bit q below)
      ∙ not-not ((q == 1) || (q == 3))
      ∙ ground arith
  | inr high ↦ covers-outside ram_region a (rw high (ground arith)) ∙ ground arith
]

pub wt_ram_region-covers : (a : ℕ) → covers wt_ram_region a ≡ (leb 0x80000000 a && ltb a 0xA0000000)
wt_ram_region-covers a = elim (Bool-cases (leb 0x80000000 a && ltb a 0xA0000000)) [
  | inl inside ↦
      let q : ℕ = (a - 0x80000000) / 0x04000000 in
      let below : q < 8 = ground arith in
      covers-inside wt_ram_region a q (ground arith) (ground arith) refl
      ∙ ap not (wt_ram_bit q below)
      ∙ sym inside
  | inr outside ↦ covers-outside wt_ram_region a outside ∙ sym outside
]

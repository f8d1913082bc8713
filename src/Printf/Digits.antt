-- ===== src/Printf/Digits.antt =====
-- Hexadecimal digits of bootstrap/mbed_printf_implementation.c, and the number they are read as.
use native.Mathlib.Nat.{div-add-mod, mod-lt, add-mul-mod_self_left, mod-eq_of_lt}
use mcu_driver_hal.Base.{
  ℕ, zero, suc, ◌+◌, ◌-◌, ◌*◌, ◌/◌, ◌%◌, ◌^◌, ◌<◌, ◌≤◌, Bool, true, false, ◌||◌, [], ◌∷◌, ◌++◌,
  refl, ap, ◌∙◌, inl, inr, arith, All, length, leb, ◌≡◌, ◌⊎◌, ◌==◌, ◌!=◌, Bool-cases, if◌then◌else◌,
}
use mcu_driver_hal.Base.Bits.{two_pow-add, one-le-two_pow}
use mcu_driver_hal.Base.Words.{shr}
use mcu_driver_hal.Printf.{Text, int2hex}
use mcu_driver_hal.Printf.Decimal.{NoLeadingZero}
use mcu_driver_hal.Printf.Output.{byte_text, bytes_text}

abbrev pub hex_digit : ℕ → ℕ
hex_digit c = if leb c b'9' then c - b'0' else if leb c b'F' then c - b'A' + 10 else c - b'a' + 10

-- The number that a hexadecimal text continues to, read from the left.
abbrev pub hex_from : ℕ → Text → ℕ
hex_from n [] = n
hex_from n (c ∷ cs) = hex_from (n * 16 + hex_digit c) cs

-- Digits and the six letters of one case.
abbrev pub IsHexDigit : Bool → ℕ → Type 0
IsHexDigit upper c =
    ((b'0' ≤ c) × (c ≤ b'9'))
    ⊎ (((if upper then b'A' else b'a') ≤ c) × (c ≤ (if upper then b'F' else b'f')))

pub record IsBase16 (value : ℕ) (upper : Bool) (t : Text) : Type 0 where
  pub reads : hex_from 0 t ≡ value
  pub digits : All (IsHexDigit upper) t
  pub first : ((value ≡ 0) × (t ≡ b'0' ∷ [])) ⊎ NoLeadingZero t
  pub fits : length t ≤ 16

int2hex-digit : (upper : Bool) (n : ℕ) → n < 16 → hex_digit (int2hex upper n) ≡ n
int2hex-digit true n h = ground arith
int2hex-digit false n h = ground arith

pub int2hex-IsHexDigit : (upper : Bool) (n : ℕ) → n < 16 → IsHexDigit upper (int2hex upper n)
int2hex-IsHexDigit true n h = ground arith
int2hex-IsHexDigit false n h = ground arith

pub int2hex-zero : (upper : Bool) (n : ℕ) → int2hex upper n ≡ b'0' → n ≡ 0
int2hex-zero true n h = ground arith
int2hex-zero false n h = ground arith

hex_from-append : (n : ℕ) (xs ys : Text) → hex_from n (xs ++ ys) ≡ hex_from (hex_from n xs) ys
hex_from-append n [] ys = refl
hex_from-append n (x ∷ xs) ys = hex_from-append (n * 16 + hex_digit x) xs ys

pub All-append : (P : ℕ → Type 0) (xs ys : Text) → All P xs → All P ys → All P (xs ++ ys)
All-append P [] ys a b = b
All-append P (x ∷ xs) ys (p, a) b = (p, All-append P xs ys a b)

-- The lowest bits are the byte above them and the bits below it.
pub mod_byte : (p v : ℕ) → 1 ≤ p → v % (256 * p) ≡ v / p % 256 * p + v % p
mod_byte p v h =
    let q = v / p / 256 in
    let r = v / p % 256 in
    let low = mod-lt v {m = p} (omega arith) in
    let high : r < 256 = omega arith in
    let whole : v ≡ r * p + v % p + 256 * p * q =
      omega (arith, div-add-mod v p, ap (λ (t : ℕ). p * t) (div-add-mod (v / p) 256)) in
    let small : r * p + v % p < 256 * p = grind arith in
    ap (λ t. t % (256 * p)) whole
    ∙ add-mul-mod_self_left (r * p + v % p) (256 * p) q
    ∙ mod-eq_of_lt small

pub byte_power : (index : ℕ) → 2 ^ (8 * suc index) ≡ 256 * 2 ^ (8 * index)
byte_power index = ap (λ t. 2 ^ t) (omega arith) ∙ two_pow-add 8 (8 * index)

byte-reads :
    (output : ℕ) (upper leading : Bool) (n : ℕ)
    → output < 256
    → (leading ≡ true) ⊎ (n ≡ 0)
    → hex_from n (byte_text output upper leading) ≡ n * 256 + output
byte-reads output upper leading n lt h =
    let one = int2hex-digit upper (output / 16) (omega arith) in
    let two = int2hex-digit upper (output % 16) (omega arith) in
    elim (Bool-cases (leading || (output / 2 ^ 4 != 0))) [
      | inl e ↦ rw (e, one, two) (omega arith)
      | inr e ↦ rw (e, two) (ground arith)
    ]

pub bytes-reads :
    (index value : ℕ) (upper leading : Bool) (n : ℕ)
    → (leading ≡ true) ⊎ (n ≡ 0)
    → hex_from n (bytes_text index value upper leading)
      ≡ n * 2 ^ (8 * index) + value % 2 ^ (8 * index)
bytes-reads zero value upper leading n h = omega arith
bytes-reads (suc index) value upper leading n h =
    let p = 2 ^ (8 * index) in
    let output = shr value (8 * index) % 2 ^ 8 in
    let split = mod_byte p value (one-le-two_pow (8 * index)) in
    rw (byte_power index, split)
      (elim (Bool-cases (leading || (output != 0) || (index == 0))) [
        | inl e ↦ rw (e) (
            hex_from-append n (byte_text output upper leading) (bytes_text index value upper true)
            ∙ ap (λ t. hex_from t (bytes_text index value upper true))
                (byte-reads output upper leading n (omega arith) h)
            ∙ bytes-reads index value upper true (n * 256 + output) (inl refl)
            ∙ omega arith)
        | inr e ↦
            let none : output ≡ 0 = ground arith in
            let start : n ≡ 0 = ground arith in
            rw e
              (bytes-reads index value upper false n (inr start) ∙ rw (none, start) (omega arith))
      ])

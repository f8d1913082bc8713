-- ===== src/Base/Bits.antt =====
-- `&` with a mask of low ones is a remainder, at every width.
use Prim.Native.Nat.{
  ℕ, zero, suc, ◌+◌, ◌-◌, ◌*◌, ◌/◌, ◌%◌, ◌^◌, ◌≤◌, ◌∣◌, min, bit_and, digits, bit_and-bitwise,
}
use mathlib.Core.Path.{◌≡◌, ap, sym, subst, ◌∙◌}
use native.Mathlib.Nat.{
  pow-suc, add-suc, add-zero, mod-mod_of_dvd, dvd-mul_right, div-add-mod, add-mul-mod_self_left,
  mod-eq_of_lt, mod-lt,
}
use native.Mathlib.Omega.{arith}

pub one-le-two_pow : (k : ℕ) → 1 ≤ 2 ^ k
one-le-two_pow zero = omega arith
one-le-two_pow (suc k) = omega (arith, pow-suc 2 k, one-le-two_pow k)

-- Doubling a divisor keeps one more digit of the dividend.
pub mod_double : (p a : ℕ) → 1 ≤ p → a % (p * 2) ≡ a / 2 % p * 2 + a % 2
mod_double p a h =
    let whole : a ≡ a / 2 % p * 2 + a % 2 + p * 2 * (a / 2 / p) =
      grind (arith, div-add-mod (a / 2) p) in
    ap (λ t. t % (p * 2)) whole
    ∙ add-mul-mod_self_left (a / 2 % p * 2 + a % 2) (p * 2) (a / 2 / p)
    ∙ mod-eq_of_lt (omega (arith, mod-lt (a / 2) h))

zero-mod_two_pow : (k : ℕ) → 0 % 2 ^ k ≡ 0
zero-mod_two_pow k = mod-eq_of_lt (one-le-two_pow k)

-- By halving the number, a mask of `k` ones losing one of them each time.
masked_digits :
    (rounds k a : ℕ) → a ≤ rounds → digits (λ b. zero) min rounds a (2 ^ k - 1) ≡ a % 2 ^ k
masked_digits zero k a small =
    let none : a ≡ 0 = omega arith in rw none (omega (arith, zero-mod_two_pow k))
masked_digits (suc rounds) k zero small = omega (arith, zero-mod_two_pow k)
masked_digits (suc rounds) zero (suc a) small =
    omega (arith, masked_digits rounds 0 (suc a / 2) (omega arith))
masked_digits (suc rounds) (suc k) (suc a) small =
    let half : (2 ^ suc k - 1) / 2 ≡ 2 ^ k - 1 = omega (arith, pow-suc 2 k, one-le-two_pow k) in
    omega (
      arith,
      ap (λ t. digits (λ b. zero) min rounds (suc a / 2) t) half,
      masked_digits rounds k (suc a / 2) (omega arith),
      mod_double (2 ^ k) (suc a) (one-le-two_pow k),
      ap (λ t. suc a % t) (pow-suc 2 k),
      pow-suc 2 k,
      one-le-two_pow k,
    )

pub bit_and-low_ones : (k a : ℕ) → bit_and a (2 ^ k - 1) ≡ a % 2 ^ k
bit_and-low_ones k a = bit_and-bitwise a (2 ^ k - 1) ∙ masked_digits a k a (omega arith)

pub two_pow-add : (m n : ℕ) → 2 ^ (m + n) ≡ 2 ^ m * 2 ^ n
two_pow-add m zero = rw add-zero (omega arith)
two_pow-add m (suc n) =
    ap (λ t. 2 ^ t) (add-suc m n)
    ∙ omega (arith, pow-suc 2 (m + n), two_pow-add m n, ap (λ t. 2 ^ m * t) (pow-suc 2 n))

-- The low bits of a 32-bit word are those of the number.
pub mod-u32 : (bits x : ℕ) → bits ≤ 32 → x % 2 ^ 32 % 2 ^ bits ≡ x % 2 ^ bits
mod-u32 bits x h = mod-mod_of_dvd (2 ^ bits) x (
    subst (λ t. 2 ^ bits ∣ t)
      (sym (ap (λ t. 2 ^ t) {x = 32} (omega arith) ∙ two_pow-add bits (32 - bits)))
      (dvd-mul_right (2 ^ bits) (2 ^ (32 - bits))))

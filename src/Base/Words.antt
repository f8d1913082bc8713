-- ===== src/Base/Words.antt =====
-- Machine words: `uint32_t` and `uint64_t` as numbers with their wrap written out, and the integers
-- that the code keeps in `int` and `int8_t`.
use Prim.Native.Nat.{ℕ, ◌+◌, ◌-◌, ◌*◌, ◌/◌, ◌%◌, ◌^◌}
use mcu_driver_hal.Base.Tests.{leb, if◌then◌else◌}

abbrev pub u32 : ℕ → ℕ
u32 n = n % 2 ^ 32

abbrev pub u64 : ℕ → ℕ
u64 n = n % 2 ^ 64

-- `a - b` of two `uint32_t` or two `uint64_t`.
abbrev pub sub32 : ℕ → ℕ → ℕ
sub32 a b = (a + 2 ^ 32 - b) % 2 ^ 32

abbrev pub sub64 : ℕ → ℕ → ℕ
sub64 a b = (a + 2 ^ 64 - b) % 2 ^ 64

-- `a << k` and `a >> k` of a `uint64_t`.
abbrev pub shl64 : ℕ → ℕ → ℕ
shl64 a k = (a * 2 ^ k) % 2 ^ 64

abbrev pub shr : ℕ → ℕ → ℕ
shr a k = a / 2 ^ k

-- `negsuc n` is -(n + 1).
pub data ℤ : Type 0 where
  pos : ℕ → ℤ
  negsuc : ℕ → ℤ

-- A word of `bits` bits in two's complement as one of 64 bits.
abbrev pub sign_extend : (bits : ℕ) → ℕ → ℕ
sign_extend bits n =
    if leb (2 ^ (bits - 1)) (n % 2 ^ bits) then n % 2 ^ bits + 2 ^ 64 - 2 ^ bits else n % 2 ^ bits

-- ===== src/Ticker/Ratio/Log2.antt =====
-- `exact_log2` of hal/source/mbed_ticker_api.c.
use mcu_driver_hal.Base.{ℕ, zero, suc, ◌^◌, ◌<◌, ◌≡◌, ◌≢◌, inl, inr, refl, arith, ◌==◌, Bool-cases}
use mcu_driver_hal.Base.Words.{ℤ, pos, negsuc}
use mcu_driver_hal.Ticker.Ratio.{exact_log2_loop, exact_log2}

-- An exponent below `bound` of a power of two, and otherwise -1.
abbrev pub IsLog2 : (bound n : ℕ) → ℤ → Type 0
IsLog2 bound n (pos k) = (k < bound) × (n ≡ 2 ^ k)
IsLog2 bound n (negsuc j) = (j ≡ 0) × ((k : ℕ) → k < bound → n ≢ 2 ^ k)

IsLog2-suc : (i n : ℕ) (z : ℤ) → n ≢ 2 ^ i → IsLog2 i n z → IsLog2 (suc i) n z
IsLog2-suc i n (pos k) ne (lt, e) = (omega arith, e)
IsLog2-suc i n (negsuc j) ne (e, none) = (
  e,
  λ k lt same. elim (Bool-cases (k == i)) [
    | inl last ↦ let k≡i : k ≡ i = ground arith in ne (rw (← k≡i) same)
    | inr below ↦ none k (ground arith) same
  ],
)

exact_log2_loop-IsLog2 : (i n : ℕ) → IsLog2 i n (exact_log2_loop i n)
unfolding exact_log2_loop
exact_log2_loop-IsLog2 zero n = (refl, λ k h. elim h [ ])
exact_log2_loop-IsLog2 (suc i) n = elim (Bool-cases (2 ^ i == n)) [
  | inl found ↦ rw found (omega arith, ground arith)
  | inr other ↦
      rw other (IsLog2-suc i n (exact_log2_loop i n) (ground arith) (exact_log2_loop-IsLog2 i n))
]

-- Every 32-bit power of two gets its exponent, and every other number -1.
pub exact_log2-IsLog2 : (n : ℕ) → IsLog2 32 n (exact_log2 n)
unfolding exact_log2
exact_log2-IsLog2 n = exact_log2_loop-IsLog2 32 n

-- ===== src/Atomic/Linear.antt =====
-- The loops of bootstrap/mbed_atomic_impl.h as one step among those of the interrupts.
use mcu_driver_hal.Base.{
  ℕ, ◌+◌, ◌-◌, ◌%◌, ◌^◌, ◌<◌, ◌≡◌, refl, ap, ◌∙◌, bit_and, bit_or, Bool, true, false, ◌||◌, List,
  [], ◌∷◌, ◌++◌, arith, Returns, Returns-mono,
}
use Prim.Native.Nat.{bit_xor}
use mcu_driver_hal.Atomic.{
  Cell, Interrupt, quiet, interrupted, happened, Round, round, IntType, u8, u16, u32, int_bits,
  Opcode, adds, subs, ands, orrs, eors, exec, Done, core_util_atomic_fetch,
  core_util_atomic_op_fetch, core_util_atomic_flag_test_and_set,
}

-- The value that is left by what happened, from a value on.
abbrev pub left_by : Interrupt → ℕ → ℕ
left_by quiet v = v
left_by (interrupted v') v = v'

abbrev pub history : List Round → ℕ → ℕ
history [] v = v
history (round before between ∷ rs) v = history rs (left_by between (left_by before v))

abbrev pub is_quiet : Interrupt → Bool
is_quiet quiet = true
is_quiet (interrupted v) = false

-- In some round nothing happens between the load and the store.
abbrev pub is_calm : List Round → Bool
is_calm [] = false
is_calm (round before between ∷ rs) = is_quiet between || is_calm rs

-- Of the rounds some were used. `Q` says of the value that they left and the result how the
-- operation acted.
abbrev pub Linear : {A : Type 0} → (Q : ℕ → A → ℕ → Type 0) → List Round → ℕ → Done A → Type 0
Linear {A} Q rs v d =
    (used : List Round) × (used ++ d.rounds ≡ rs) × Q (history used v) d.returned d.cell.value

Linear-later :
    {A : Type 0} (Q : ℕ → A → ℕ → Type 0) (before between : Interrupt) (rs : List Round) (v : ℕ)
    (d : Done A)
    → Linear Q rs (left_by between (left_by before v)) d
    → Linear Q (round before between ∷ rs) v d
Linear-later Q before between rs v d (used, e, q) =
    (round before between ∷ used, ap (λ l. round before between ∷ l) e, q)

pub happened-value : (e : Interrupt) (c : Cell) → (happened e c).value ≡ left_by e c.value
happened-value quiet c = refl
happened-value (interrupted v) c = refl

-- What an operation does to the value, as arithmetic on the type of the variable.
abbrev pub updated : Opcode → IntType → (value arg : ℕ) → ℕ
updated adds w value arg = (value + arg) % 2 ^ int_bits w
updated subs w value arg = (value + 2 ^ int_bits w - arg) % 2 ^ int_bits w
updated ands w value arg = bit_and value arg % 2 ^ int_bits w
updated orrs w value arg = bit_or value arg % 2 ^ int_bits w
updated eors w value arg = bit_xor value arg % 2 ^ int_bits w

exec-updated :
    (op : Opcode) (w : IntType) (v arg : ℕ)
    → arg < 2 ^ int_bits w
    → exec op v arg % 2 ^ int_bits w ≡ updated op w v arg
exec-updated adds u8 v arg h = omega arith
exec-updated adds u16 v arg h = omega arith
exec-updated adds u32 v arg h = omega arith
exec-updated subs u8 v arg h = omega arith
exec-updated subs u16 v arg h = omega arith
exec-updated subs u32 v arg h = omega arith
exec-updated ands w v arg h = refl
exec-updated orrs w v arg h = refl
exec-updated eors w v arg h = refl

module _ (op : Opcode) (w : IntType) (arg : ℕ) (fits : arg < 2 ^ int_bits w) where
  -- Returns what was read, and leaves what the operation makes of it.
  abbrev pub Fetched : (value returned new : ℕ) → Type 0
  Fetched value returned new = (returned ≡ value) × (new ≡ updated op w value arg)

  fetch-IsLinear :
      (rs : List Round) (c : Cell)
      → is_calm rs ≡ true
      → Returns (Linear Fetched rs c.value) (core_util_atomic_fetch op w arg rs c)
  unfolding core_util_atomic_fetch
  fetch-IsLinear [] c calm = absurd (ground arith)
  fetch-IsLinear (round before quiet ∷ rs) c calm = (
    round before quiet ∷ [],
    refl,
    (
      happened-value before c,
      exec-updated op w (happened before c).value arg fits
          ∙ ap (λ v. updated op w v arg) (happened-value before c),
    ),
  )
  fetch-IsLinear (round before (interrupted v) ∷ rs) c calm =
      Returns-mono _ _
        (core_util_atomic_fetch op w arg rs (record { value = v; exclusive = false }))
        (fetch-IsLinear rs (record { value = v; exclusive = false }) calm)
        (λ d l. Linear-later Fetched before (interrupted v) rs c.value d l)

  -- Returns what the operation makes of what was read, and leaves it.
  abbrev pub Updated : (value returned new : ℕ) → Type 0
  Updated value returned new = (returned ≡ updated op w value arg) × (new ≡ updated op w value arg)

  op_fetch-IsLinear :
      (rs : List Round) (c : Cell)
      → is_calm rs ≡ true
      → Returns (Linear Updated rs c.value) (core_util_atomic_op_fetch op w arg rs c)
  unfolding core_util_atomic_op_fetch
  op_fetch-IsLinear [] c calm = absurd (ground arith)
  op_fetch-IsLinear (round before quiet ∷ rs) c calm =
      let new =
        exec-updated op w (happened before c).value arg fits
        ∙ ap (λ v. updated op w v arg) (happened-value before c) in
      (round before quiet ∷ [], refl, (new, new))
  op_fetch-IsLinear (round before (interrupted v) ∷ rs) c calm =
      Returns-mono _ _
        (core_util_atomic_op_fetch op w arg rs (record { value = v; exclusive = false }))
        (op_fetch-IsLinear rs (record { value = v; exclusive = false }) calm)
        (λ d l. Linear-later Updated before (interrupted v) rs c.value d l)

  -- For an argument of the type, and rounds in one of which no interrupt comes between the load and
  -- the store: the operations return. They act on the value that the interrupts of the rounds they
  -- used have left, and nothing comes between: the one returns that value and the other the new
  -- value, and both leave the new value, the sum, the difference, the conjunction, the disjunction
  -- or the exclusive disjunction modulo the size of the type.
  pub core_util_atomic-IsLinear :
      (rs : List Round) (c : Cell)
      → is_calm rs ≡ true
      → Returns (Linear Fetched rs c.value) (core_util_atomic_fetch op w arg rs c)
        × Returns (Linear Updated rs c.value) (core_util_atomic_op_fetch op w arg rs c)
  core_util_atomic-IsLinear rs c calm = (fetch-IsLinear rs c calm, op_fetch-IsLinear rs c calm)

-- Returns what was read, and leaves the flag set.
abbrev pub TestedAndSet : (value returned new : ℕ) → Type 0
TestedAndSet value returned new = (returned ≡ value) × (new ≡ 1)

-- In rounds in one of which no interrupt comes between the load and the store: the call returns the
-- value of the flag that the interrupts of the rounds it used have left, and leaves the flag set.
pub flag_test_and_set-IsLinear :
    (rs : List Round) (c : Cell)
    → is_calm rs ≡ true
    → Returns (Linear TestedAndSet rs c.value) (core_util_atomic_flag_test_and_set rs c)
unfolding core_util_atomic_flag_test_and_set
flag_test_and_set-IsLinear [] c calm = absurd (ground arith)
flag_test_and_set-IsLinear (round before quiet ∷ rs) c calm =
    (round before quiet ∷ [], refl, (happened-value before c, refl))
flag_test_and_set-IsLinear (round before (interrupted v) ∷ rs) c calm =
    Returns-mono _ _
      (core_util_atomic_flag_test_and_set rs (record { value = v; exclusive = false }))
      (flag_test_and_set-IsLinear rs (record { value = v; exclusive = false }) calm)
      (λ d l. Linear-later TestedAndSet before (interrupted v) rs c.value d l)

-- ===== src/Atomic.antt =====
-- bootstrap/mbed_atomic_impl.h with exclusive access, for one variable of 8, 16 or 32 bits. What
-- interrupts do to it between the instructions is given by a list of rounds, one for each time that
-- the instructions are run through. Barriers have no part in the state.
pub mod Linear
pub mod Compare
mod Tests
use Prim.Native.Nat.{bit_xor}
use mcu_driver_hal.Base.{
  ℕ, zero, suc, ◌+◌, ◌-◌, ◌%◌, ◌^◌, bit_and, bit_or, Bool, true, false, not, List, [], ◌∷◌, Run, ok,
  out_of_fuel, ◌>>=◌, ◌==◌, ◌!=◌, if◌then◌else◌,
}

-- The variable and the state of the exclusive monitor.
pub record Cell : Type 0 where
  pub value : ℕ
  pub exclusive : Bool

-- An interrupt leaves some value; the return from it clears the monitor.
pub data Interrupt : Type 0 where
  quiet : Interrupt
  interrupted : ℕ → Interrupt

abbrev pub happened : Interrupt → Cell → Cell
happened quiet c = c
happened (interrupted v) c = record { value = v; exclusive = false }

-- What happens before the load and between the load and the store.
pub data Round : Type 0 where
  round : (before between : Interrupt) → Round

-- LDREX
abbrev pub ldrex : Cell → ℕ × Cell
ldrex c = (c.value, record { value = c.value; exclusive = true })

-- The types that the macros are used with.
pub data IntType : Type 0 where
  u8 u16 u32 : IntType

abbrev pub int_bits : IntType → ℕ
int_bits u8 = 8
int_bits u16 = 16
int_bits u32 = 32

-- STREXB, STREXH or STREX, which store the low bits; the result is `fail`.
abbrev pub strex : IntType → (value : ℕ) → Cell → ℕ × Cell
strex w value c =
    if c.exclusive
    then (0, record { value = value % 2 ^ int_bits w; exclusive = false })
    else (1, record { value = c.value; exclusive = false })

-- The instructions between the two, on registers of 32 bits.
pub data Opcode : Type 0 where
  adds subs ands orrs eors : Opcode

abbrev pub exec : Opcode → (value arg : ℕ) → ℕ
exec adds value arg = (value + arg) % 2 ^ 32
exec subs value arg = (value + 2 ^ 32 - arg) % 2 ^ 32
exec ands value arg = bit_and value arg
exec orrs value arg = bit_or value arg
exec eors value arg = bit_xor value arg

-- The value that is returned, the variable, and the rounds to come.
pub record Done (A : Type 0) : Type 0 where
  pub returned : A
  pub cell : Cell
  pub rounds : List Round

-- DO_MBED_LOCKFREE_EXCHG_ASM
abbrev pub exchange_asm : IntType → (new_value : ℕ) → Round → Cell → ℕ × (ℕ × Cell)
exchange_asm w new_value (round before between) c =
    let (old_value, c1) = ldrex (happened before c) in
    (old_value, strex w new_value (happened between c1))

-- core_util_atomic_exchange_: DO_MBED_LOCKFREE_EXCHG_OP
unfoldable pub core_util_atomic_exchange : IntType → (new_value : ℕ) → Round → Cell → ℕ × Cell
core_util_atomic_exchange w new_value r c =
    let (old_value, (fail, c')) = exchange_asm w new_value r c in (old_value, c')

-- core_util_atomic_fetch_add_ and the like: DO_MBED_LOCKFREE_OLDVAL_3OP
unfoldable pub core_util_atomic_fetch :
    Opcode → IntType → (arg : ℕ) → List Round → Cell → Run (Done ℕ)
core_util_atomic_fetch op w arg [] c = out_of_fuel
core_util_atomic_fetch op w arg (round before between ∷ rs) c =
    let (old_value, c1) = ldrex (happened before c) in
    let (fail, c') = strex w (exec op old_value arg) (happened between c1) in
    let again = core_util_atomic_fetch op w arg rs c' in
    if fail != 0 then again else ok (record { returned = old_value; cell = c'; rounds = rs })

-- core_util_atomic_incr_ and the like: DO_MBED_LOCKFREE_NEWVAL_2OP
unfoldable pub core_util_atomic_op_fetch :
    Opcode → IntType → (arg : ℕ) → List Round → Cell → Run (Done ℕ)
core_util_atomic_op_fetch op w arg [] c = out_of_fuel
core_util_atomic_op_fetch op w arg (round before between ∷ rs) c =
    let (value, c1) = ldrex (happened before c) in
    let new_value = exec op value arg in
    let (fail, c') = strex w new_value (happened between c1) in
    let again = core_util_atomic_op_fetch op w arg rs c' in
    if fail != 0
    then again
    else ok (record { returned = new_value % 2 ^ int_bits w; cell = c'; rounds = rs })

unfoldable pub core_util_atomic_flag_test_and_set : List Round → Cell → Run (Done ℕ)
core_util_atomic_flag_test_and_set [] c = out_of_fuel
core_util_atomic_flag_test_and_set (r ∷ rs) c =
    let (old_value, (fail, c')) = exchange_asm u8 1 r c in
    let again = core_util_atomic_flag_test_and_set rs c' in
    if fail != 0 then again else ok (record { returned = old_value; cell = c'; rounds = rs })

-- Whether it was done, and the value behind `expectedCurrentValue` afterwards.
pub record Compared : Type 0 where
  pub success : Bool
  pub expected : ℕ

-- What follows the instructions in both kinds of compare and exchange.
abbrev pub compared : (fail old_value expected : ℕ) → Compared
compared fail old_value expected = record {
  success = not (fail != 0);
  expected = if fail != 0 then old_value else expected;
}

-- SUBS
abbrev pub difference : (old_value expected : ℕ) → ℕ
difference old_value expected = (old_value + 2 ^ 32 - expected) % 2 ^ 32

-- DO_MBED_LOCKFREE_CAS_WEAK_OP
unfoldable pub core_util_atomic_compare_exchange_weak :
    IntType → (expected desired : ℕ) → Round → Cell → Compared × Cell
core_util_atomic_compare_exchange_weak w expected desired (round before between) c =
    let (old_value, c1) = ldrex (happened before c) in
    let c2 = happened between c1 in
    let (fail, c') =
      if difference old_value expected != 0
      then (difference old_value expected, c2)
      else strex w desired c2 in
    (compared fail old_value expected, c')

-- DO_MBED_LOCKFREE_CAS_STRONG_OP
unfoldable pub core_util_atomic_cas :
    IntType → (expected desired : ℕ) → List Round → Cell → Run (Done Compared)
core_util_atomic_cas w expected desired [] c = out_of_fuel
core_util_atomic_cas w expected desired (round before between ∷ rs) c =
    let (old_value, c1) = ldrex (happened before c) in
    let c2 = happened between c1 in
    let subs_fail = difference old_value expected in
    let (fail, c') = strex w desired c2 in
    let again = core_util_atomic_cas w expected desired rs c' in
    if subs_fail != 0
    then ok (record { returned = compared subs_fail old_value expected; cell = c2; rounds = rs })
    else if fail != 0
    then again
    else ok (record { returned = compared fail old_value expected; cell = c'; rounds = rs })

-- ===== src/Atomic/Compare.antt =====
-- The compare and exchange operations of bootstrap/mbed_atomic_impl.h, and the plain exchange.
use mcu_driver_hal.Base.{
  ℕ, ◌%◌, ◌^◌, ◌<◌, ◌≡◌, refl, sym, ap, ◌∙◌, inl, inr, true, false, not, ◌&&◌, ◌||◌, List, [], ◌∷◌,
  ◌++◌, arith, Returns, Returns-mono, ◌==◌, ◌!=◌, Bool-cases, if◌then◌else◌,
}
use mcu_driver_hal.Atomic.{
  Cell, Interrupt, quiet, interrupted, Round, round, IntType, u8, u16, u32, int_bits, Done,
  core_util_atomic_exchange, Compared, difference, core_util_atomic_compare_exchange_weak,
  core_util_atomic_cas,
}
use mcu_driver_hal.Atomic.Linear.{left_by, history, is_quiet, is_calm, happened-value}

-- The interrupts leave values of the type.
abbrev pub InterruptFits : IntType → Interrupt → Type 0
InterruptFits w quiet = Unit
InterruptFits w (interrupted v) = v < 2 ^ int_bits w

abbrev pub RoundsFit : IntType → List Round → Type 0
RoundsFit w [] = Unit
RoundsFit w (round before between ∷ rs) =
    InterruptFits w before × InterruptFits w between × RoundsFit w rs

left_by-fits :
    (w : IntType) (e : Interrupt) (v : ℕ)
    → InterruptFits w e
    → v < 2 ^ int_bits w
    → left_by e v < 2 ^ int_bits w
left_by-fits w quiet v f h = h
left_by-fits w (interrupted v') v f h = f

difference-ne :
    (w : IntType) (v e : ℕ)
    → v < 2 ^ int_bits w
    → e < 2 ^ int_bits w
    → (difference v e != 0) ≡ (v != e)
difference-ne u8 v e hv he = ground arith
difference-ne u16 v e hv he = ground arith
difference-ne u32 v e hv he = ground arith

-- What a compare and exchange does to the value that it reads: it stores `desired`, with no interrupt
-- between, where that is the expected one; otherwise it gives it back and leaves it, and what came
-- between the load and the store comes afterwards.
abbrev pub Exchanged :
    IntType → (expected desired value : ℕ) → Interrupt → Compared → (new : ℕ) → Type 0
Exchanged w expected desired value between r new =
    (r ≡ record { success = value == expected; expected = value })
    × (new ≡ (if value == expected then desired % 2 ^ int_bits w else left_by between value))
    × ((not (value == expected) || is_quiet between) ≡ true)

-- The last of the rounds that were used, in which the operation acted.
abbrev pub LinearIn : IntType → (expected desired : ℕ) → List Round → ℕ → Done Compared → Type 0
LinearIn w expected desired rs v d =
    (used : List Round) × (before : Interrupt) × (between : Interrupt) × (used
        ++ (round before between ∷ d.rounds)
      ≡ rs)
    × Exchanged w expected desired (left_by before (history used v)) between d.returned d.cell.value

module _ (w : IntType) (expected desired : ℕ) (fits : expected < 2 ^ int_bits w) where
  stored :
      (v : ℕ)
      → (v != expected) ≡ false
      → Exchanged w expected desired v quiet
          (record { success = true; expected = expected })
          (desired % 2 ^ int_bits w)
  stored v same =
      let e : v ≡ expected = ground arith in
      let t : (expected == expected) ≡ true = ground arith in rw (e, t) (refl, refl, refl)

  left :
      (v : ℕ) (between : Interrupt)
      → (v != expected) ≡ true
      → Exchanged w expected desired v between
          (record { success = false; expected = v })
          (left_by between v)
  left v between other = let e : (v == expected) ≡ false = ground arith in rw e (refl, refl, refl)

  -- For an expected value of the type, interrupts that leave values of the type, and rounds in one of
  -- which no interrupt comes between the load and the store: the call returns. It acts on the value
  -- that the interrupts of the rounds before its last and of the beginning of that have left. Where
  -- this is the expected value it stores the desired one, with no interrupt in between, and says so;
  -- otherwise it says that it did not, gives that value back, and the variable is as the interrupts
  -- leave it.
  pub cas-LinearIn :
      (rs : List Round) (c : Cell)
      → is_calm rs ≡ true
      → RoundsFit w rs
      → c.value < 2 ^ int_bits w
      → Returns
          (LinearIn w expected desired rs c.value)
          (core_util_atomic_cas w expected desired rs c)
  unfolding core_util_atomic_cas
  cas-LinearIn [] c calm f h = absurd (ground arith)
  cas-LinearIn (round before quiet ∷ rs) c calm f h =
      let v : ℕ = left_by before c.value in
      rw
        (
          happened-value before c,
          difference-ne w v expected (left_by-fits w before c.value f.0 h) fits,
        )
        elim (Bool-cases (v != expected)) [
          | inl other ↦ rw other ([], before, quiet, refl, left v quiet other)
          | inr same ↦ rw same ([], before, quiet, refl, stored v same)
        ]
  cas-LinearIn (round before (interrupted v') ∷ rs) c calm f h =
      let v : ℕ = left_by before c.value in
      let c' : Cell = record { value = v'; exclusive = false } in
      rw
        (
          happened-value before c,
          difference-ne w v expected (left_by-fits w before c.value f.0 h) fits,
        )
        elim (Bool-cases (v != expected)) [
          | inl other ↦ rw other ([], before, interrupted v', refl, left v (interrupted v') other)
          | inr same ↦ rw same (
              Returns-mono _ _ (core_util_atomic_cas w expected desired rs c')
                (cas-LinearIn rs c' calm f.2 f.1)
                (λ d l.
                  let (used, b, e, whole, x) = l in
                  (
                    round before (interrupted v') ∷ used,
                    b,
                    e,
                    ap (λ t. round before (interrupted v') ∷ t) whole,
                    x,
                  )))
        ]

-- Also where the values are equal it may fail, and does where an interrupt comes between.
abbrev pub WeaklyExchanged :
    IntType → (expected desired value : ℕ) → Interrupt → Compared → (new : ℕ) → Type 0
WeaklyExchanged w expected desired value between r new =
    (r ≡ record { success = (value == expected) && is_quiet between; expected = value })
    × (new ≡ (
        if (value == expected) && is_quiet between
        then desired % 2 ^ int_bits w
        else left_by between value))

-- For an expected value and a variable of the type: one round, in which the call succeeds exactly
-- where the value that it reads is the expected one and no interrupt comes between the load and the
-- store. Then the desired value is stored; otherwise the value that was read is given back, and the
-- variable is as the interrupt leaves it.
pub compare_exchange_weak-WeaklyExchanged :
    (w : IntType) (expected desired : ℕ) (before between : Interrupt) (c : Cell)
    → expected < 2 ^ int_bits w
    → InterruptFits w before
    → c.value < 2 ^ int_bits w
    → WeaklyExchanged w expected desired
        (left_by before c.value)
        between
        (core_util_atomic_compare_exchange_weak w expected desired (round before between) c).0
        (core_util_atomic_compare_exchange_weak w expected desired (round before between) c).1.value
unfolding core_util_atomic_compare_exchange_weak
compare_exchange_weak-WeaklyExchanged w expected desired before quiet c fits f h =
    let v : ℕ = left_by before c.value in
    let d : (difference v expected != 0) ≡ (v != expected) =
      difference-ne w v expected (left_by-fits w before c.value f h) fits in
    rw (happened-value before c) elim (Bool-cases (v != expected)) [
      | inl other ↦
          let e : (v == expected) ≡ false = ground arith in
          let fails : (difference v expected != 0) ≡ true = d ∙ other in
          rw fails (rw (fails, e) (refl, refl))
      | inr same ↦
          let e : v ≡ expected = ground arith in
          let t : (v == expected) ≡ true = ground arith in
          let passes : (difference v expected != 0) ≡ false = d ∙ same in
          rw passes (rw t (ap (λ k. record { success = true; expected = k }) (sym e), refl))
    ]
compare_exchange_weak-WeaklyExchanged w expected desired before (interrupted v') c fits f h =
    let v : ℕ = left_by before c.value in
    let d : (difference v expected != 0) ≡ (v != expected) =
      difference-ne w v expected (left_by-fits w before c.value f h) fits in
    rw (happened-value before c) elim (Bool-cases (v != expected)) [
      | inl other ↦
          let e : (v == expected) ≡ false = ground arith in
          let fails : (difference v expected != 0) ≡ true = d ∙ other in
          rw fails (rw (fails, e) (refl, refl))
      | inr same ↦
          let e : v ≡ expected = ground arith in
          let t : (v == expected) ≡ true = ground arith in
          let passes : (difference v expected != 0) ≡ false = d ∙ same in
          rw passes (rw t (refl, refl))
    ]

-- An interrupt between the load and the store is the one that is left.
core_util_atomic_exchange_lem :
    (w : IntType) (new_value : ℕ) (before between : Interrupt) (c : Cell)
    → core_util_atomic_exchange w new_value (round before between) c ≡ (
      left_by before c.value,
      record {
        value = if is_quiet between then new_value % 2 ^ int_bits w else left_by between c.value;
        exclusive = false;
      },
    )
unfolding core_util_atomic_exchange
core_util_atomic_exchange_lem w new_value before quiet c = rw (happened-value before c) refl
core_util_atomic_exchange_lem w new_value before (interrupted v) c =
    rw (happened-value before c) refl

-- Two exchanges, the first with or without an interrupt between its load and its store, the second
-- with none before its load. Each returns the value that it reads: the second gets the value that
-- the first was to store only where the first was not interrupted, and otherwise, the stored value
-- being lost without a sign of it, what the interrupt has left.
pub core_util_atomic_exchange-exchange :
    (w : IntType) (new_value next_value : ℕ) (before between between' : Interrupt) (c : Cell)
    → ((core_util_atomic_exchange w new_value (round before between) c).0 ≡ left_by before c.value)
      × ((core_util_atomic_exchange w next_value
            (round quiet between')
            (core_util_atomic_exchange w new_value (round before between) c).1).0
          ≡ (if is_quiet between then new_value % 2 ^ int_bits w else left_by between c.value))
core_util_atomic_exchange-exchange w new_value next_value before between between' c =
    rw
      (
        core_util_atomic_exchange_lem w new_value before between c,
        core_util_atomic_exchange_lem w next_value quiet between' (record {
          value = if is_quiet between then new_value % 2 ^ int_bits w else left_by between c.value;
          exclusive = false;
        }),
      )
      (refl, refl)

-- ===== src/Ticker/Data/Flag.antt =====
-- The flag `_us_ticker_initialized` of hal/source/mbed_us_ticker_api.c, which wait_us relies on.
use mcu_driver_hal.Base.{
  ℕ, ◌≡◌, refl, ap, ◌∙◌, inl, inr, Bool, true, false, not, ◌||◌, List, [], ◌∷◌, ◌++◌, All,
  Bool-cases, if◌then◌else◌,
}
use mcu_driver_hal.Ticker.Types.{Interface}
use mcu_driver_hal.Ticker.Data.{
  Noted, run_all, note_init, note_free, note_us_ticker_init, note_us_ticker_free,
  block_us_ticker_free, us_interface,
}

-- The target's timer runs once it is initialized, until it is freed.
pub record IsTimer {H : Type 0} (target : Interface H) : Type 0 where
  pub running : H → Bool
  pub init : (h : H) → running (target.init h) ≡ true
  pub read : (h : H) → running (target.read h).1 ≡ running h
  pub disable_interrupt : (h : H) → running (target.disable_interrupt h) ≡ running h
  pub clear_interrupt : (h : H) → running (target.clear_interrupt h) ≡ running h
  pub set_interrupt : (t : ℕ) (h : H) → running (target.set_interrupt t h) ≡ running h
  pub fire_interrupt : (h : H) → running (target.fire_interrupt h) ≡ running h

pub data InterfaceCall : Type 0 where
  call_init call_read call_disable call_clear call_fire call_free : InterfaceCall
  call_set : ℕ → InterfaceCall

module _ {H : Type 0} (target : Interface H) (at_boot : Bool) where
  abbrev pub us_ticker : Interface (Noted H)
  us_ticker = us_interface target at_boot

  -- The statements of a call that change the state.
  abbrev pub statements : InterfaceCall → List (Noted H → Noted H)
  statements call_init = if at_boot then us_ticker.init ∷ [] else note_init target
  statements call_free = if at_boot then us_ticker.free ∷ [] else note_free target
  statements call_read = (λ n. (us_ticker.read n).1) ∷ []
  statements call_disable = us_ticker.disable_interrupt ∷ []
  statements call_clear = us_ticker.clear_interrupt ∷ []
  statements call_fire = us_ticker.fire_interrupt ∷ []
  statements (call_set t) = us_ticker.set_interrupt t ∷ []

  init-run_all : (n : Noted H) → us_ticker.init n ≡ run_all (statements call_init) n
  unfolding us_interface note_us_ticker_init
  init-run_all n = elim (Bool-cases at_boot) [ inl boot ↦ rw boot refl | inr later ↦ rw later refl ]

  free-run_all : (n : Noted H) → us_ticker.free n ≡ run_all (statements call_free) n
  unfolding us_interface note_us_ticker_free
  free-run_all n = elim (Bool-cases at_boot) [ inl boot ↦ rw boot refl | inr later ↦ rw later refl ]

-- The states that an interrupt may see: after each of the statements.
abbrev pub visited : {A : Type 0} → List (A → A) → A → List A
visited [] a = []
visited (f ∷ fs) a = f a ∷ visited fs (f a)

abbrev pub all_statements : {A B : Type 0} → (A → List B) → List A → List B
all_statements f [] = []
all_statements f (c ∷ cs) = f c ++ all_statements f cs

module _ {H : Type 0} (target : Interface H) (t : IsTimer target) where
  -- Where the flag is set the timer runs.
  abbrev pub IsSound : Noted H → Type 0
  IsSound n = (not n.initialized || t.running n.hw) ≡ true

  or_true : (b : Bool) → (not b || true) ≡ true
  or_true true = refl
  or_true false = refl

  IsSound-kept :
      (n : Noted H) (h : H)
      → t.running h ≡ t.running n.hw
      → IsSound n
      → IsSound (record n { hw = h })
  IsSound-kept n h same s = ap (λ r. not n.initialized || r) same ∙ s

  IsSound-init : (n : Noted H) → IsSound (record n { hw = target.init n.hw })
  IsSound-init n = ap (λ r. not n.initialized || r) (t.init n.hw) ∙ or_true n.initialized

  -- However the build initializes the ticker, for any sequence of calls of the interface, from a state
  -- in which the flag is not set or the timer runs: this holds after every statement, so that an
  -- interrupt which finds the flag set finds the timer running.
  pub us_interface-IsSound :
      (at_boot : Bool) (cs : List InterfaceCall) (n : Noted H)
      → IsSound n
      → All IsSound (visited (all_statements (statements target at_boot) cs) n)
  unfolding us_interface block_us_ticker_free
  us_interface-IsSound at_boot [] n s = tt
  us_interface-IsSound true (call_init ∷ cs) n s =
      let next : IsSound (record n { hw = target.init n.hw }) = IsSound-init n in
      (next, us_interface-IsSound true cs _ next)
  us_interface-IsSound false (call_init ∷ cs) n s =
      (IsSound-init n, (t.init n.hw, us_interface-IsSound false cs _ (t.init n.hw)))
  us_interface-IsSound true (call_free ∷ cs) n s = (s, us_interface-IsSound true cs n s)
  us_interface-IsSound false (call_free ∷ cs) n s =
      (refl, (refl, us_interface-IsSound false cs _ refl))
  us_interface-IsSound at_boot (call_read ∷ cs) n s =
      let next = IsSound-kept n (target.read n.hw).1 (t.read n.hw) s in
      (next, us_interface-IsSound at_boot cs _ next)
  us_interface-IsSound at_boot (call_disable ∷ cs) n s =
      let next = IsSound-kept n (target.disable_interrupt n.hw) (t.disable_interrupt n.hw) s in
      (next, us_interface-IsSound at_boot cs _ next)
  us_interface-IsSound at_boot (call_clear ∷ cs) n s =
      let next = IsSound-kept n (target.clear_interrupt n.hw) (t.clear_interrupt n.hw) s in
      (next, us_interface-IsSound at_boot cs _ next)
  us_interface-IsSound at_boot (call_fire ∷ cs) n s =
      let next = IsSound-kept n (target.fire_interrupt n.hw) (t.fire_interrupt n.hw) s in
      (next, us_interface-IsSound at_boot cs _ next)
  us_interface-IsSound at_boot (call_set ticks ∷ cs) n s =
      let next = IsSound-kept n (target.set_interrupt ticks n.hw) (t.set_interrupt ticks n.hw) s in
      (next, us_interface-IsSound at_boot cs _ next)

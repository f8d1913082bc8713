-- ===== src/Base/Outcome.antt =====
-- The outcome of code that may stop: at a failed assertion or a fatal error (`halted`, since
-- `mbed_error` never returns), at a step whose behaviour C leaves undefined, or because the rounds
-- that a loop was given ran out.
use mathlib.Core.Path.{◌≡◌, refl}

pub data Run {ℓ} (A : Type ℓ) : Type ℓ where
  ok : A → Run A
  halted : Run A
  undefined : Run A
  out_of_fuel : Run A

infixl 5 ◌>>=◌
abbrev pub ◌>>=◌ {ℓ κ} : {A : Type ℓ} {B : Type κ} → Run A → (A → Run B) → Run B
ok a >>= f = f a
halted >>= f = halted
undefined >>= f = undefined
out_of_fuel >>= f = out_of_fuel

-- The run returns, and what it returns satisfies `P`.
abbrev pub Returns {ℓ} : {A : Type ℓ} → (A → Type 0) → Run A → Type 0
Returns P (ok a) = P a
Returns P halted = ⊥
Returns P undefined = ⊥
Returns P out_of_fuel = ⊥

pub Returns-bind {ℓ κ} :
    {A : Type ℓ} {B : Type κ} (P : A → Type 0) (Q : B → Type 0) (r : Run A) (f : A → Run B)
    → Returns P r
    → ((a : A) → P a → Returns Q (f a))
    → Returns Q (r >>= f)
Returns-bind P Q (ok a) f p next = next a p
Returns-bind P Q halted f p next = p
Returns-bind P Q undefined f p next = p
Returns-bind P Q out_of_fuel f p next = p

pub Returns-mono {ℓ} :
    {A : Type ℓ} (P Q : A → Type 0) (r : Run A) → Returns P r → ((a : A) → P a → Q a) → Returns Q r
Returns-mono P Q (ok a) p weaken = weaken a p
Returns-mono P Q halted p weaken = p
Returns-mono P Q undefined p weaken = p
Returns-mono P Q out_of_fuel p weaken = p

pub Returns-both {ℓ} :
    {A : Type ℓ} (P Q : A → Type 0) (r : Run A)
    → Returns P r
    → Returns Q r
    → Returns (λ a. P a × Q a) r
Returns-both P Q (ok a) p q = (p, q)
Returns-both P Q halted p q = p
Returns-both P Q undefined p q = p
Returns-both P Q out_of_fuel p q = p

pub bind-cong {ℓ κ} :
    {A : Type ℓ} {B : Type κ} (r : Run A) (f g : A → Run B)
    → ((a : A) → f a ≡ g a)
    → (r >>= f) ≡ (r >>= g)
bind-cong (ok a) f g same = same a
bind-cong halted f g same = refl
bind-cong undefined f g same = refl
bind-cong out_of_fuel f g same = refl

pub bind_assoc {ℓ κ ι} :
    {A : Type ℓ} {B : Type κ} {C : Type ι} (r : Run A) (f : A → Run B) (g : B → Run C)
    → (r >>= f >>= g) ≡ (r >>= λ a. f a >>= g)
bind_assoc (ok a) f g = refl
bind_assoc halted f g = refl
bind_assoc undefined f g = refl
bind_assoc out_of_fuel f g = refl

-- The run does not use up its rounds, and what it returns, if it does, satisfies `P`.
abbrev pub Ends {ℓ} : {A : Type ℓ} → (A → Type 0) → Run A → Type 0
Ends P (ok a) = P a
Ends P halted = Unit
Ends P undefined = Unit
Ends P out_of_fuel = ⊥

pub Ends-bind {ℓ κ} :
    {A : Type ℓ} {B : Type κ} (P : A → Type 0) (Q : B → Type 0) (r : Run A) (f : A → Run B)
    → Ends P r
    → ((a : A) → P a → Ends Q (f a))
    → Ends Q (r >>= f)
Ends-bind P Q (ok a) f p next = next a p
Ends-bind P Q halted f p next = p
Ends-bind P Q undefined f p next = p
Ends-bind P Q out_of_fuel f p next = p

-- ===== src/Ticker/Events/Chain.antt =====
-- What a list of event objects stands for.
use mathlib.Core.Bool.{or_assoc}
use mcu_driver_hal.Base.{ℕ, ◌≡◌, ◌≢◌, refl, true, ◌||◌, List, [], ◌∷◌, ◌++◌, arith, ◌≤◌, has}
use mcu_driver_hal.Ticker.Types.{Ptr, null}
use mcu_driver_hal.Ticker.Events.{Memory}

-- From `p` the `next` pointers lead through the objects `xs` to NULL.
abbrev pub Chain : Memory → Ptr → List Ptr → Type 0
Chain m p [] = p ≡ null
Chain m p (x ∷ xs) = (p ≡ x) × (x ≢ null) × Chain m (m x).next xs

abbrev pub head_of : List Ptr → Ptr
head_of [] = null
head_of (x ∷ xs) = x

-- The last object of `xs`, or `p` where there is none.
abbrev pub last_of : Ptr → List Ptr → Ptr
last_of p [] = p
last_of p (x ∷ xs) = last_of x xs

-- The time and the id of a pending event.
abbrev pub Entry : Type 0
Entry = ℕ × ℕ

abbrev pub entry : Memory → Ptr → Entry
entry m p = ((m p).timestamp, (m p).id)

-- What is pending, in the order in which it is dispatched.
abbrev pub entries : Memory → List Ptr → List Entry
entries m [] = []
entries m (x ∷ xs) = entry m x ∷ entries m xs

-- Times do not fall, and none is before `t`.
abbrev pub SortedFrom : ℕ → List Entry → Type 0
SortedFrom t [] = Unit
SortedFrom t ((u, _) ∷ es) = (t ≤ u) × SortedFrom u es

pub head-of-Chain : (m : Memory) (p : Ptr) (xs : List Ptr) → Chain m p xs → p ≡ head_of xs
head-of-Chain m p [] c = c
head-of-Chain m p (x ∷ xs) c = c.0

-- A chain depends on the `next` fields of its own objects.
pub Chain-frame :
    (m n : Memory) (p : Ptr) (xs : List Ptr)
    → Chain m p xs
    → ((a : Ptr) → has a xs ≡ true → (n a).next ≡ (m a).next)
    → Chain n p xs
Chain-frame m n p [] c same = c
Chain-frame m n p (x ∷ xs) c same =
    let here : (n x).next ≡ (m x).next = same x (ground arith) in
    (c.0, c.1, rw here (Chain-frame m n (m x).next xs c.2 (λ a h. same a (ground arith))))

pub entries-frame :
    (m n : Memory) (xs : List Ptr)
    → ((a : Ptr) → has a xs ≡ true → entry n a ≡ entry m a)
    → entries n xs ≡ entries m xs
entries-frame m n [] same = refl
entries-frame m n (x ∷ xs) same =
    cc (same x (ground arith), entries-frame m n xs (λ a h. same a (ground arith)))

pub has-append : (a : ℕ) (xs ys : List ℕ) → has a (xs ++ ys) ≡ (has a xs || has a ys)
has-append a [] ys = refl
has-append a (x ∷ xs) ys = rw (has-append a xs ys, or_assoc)

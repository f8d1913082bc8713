-- ===== src/Trace/Array/Bounds.antt =====
-- What `mbed_trace_array` of bootstrap/mbed_trace.c writes, and where.
use mcu_driver_hal.Base.{
  ℕ, suc, ◌+◌, ◌-◌, ◌*◌, ◌/◌, ◌%◌, ◌^◌, ◌≤◌, ◌<◌, ◌≡◌, ◌≢◌, ◌⊎◌, refl, ap, sym, subst, ◌∙◌, inl,
  inr, Bool, true, false, [], ◌∷◌, ◌++◌, length, arith, Returns, Returns-mono, leb, ==-ne,
  Bool-cases,
}
use mcu_driver_hal.Printf.{Text, int2hex}
use mcu_driver_hal.Trace.State.{Memory, write, write_bytes}
use mcu_driver_hal.Trace.Array.{byte_text, array_loop}

-- The text stands at the address, with NUL behind it.
abbrev pub Stands : Memory → ℕ → Text → Type 0
Stands m p [] = m p ≡ 0
Stands m p (c ∷ cs) = (m p ≡ c) × Stands m (suc p) cs

-- Two digits for each byte, each pair followed by a colon.
abbrev pub joined : Text → Text
joined [] = []
joined (b ∷ bs) = byte_text b ++ joined bs

-- Without the last colon.
abbrev pub front : Text → Text
front [] = []
front (b ∷ []) = int2hex false (b / 2 ^ 4 % 2 ^ 4) ∷ int2hex false (b % 2 ^ 4) ∷ []
front (b ∷ c ∷ bs) = byte_text b ++ front (c ∷ bs)

pub joined-front : (b : ℕ) (bs : Text) → joined (b ∷ bs) ≡ front (b ∷ bs) ++ b':' ∷ []
joined-front b [] = refl
joined-front b (c ∷ bs) = ap (λ t. byte_text b ++ t) (joined-front c bs)

pub length-joined : (bs : Text) → length (joined bs) ≡ 3 * length bs
length-joined [] = omega arith
length-joined (b ∷ bs) = omega (arith, length-joined bs)

pub write-off : (m : Memory) (p c a : ℕ) → a ≢ p → write m p c a ≡ m a
write-off m p c a h = rw (==-ne a p h)

pub write-at : (m : Memory) (p c : ℕ) → write m p c p ≡ c
write-at m p c = ground arith

pub Stands-frame :
    (m n : Memory) (p : ℕ) (t : Text)
    → ((a : ℕ) → p ≤ a → a ≤ p + length t → n a ≡ m a)
    → Stands m p t
    → Stands n p t
Stands-frame m n p [] same s = same p (omega arith) (omega arith) ∙ s
Stands-frame m n p (c ∷ cs) same (e, s) = (
  same p (omega arith) (omega arith) ∙ e,
  Stands-frame m n (suc p) cs (λ a lo hi. same a (omega arith) (omega arith)) s,
)

-- A write over the last character of a text.
pub Stands-last :
    (m : Memory) (p : ℕ) (t : Text) (x c : ℕ)
    → Stands m p (t ++ x ∷ [])
    → Stands (write m (p + length t) c) p (t ++ c ∷ [])
Stands-last m p [] x c (e, z) =
    let here : p + 0 ≡ p = omega arith in
    rw here (write-at m p c, write-off m p c (suc p) (omega arith) ∙ z)
Stands-last m p (d ∷ t) x c (e, s) =
    let move : p + length (d ∷ t) ≡ suc p + length t = omega arith in
    subst (λ k. Stands (write m k c) p (d ∷ (t ++ c ∷ []))) (sym move)
      (write-off m (suc p + length t) c p (omega arith) ∙ e, Stands-last m (suc p) t x c s)

pub Stands-cut :
    (m : Memory) (p : ℕ) (t : Text) (x : ℕ)
    → Stands m p (t ++ x ∷ [])
    → Stands (write m (p + length t) 0) p t
Stands-cut m p [] x (e, z) = let here : p + 0 ≡ p = omega arith in rw here (write-at m p 0)
Stands-cut m p (d ∷ t) x (e, s) =
    let move : p + length (d ∷ t) ≡ suc p + length t = omega arith in
    subst (λ k. Stands (write m k 0) p (d ∷ t)) (sym move)
      (write-off m (suc p + length t) 0 p (omega arith) ∙ e, Stands-cut m (suc p) t x s)

-- The loop from `wptr` on: the bytes done, with NUL behind them, in the room that was left.
pub record Looped (bytes : Text) (left wptr : ℕ) (m : Memory) (r : Memory × ℕ × Bool) : Type 0 where
  pub done : Text
  pub todo : Text
  pub split : bytes ≡ done ++ todo
  pub moved : r.1 ≡ wptr + 3 * length done
  pub inside : 3 * length done < left
  pub overflowed :
      ((r.2 ≡ false) × (todo ≡ [])) ⊎ ((r.2 ≡ true) × (todo ≢ []) × (left ≤ 3 * length done + 3))
  pub text : Stands r.0 wptr (joined done)
  pub frame : (a : ℕ) → (a < wptr) ⊎ (wptr + left ≤ a) → r.0 a ≡ m a

abbrev after_byte : (b : ℕ) → Memory → (wptr : ℕ) → Memory
after_byte b m wptr = write_bytes m wptr (byte_text b ++ 0 ∷ [])

step-nul : (b : ℕ) (m : Memory) (wptr : ℕ) → after_byte b m wptr (wptr + 3) ≡ 0
step-nul b m wptr = ground arith

step-first :
    (b : ℕ) (m : Memory) (wptr : ℕ) → after_byte b m wptr wptr ≡ int2hex false (b / 2 ^ 4 % 2 ^ 4)
step-first b m wptr = ground arith

step-second :
    (b : ℕ) (m : Memory) (wptr : ℕ) → after_byte b m wptr (suc wptr) ≡ int2hex false (b % 2 ^ 4)
step-second b m wptr = ground arith

step-third : (b : ℕ) (m : Memory) (wptr : ℕ) → after_byte b m wptr (suc (suc wptr)) ≡ b':'
step-third b m wptr = ground arith

step-off :
    (b : ℕ) (m : Memory) (wptr a : ℕ) → (a < wptr) ⊎ (wptr + 3 < a) → after_byte b m wptr a ≡ m a
step-off b m wptr a (inl h) = ground arith
step-off b m wptr a (inr h) = ground arith

Looped-step :
    (b : ℕ) (bytes : Text) (left wptr : ℕ) (m : Memory)
    → 3 < left
    → (r : Memory × ℕ × Bool) → Looped bytes (left - 3) (wptr + 3) (after_byte b m wptr) r
    → Looped (b ∷ bytes) left wptr m r
Looped-step b bytes left wptr m room r l = record {
  done = b ∷ l.done;
  todo = l.todo;
  split = ap (λ t. b ∷ t) l.split;
  moved = l.moved ∙ omega arith;
  inside = omega (arith, l.inside);
  overflowed = elim l.overflowed [ inl h ↦ inl h | inr (o, t, e) ↦ inr (o, t, omega (arith, e)) ];
  text = (
    l.frame wptr (inl (omega arith)) ∙ step-first b m wptr,
    (
      l.frame (suc wptr) (inl (omega arith)) ∙ step-second b m wptr,
      (
        l.frame (suc (suc wptr)) (inl (omega arith)) ∙ step-third b m wptr,
        subst (λ k. Stands r.0 k (joined l.done)) (omega arith) l.text,
      ),
    ),
  );
  frame = λ a h. elim h [
    | inl lo ↦ l.frame a (inl (omega arith)) ∙ step-off b m wptr a (inl lo)
    | inr hi ↦ l.frame a (inr (omega arith)) ∙ step-off b m wptr a (inr (omega arith))
  ];
}

pub array_loop-Looped :
    (bytes : Text) (left wptr : ℕ) (m : Memory)
    → 0 < left
    → m wptr ≡ 0
    → Returns (Looped bytes left wptr m) (array_loop bytes (length bytes) left wptr m)
unfolding array_loop
array_loop-Looped [] left wptr m room nul = record {
  done = [];
  todo = [];
  split = refl;
  moved = omega arith;
  inside = omega arith;
  overflowed = inl (refl, refl);
  text = nul;
  frame = λ a h. refl;
}
array_loop-Looped (b ∷ bytes) left wptr m room nul = elim (Bool-cases (leb left 3)) [
  | inl full ↦ rw full (record {
    done = [];
    todo = b ∷ bytes;
    split = refl;
    moved = omega arith;
    inside = omega arith;
    overflowed = inr (refl, (λ e. ground arith), ground arith);
    text = nul;
    frame = λ a h. refl;
  })
  | inr more ↦ rw more (
      Returns-mono (Looped bytes (left - 3) (wptr + 3) (after_byte b m wptr))
        (Looped (b ∷ bytes) left wptr m)
        (array_loop bytes (length bytes) (left - 3) (wptr + 3) (after_byte b m wptr))
        (array_loop-Looped bytes (left - 3) (wptr + 3) (after_byte b m wptr) (ground arith)
          (step-nul b m wptr))
        (Looped-step b bytes left wptr m (ground arith)))
]

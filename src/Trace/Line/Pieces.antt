-- ===== src/Trace/Line/Pieces.antt =====
-- One piece added to the line that `mbed_vtracef` of bootstrap/mbed_trace.c builds.
use mcu_driver_hal.Base.{
  ℕ, zero, suc, ◌+◌, ◌-◌, ◌≤◌, ◌<◌, ◌≡◌, ◌⊎◌, refl, ap, sym, subst, ◌∙◌, inl, inr, true, false, [],
  ◌∷◌, ◌++◌, length, arith, leb, ltb, Bool-cases,
}
use mcu_driver_hal.Printf.{Text}
use mcu_driver_hal.Printf.Output.{take_text}
use mcu_driver_hal.Trace.State.{Memory, write, write_bytes}
use mcu_driver_hal.Trace.Line.{snprintf, Line, append_text}
use mcu_driver_hal.Trace.Array.Bounds.{Stands, write-off, write-at}

pub length-append : (xs ys : Text) → length (xs ++ ys) ≡ length xs + length ys
length-append [] ys = omega arith
length-append (x ∷ xs) ys = omega (arith, length-append xs ys)

pub append_nil : (xs : Text) → xs ++ [] ≡ xs
append_nil [] = refl
append_nil (x ∷ xs) = ap (λ t. x ∷ t) (append_nil xs)

pub take_text-all : (n : ℕ) (t : Text) → length t ≤ n → take_text n t ≡ t
take_text-all zero [] h = refl
take_text-all zero (c ∷ t) h = absurd (omega arith)
take_text-all (suc n) [] h = refl
take_text-all (suc n) (c ∷ t) h = ap (λ k. c ∷ k) (take_text-all n t (omega arith))

pub length-take_text : (n : ℕ) (t : Text) → length (take_text n t) ≤ n
length-take_text zero t = omega arith
length-take_text (suc n) [] = omega arith
length-take_text (suc n) (c ∷ t) = omega (arith, length-take_text n t)

write_bytes-off :
    (m : Memory) (p : ℕ) (t : Text) (a : ℕ)
    → (a < p) ⊎ (p + length t ≤ a)
    → write_bytes m p t a ≡ m a
write_bytes-off m p [] a h = refl
write_bytes-off m p (c ∷ t) a (inl h) =
    write_bytes-off (write m p c) (suc p) t a (inl (omega arith))
    ∙ write-off m p c a (λ e. omega arith)
write_bytes-off m p (c ∷ t) a (inr h) =
    write_bytes-off (write m p c) (suc p) t a (inr (omega arith))
    ∙ write-off m p c a (λ e. omega arith)

write_bytes-Stands : (m : Memory) (p : ℕ) (t : Text) → Stands (write_bytes m p (t ++ 0 ∷ [])) p t
write_bytes-Stands m p [] = write-at m p 0
write_bytes-Stands m p (c ∷ t) = (
  write_bytes-off (write m p c) (suc p) (t ++ 0 ∷ []) p (inl (omega arith)) ∙ write-at m p c,
  write_bytes-Stands (write m p c) (suc p) t,
)

-- A text written behind the first part of another one.
Stands-append :
    (m : Memory) (p : ℕ) (base extra t : Text)
    → Stands m p (base ++ extra)
    → Stands (write_bytes m (p + length base) (t ++ 0 ∷ [])) p (base ++ t)
Stands-append m p [] extra t s =
    subst (λ k. Stands (write_bytes m k (t ++ 0 ∷ [])) p t) (omega arith) (write_bytes-Stands m p t)
Stands-append m p (d ∷ base) extra t (e, s) =
    let move : suc p + length base ≡ p + length (d ∷ base) = omega arith in
    subst (λ k. Stands (write_bytes m k (t ++ 0 ∷ [])) p (d ∷ (base ++ t))) move
      (
        write_bytes-off m (suc p + length base) (t ++ 0 ∷ []) p (inl (omega arith)) ∙ e,
        Stands-append m (suc p) base extra t s,
      )

pub lt_or_le : (a b : ℕ) → (a < b) ⊎ (b ≤ a)
lt_or_le a b = elim (Bool-cases (ltb a b)) [
  | inl h ↦ inl (ground arith)
  | inr h ↦ inr (ground arith)
]

-- The line holds the pieces that fitted, up to the pointer, and what is left of a piece that did
-- not; only its own bytes differ from what the memory was.
pub record Kept {H : Type 0} (m : Memory) (line limit : ℕ) (base extra : Text) (l : Line H)
    : Type 0 where
  pub text : Stands l.memory line (base ++ extra)
  pub at : l.ptr ≡ line + length base
  pub room : l.left + length base ≡ limit
  pub short : length base + length extra < limit
  pub frame : (a : ℕ) → (a < line) ⊎ (line + limit ≤ a) → l.memory a ≡ m a

module _ {H : Type 0} (m : Memory) (line limit : ℕ) where
  pub snprintf-Kept :
      (base extra t : Text) (l : Line H) (n : ℕ)
      → Kept m line limit base extra l
      → l.left ≡ suc n
      → Stands (snprintf l.ptr l.left t l.memory) line (base ++ take_text n t)
        × ((a : ℕ) → (a < line) ⊎ (line + limit ≤ a) → snprintf l.ptr l.left t l.memory a ≡ m a)
  snprintf-Kept base extra t l n k left =
      rw (left, k.at)
        (
          Stands-append l.memory line base extra (take_text n t) k.text,
          (λ a h.
              write_bytes-off l.memory (line + length base) (take_text n t ++ 0 ∷ []) a (elim h [
                | inl lo ↦ inl (omega arith)
                | inr hi ↦ inr (
                    omega
                      (arith, length-append (take_text n t) (0 ∷ []), length-take_text n t, k.room))
              ])
              ∙ k.frame a h),
        )

  -- A piece that fits.
  pub append_text-fits :
      (base extra t : Text) (l : Line H)
      → Kept m line limit base extra l
      → length base + length t < limit
      → Kept m line limit (base ++ t) [] (append_text t l) × ((append_text t l).retval ≡ length t)
  unfolding append_text
  append_text-fits base extra t l k fits =
      let some_left : l.left ≡ suc (l.left - 1) = omega (arith, k.room) in
      let inside : leb l.left (length t) ≡ false = ground (arith, k.room) in
      let (text, frame) = snprintf-Kept base extra t l (l.left - 1) k some_left in
      let whole : take_text (l.left - 1) t ≡ t =
        take_text-all (l.left - 1) t (omega (arith, k.room)) in
      rw inside (
        record {
          text =
              subst (Stands (snprintf l.ptr l.left t l.memory) line)
                (ap (λ u. base ++ u) whole ∙ sym (append_nil (base ++ t))) text;
          at = omega (arith, k.at, length-append base t);
          room = omega (arith, k.room, length-append base t);
          short = omega (arith, length-append base t);
          frame = frame;
        },
        refl,
      )

  -- A piece that does not fit.
  append_text-cut :
      (base extra t : Text) (l : Line H)
      → Kept m line limit base extra l
      → limit ≤ length base + length t
      → Kept m line limit base (take_text (l.left - 1) t) (append_text t l)
        × ((append_text t l).retval ≡ 0)
  unfolding append_text
  append_text-cut base extra t l k long =
      let some_left : l.left ≡ suc (l.left - 1) = omega (arith, k.room, k.short) in
      let outside : leb l.left (length t) ≡ true = ground (arith, k.room) in
      let (text, frame) = snprintf-Kept base extra t l (l.left - 1) k some_left in
      rw outside (
        record {
          text = text;
          at = omega (arith, k.at);
          room = omega (arith, k.room);
          short = omega (arith, k.room, k.short, length-take_text (l.left - 1) t);
          frame = frame;
        },
        refl,
      )

  -- Some text is in the line, whether the last piece fitted or not.
  pub record IsLine (l : Line H) : Type 0 where
    pub base : Text
    pub extra : Text
    pub kept : Kept m line limit base extra l

  pub append_text-IsLine : (t : Text) (l : Line H) → IsLine l → IsLine (append_text t l)
  append_text-IsLine t l k = elim (lt_or_le (length k.base + length t) limit) [
    | inl fits ↦ record {
      base = k.base ++ t;
      extra = [];
      kept = (append_text-fits k.base k.extra t l k.kept fits).0;
    }
    | inr long ↦ record {
      base = k.base;
      extra = take_text (l.left - 1) t;
      kept = (append_text-cut k.base k.extra t l k.kept long).0;
    }
  ]

-- ===== src/Ticker/Ratio/Gcd.antt =====
-- `gcd` of hal/source/mbed_ticker_api.c.
use mathlib.Core.WellFounded.{Acc}
use mathlib.Core.Logic.{dif_pos, dif_neg}
use native.Mathlib.Bridge.{le_prop}
use native.Mathlib.Decide.{dec_lt}
use native.Mathlib.Nat.{div-add-mod, div-add-mod', mod-eq-sub-mul-div, mod-lt, mul-sub, mul_comm}
use mcu_driver_hal.Base.{ℕ, ◌+◌, ◌-◌, ◌*◌, ◌/◌, ◌%◌, ◌<◌, ◌≡◌, refl, ap, ap₂, ◌∙◌, sym, arith}
use mcu_driver_hal.Base.Order.{lt_wf}
use mcu_driver_hal.Ticker.Ratio.{gcd_loop, gcd}

abbrev pub Divides : ℕ → ℕ → Type 0
Divides d n = (k : ℕ) × (n ≡ k * d)

-- A common divisor that every common divisor divides.
pub record IsGcd (a b g : ℕ) : Type 0 where
  pub left : Divides g a
  pub right : Divides g b
  pub greatest : (d : ℕ) → Divides d a → Divides d b → Divides d g

Divides-mod : (a b d : ℕ) → Divides d a → Divides d b → Divides d (a % b)
Divides-mod a b d (k, p) (l, q) = (
  k - l * (a / b),
  mod-eq-sub-mul-div a b
      ∙ ap₂ ◌-◌ p (rw q (omega arith))
      ∙ sym
          (mul_comm (k - l * (a / b)) d ∙ mul-sub d k (l * (a / b)) ∙ ap₂ ◌-◌ (mul_comm d k) refl),
)

Divides-of_mod : (a b d : ℕ) → Divides d b → Divides d (a % b) → Divides d a
Divides-of_mod a b d (k, p) (l, q) =
    (k * (a / b) + l, omega (arith, div-add-mod a b, ap (λ t. t * (a / b)) p))

gcd_loop-IsGcd : (a b : ℕ) (h : 0 < b) (w : Acc ◌<◌ b) → IsGcd a b (gcd_loop a b h w)
unfolding gcd_loop
gcd_loop-IsGcd a b h (Acc.intro _ smaller) = elim (dec_lt 0 (a % b)) [
  | yes more ↦
      let ih = gcd_loop-IsGcd b (a % b) more (smaller (a % b) (mod-lt a h)) in
      rw (dif_pos (dec_lt 0 (a % b)) le_prop more) (record {
        left = Divides-of_mod a b _ ih.left ih.right;
        right = ih.left;
        greatest = λ d p q. ih.greatest d q (Divides-mod a b d p q);
      })
  | no none ↦ rw (dif_neg (dec_lt 0 (a % b)) none) (record {
    left = (a / b, omega (arith, div-add-mod' a b));
    right = (1, omega arith);
    greatest = λ d p q. q;
  })
]

-- The loop ends, and gives the greatest common divisor.
pub gcd-IsGcd : (a b : ℕ) (h : 0 < b) → IsGcd a b (gcd a b h)
unfolding gcd
gcd-IsGcd a b h = gcd_loop-IsGcd a b h (lt_wf.apply b)

-- ===== src/Printf/Format/Characters.antt =====
-- The characters of a directive in a format of bootstrap/mbed_printf_implementation.c.
use mcu_driver_hal.Base.{ℕ, ◌<◌, ◌≡◌, ◌≢◌, refl, false, ◌∷◌, arith, ==-ne}
use mcu_driver_hal.Printf.{Text}
use mcu_driver_hal.Printf.Scan.{
  char_at, is_digit, is_flag, Length, length_none, length_h, length_l, length_j, length_z, length_t,
  length_capital_l, length_hh, length_ll, length_modifier, after_length,
}
use mcu_driver_hal.Printf.Format.Directive.{
  Precision, no_precision, star_precision, precision, Conversion, as_d, as_i, as_u, as_x,
  as_upper_x, as_c, as_s, as_p, precision_chars, length_chars, conversion_char,
}

-- A character that ends what stands before it.
pub record IsPlain (c : ℕ) : Type 0 where
  pub flag : is_flag c ≡ false
  pub digit : is_digit c ≡ false
  pub star : c ≢ b'*'

pub record IsEnd (c : ℕ) : Type 0 where
  pub plain : IsPlain c
  pub dot : c ≢ b'.'

pub record IsConversion (c : ℕ) : Type 0 where
  pub ends : IsEnd c
  pub h : c ≢ b'h'
  pub l : c ≢ b'l'
  pub j : c ≢ b'j'
  pub z : c ≢ b'z'
  pub t : c ≢ b't'
  pub capital_l : c ≢ b'L'

pub conversion :
    (c : ℕ)
    → b'.' < c
    → (b'9' < c)
    → c ≢ b'h'
    → c ≢ b'l'
    → c ≢ b'j'
    → c ≢ b'z'
    → c ≢ b't'
    → c ≢ b'L'
    → IsConversion c
conversion c lo hi h l j z t k = record {
  ends = record {
    plain = record { flag = ground arith; digit = ground arith; star = omega arith };
    dot = omega arith;
  };
  h = h;
  l = l;
  j = j;
  z = z;
  t = t;
  capital_l = k;
}

pub conversion_char-IsConversion : (k : Conversion) → IsConversion (conversion_char k)
conversion_char-IsConversion as_d =
    conversion b'd' (omega arith) (omega arith) (omega arith) (omega arith) (omega arith)
      (omega arith) (omega arith) (omega arith)
conversion_char-IsConversion as_i =
    conversion b'i' (omega arith) (omega arith) (omega arith) (omega arith) (omega arith)
      (omega arith) (omega arith) (omega arith)
conversion_char-IsConversion as_u =
    conversion b'u' (omega arith) (omega arith) (omega arith) (omega arith) (omega arith)
      (omega arith) (omega arith) (omega arith)
conversion_char-IsConversion as_x =
    conversion b'x' (omega arith) (omega arith) (omega arith) (omega arith) (omega arith)
      (omega arith) (omega arith) (omega arith)
conversion_char-IsConversion as_upper_x =
    conversion b'X' (omega arith) (omega arith) (omega arith) (omega arith) (omega arith)
      (omega arith) (omega arith) (omega arith)
conversion_char-IsConversion as_c =
    conversion b'c' (omega arith) (omega arith) (omega arith) (omega arith) (omega arith)
      (omega arith) (omega arith) (omega arith)
conversion_char-IsConversion as_s =
    conversion b's' (omega arith) (omega arith) (omega arith) (omega arith) (omega arith)
      (omega arith) (omega arith) (omega arith)
conversion_char-IsConversion as_p =
    conversion b'p' (omega arith) (omega arith) (omega arith) (omega arith) (omega arith)
      (omega arith) (omega arith) (omega arith)

pub length_modifier-eq :
    (m : Length) (c : ℕ) (rest : Text)
    → IsConversion c
    → length_modifier (length_chars m (c ∷ rest)) ≡ m
unfolding length_modifier
length_modifier-eq length_none c rest k = rw (
  ==-ne c b'h' k.h,
  ==-ne c b'l' k.l,
  ==-ne c b'j' k.j,
  ==-ne c b'z' k.z,
  ==-ne c b't' k.t,
  ==-ne c b'L' k.capital_l,
)
length_modifier-eq length_h c rest k = rw (==-ne c b'h' k.h)
length_modifier-eq length_l c rest k = rw (==-ne c b'l' k.l)
length_modifier-eq length_j c rest k = refl
length_modifier-eq length_z c rest k = refl
length_modifier-eq length_t c rest k = refl
length_modifier-eq length_capital_l c rest k = refl
length_modifier-eq length_hh c rest k = refl
length_modifier-eq length_ll c rest k = refl

pub after_length-eq : (m : Length) (rest : Text) → after_length m (length_chars m rest) ≡ rest
after_length-eq length_none rest = refl
after_length-eq length_h rest = refl
after_length-eq length_l rest = refl
after_length-eq length_j rest = refl
after_length-eq length_z rest = refl
after_length-eq length_t rest = refl
after_length-eq length_capital_l rest = refl
after_length-eq length_hh rest = refl
after_length-eq length_ll rest = refl

letter-IsEnd : (c : ℕ) → b'9' < c → IsEnd c
letter-IsEnd c lo = record {
  plain = record { flag = ground arith; digit = ground arith; star = omega arith };
  dot = omega arith;
}

pub length-IsEnd :
    (m : Length) (c : ℕ) (rest : Text)
    → IsConversion c
    → IsEnd (char_at (length_chars m (c ∷ rest)))
length-IsEnd length_none c rest k = k.ends
length-IsEnd length_h c rest k = letter-IsEnd b'h' (omega arith)
length-IsEnd length_l c rest k = letter-IsEnd b'l' (omega arith)
length-IsEnd length_j c rest k = letter-IsEnd b'j' (omega arith)
length-IsEnd length_z c rest k = letter-IsEnd b'z' (omega arith)
length-IsEnd length_t c rest k = letter-IsEnd b't' (omega arith)
length-IsEnd length_capital_l c rest k = letter-IsEnd b'L' (omega arith)
length-IsEnd length_hh c rest k = letter-IsEnd b'h' (omega arith)
length-IsEnd length_ll c rest k = letter-IsEnd b'l' (omega arith)

pub precision-IsPlain :
    (p : Precision) (t : Text) → IsEnd (char_at t) → IsPlain (char_at (precision_chars p t))
precision-IsPlain no_precision t e = e.plain
precision-IsPlain star_precision t e = record { flag = refl; digit = refl; star = omega arith }
precision-IsPlain (precision ds) t e = record { flag = refl; digit = refl; star = omega arith }

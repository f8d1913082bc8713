-- ===== src/Gpio/Settled.antt =====
-- What the functions of hal/source/mbed_gpio.c leave a pin as, and what it is on the way.
use mcu_driver_hal.Base.{ℕ, ◌≡◌, ◌≢◌, sym, ◌∙◌, false, List, [], ◌∷◌, All, subst, ◌==◌, ==-ne}
use mcu_driver_hal.Gpio.{
  Direction, pin_input, pin_output, Pins, Target, _gpio_init_in, _gpio_init_out, gpio_init_inout,
}

-- What can be seen of a pin: its direction, its pull mode and the level written to it; each function
-- sets its own and leaves the others.
pub record IsPin {G : Type 0} (p : Pins G) (direction : G → Direction) (mode level : G → ℕ)
    : Type 0 where
  pub dir_set : (d : Direction) (g : G) → direction (p.gpio_dir d g) ≡ d
  pub dir_mode : (d : Direction) (g : G) → mode (p.gpio_dir d g) ≡ mode g
  pub dir_level : (d : Direction) (g : G) → level (p.gpio_dir d g) ≡ level g
  pub mode_set : (m : ℕ) (g : G) → mode (p.gpio_mode m g) ≡ m
  pub mode_direction : (m : ℕ) (g : G) → direction (p.gpio_mode m g) ≡ direction g
  pub mode_level : (m : ℕ) (g : G) → level (p.gpio_mode m g) ≡ level g
  pub write_set : (v : ℕ) (g : G) → level (p.gpio_write v g) ≡ v
  pub write_direction : (v : ℕ) (g : G) → direction (p.gpio_write v g) ≡ direction g
  pub write_mode : (v : ℕ) (g : G) → mode (p.gpio_write v g) ≡ mode g

-- The same pins with the states after each call that follows gpio_init, the last one first.
abbrev pub recording : {G : Type 0} → Pins G → Pins (G × List G)
recording p = record {
  gpio_init = λ pin (g, h). (p.gpio_init pin g, h);
  gpio_dir = λ d (g, h). (p.gpio_dir d g, p.gpio_dir d g ∷ h);
  gpio_mode = λ m (g, h). (p.gpio_mode m g, p.gpio_mode m g ∷ h);
  gpio_write = λ v (g, h). (p.gpio_write v g, p.gpio_write v g ∷ h);
}

-- An output has the wanted level.
abbrev pub Drives : {G : Type 0} → (G → Direction) → (G → ℕ) → ℕ → G → Type 0
Drives direction level value g = direction g ≡ pin_output → level g ≡ value

pub record IsSettled {G : Type 0} (direction : G → Direction) (mode level : G → ℕ) (d : Direction)
    (m v : ℕ) (r : G × List G) : Type 0 where
  pub direction_is : direction r.0 ≡ d
  pub mode_is : mode r.0 ≡ m
  pub level_is : level r.0 ≡ v
  pub on_the_way : All (Drives direction level v) r.1

abbrev IsInput : Direction → Type 0
IsInput pin_input = Unit
IsInput pin_output = ⊥

input-output : (d : Direction) → d ≡ pin_input → d ≡ pin_output → ⊥
input-output d e f = subst IsInput (sym e ∙ f) tt

module _ {G : Type 0} (p : Pins G) (t : Target) (direction : G → Direction) (mode level : G → ℕ)
    (i : IsPin p direction mode level) where
  input-Drives : (v : ℕ) (g : G) → direction g ≡ pin_input → Drives direction level v g
  input-Drives v g e f = absurd (input-output (direction g) e f)

  inout-input :
      (pin m v : ℕ) (g : G)
      → (pin == t.nc) ≡ false
      → IsSettled direction mode level pin_input m v
          (gpio_init_inout (recording p) t pin pin_input m v (g, []))
  unfolding gpio_init_inout _gpio_init_in
  inout-input pin m v g real =
      let g1 : G = p.gpio_init pin g in
      let g2 : G = p.gpio_dir pin_input g1 in
      let g3 : G = p.gpio_mode m g2 in
      let d2 : direction g2 ≡ pin_input = i.dir_set pin_input g1 in
      let d3 : direction g3 ≡ pin_input = i.mode_direction m g2 ∙ d2 in
      simp (real) (record {
        direction_is = i.write_direction v g3 ∙ d3;
        mode_is = i.write_mode v g3 ∙ i.mode_set m g2;
        level_is = i.write_set v g3;
        on_the_way = ((λ e. i.write_set v g3), (input-Drives v g3 d3, (input-Drives v g2 d2, tt)));
      })

  inout-output :
      (pin m v : ℕ) (g : G)
      → (pin == t.nc) ≡ false
      → IsSettled direction mode level pin_output m v
          (gpio_init_inout (recording p) t pin pin_output m v (g, []))
  unfolding gpio_init_inout _gpio_init_out
  inout-output pin m v g real =
      let g1 : G = p.gpio_init pin g in
      let g2 : G = p.gpio_write v g1 in
      let g3 : G = p.gpio_dir pin_output g2 in
      let l3 : level g3 ≡ v = i.dir_level pin_output g2 ∙ i.write_set v g1 in
      simp (real) (record {
        direction_is = i.mode_direction m g3 ∙ i.dir_set pin_output g2;
        mode_is = i.mode_set m g3;
        level_is = i.mode_level m g3 ∙ l3;
        on_the_way = ((λ e. i.mode_level m g3 ∙ l3), ((λ e. l3), ((λ e. i.write_set v g1), tt)));
      })

  -- Where the target's functions set what they are named for and no more, and whatever gpio_init
  -- leaves the pin as: a pin other than NC gets from `gpio_init_inout` the direction, the mode and
  -- the value asked for, and after none of the calls that follow gpio_init is it an output with
  -- another value.
  pub gpio_init_inout-IsSettled :
      (pin : ℕ) (d : Direction) (m v : ℕ) (g : G)
      → pin ≢ t.nc
      → IsSettled direction mode level d m v (gpio_init_inout (recording p) t pin d m v (g, []))
  gpio_init_inout-IsSettled pin pin_input m v g real = inout-input pin m v g (==-ne pin t.nc real)
  gpio_init_inout-IsSettled pin pin_output m v g real = inout-output pin m v g (==-ne pin t.nc real)

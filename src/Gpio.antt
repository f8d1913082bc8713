-- ===== src/Gpio.antt =====
-- hal/source/mbed_gpio.c: how a pin is set up. The functions of the target's pins (gpio_init,
-- gpio_dir, gpio_mode and gpio_write) and the words of NC and of two pull modes are parameters.
pub mod Settled
mod Tests
use mcu_driver_hal.Base.{ℕ, Bool, true, false, ◌==◌, if◌then◌else◌}

-- PinDirection
pub data Direction : Type 0 where
  pin_input pin_output : Direction

-- The target's functions on its pins, whose state is `G`.
pub record Pins (G : Type 0) : Type 0 where
  pub gpio_init : (pin : ℕ) → G → G
  pub gpio_dir : Direction → G → G
  pub gpio_mode : (mode : ℕ) → G → G
  pub gpio_write : (value : ℕ) → G → G

-- The target's words.
pub record Target : Type 0 where
  pub nc : ℕ
  pub pull_default : ℕ
  pub pull_none : ℕ

-- gpio_capabilities_t
pub record Capabilities : Type 0 where
  pub pull_none : ℕ
  pub pull_down : ℕ
  pub pull_up : ℕ

unfoldable pub gpio_get_capabilities : Capabilities → Capabilities
gpio_get_capabilities cap = record cap { pull_none = 1; pull_down = 1; pull_up = 1 }

module _ {G : Type 0} (p : Pins G) (t : Target) where
  unfoldable pub _gpio_init_in : (pin mode : ℕ) → G → G
  _gpio_init_in pin mode g0 =
      let g = p.gpio_init pin g0 in
      if pin == t.nc then g else p.gpio_mode mode (p.gpio_dir pin_input g)

  unfoldable pub _gpio_init_out : (pin mode value : ℕ) → G → G
  _gpio_init_out pin mode value g0 =
      let g = p.gpio_init pin g0 in
      if pin == t.nc then g else p.gpio_mode mode (p.gpio_dir pin_output (p.gpio_write value g))

  unfoldable pub gpio_init_in_ex : (pin mode : ℕ) → G → G
  gpio_init_in_ex pin mode g = _gpio_init_in pin mode g

  unfoldable pub gpio_init_in : (pin : ℕ) → G → G
  gpio_init_in pin g = gpio_init_in_ex pin t.pull_default g

  unfoldable pub gpio_init_out_ex : (pin value : ℕ) → G → G
  gpio_init_out_ex pin value g = _gpio_init_out pin t.pull_none value g

  unfoldable pub gpio_init_out : (pin : ℕ) → G → G
  gpio_init_out pin g = gpio_init_out_ex pin 0 g

  unfoldable pub gpio_init_inout : (pin : ℕ) → Direction → (mode value : ℕ) → G → G
  gpio_init_inout pin pin_input mode value g0 =
      let g = _gpio_init_in pin mode g0 in if pin == t.nc then g else p.gpio_write value g
  gpio_init_inout pin pin_output mode value g0 = _gpio_init_out pin mode value g0

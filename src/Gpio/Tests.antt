-- ===== src/Gpio/Tests.antt =====
-- An example for the statement on hal/source/mbed_gpio.c.
use mcu_driver_hal.Base.{ℕ, refl, [], arith}
use mcu_driver_hal.Gpio.{Direction, pin_output, Pins, Target, gpio_init_inout}
use mcu_driver_hal.Gpio.Settled.{IsPin, recording, IsSettled, gpio_init_inout-IsSettled}

-- A pin of three fields; gpio_init leaves its direction.
record Pad : Type 0 where
  direction : Direction
  mode : ℕ
  level : ℕ

abbrev pads : Pins Pad
pads = record {
  gpio_init = λ pin g. record g { mode = 0 };
  gpio_dir = λ d g. record g { direction = d };
  gpio_mode = λ m g. record g { mode = m };
  gpio_write = λ v g. record g { level = v };
}

abbrev target : Target
target = record { nc = 0xFFFF; pull_default = 1; pull_none = 0 }

pads-IsPin : IsPin pads (λ g. g.direction) (λ g. g.mode) (λ g. g.level)
pads-IsPin = record {
  dir_set = λ d g. refl;
  dir_mode = λ d g. refl;
  dir_level = λ d g. refl;
  mode_set = λ m g. refl;
  mode_direction = λ m g. refl;
  mode_level = λ m g. refl;
  write_set = λ v g. refl;
  write_direction = λ v g. refl;
  write_mode = λ v g. refl;
}

abbrev pad : Pad
pad = record { direction = pin_output; mode = 3; level = 1 }

gpio_init_inout-IsSettled_example :
    IsSettled
      (λ (g : Pad). g.direction)
      (λ g. g.mode)
      (λ g. g.level)
      pin_output
      2
      0
      (gpio_init_inout (recording pads) target 7 pin_output 2 0 (pad, []))
gpio_init_inout-IsSettled_example =
    gpio_init_inout-IsSettled pads target (λ g. g.direction) (λ g. g.mode) (λ g. g.level) pads-IsPin
      7 pin_output 2 0 pad (λ e. omega arith)

-- ===== src/Ticker/Tests/Flag.antt =====
-- The flag of hal/source/mbed_us_ticker_api.c over a timer that can be stopped.
use mcu_driver_hal.Base.{refl, Bool, true, false, List, [], ◌∷◌, All}
use mcu_driver_hal.Ticker.Types.{Interface}
use mcu_driver_hal.Ticker.Data.Flag.{
  IsTimer, InterfaceCall, call_init, call_read, call_free, call_set, statements, visited,
  all_statements, IsSound, us_interface-IsSound,
}

abbrev timer : Interface Bool
timer = record {
  init = λ h. true;
  read = λ h. (7, h);
  disable_interrupt = λ h. h;
  clear_interrupt = λ h. h;
  set_interrupt = λ t h. h;
  fire_interrupt = λ h. h;
  free = λ h. false;
  get_info = record { frequency = 1000000; bits = 32 };
  runs_in_deep_sleep = false;
}

abbrev timer_laws : IsTimer timer
timer_laws = record {
  running = λ h. h;
  init = λ h. refl;
  read = λ h. refl;
  disable_interrupt = λ h. refl;
  clear_interrupt = λ h. refl;
  set_interrupt = λ t h. refl;
  fire_interrupt = λ h. refl;
}

abbrev interface_calls : List InterfaceCall
interface_calls = call_init ∷ call_read ∷ call_set 9 ∷ call_free ∷ call_init ∷ []

us_interface-IsSound_example : All (IsSound timer timer_laws) (
    visited
      (all_statements (statements timer false) interface_calls)
      (record { initialized = false; hw = false }))
us_interface-IsSound_example =
    us_interface-IsSound timer timer_laws false interface_calls
      (record { initialized = false; hw = false }) refl

-- ===== src/Printf/Wrapper.antt =====
-- bootstrap/mbed_printf_wrapper.c: the functions of the C library that the linker puts
-- `mbed_minimal_formatted_string` in place of. Where the code has an ellipsis and where it has a
-- `va_list`, the arguments are the same list; `rounds` is that of the format's loop.
pub mod Measure
use mcu_driver_hal.Base.{ℕ, Bool, Option, none, some, List, Run}
use mcu_driver_hal.Printf.{Text, int_max, Buffer, Sink}
use mcu_driver_hal.Printf.Format.{mbed_minimal_formatted_string}
use mcu_driver_hal.Printf.Scan.{Arg}

-- `long` is 32 bits wide.
abbrev pub long_max : ℕ
long_max = int_max

module _ {S : Type 0} (fputc : (c : ℕ) → S → Bool × S) (rounds : ℕ) where
  unfoldable pub vfprintf :
      (stream : Option S) (format : Option Text) (arguments : List Arg) → Run (Sink S)
  vfprintf stream format arguments =
      mbed_minimal_formatted_string fputc rounds none long_max format arguments stream

  unfoldable pub fprintf :
      (stream : Option S) (format : Option Text) (arguments : List Arg) → Run (Sink S)
  fprintf stream format arguments =
      mbed_minimal_formatted_string fputc rounds none long_max format arguments stream

  unfoldable pub vprintf : (stdout : S) (format : Option Text) (arguments : List Arg) → Run (Sink S)
  vprintf stdout format arguments =
      mbed_minimal_formatted_string fputc rounds none long_max format arguments (some stdout)

  unfoldable pub printf : (stdout : S) (format : Option Text) (arguments : List Arg) → Run (Sink S)
  printf stdout format arguments =
      mbed_minimal_formatted_string fputc rounds none long_max format arguments (some stdout)

  unfoldable pub vsnprintf :
      (buffer : Option Buffer) (length : ℕ) (format : Option Text) (arguments : List Arg)
      → Run (Sink S)
  vsnprintf buffer length format arguments =
      mbed_minimal_formatted_string fputc rounds buffer length format arguments none

  unfoldable pub snprintf :
      (buffer : Option Buffer) (length : ℕ) (format : Option Text) (arguments : List Arg)
      → Run (Sink S)
  snprintf buffer length format arguments =
      mbed_minimal_formatted_string fputc rounds buffer length format arguments none

  unfoldable pub vsprintf :
      (buffer : Option Buffer) (format : Option Text) (arguments : List Arg) → Run (Sink S)
  vsprintf buffer format arguments =
      mbed_minimal_formatted_string fputc rounds buffer long_max format arguments none

  unfoldable pub sprintf :
      (buffer : Option Buffer) (format : Option Text) (arguments : List Arg) → Run (Sink S)
  sprintf buffer format arguments =
      mbed_minimal_formatted_string fputc rounds buffer long_max format arguments none

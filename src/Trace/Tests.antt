-- ===== src/Trace/Tests.antt =====
-- Examples for the statements on bootstrap/mbed_trace.c.
use mcu_driver_hal.Base.{
  ℕ, ◌+◌, ◌-◌, ◌≡◌, refl, inl, true, some, [], ◌∷◌, arith, ok, undefined, Returns,
}
use mcu_driver_hal.Printf.{Text}
use mcu_driver_hal.Trace.{
  mbed_trace_skip, mbed_trace_init, mbed_trace_exclude_filters_set, mbed_trace_include_filters_set,
  acquire,
}
use mcu_driver_hal.Trace.State.{Env, Trace, Defaults, strstr, starts_with}
use mcu_driver_hal.Trace.Held.{with_mutex}
use mcu_driver_hal.Trace.Filters.{filters_set-skip, exclude_filters_set-unterminated}
use mcu_driver_hal.Trace.Init.{IsSetUp, mbed_trace_init-IsSetUp}
use mcu_driver_hal.Trace.Leaves.{Counts}
use mcu_driver_hal.Trace.Mutex.{IsFree, mbed_vtracef-IsFree}
use mcu_driver_hal.Trace.Array.{mbed_trace_array}
use mcu_driver_hal.Trace.Array.Written.{IsShown, mbed_trace_array-IsShown}
use mcu_driver_hal.Trace.Line.{mbed_vtracef}
use mcu_driver_hal.Trace.Line.Bounds.{WritesLine, mbed_vtracef-WritesLine}
use mcu_driver_hal.Trace.Line.Skipped.{HasFilters}
use mcu_driver_hal.Trace.Line.Content.{line_text}
use mcu_driver_hal.Trace.Line.Printed.Call.{Prints, mbed_vtracef-Prints}

-- Outside is only how often the mutex is held.
abbrev env : Env ℕ
env = record {
  malloc = λ size h. (100, h);
  free = λ p h. h;
  wait = λ f h. h + 1;
  release = λ f h. h - 1;
  print = λ f m p h. h;
  print_text = λ f t h. h;
  prefix = λ f size h. (b'>' ∷ [], h);
  suffix = λ f h. (b'<' ∷ [], h);
}

abbrev state : Trace ℕ
state = record {
  trace_config = 0x5F;
  filters_exclude = 60;
  filters_include = 70;
  filters_length = 4;
  line = 10;
  line_length = 40;
  tmp_data = 80;
  tmp_data_length = 8;
  tmp_data_ptr = 80;
  prefix_f = 1;
  suffix_f = 1;
  printf = 1;
  cmd_printf = 0;
  mutex_wait_f = 1;
  mutex_release_f = 1;
  mutex_lock_count = 0;
  memory = λ a. 0;
  world = 0;
}

abbrev defaults : Defaults
defaults = record {
  trace_config = 0x7F;
  filter_length = 24;
  line_length = 1024;
  tmp_line_length = 128;
  default_print = 1;
}

abbrev bytes : Text
bytes = 0x0A ∷ 0xBC ∷ 0xDE ∷ []

abbrev grp : Text
grp = b'm' ∷ b'e' ∷ []

-- Three bytes where two fit.
mbed_trace_array-IsShown_example :
    Returns (IsShown bytes state) (mbed_trace_array env (some bytes) 3 state)
mbed_trace_array-IsShown_example =
    mbed_trace_array-IsShown env 0x0A (0xBC ∷ 0xDE ∷ []) state (omega arith) (omega arith)

filters_set-skip_example :
    mbed_trace_skip 2 (some grp) (
      mbed_trace_include_filters_set
        (some (b'n' ∷ []))
        (mbed_trace_exclude_filters_set (some grp) state))
    ≡ ok true
unfolding strstr starts_with
filters_set-skip_example =
    filters_set-skip 2 grp grp (b'n' ∷ []) state (omega arith)
      ((λ e. omega arith), ((λ e. omega arith), tt)) ((λ e. omega arith), tt) (omega arith)
      (omega arith) (inl (omega arith))

exclude_filters_set-unterminated_example :
    mbed_trace_skip 2
      (some grp)
      (mbed_trace_exclude_filters_set (some (b'a' ∷ b'b' ∷ b'c' ∷ b'd' ∷ [])) state)
    ≡ undefined
exclude_filters_set-unterminated_example =
    exclude_filters_set-unterminated 2 grp (b'a' ∷ b'b' ∷ b'c' ∷ b'd' ∷ []) state (omega arith)
      ((λ e. omega arith), ((λ e. omega arith), ((λ e. omega arith), ((λ e. omega arith), tt))))
      (omega arith) (omega arith)

env-Counts : Counts env (λ h. h)
env-Counts = record {
  waits = λ f h. refl;
  releases = λ f h. refl;
  prints = λ f m p h. refl;
  prints_text = λ f t h. refl;
  prefixes = λ f sz h. refl;
  suffixes = λ f h. refl;
}

state-HasFilters : HasFilters [] [] state
state-HasFilters = record {
  exclude_plain = tt;
  include_plain = tt;
  exclude_short = omega arith;
  include_short = omega arith;
  exclude_text = refl;
  include_text = refl;
  exclude_apart = inl (omega arith);
  include_apart = inl (omega arith);
}

held-HasFilters : HasFilters [] [] (with_mutex env state)
held-HasFilters = record {
  exclude_plain = tt;
  include_plain = tt;
  exclude_short = omega arith;
  include_short = omega arith;
  exclude_text = refl;
  include_text = refl;
  exclude_apart = inl (omega arith);
  include_apart = inl (omega arith);
}

mbed_vtracef-IsFree_example :
    Returns (IsFree env (λ h. h) env-Counts) (mbed_vtracef env 2 (some grp) (some bytes) state)
mbed_vtracef-IsFree_example =
    mbed_vtracef-IsFree env (λ h. h) env-Counts 2 (some grp) (some bytes) [] [] state
      (λ e. omega arith) (λ e. omega arith) (λ e. omega arith) held-HasFilters refl

mbed_vtracef-WritesLine_example :
    Returns (WritesLine env state) (mbed_vtracef env 2 (some grp) (some bytes) state)
mbed_vtracef-WritesLine_example =
    mbed_vtracef-WritesLine env 2 (some grp) (some bytes) [] [] state (λ e. omega arith)
      (omega arith) state-HasFilters

mbed_vtracef-Prints_example :
    Returns
      (Prints env (line_text env 2 grp bytes (with_mutex env state)).0 1 (with_mutex env state))
      (mbed_vtracef env 2 (some grp) (some bytes) state)
unfolding acquire
mbed_vtracef-Prints_example =
    mbed_vtracef-Prints env 2 grp bytes [] [] state (λ e. omega arith) held-HasFilters refl
      (λ e. omega arith) refl refl (omega arith)

-- An allocator that has nothing.
abbrev no_memory : Env ℕ
no_memory = record env { malloc = λ size h. (0, h) }

mbed_trace_init-IsSetUp_example :
    IsSetUp no_memory defaults (mbed_trace_init no_memory defaults (record state { line = 0 }))
mbed_trace_init-IsSetUp_example =
    mbed_trace_init-IsSetUp no_memory defaults (record state { line = 0 })

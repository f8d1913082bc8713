-- ===== src/Trace.antt =====
-- bootstrap/mbed_trace.c: the state `m_trace` and its settings, filters and temporary buffer.
-- Pointers are addresses of one memory of bytes, 0 for NULL; a function pointer is the number of a
-- function, 0 for none. Of the C library, strings, strncpy, strstr and the formats that the code
-- uses are modelled as the standard describes them.
pub mod Line
pub mod Filters
pub mod Array
pub mod Held
pub mod Leaves
pub mod Init
pub mod Mutex
pub mod State
mod Tests
use mcu_driver_hal.Base.{
  ℕ, zero, suc, ◌+◌, ◌-◌, ◌*◌, ◌/◌, ◌%◌, ◌^◌, bit_and, Bool, true, false, not, ◌&&◌, ◌||◌, Option,
  none, some, List, [], ◌∷◌, ◌++◌, Run, ok, undefined, ◌>>=◌, length, ltb, leb, ◌==◌, ◌!=◌,
  if◌then◌else◌,
}
use mcu_driver_hal.Printf.{Text, int2hex}
use mcu_driver_hal.Trace.State.{write, clear, Env, Trace, Defaults, c_string, strncpy, strstr}

module _ {H : Type 0} where
  unfoldable pub mbed_trace_reset_tmp : Trace H → Trace H
  mbed_trace_reset_tmp s = record s { tmp_data_ptr = s.tmp_data }

  unfoldable pub mbed_trace_config_set : (config : ℕ) → Trace H → Trace H
  mbed_trace_config_set config s = record s { trace_config = config }

  unfoldable pub mbed_trace_config_get : Trace H → ℕ
  mbed_trace_config_get s = s.trace_config

  unfoldable pub mbed_trace_prefix_function_set : (f : ℕ) → Trace H → Trace H
  mbed_trace_prefix_function_set f s = record s { prefix_f = f }

  unfoldable pub mbed_trace_suffix_function_set : (f : ℕ) → Trace H → Trace H
  mbed_trace_suffix_function_set f s = record s { suffix_f = f }

  unfoldable pub mbed_trace_print_function_set : (f : ℕ) → Trace H → Trace H
  mbed_trace_print_function_set f s = record s { printf = f }

  unfoldable pub mbed_trace_cmdprint_function_set : (f : ℕ) → Trace H → Trace H
  mbed_trace_cmdprint_function_set f s = record s { cmd_printf = f }

  unfoldable pub mbed_trace_mutex_wait_function_set : (f : ℕ) → Trace H → Trace H
  mbed_trace_mutex_wait_function_set f s = record s { mutex_wait_f = f }

  unfoldable pub mbed_trace_mutex_release_function_set : (f : ℕ) → Trace H → Trace H
  mbed_trace_mutex_release_function_set f s = record s { mutex_release_f = f }

  -- `filters` is a string, or NULL.
  unfoldable pub mbed_trace_exclude_filters_set : (filters : Option Text) → Trace H → Trace H
  mbed_trace_exclude_filters_set none s = record s { memory = write s.memory s.filters_exclude 0 }
  mbed_trace_exclude_filters_set (some filters) s = record s {
    memory = strncpy s.memory s.filters_exclude filters s.filters_length;
  }

  unfoldable pub mbed_trace_include_filters_set : (filters : Option Text) → Trace H → Trace H
  mbed_trace_include_filters_set none s = record s { memory = write s.memory s.filters_include 0 }
  mbed_trace_include_filters_set (some filters) s = record s {
    memory = strncpy s.memory s.filters_include filters s.filters_length;
  }

  unfoldable pub mbed_trace_exclude_filters_get : Trace H → ℕ
  mbed_trace_exclude_filters_get s = s.filters_exclude

  unfoldable pub mbed_trace_include_filters_get : Trace H → ℕ
  mbed_trace_include_filters_get s = s.filters_include

  unfoldable pub mbed_trace_last : Trace H → ℕ
  mbed_trace_last s = s.line

  unfoldable pub clear_buffers : Trace H → Trace H
  clear_buffers s = record s {
    memory =
        clear
          (clear
            (clear (clear s.memory s.tmp_data s.tmp_data_length) s.filters_exclude s.filters_length)
            s.filters_include s.filters_length)
          s.line s.line_length;
  }

  -- The two tests of `mbed_trace_skip`.
  unfoldable pub is_excluded : (grp : Text) → Trace H → Run Bool
  is_excluded grp s =
      if s.memory s.filters_exclude != 0
      then (do
        filters ← c_string s.filters_length s.memory s.filters_exclude
        ok (strstr filters grp))
      else ok false

  unfoldable pub is_not_included : (grp : Text) → Trace H → Run Bool
  is_not_included grp s =
      if s.memory s.filters_include != 0
      then (do
        filters ← c_string s.filters_length s.memory s.filters_include
        ok (not (strstr filters grp)))
      else ok false

  -- `dlevel` is an `int8_t`, negative from 128 on.
  unfoldable pub mbed_trace_skip : (dlevel : ℕ) → (grp : Option Text) → Trace H → Run Bool
  mbed_trace_skip dlevel none s = ok false
  mbed_trace_skip dlevel (some grp) s =
      if ltb dlevel 128
      then (do excluded ← is_excluded grp s; if excluded then ok true else is_not_included grp s)
      else ok false

module _ {H : Type 0} (env : Env H) where
  -- if (p == NULL) { p = malloc(size); }
  unfoldable pub alloc_once : (p size : ℕ) → H → ℕ × H
  alloc_once p size h = if p == 0 then env.malloc size h else (p, h)

  unfoldable pub mbed_trace_realloc : (buffer new_length : ℕ) → H → ℕ × H
  mbed_trace_realloc buffer new_length h = env.malloc new_length (env.free buffer h)

  -- A length that is not positive is 0 here.
  unfoldable pub mbed_trace_buffer_sizes : (line_length tmp_length : ℕ) → Trace H → Trace H
  mbed_trace_buffer_sizes line_length tmp_length s =
      let (line, h) = mbed_trace_realloc s.line line_length s.world in
      let s1 : Trace H =
        if line_length == 0
        then s
        else (record s { line = line; line_length = line_length; world = h }) in
      let (tmp, h) = mbed_trace_realloc s1.tmp_data tmp_length s1.world in
      if tmp_length == 0
      then s1
      else mbed_trace_reset_tmp
          (record s1 { tmp_data = tmp; tmp_data_length = tmp_length; world = h })

  -- if (m_trace.mutex_wait_f) { m_trace.mutex_wait_f(); m_trace.mutex_lock_count++; }
  unfoldable pub acquire : Trace H → Trace H
  acquire s = if s.mutex_wait_f == 0 then s else record s {
    world = env.wait s.mutex_wait_f s.world;
    mutex_lock_count = s.mutex_lock_count + 1;
  }

  -- do { m_trace.mutex_release_f(); } while (--count > 0);
  unfoldable pub release_all : (f count : ℕ) → H → H
  release_all f zero h = env.release f h
  release_all f (suc zero) h = env.release f h
  release_all f (suc (suc count)) h = release_all f (suc count) (env.release f h)

  -- The end of `mbed_vtracef`.
  unfoldable pub release_mutex : Trace H → Trace H
  release_mutex s = if s.mutex_release_f == 0 then s else record s {
    mutex_lock_count = 0;
    world = release_all s.mutex_release_f s.mutex_lock_count s.world;
  }

module _ {H : Type 0} (env : Env H) (d : Defaults) where
  unfoldable pub mbed_trace_free : Trace H → Trace H
  mbed_trace_free s = record s {
    world =
        env.free s.filters_include
          (env.free s.filters_exclude (env.free s.tmp_data (env.free s.line s.world)));
    trace_config = d.trace_config;
    filters_exclude = 0;
    filters_include = 0;
    filters_length = d.filter_length;
    line = 0;
    line_length = d.line_length;
    tmp_data = 0;
    tmp_data_length = d.tmp_line_length;
    prefix_f = 0;
    suffix_f = 0;
    printf = d.default_print;
    cmd_printf = 0;
    mutex_wait_f = 0;
    mutex_release_f = 0;
    mutex_lock_count = 0;
  }

  -- `true` is the return value 0, and `false` is -1.
  unfoldable pub mbed_trace_init : Trace H → Bool × Trace H
  mbed_trace_init s =
      let (line, h) = alloc_once env s.line s.line_length s.world in
      let (tmp_data, h) = alloc_once env s.tmp_data s.tmp_data_length h in
      let (exclude, h) = alloc_once env s.filters_exclude s.filters_length h in
      let (include, h) = alloc_once env s.filters_include s.filters_length h in
      let s' : Trace H = record s {
        line = line;
        tmp_data = tmp_data;
        tmp_data_ptr = tmp_data;
        filters_exclude = exclude;
        filters_include = include;
        world = h;
      } in
      if (line == 0) || (tmp_data == 0) || (exclude == 0) || (include == 0)
      then (false, mbed_trace_free s')
      else (true, clear_buffers s')

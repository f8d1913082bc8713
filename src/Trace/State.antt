-- ===== src/Trace/State.antt =====
-- The state of bootstrap/mbed_trace.c, what is outside, and the string functions of the C library that it uses.
use mcu_driver_hal.Base.{
  ℕ, zero, suc, ◌+◌, Bool, true, false, ◌&&◌, ◌||◌, [], ◌∷◌, Run, ok, undefined, ◌>>=◌, ltb, leb,
  ◌==◌, if◌then◌else◌,
}
use mcu_driver_hal.Printf.{Text}

abbrev pub Memory : Type 0
Memory = ℕ → ℕ

abbrev pub write : Memory → ℕ → ℕ → Memory
write m p c a = if a == p then c else m a

-- The bytes from `p` on.
abbrev pub write_bytes : Memory → ℕ → Text → Memory
write_bytes m p [] = m
write_bytes m p (c ∷ cs) = write_bytes (write m p c) (suc p) cs

-- memset(p, 0, n)
abbrev pub clear : Memory → (p n : ℕ) → Memory
clear m p n a = if leb p a && ltb a (p + n) then 0 else m a

-- The functions outside: the allocator, the mutex, and the printers and decorators by number.
pub record Env (H : Type 0) : Type 0 where
  pub malloc : (size : ℕ) → H → ℕ × H
  pub free : (p : ℕ) → H → H
  pub wait : (f : ℕ) → H → H
  pub release : (f : ℕ) → H → H
  pub print : (f : ℕ) → Memory → (p : ℕ) → H → H
  pub print_text : (f : ℕ) → Text → H → H
  pub prefix : (f size : ℕ) → H → Text × H
  pub suffix : (f : ℕ) → H → Text × H

-- `trace_t`, with the memory and the state of what is outside.
pub record Trace (H : Type 0) : Type 0 where
  pub trace_config : ℕ
  pub filters_exclude : ℕ
  pub filters_include : ℕ
  pub filters_length : ℕ
  pub line : ℕ
  pub line_length : ℕ
  pub tmp_data : ℕ
  pub tmp_data_length : ℕ
  pub tmp_data_ptr : ℕ
  pub prefix_f : ℕ
  pub suffix_f : ℕ
  pub printf : ℕ
  pub cmd_printf : ℕ
  pub mutex_wait_f : ℕ
  pub mutex_release_f : ℕ
  pub mutex_lock_count : ℕ
  pub memory : Memory
  pub world : H

-- The build's constants, and the number of `mbed_trace_default_print`.
pub record Defaults : Type 0 where
  pub trace_config : ℕ
  pub filter_length : ℕ
  pub line_length : ℕ
  pub tmp_line_length : ℕ
  pub default_print : ℕ

-- The string at an address, which has to end within `bound` bytes.
unfoldable pub c_string : (bound : ℕ) → Memory → (p : ℕ) → Run Text
c_string zero m p = undefined
c_string (suc bound) m p =
    let rest = (do cs ← c_string bound m (suc p); ok (m p ∷ cs)) in if m p == 0 then ok [] else rest

-- strncpy: the string cut to `n` characters, and NULs behind it up to `n`.
unfoldable pub strncpy : Memory → (p : ℕ) → Text → (n : ℕ) → Memory
strncpy m p cs zero = m
strncpy m p [] (suc n) = strncpy (write m p 0) (suc p) [] n
strncpy m p (c ∷ cs) (suc n) = strncpy (write m p c) (suc p) cs n

unfoldable pub starts_with : Text → Text → Bool
starts_with cs [] = true
starts_with [] (d ∷ ds) = false
starts_with (c ∷ cs) (d ∷ ds) = (c == d) && starts_with cs ds

-- strstr, as a test.
unfoldable pub strstr : (haystack needle : Text) → Bool
strstr [] ds = starts_with [] ds
strstr (c ∷ cs) ds = starts_with (c ∷ cs) ds || strstr cs ds

-- ===== src/Trace/Init.antt =====
-- Setting up and taking down the state of bootstrap/mbed_trace.c.
use mcu_driver_hal.Base.{
  ℕ, ◌+◌, ◌≤◌, ◌<◌, ◌≡◌, ◌≢◌, refl, inl, inr, Bool, true, false, ◌&&◌, ◌||◌, Option, arith, ok, leb,
  ltb, ◌==◌, Bool-cases, if◌then◌else◌,
}
use mcu_driver_hal.Printf.{Text}
use mcu_driver_hal.Trace.{
  clear_buffers, acquire, release_mutex, alloc_once, mbed_trace_free, mbed_trace_init,
}
use mcu_driver_hal.Trace.State.{Memory, clear, Env, Trace, Defaults}
use mcu_driver_hal.Trace.Line.{mbed_vtracef}

-- The bytes of a buffer are 0.
abbrev pub IsClear : Memory → (p n : ℕ) → Type 0
IsClear m p n = (a : ℕ) → p ≤ a → a < p + n → m a ≡ 0

-- Four buffers, all cleared, and the temporary one empty.
pub record IsReady {H : Type 0} (s : Trace H) : Type 0 where
  pub line_set : s.line ≢ 0
  pub tmp_set : s.tmp_data ≢ 0
  pub exclude_set : s.filters_exclude ≢ 0
  pub include_set : s.filters_include ≢ 0
  pub tmp_start : s.tmp_data_ptr ≡ s.tmp_data
  pub line_clear : IsClear s.memory s.line s.line_length
  pub tmp_clear : IsClear s.memory s.tmp_data s.tmp_data_length
  pub exclude_clear : IsClear s.memory s.filters_exclude s.filters_length
  pub include_clear : IsClear s.memory s.filters_include s.filters_length

clear-inside : (m : Memory) (p n : ℕ) → IsClear (clear m p n) p n
clear-inside m p n a lo hi = ground arith

clear-IsClear : (m : Memory) (q k p n : ℕ) → IsClear m p n → IsClear (clear m q k) p n
clear-IsClear m q k p n c a lo hi = elim (Bool-cases (leb q a && ltb a (q + k))) [
  | inl e ↦ rw e refl
  | inr e ↦ rw e (c a lo hi)
]

or-false : (a b : Bool) → (a || b) ≡ false → (a ≡ false) × (b ≡ false)
or-false true b e = absurd (true-false e)
  where
    true-false : true ≡ false → ⊥
    true-false e = ground arith
or-false false b e = (refl, e)

set-up : (p : ℕ) → (p == 0) ≡ false → p ≢ 0
set-up p e h = ground arith

module _ {H : Type 0} (env : Env H) (d : Defaults) where
  clear_buffers-IsReady :
      (s : Trace H)
      → ((s.line == 0) || (s.tmp_data == 0) || (s.filters_exclude == 0) || (s.filters_include == 0))
        ≡ false
      → s.tmp_data_ptr ≡ s.tmp_data
      → IsReady (clear_buffers s)
  unfolding clear_buffers
  clear_buffers-IsReady s e start =
      let (e3, include) =
        or-false ((s.line == 0) || (s.tmp_data == 0) || (s.filters_exclude == 0))
          (s.filters_include == 0) e in
      let (e2, exclude) =
        or-false ((s.line == 0) || (s.tmp_data == 0)) (s.filters_exclude == 0) e3 in
      let (line, tmp) = or-false (s.line == 0) (s.tmp_data == 0) e2 in
      let m1 : Memory = clear s.memory s.tmp_data s.tmp_data_length in
      let m2 : Memory = clear m1 s.filters_exclude s.filters_length in
      let m3 : Memory = clear m2 s.filters_include s.filters_length in
      record {
        line_set = set-up s.line line;
        tmp_set = set-up s.tmp_data tmp;
        exclude_set = set-up s.filters_exclude exclude;
        include_set = set-up s.filters_include include;
        tmp_start = start;
        line_clear = clear-inside m3 s.line s.line_length;
        tmp_clear = clear-IsClear m3 s.line s.line_length s.tmp_data s.tmp_data_length (
            clear-IsClear m2 s.filters_include s.filters_length s.tmp_data s.tmp_data_length (
              clear-IsClear m1 s.filters_exclude s.filters_length s.tmp_data s.tmp_data_length
                (clear-inside s.memory s.tmp_data s.tmp_data_length)));
        exclude_clear = clear-IsClear m3 s.line s.line_length s.filters_exclude s.filters_length (
            clear-IsClear m2 s.filters_include s.filters_length s.filters_exclude s.filters_length
              (clear-inside m1 s.filters_exclude s.filters_length));
        include_clear =
            clear-IsClear m3 s.line s.line_length s.filters_include s.filters_length
              (clear-inside m2 s.filters_include s.filters_length);
      }

  -- Tracing after `mbed_trace_free` changes nothing.
  free-silent :
      (dlevel : ℕ) (grp body : Option Text) (s : Trace H)
      → mbed_vtracef env dlevel grp body (mbed_trace_free env d s) ≡ ok (mbed_trace_free env d s)
  unfolding mbed_vtracef mbed_trace_free acquire release_mutex
  free-silent dlevel grp body s = refl

  abbrev pub IsSetUp : Bool × Trace H → Type 0
  IsSetUp (true, s) = IsReady s
  IsSetUp (false, s) =
      (dlevel : ℕ) (grp body : Option Text) → mbed_vtracef env dlevel grp body s ≡ ok s

  finish-IsSetUp :
      (s : Trace H)
      → s.tmp_data_ptr ≡ s.tmp_data
      → IsSetUp (
          if (s.line == 0)
            || (s.tmp_data == 0)
            || (s.filters_exclude == 0)
            || (s.filters_include == 0)
          then (false, mbed_trace_free env d s)
          else (true, clear_buffers s))
  finish-IsSetUp s start =
      elim (Bool-cases (
        (s.line == 0)
        || (s.tmp_data == 0)
        || (s.filters_exclude == 0)
        || (s.filters_include == 0))) [
          | inl e ↦ rw e (λ dlevel grp body. free-silent dlevel grp body s)
          | inr e ↦ rw e (clear_buffers-IsReady s e start)
        ]

  -- What `mbed_trace_init` leaves: where it succeeds, four buffers that are not NULL and all zeros,
  -- with the temporary one empty; where it fails, a state in which `mbed_vtracef` changes nothing,
  -- whatever it is called with.
  pub mbed_trace_init-IsSetUp : (s : Trace H) → IsSetUp (mbed_trace_init env d s)
  unfolding mbed_trace_init
  mbed_trace_init-IsSetUp s =
      let (line, h1) = alloc_once env s.line s.line_length s.world in
      let (tmp_data, h2) = alloc_once env s.tmp_data s.tmp_data_length h1 in
      let (exclude, h3) = alloc_once env s.filters_exclude s.filters_length h2 in
      let (include, h4) = alloc_once env s.filters_include s.filters_length h3 in
      finish-IsSetUp
        (record s {
          line = line;
          tmp_data = tmp_data;
          tmp_data_ptr = tmp_data;
          filters_exclude = exclude;
          filters_include = include;
          world = h4;
        })
        refl

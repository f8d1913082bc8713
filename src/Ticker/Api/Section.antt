-- ===== src/Ticker/Api/Section.antt =====
-- The critical section round the public functions of hal/source/mbed_ticker_api.c.
use mcu_driver_hal.Base.{
  ℕ, ◌+◌, ◌<◌, ◌≡◌, refl, Bool, Run, ◌>>=◌, Returns, Returns-mono, Returns-bind,
}
use mcu_driver_hal.Critical.{
  Critical, uint32_max, core_util_critical_section_enter, core_util_critical_section_exit,
}
use mcu_driver_hal.Critical.Nesting.{IsNested, enter-IsNested, exit-IsNested}
use mcu_driver_hal.Ticker.Types.{Sys}
use mcu_driver_hal.Ticker.Api.{enter, exit}

module _ {H : Type 0} (before : Bool) (depth : ℕ) where
  pub enter-lem :
      (s : Sys H)
      → IsNested before depth s.critical
      → depth < uint32_max
      → Returns
          (λ s'. (c : Critical) × IsNested before (depth + 1) c × (s' ≡ record s { critical = c }))
          (enter s)
  unfolding enter
  enter-lem s n lt =
      Returns-bind (IsNested before (depth + 1)) _ (core_util_critical_section_enter s.critical) _
        (enter-IsNested before depth s.critical n lt) (λ c m. (c, m, refl))

  pub exit-lem :
      (s : Sys H)
      → IsNested before (depth + 1) s.critical
      → Returns
          (λ s'. (c : Critical) × IsNested before depth c × (s' ≡ record s { critical = c }))
          (exit s)
  unfolding exit
  exit-lem s n =
      Returns-bind (IsNested before depth) _ (core_util_critical_section_exit s.critical) _
        (exit-IsNested before depth s.critical n) (λ c m. (c, m, refl))

  -- A body between `enter` and `exit`: it runs with interrupts off, and what it establishes of the
  -- rest of the state holds afterwards with the section closed.
  pub section_lem :
      (Post : Sys H → Type 0) (body : Sys H → Run (Sys H)) (s : Sys H)
      → IsNested before depth s.critical
      → depth < uint32_max
      → ((s' : Sys H) (c : Critical) → Post s' → Post (record s' { critical = c }))
      → ((c : Critical)
          → IsNested before (depth + 1) c
          → Returns (λ s'. Post s' × (s'.critical ≡ c)) (body (record s { critical = c })))
      → Returns
          (λ s'. Post s' × IsNested before depth s'.critical)
          (enter s >>= λ s1. body s1 >>= λ s2. exit s2)
  section_lem Post body s n lt frame run =
      Returns-bind _ _ (enter s) _ (enter-lem s n lt) (λ s1 (c, m, e). rw e (
        Returns-bind (λ s'. Post s' × (s'.critical ≡ c)) _ (body (record s { critical = c })) _
          (run c m)
          (λ s2 (p, same).
            Returns-mono _ _ (exit s2) (exit-lem s2 (rw same m))
              (λ s3 (c3, m3, e3). rw e3 (frame s2 c3 p, m3)))))

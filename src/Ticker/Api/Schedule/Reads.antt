-- ===== src/Ticker/Api/Schedule/Reads.antt =====
-- The time of hal/source/mbed_ticker_api.c over the reads of the counter.
use mcu_driver_hal.Base.{ℕ, ◌+◌, ◌*◌, ◌^◌, ◌<◌, ◌≡◌, ap, subst, ◌∙◌, false, List, ◌∷◌, arith}
use mcu_driver_hal.Base.Words.{u64}
use mcu_driver_hal.Ticker.Types.{Interface, Queue, Config, Sys}
use mcu_driver_hal.Ticker.Clock.Advance.{
  Advanced, total_ticks, elapsed_ticks, elapsed_ticks-eq, advance-Advanced, advance-with_running,
  Advanced-trans,
}
use mcu_driver_hal.Ticker.Api.Schedule.{updated, IsTiming, update_active}
use mcu_driver_hal.Ticker.Api.Schedule.Keeps.{SameLinks, update-SameLinks}

module _ {H : Type 0} (cfg : Config) (i : Interface H) (f bits : ℕ) where
  pub active-SameLinks : (s : Sys H) → s.queue.suspended ≡ false → SameLinks s (updated cfg i s)
  active-SameLinks s active =
      subst (SameLinks s) (update_active cfg i s active) (update-SameLinks cfg i f bits s)

  -- The first read of the loop, before `more` further ones.
  pub first-Advanced :
      (s s' : Sys H) (q : Queue) (more : List ℕ)
      → IsTiming f bits s.queue
      → q.tick_last_read ≡ (updated cfg i s).queue.tick_last_read
      → q.tick_remainder ≡ (updated cfg i s).queue.tick_remainder
      → q.present_time ≡ (updated cfg i s).queue.present_time
      → q.period_num ≡ (updated cfg i s).queue.period_num
      → q.period_den ≡ (updated cfg i s).queue.period_den
      → Advanced q (total_ticks bits q.tick_last_read more) s'.queue
      → Advanced s.queue (total_ticks bits s.queue.tick_last_read ((i.read s.hw).0 ∷ more)) s'.queue
  first-Advanced s s' q more t last rest present num den m =
      let r = (i.read s.hw).0 in
      let c = t.configured in
      let a = advance-Advanced cfg f bits s.queue r c.period c.counter t.rest t.now in
      let same = advance-with_running cfg s.queue r in
      let last_eq : q.tick_last_read ≡ r = last ∙ ap (λ (x : Queue). x.tick_last_read) same in
      rw (← elapsed_ticks-eq bits s.queue r c.counter) (
        Advanced-trans s.queue q s'.queue (elapsed_ticks s.queue r) (total_ticks bits r more)
          (num ∙ ap (λ (x : Queue). x.period_num) same)
          (den ∙ ap (λ (x : Queue). x.period_den) same)
          (record {
            us = a.us;
            exact = ap (λ n. a.us * s.queue.period_den + n) rest ∙ a.exact;
            present = present ∙ a.present;
            rest = rw rest a.rest;
          })
          (subst (λ l. Advanced q (total_ticks bits l more) s'.queue) last_eq m))

  pub none-Advanced : (q : Queue) → IsTiming f bits q → Advanced q 0 q
  none-Advanced q t = record { us = 0; exact = omega arith; present = small t.now; rest = t.rest }
    where
      small : q.present_time < 2 ^ 64 → q.present_time ≡ u64 (q.present_time + 0)
      small lt = omega arith

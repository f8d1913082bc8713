-- ===== src/Ticker/Api/Handlers.antt =====
-- The handlers that `ticker_irq_handler` of hal/source/mbed_ticker_api.c calls, and what is seen of
-- their calls.
use mcu_driver_hal.Base.{ℕ, ◌<◌, ◌≤◌, ◌≡◌, List, [], ◌∷◌, ◌++◌, Run, ok}
use mcu_driver_hal.Ticker.Types.{Ptr, Interface, Sys}
use mcu_driver_hal.Ticker.Events.{Memory}

-- A call of a handler: the id that it is given, and the present time of the queue then.
abbrev pub Stamp : Type 0
Stamp = ℕ × ℕ

-- Handlers that return and leave the ticker alone, a log of their calls in the driver's state that
-- reading the counter and the interrupt functions leave alone, and a log of the counter's reads that
-- handlers leave alone.
pub record Logging {H : Type 0} (i : Interface H) (call : (handler id : ℕ) → Sys H → Run (Sys H))
    : Type 0 where
  pub log : H → List Stamp
  pub effect : (handler id now : ℕ) → H → H
  pub runs :
      (handler id : ℕ) (s : Sys H)
      → call handler id s ≡ ok (record s { hw = effect handler id s.queue.present_time s.hw })
  pub log-effect :
      (handler id now : ℕ) (h : H) → log (effect handler id now h) ≡ log h ++ (id, now) ∷ []
  pub log-read : (h : H) → log (i.read h).1 ≡ log h
  pub log-set : (t : ℕ) (h : H) → log (i.set_interrupt t h) ≡ log h
  pub log-fire : (h : H) → log (i.fire_interrupt h) ≡ log h
  pub log-clear : (h : H) → log (i.clear_interrupt h) ≡ log h
  pub seen : H → List ℕ
  pub seen-read : (h : H) → seen (i.read h).1 ≡ seen h ++ (i.read h).0 ∷ []
  pub seen-effect : (handler id now : ℕ) (h : H) → seen (effect handler id now h) ≡ seen h

-- The calls are those of the events in order, each at its time or later.
abbrev pub OnTime : Memory → List Ptr → List Stamp → Type 0
OnTime m [] [] = Unit
OnTime m [] (c ∷ cs) = ⊥
OnTime m (x ∷ xs) [] = ⊥
OnTime m (x ∷ xs) (c ∷ cs) = (c.0 ≡ (m x).id) × ((m x).timestamp ≤ c.1) × OnTime m xs cs

-- Nothing is due any more.
abbrev pub NoneDue : Memory → (now : ℕ) → List Ptr → Type 0
NoneDue m now [] = Unit
NoneDue m now (x ∷ xs) = now < (m x).timestamp

-- The loop's last read is made where it stops at an event that is not due.
abbrev pub last_read : (left : List Ptr) → ℕ
last_read [] = 0
last_read (x ∷ xs) = 1

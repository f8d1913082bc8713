-- ===== src/Ticker/Events.antt =====
-- The linked list of events in hal/source/mbed_ticker_api.c: the walks and the writes of
-- `insert_event` and `ticker_remove_event`. The event objects belong to the callers and stand in a
-- memory by address; a walk has a number of rounds, and `Run.out_of_fuel` where they are used up.
pub mod Chain
pub mod Insert
pub mod Place
pub mod Remove
pub mod Splice
pub mod Drop
use mcu_driver_hal.Base.{ℕ, zero, suc, Run, ok, out_of_fuel, ◌>>=◌, ltb, ◌==◌, if◌then◌else◌}
use mcu_driver_hal.Ticker.Types.{Ptr, null, Event}

abbrev pub Memory : Type 0
Memory = Ptr → Event

abbrev pub write : Memory → Ptr → Event → Memory
write m p e a = if a == p then e else m a

abbrev pub set_next : Memory → Ptr → Ptr → Memory
set_next m p q = write m p (record (m p) { next = q })

-- while (p != NULL) { if (timestamp < p->timestamp) break; prev = p; p = p->next; }
unfoldable pub find_place : ℕ → Memory → (timestamp : ℕ) → (prev p : Ptr) → Run (Ptr × Ptr)
find_place zero m timestamp prev p = out_of_fuel
find_place (suc rounds) m timestamp prev p =
    let rest = find_place rounds m timestamp p (m p).next in
    if p == null then ok (prev, p) else if ltb timestamp (m p).timestamp then ok (prev, p) else rest

-- The memory and the head after `insert_event` linked `obj` in, with its `prev`.
pub record Linked : Type 0 where
  pub prev : Ptr
  pub head : Ptr
  pub memory : Memory

-- The two writes behind the walk.
unfoldable pub link_at : Memory → (head obj prev p : Ptr) → Linked
link_at m head obj prev p =
    let m = set_next m obj p in
    if prev == null
    then (record { prev = prev; head = obj; memory = m })
    else (record { prev = prev; head = head; memory = set_next m prev obj })

unfoldable pub link : ℕ → Memory → (head obj : Ptr) → (timestamp id : ℕ) → Run Linked
link rounds m head obj timestamp id = do
  let m = write m obj (record (m obj) { timestamp = timestamp; id = id })
  (prev, p) ← find_place rounds m timestamp null head
  ok (link_at m head obj prev p)

-- while (p != NULL) { if (p->next == obj) { p->next = obj->next; break; } p = p->next; }
unfoldable pub unlink_after : ℕ → Memory → (obj p : Ptr) → Run Memory
unlink_after zero m obj p = out_of_fuel
unlink_after (suc rounds) m obj p =
    let rest = unlink_after rounds m obj (m p).next in
    if p == null then ok m else if (m p).next == obj then ok (set_next m p (m obj).next) else rest

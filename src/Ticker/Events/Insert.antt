-- ===== src/Ticker/Events/Insert.antt =====
-- Insertion into the list of events (`insert_event` of hal/source/mbed_ticker_api.c).
use mcu_driver_hal.Base.{
  ℕ, zero, suc, ◌<◌, ◌≡◌, ◌≢◌, refl, ap, ap₂, sym, ◌∙◌, inl, inr, true, false, List, [], ◌∷◌, arith,
  ok, Returns, ◌==◌, ltb, ==-ne, length, has, Distinct, Bool-cases,
}
use mcu_driver_hal.Ticker.Types.{Ptr, null}
use mcu_driver_hal.Ticker.Events.{Memory, write, set_next, find_place, Linked, link_at, link}
use mcu_driver_hal.Ticker.Events.Chain.{Chain, Chain-frame, Entry, entry, entries, entries-frame}
use mcu_driver_hal.Ticker.Events.Splice.{
  place, insert_entry, entries-place, has-ne, has-head, has-tail, Spliced, splice,
}

-- The memory once the event's own fields are set.
abbrev pub prepared : Memory → (obj : Ptr) → (timestamp id : ℕ) → Memory
prepared m obj t i = write m obj (record (m obj) { timestamp = t; id = i })

-- What `link` does to the list.
pub record Inserted (m : Memory) (obj : Ptr) (t i : ℕ) (xs : List Ptr) (l : Linked) : Type 0 where
  pub chain : Chain l.memory l.head (place m t obj xs)
  pub order : entries l.memory (place m t obj xs) ≡ insert_entry (t, i) (entries m xs)
  pub first : (l.prev == null) ≡ (l.head == obj)
  pub rest : (a : Ptr) → a ≢ obj → entry l.memory a ≡ entry m a

place-prepared :
    (m : Memory) (obj : Ptr) (t i : ℕ) (xs : List Ptr)
    → has obj xs ≡ false
    → place (prepared m obj t i) t obj xs ≡ place m t obj xs
place-prepared m obj t i [] out = refl
place-prepared m obj t i (x ∷ xs) out = ground (arith, place-prepared m obj t i xs)

module _ (m : Memory) (obj : Ptr) (t i : ℕ) (xs : List Ptr) (out : has obj xs ≡ false) where
  entry-prepared : (a : Ptr) → a ≢ obj → entry (prepared m obj t i) a ≡ entry m a
  entry-prepared a ne = ground arith

  Chain-prepared : (p : Ptr) → Chain m p xs → Chain (prepared m obj t i) p xs
  Chain-prepared p c = Chain-frame m (prepared m obj t i) p xs c (λ a h. ground arith)

  order :
      (n : Memory)
      → ((a : Ptr) → entry n a ≡ entry (prepared m obj t i) a)
      → entries n (place m t obj xs) ≡ insert_entry (t, i) (entries m xs)
  order n same =
      let m1 = prepared m obj t i in
      let stamp : (m1 obj).timestamp ≡ t = ground arith in
      let name : (m1 obj).id ≡ i = ground arith in
      let old : entries m1 xs ≡ entries m xs =
        entries-frame m m1 xs (λ a h. entry-prepared a (has-ne a obj xs h out)) in
      entries-frame m1 n (place m t obj xs) (λ a h. same a)
      ∙ ap (λ ys. entries m1 ys) (sym (place-prepared m obj t i xs out))
      ∙ entries-place m1 t obj xs stamp
      ∙ ap₂ (λ k es. insert_entry (t, k) es) name old

  front-Inserted :
      (head : Ptr)
      → Chain m head xs
      → obj ≢ null
      → place m t obj xs ≡ obj ∷ xs
      → Inserted m obj t i xs (link_at (prepared m obj t i) head obj null head)
  unfolding link_at
  front-Inserted head c ne first =
      let m1 = prepared m obj t i in
      let n = set_next m1 obj head in
      record {
        chain = rw first (
          refl,
          ne,
          rw next_lem (Chain-frame m n head xs c (λ a h. ground (arith, has-ne a obj xs h out))),
        );
        order = order n (λ a. ground arith);
        first = ground arith;
        rest = λ a ne. ground arith;
      }
    where
      next_lem : (set_next (prepared m obj t i) obj head obj).next ≡ head
      next_lem = ground arith

set_next-entry : (m : Memory) (p q a : Ptr) → entry (set_next m p q) a ≡ entry m a
set_next-entry m p q a = ground arith

has-ne_null : (m : Memory) (p a : Ptr) (xs : List Ptr) → Chain m p xs → has a xs ≡ true → a ≢ null
has-ne_null m p a [] c h = absurd (ground arith)
has-ne_null m p a (x ∷ xs) c h = elim (Bool-cases (a == x)) [
  | inl e ↦ let same : a ≡ x = ground arith in rw same c.1
  | inr e ↦ has-ne_null m (m x).next a xs c.2 (ground arith)
]

later-Inserted :
    (rounds : ℕ) (m : Memory) (head obj : Ptr) (t i x : ℕ) (xs : List Ptr)
    (out : has obj (x ∷ xs) ≡ false)
    → Chain m head (x ∷ xs)
    → obj ≢ null
    → ltb t (m x).timestamp ≡ false
    → (s : Spliced rounds (prepared m obj t i) t obj x (prepared m obj t i x).next xs)
    → Inserted m obj t i (x ∷ xs) (link_at (prepared m obj t i) head obj s.pr s.q)
unfolding link_at
later-Inserted rounds m head obj t i x xs out c ne late s = rw not_first (record {
  chain = rw late (c.0, c.1, rw (← place-prepared m obj t i xs (has-tail obj x xs out)) s.chain);
  order = order m obj t i (x ∷ xs) out n same;
  first = not_first ∙ sym (ground (arith, has-head obj x xs out));
  rest = λ a other. same a ∙ entry-prepared m obj t i (x ∷ xs) out a other;
})
  where
    m1 : Memory
    m1 = prepared m obj t i

    n : Memory
    n = set_next (set_next m1 obj s.q) s.pr obj

    same : (a : Ptr) → entry n a ≡ entry m1 a
    same a = set_next-entry (set_next m1 obj s.q) s.pr obj a ∙ set_next-entry m1 obj s.q a

    pr-ne : s.pr ≢ null
    pr-ne = has-ne_null m head s.pr (x ∷ xs) c s.inside

    not_first : (s.pr == null) ≡ false
    not_first = ==-ne s.pr null pr-ne

find_place-end :
    (rounds : ℕ) (m : Memory) (t : ℕ) (prev : Ptr)
    → find_place (suc rounds) m t prev null ≡ ok (prev, null)
unfolding find_place
find_place-end rounds m t prev = refl

find_place-first :
    (rounds : ℕ) (m : Memory) (t : ℕ) (prev p : Ptr)
    → p ≢ null
    → ltb t (m p).timestamp ≡ true
    → find_place (suc rounds) m t prev p ≡ ok (prev, p)
unfolding find_place
find_place-first rounds m t prev p ne e = rw (==-ne p null ne) (rw e)

find_place-next :
    (rounds : ℕ) (m : Memory) (t : ℕ) (prev p : Ptr)
    → p ≢ null
    → ltb t (m p).timestamp ≡ false
    → find_place (suc rounds) m t prev p ≡ find_place rounds m t p (m p).next
unfolding find_place
find_place-next rounds m t prev p ne e = rw (==-ne p null ne) (rw e)

-- With enough rounds the walk ends, and `obj` stands behind all events that are due no later.
pub link-Inserted :
    (rounds : ℕ) (m : Memory) (head obj : Ptr) (t i : ℕ) (xs : List Ptr)
    → Chain m head xs
    → Distinct xs
    → has obj xs ≡ false
    → obj ≢ null
    → length xs < rounds
    → Returns (Inserted m obj t i xs) (link rounds m head obj t i)
unfolding link
link-Inserted zero m head obj t i xs c d out ne h = absurd (omega arith)
link-Inserted (suc rounds) m head obj t i [] c d out ne h =
    rw (c, find_place-end rounds (prepared m obj t i) t null)
      (front-Inserted m obj t i [] out null refl ne refl)
link-Inserted (suc rounds) m head obj t i (x ∷ xs) c d out ne h =
    elim (Bool-cases (ltb t (m x).timestamp)) [
      | inl early ↦
          rw (find_place-first rounds m1 t null head head-ne (stamp_test ∙ early))
            (front-Inserted m obj t i (x ∷ xs) out head c ne (rw early))
      | inr late ↦
          let s = splice rounds m1 t obj x (m1 x).next xs refl (chain1.2) d out ne (omega arith) in
          rw (find_place-next rounds m1 t null head head-ne (stamp_test ∙ late), c.0, s.found)
            (later-Inserted rounds m x obj t i x xs out (refl, c.1, c.2) ne late s)
    ]
  where
    m1 : Memory
    m1 = prepared m obj t i

    head-ne : head ≢ null
    head-ne = rw c.0 c.1

    chain1 : Chain m1 head (x ∷ xs)
    chain1 = Chain-prepared m obj t i (x ∷ xs) out head c

    stamp_test : ltb t (m1 head).timestamp ≡ ltb t (m x).timestamp
    stamp_test = rw c.0 (
        ap (λ (e : Entry). ltb t e.0)
          (entry-prepared m obj t i (x ∷ xs) out x (λ e. has-head obj x xs out (sym e))))

-- ===== src/Ticker/Events/Splice.antt =====
-- The place of an event in the list of hal/source/mbed_ticker_api.c, and the writes that put it there.
use mcu_driver_hal.Base.{
  ℕ, zero, suc, ◌≤◌, ◌<◌, ◌≡◌, ◌≢◌, refl, ap, ◌∙◌, inl, inr, true, false, List, [], ◌∷◌, arith, ok,
  ◌==◌, ltb, length, has, Distinct, Bool-cases, if◌then◌else◌,
}
use mcu_driver_hal.Ticker.Types.{Ptr, null}
use mcu_driver_hal.Ticker.Events.{Memory, set_next, find_place}
use mcu_driver_hal.Ticker.Events.Chain.{Chain, Chain-frame, Entry, entries, SortedFrom}

-- The objects in order after `obj` with time `t` is put behind all that are due no later.
abbrev pub place : Memory → (t : ℕ) → (obj : Ptr) → List Ptr → List Ptr
place m t obj [] = obj ∷ []
place m t obj (x ∷ xs) =
    let rest = place m t obj xs in if ltb t (m x).timestamp then obj ∷ x ∷ xs else x ∷ rest

-- The same of the pending entries: what an insertion means.
unfoldable pub insert_entry : Entry → List Entry → List Entry
insert_entry (t, i) [] = (t, i) ∷ []
insert_entry (t, i) ((u, j) ∷ es) =
    let rest = insert_entry (t, i) es in if ltb t u then (t, i) ∷ (u, j) ∷ es else (u, j) ∷ rest

pub insert_entry-SortedFrom :
    (b t i : ℕ) (es : List Entry) → b ≤ t → SortedFrom b es → SortedFrom b (insert_entry (t, i) es)
unfolding insert_entry
insert_entry-SortedFrom b t i [] h s = (h, tt)
insert_entry-SortedFrom b t i ((u, j) ∷ es) h s = elim (Bool-cases (ltb t u)) [
  | inl e ↦ rw e (h, (ground arith, s.1))
  | inr e ↦ rw e (s.0, insert_entry-SortedFrom u t i es (ground arith) s.1)
]

pub entries-place :
    (m : Memory) (t : ℕ) (obj : Ptr) (xs : List Ptr)
    → (m obj).timestamp ≡ t
    → entries m (place m t obj xs) ≡ insert_entry (t, (m obj).id) (entries m xs)
unfolding insert_entry
entries-place m t obj [] e = rw (← e)
entries-place m t obj (x ∷ xs) e = ground (arith, entries-place m t obj xs e)

pub has-ne : (a b : Ptr) (xs : List Ptr) → has a xs ≡ true → has b xs ≡ false → a ≢ b
has-ne a b xs h k e = cc (ap (λ t. has t xs) e)

pub has-head : (a b : Ptr) (xs : List Ptr) → has a (b ∷ xs) ≡ false → a ≢ b
has-head a b xs h = ground arith

pub has-tail : (a b : Ptr) (xs : List Ptr) → has a (b ∷ xs) ≡ false → has a xs ≡ false
has-tail a b xs h = ground arith

untouched :
    (m : Memory) (obj prev pr q : Ptr)
    → pr ≢ prev
    → obj ≢ prev
    → (set_next (set_next m obj q) pr obj prev).next ≡ (m prev).next
untouched m obj prev pr q h k = ground arith

-- The walk from `prev` stops somewhere in the list, and the two writes put `obj` in there.
pub record Spliced (rounds : ℕ) (m : Memory) (t : ℕ) (obj prev p : Ptr) (xs : List Ptr)
    : Type 0 where
  pub pr : Ptr
  pub q : Ptr
  pub found : find_place rounds m t prev p ≡ ok (pr, q)
  pub inside : has pr (prev ∷ xs) ≡ true
  pub chain :
      Chain
        (set_next (set_next m obj q) pr obj)
        (set_next (set_next m obj q) pr obj prev).next
        (place m t obj xs)

pub splice :
    (rounds : ℕ) (m : Memory) (t : ℕ) (obj prev p : Ptr) (xs : List Ptr)
    → (m prev).next ≡ p
    → Chain m p xs
    → Distinct (prev ∷ xs)
    → has obj (prev ∷ xs) ≡ false
    → obj ≢ null
    → length xs < rounds
    → Spliced rounds m t obj prev p xs
unfolding find_place
splice zero m t obj prev p xs e c d out ne h = absurd (omega arith)
splice (suc rounds) m t obj prev p [] e c d out ne h = record {
  pr = prev;
  q = p;
  found = rw c;
  inside = ground arith;
  chain = (ground arith, ne, ground arith);
}
splice (suc rounds) m t obj prev p (x ∷ xs) e c d out ne h =
    elim (Bool-cases (ltb t (m x).timestamp)) [
      | inl early ↦ record {
        pr = prev;
        q = p;
        found = rw (not_null, at) (rw early);
        inside = ground arith;
        chain = rw early (
          ground arith,
          ne,
          rw next_obj (
              Chain-frame m (set_next (set_next m obj p) prev obj) p (x ∷ xs) c
                (λ a i. ground (arith, has-ne a prev (x ∷ xs) i, has-ne a obj (x ∷ xs) i))),
        );
      }
      | inr late ↦
          let rest =
            splice rounds m t obj x (m x).next xs refl c.2 d.1 (ground arith) ne (omega arith) in
          record {
            pr = rest.pr;
            q = rest.q;
            found = rw (not_null, at) (rw late rest.found);
            inside = ground (arith, rest.inside);
            chain = rw late (
              untouched m obj prev rest.pr rest.q (has-ne rest.pr prev (x ∷ xs) rest.inside d.0)
                    (has-head obj prev (x ∷ xs) out)
                  ∙ e
                  ∙ at,
              c.1,
              rest.chain,
            );
          }
    ]
  where
    at : p ≡ x
    at = c.0

    not_null : (p == null) ≡ false
    not_null = ground arith

    next_obj : (set_next (set_next m obj p) prev obj obj).next ≡ p
    next_obj = ground arith

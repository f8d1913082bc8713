-- ===== src/Itm/Sent.antt =====
-- What the functions of hal/source/mbed_itm_api.c send.
use mcu_driver_hal.Base.{
  ℕ, zero, suc, ◌+◌, ◌-◌, ◌*◌, ◌/◌, ◌%◌, ◌^◌, ◌≤◌, ◌<◌, ◌≡◌, refl, ap, ◌∙◌, inl, inr, bit_and, Bool,
  true, false, List, [], ◌∷◌, ◌++◌, append_assoc, arith, Returns, Returns-bind, Returns-mono, ◌==◌,
  ◌!=◌, Bool-cases, if◌then◌else◌,
}
use mcu_driver_hal.Itm.{Fields, ItmUnit, read_word, wait_ready, itm_out8, itm_out32}

-- A write to a port.
pub data Write : Type 0 where
  byte word : ℕ → Write

-- The bytes that the writes carry, the lowest of a word first.
abbrev pub bytes_of : List Write → List ℕ
bytes_of [] = []
bytes_of (byte b ∷ ws) = b ∷ bytes_of ws
bytes_of (word w ∷ ws) =
    w % 2 ^ 8 ∷ w / 2 ^ 8 % 2 ^ 8 ∷ w / 2 ^ 16 % 2 ^ 8 ∷ w / 2 ^ 24 % 2 ^ 8 ∷ bytes_of ws

-- The bytes in memory from an address on.
abbrev pub slice : (memory : ℕ → ℕ) → (ptr len : ℕ) → List ℕ
slice memory ptr zero = []
slice memory ptr (suc len) = memory ptr ∷ slice memory (ptr + 1) len

-- A port is ready after at most `rounds` reads of it, and takes a write when it is ready.
pub record IsPort {H : Type 0} (u : ItmUnit H) : Type 0 where
  pub rounds : ℕ
  pub busy : H → (port : ℕ) → ℕ
  pub sent : H → (port : ℕ) → List Write
  pub bounded : (h : H) (p : ℕ) → busy h p ≤ rounds
  pub ready : (p : ℕ) (h : H) → (bit_and (u.read_port p h).0 1 == 0) ≡ (busy h p != 0)
  pub time : (p : ℕ) (h : H) → busy (u.read_port p h).1 p ≡ busy h p - 1
  pub kept : (p : ℕ) (h : H) (q : ℕ) → sent (u.read_port p h).1 q ≡ sent h q
  pub sent8 :
      (p b : ℕ) (h : H) (q : ℕ)
      → busy h p ≡ 0
      → sent (u.write_port8 p b h) q ≡ (if q == p then sent h q ++ (byte b ∷ []) else sent h q)
  pub sent32 :
      (p w : ℕ) (h : H) (q : ℕ)
      → busy h p ≡ 0
      → sent (u.write_port32 p w h) q ≡ (if q == p then sent h q ++ (word w ∷ []) else sent h q)

-- The unit as the architecture has it: the key 0xC5ACCE55 opens it, open control registers hold what
-- is written, and the bits of the trace control register stand where they do on every ITM.
pub record IsWritable {H : Type 0} (u : ItmUnit H) (f : Fields) : Type 0 where
  pub unlocked : H → Bool
  pub lar : (h : H) → unlocked (u.write_lar 0xC5ACCE55 h) ≡ true
  pub sppr : (v : ℕ) (h : H) → unlocked (u.write_sppr v h) ≡ unlocked h
  pub ffcr : (v : ℕ) (h : H) → unlocked (u.write_ffcr v h) ≡ unlocked h
  pub dwt_ctrl : (v : ℕ) (h : H) → unlocked (u.write_dwt_ctrl v h) ≡ unlocked h
  pub tpr : (v : ℕ) (h : H) → unlocked (u.write_tpr v h) ≡ unlocked h
  pub tcr : (v : ℕ) (h : H) → unlocked (u.write_tcr v h) ≡ unlocked h
  pub tcr_tcr : (v : ℕ) (h : H) → unlocked h ≡ true → u.tcr (u.write_tcr v h) ≡ v
  pub tcr_ter : (v : ℕ) (h : H) → u.tcr (u.write_ter v h) ≡ u.tcr h
  pub ter_ter : (v : ℕ) (h : H) → unlocked h ≡ true → u.ter (u.write_ter v h) ≡ v
  pub trace_bus_id : f.tcr_trace_bus_id ≡ 16
  pub dwtena : f.tcr_dwtena ≡ 3
  pub syncena : f.tcr_syncena ≡ 2
  pub itmena : f.tcr_itmena ≡ 0
  pub itmena_msk : f.tcr_itmena_msk ≡ 1

bytes_of-append : (ws vs : List Write) → bytes_of (ws ++ vs) ≡ bytes_of ws ++ bytes_of vs
bytes_of-append [] vs = refl
bytes_of-append (byte b ∷ ws) vs = ap (λ l. b ∷ l) (bytes_of-append ws vs)
bytes_of-append (word w ∷ ws) vs =
    ap (λ l. w % 2 ^ 8 ∷ w / 2 ^ 8 % 2 ^ 8 ∷ w / 2 ^ 16 % 2 ^ 8 ∷ w / 2 ^ 24 % 2 ^ 8 ∷ l)
      (bytes_of-append ws vs)

little_endian :
    (a b c d : ℕ)
    → a < 2 ^ 8
    → b < 2 ^ 8
    → c < 2 ^ 8
    → d < 2 ^ 8
    → bytes_of (word (a + 2 ^ 8 * b + 2 ^ 16 * c + 2 ^ 24 * d) ∷ []) ≡ a ∷ b ∷ c ∷ d ∷ []
little_endian a b c d ha hb hc hd =
    let w : ℕ = a + 2 ^ 8 * b + 2 ^ 16 * c + 2 ^ 24 * d in
    let ea : w % 2 ^ 8 ≡ a = omega arith in
    let eb : w / 2 ^ 8 % 2 ^ 8 ≡ b = omega arith in
    let ec : w / 2 ^ 16 % 2 ^ 8 ≡ c = omega arith in
    let ed : w / 2 ^ 24 % 2 ^ 8 ≡ d = omega arith in cc

module _ (memory : ℕ → ℕ) (bytes : (a : ℕ) → memory a < 2 ^ 8) where
  pub read_word-slice :
      (ptr : ℕ)
      → ptr % 4 ≡ 0
      → Returns (λ w. bytes_of (word w ∷ []) ≡ slice memory ptr 4) (read_word memory ptr)
  read_word-slice ptr aligned =
      let e2 : ptr + 2 ≡ ptr + 1 + 1 = omega arith in
      let e3 : ptr + 3 ≡ ptr + 1 + 1 + 1 = omega arith in
      rw (aligned, e2, e3)
        (little_endian _ _ _ _ (bytes ptr) (bytes (ptr + 1)) (bytes (ptr + 1 + 1))
          (bytes (ptr + 1 + 1 + 1)))

module _ {H : Type 0} (u : ItmUnit H) (s : IsPort u) (fuel : ℕ) where
  wait_ready-ready :
      (n p : ℕ) (h : H)
      → s.busy h p < n
      → Returns
          (λ h'. (s.busy h' p ≡ 0) × ((q : ℕ) → s.sent h' q ≡ s.sent h q))
          (wait_ready u n p h)
  unfolding wait_ready
  wait_ready-ready zero p h few = absurd (omega arith)
  wait_ready-ready (suc n) p h few =
      let h' : H = (u.read_port p h).1 in
      rw (s.ready p h) elim (Bool-cases (s.busy h p != 0)) [
        | inl more ↦ rw more (
            Returns-mono _ _ (wait_ready u n p h')
              (wait_ready-ready n p h' (let e = s.time p h in ground arith))
              (λ k r. (r.0, λ q. r.1 q ∙ s.kept p h q)))
        | inr free ↦ rw free ((s.time p h ∙ ground arith), s.kept p h)
      ]

  -- A byte more has been sent through the port, and no other port has changed.
  abbrev pub Added : (p : ℕ) → List ℕ → (h h' : H) → Type 0
  Added p l h h' =
      (bytes_of (s.sent h' p) ≡ bytes_of (s.sent h p) ++ l)
      × ((q : ℕ) → (q == p) ≡ false → s.sent h' q ≡ s.sent h q)

  pub itm_out8-Added :
      (p b : ℕ) (h : H) → s.rounds < fuel → Returns (Added p (b ∷ []) h) (itm_out8 u fuel p b h)
  unfolding itm_out8
  itm_out8-Added p b h enough =
      Returns-bind _ _ (wait_ready u fuel p h) _
        (wait_ready-ready fuel p h (let e = s.bounded h p in omega arith))
        (λ k r.
          let here : (p == p) ≡ true = ground arith in
          (
            ap bytes_of (s.sent8 p b k p r.0 ∙ rw here refl ∙ ap (λ l. l ++ (byte b ∷ [])) (r.1 p))
                ∙ bytes_of-append (s.sent h p) (byte b ∷ []),
            λ q other. s.sent8 p b k q r.0 ∙ rw other (r.1 q),
          ))

  pub itm_out32-Added :
      (p w : ℕ) (h : H)
      → s.rounds < fuel
      → Returns (Added p (bytes_of (word w ∷ [])) h) (itm_out32 u fuel p w h)
  unfolding itm_out32
  itm_out32-Added p w h enough =
      Returns-bind _ _ (wait_ready u fuel p h) _
        (wait_ready-ready fuel p h (let e = s.bounded h p in omega arith))
        (λ k r.
          let here : (p == p) ≡ true = ground arith in
          (
            ap bytes_of (s.sent32 p w k p r.0 ∙ rw here refl ∙ ap (λ l. l ++ (word w ∷ [])) (r.1 p))
                ∙ bytes_of-append (s.sent h p) (word w ∷ []),
            λ q other. s.sent32 p w k q r.0 ∙ rw other (r.1 q),
          ))

  pub Added-join :
      (p : ℕ) (l m : List ℕ) (h h' h'' : H)
      → Added p l h h'
      → Added p m h' h''
      → Added p (l ++ m) h h''
  Added-join p l m h h' h'' a b = (
    b.0 ∙ ap (λ t. t ++ m) a.0 ∙ append_assoc (bytes_of (s.sent h p)) l m,
    λ q other. b.1 q other ∙ a.1 q other,
  )

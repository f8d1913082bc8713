-- ===== src/Trace/Array/Written.antt =====
-- What a caller of `mbed_trace_array` of bootstrap/mbed_trace.c gets.
use mcu_driver_hal.Base.{
  ℕ, suc, ◌+◌, ◌-◌, ◌*◌, ◌≤◌, ◌<◌, ◌≡◌, ◌≢◌, ◌⊎◌, refl, subst, ◌∙◌, inl, inr, Bool, true, false,
  some, [], ◌∷◌, ◌++◌, length, arith, Run, ok, ◌>>=◌, Returns, Returns-bind, Returns-mono, ltb,
  ◌==◌,
}
use mcu_driver_hal.Printf.{Text}
use mcu_driver_hal.Trace.{acquire}
use mcu_driver_hal.Trace.State.{Memory, write, Env, Trace}
use mcu_driver_hal.Trace.Array.{Pointer, to, array_loop, close_array, mbed_trace_array}
use mcu_driver_hal.Trace.Held.{with_mutex, acquire-cases}
use mcu_driver_hal.Trace.Array.Bounds.{
  Stands, joined, front, joined-front, write-off, Stands-last, Stands-cut, Looped,
  array_loop-Looped,
}

-- The text of the bytes that fit, with a star where others did not.
abbrev pub shown : (done todo : Text) → Text
shown [] todo = []
shown (b ∷ done) [] = front (b ∷ done)
shown (b ∷ done) (c ∷ todo) = front (b ∷ done) ++ b'*' ∷ []

pub record IsShown {H : Type 0} (bytes : Text) (s : Trace H) (r : Pointer × Trace H) : Type 0 where
  pub done : Text
  pub todo : Text
  pub split : bytes ≡ done ++ todo
  pub pointer : r.0 ≡ to s.tmp_data_ptr
  pub text : Stands r.1.memory s.tmp_data_ptr (shown done todo)
  pub fits : s.tmp_data_ptr + 3 * length done < s.tmp_data + s.tmp_data_length
  pub whole : (todo ≡ []) ⊎ (s.tmp_data + s.tmp_data_length ≤ s.tmp_data_ptr + 3 * length done + 3)
  pub moved : r.1.tmp_data_ptr ≡ s.tmp_data_ptr + 3 * length done
  pub frame :
      (a : ℕ)
      → (a < s.tmp_data_ptr) ⊎ (s.tmp_data + s.tmp_data_length ≤ a)
      → r.1.memory a ≡ s.memory a

length-front : (b : ℕ) (bs : Text) → suc (length (front (b ∷ bs))) ≡ 3 * length (b ∷ bs)
length-front b [] = omega arith
length-front b (c ∷ bs) = omega (arith, length-front c bs)

shown-star :
    (b : ℕ) (done todo : Text) → todo ≢ [] → shown (b ∷ done) todo ≡ front (b ∷ done) ++ b'*' ∷ []
shown-star b done [] e = absurd (e refl)
shown-star b done (c ∷ todo) e = refl

close-Stands :
    (m : Memory) (str wptr : ℕ) (done todo : Text) (overflow : Bool)
    → wptr ≡ str + 3 * length done
    → ((overflow ≡ false) × (todo ≡ [])) ⊎ ((overflow ≡ true) × (todo ≢ []))
    → Stands m str (joined done)
    → Stands (close_array str wptr overflow m) str (shown done todo)
close-Stands m str wptr [] todo overflow moved o s =
    let empty : ltb str wptr ≡ false = ground arith in rw empty s
close-Stands m str wptr (b ∷ done) todo overflow moved o s =
    let ahead : ltb str wptr ≡ true = ground arith in
    let last : wptr - 1 ≡ str + length (front (b ∷ done)) = omega (arith, length-front b done) in
    let colon : Stands m str (front (b ∷ done) ++ b':' ∷ []) =
      subst (Stands m str) (joined-front b done) s in
    rw (ahead, last)
      elim o [
        | inl (plain, e) ↦ rw (plain, e) (Stands-cut m str (front (b ∷ done)) b':' colon)
        | inr (star, e) ↦
            rw (star, shown-star b done todo e)
              (Stands-last m str (front (b ∷ done)) b':' b'*' colon)
      ]

close-frame :
    (m : Memory) (str wptr : ℕ) (overflow : Bool) (a : ℕ)
    → (a < str) ⊎ (wptr ≤ a)
    → close_array str wptr overflow m a ≡ m a
close-frame m str wptr overflow a (inl h) = ground arith
close-frame m str wptr overflow a (inr h) = ground arith

module _ {H : Type 0} (env : Env H) where
  -- What `mbed_trace_array` does with the mutex held.
  abbrev array_rest : (bytes : Text) (left : ℕ) → Trace H → Run (Pointer × Trace H)
  array_rest bytes left s = do
    (m, wptr, overflow) ←
        array_loop bytes (length bytes) left s.tmp_data_ptr (write s.memory s.tmp_data_ptr 0)
    ok (
      to s.tmp_data_ptr,
      record s { memory = close_array s.tmp_data_ptr wptr overflow m; tmp_data_ptr = wptr },
    )

  array_rest-frame :
      {bytes : Text} (s : Trace H) (r : Memory × ℕ × Bool)
      → (l : Looped bytes
          (s.tmp_data_length + s.tmp_data - s.tmp_data_ptr)
          s.tmp_data_ptr
          (write s.memory s.tmp_data_ptr 0)
          r)
      → (a : ℕ) → s.tmp_data_ptr < s.tmp_data + s.tmp_data_length
      → (a < s.tmp_data_ptr) ⊎ (s.tmp_data + s.tmp_data_length ≤ a)
      → close_array s.tmp_data_ptr r.1 r.2 r.0 a ≡ s.memory a
  array_rest-frame s r l a room (inl lo) =
      close-frame r.0 s.tmp_data_ptr r.1 r.2 a (inl lo)
      ∙ l.frame a (inl lo)
      ∙ write-off s.memory s.tmp_data_ptr 0 a (omega arith)
  array_rest-frame s r l a room (inr hi) =
      close-frame r.0 s.tmp_data_ptr r.1 r.2 a (inr (omega (arith, l.moved, l.inside)))
      ∙ l.frame a (inr (omega arith))
      ∙ write-off s.memory s.tmp_data_ptr 0 a (omega arith)

  array_rest-IsShown :
      (bytes : Text) (s : Trace H)
      → s.tmp_data_ptr < s.tmp_data + s.tmp_data_length
      → Returns
          (IsShown bytes s)
          (array_rest bytes (s.tmp_data_length + s.tmp_data - s.tmp_data_ptr) s)
  array_rest-IsShown bytes s room =
      let left : ℕ = s.tmp_data_length + s.tmp_data - s.tmp_data_ptr in
      let m : Memory = write s.memory s.tmp_data_ptr 0 in
      Returns-bind (Looped bytes left s.tmp_data_ptr m) (IsShown bytes s)
        (array_loop bytes (length bytes) left s.tmp_data_ptr m)
        (λ (m, wptr, overflow). ok (
          to s.tmp_data_ptr,
          record s { memory = close_array s.tmp_data_ptr wptr overflow m; tmp_data_ptr = wptr },
        ))
        (array_loop-Looped bytes left s.tmp_data_ptr m (omega arith) (ground arith))
        (λ r l. record {
          done = l.done;
          todo = l.todo;
          split = l.split;
          pointer = refl;
          text =
              close-Stands r.0 s.tmp_data_ptr r.1 l.done l.todo r.2 l.moved
                (elim l.overflowed [ inl h ↦ inl h | inr (o, t, e) ↦ inr (o, t) ]) l.text;
          fits = omega (arith, l.inside);
          whole = elim l.overflowed [ inl (o, t) ↦ inl t | inr (o, t, e) ↦ inr (omega (arith, e)) ];
          moved = l.moved;
          frame = λ a h. array_rest-frame s r l a room h;
        })

  array_held :
      (b : ℕ) (bytes : Text) (s s' : Trace H)
      → acquire env s ≡ s'
      → 0 < s'.tmp_data_ptr
      → s'.tmp_data_ptr < s'.tmp_data + s'.tmp_data_length
      → mbed_trace_array env (some (b ∷ bytes)) (length (b ∷ bytes)) s
        ≡ array_rest (b ∷ bytes) (s'.tmp_data_length + s'.tmp_data - s'.tmp_data_ptr) s'
  unfolding mbed_trace_array
  array_held b bytes s s' held set room =
      let some_left : (s'.tmp_data_length + s'.tmp_data - s'.tmp_data_ptr == 0) ≡ false =
        ground arith in
      let not_null : (s'.tmp_data_ptr == 0) ≡ false = ground arith in
      let not_empty : (length (b ∷ bytes) == 0) ≡ false = ground arith in
      rw (held, not_empty, not_null, some_left) refl

  -- `mbed_trace_array` of a non-empty array, with its pointer not NULL and before the end of the
  -- temporary buffer, returns that pointer; there stand the bytes that fit, two digits each with
  -- colons between, ended by a star in place of the last colon where bytes are left out, which is so
  -- only where the next three characters do not fit; the new pointer is before the end of the buffer,
  -- and no byte changes before the old pointer or behind the buffer.
  pub mbed_trace_array-IsShown :
      (b : ℕ) (bytes : Text) (s : Trace H)
      → 0 < s.tmp_data_ptr
      → s.tmp_data_ptr < s.tmp_data + s.tmp_data_length
      → Returns
          (IsShown (b ∷ bytes) s)
          (mbed_trace_array env (some (b ∷ bytes)) (length (b ∷ bytes)) s)
  mbed_trace_array-IsShown b bytes s set room = elim (acquire-cases env s) [
    | inl e ↦ rw (array_held b bytes s s e set room) (array_rest-IsShown (b ∷ bytes) s room)
    | inr e ↦ rw (array_held b bytes s (with_mutex env s) e set room) (
        Returns-mono (IsShown (b ∷ bytes) (with_mutex env s)) (IsShown (b ∷ bytes) s)
          (array_rest (b ∷ bytes) (s.tmp_data_length + s.tmp_data - s.tmp_data_ptr)
            (with_mutex env s))
          (array_rest-IsShown (b ∷ bytes) (with_mutex env s) room)
          (λ r l. record {
            done = l.done;
            todo = l.todo;
            split = l.split;
            pointer = l.pointer;
            text = l.text;
            fits = l.fits;
            whole = l.whole;
            moved = l.moved;
            frame = l.frame;
          }))
  ]

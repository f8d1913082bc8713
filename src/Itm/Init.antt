-- ===== src/Itm/Init.antt =====
-- mbed_itm_init and mbed_itm_send of hal/source/mbed_itm_api.c.
use mcu_driver_hal.Base.{
  ℕ, zero, suc, ◌*◌, ◌^◌, ◌<◌, ◌≡◌, ◌!=◌, bit_and, refl, sym, ap, ◌∙◌, inl, inr, true, false, [],
  ◌++◌, append-nil, Returns, Returns-bind, Returns-mono, Bool-cases, if◌then◌else◌, ◌∷◌,
}
use mcu_driver_hal.Itm.{
  Fields, ItmUnit, Itm, enable_write, swo_nrz, tcr_value, dwt_ctrl_value, mbed_itm_init, is_enabled,
  itm_out32, mbed_itm_send, mbed_itm_send_block,
}
use mcu_driver_hal.Itm.Sent.{word, bytes_of, slice, IsPort, IsWritable, itm_out32-Added}
use mcu_driver_hal.Itm.Block.{mbed_itm_send_block-sends}

module _ {H : Type 0} (u : ItmUnit H) (f : Fields) where
  unfoldable pub init_times : ℕ → Itm H → Itm H
  init_times zero s = s
  init_times (suc n) s = init_times n (mbed_itm_init u f s)

  init_again : (n : ℕ) (s : Itm H) → s.do_init ≡ false → init_times n s ≡ s
  unfolding init_times mbed_itm_init
  init_again zero s done = refl
  init_again (suc n) s done = simp (done) (init_again n s done)

  init_done : (s : Itm H) → s.do_init ≡ true → (mbed_itm_init u f s).do_init ≡ false
  unfolding mbed_itm_init
  init_done s first = simp (first) refl

  -- The value written to the trace control register has the bit that enables the unit.
  tcr_value-enables : IsWritable u f → (bit_and (tcr_value f) f.tcr_itmena_msk != 0) ≡ true
  tcr_value-enables r = rw (r.trace_bus_id, r.dwtena, r.syncena, r.itmena, r.itmena_msk) refl

  init-is_enabled :
      (r : IsWritable u f) (s : Itm H)
      → s.do_init ≡ true
      → is_enabled u f 0 (mbed_itm_init u f s).hw ≡ true
  unfolding mbed_itm_init
  init-is_enabled r s first =
      let h0 = u.write_lar enable_write (u.itm_init s.hw) in
      let h1 = u.write_sppr (swo_nrz * 2 ^ f.sppr_txmode) h0 in
      let h2 = u.write_ffcr (2 ^ f.ffcr_trig_in) h1 in
      let h3 = u.write_dwt_ctrl (dwt_ctrl_value f) h2 in
      let h4 = u.write_tpr 0x0 h3 in
      let h5 = u.write_tcr (tcr_value f) h4 in
      let open4 : r.unlocked h4 ≡ true =
        r.tpr 0x0 h3
        ∙ r.dwt_ctrl (dwt_ctrl_value f) h2
        ∙ r.ffcr (2 ^ f.ffcr_trig_in) h1
        ∙ r.sppr (swo_nrz * 2 ^ f.sppr_txmode) h0
        ∙ r.lar (u.itm_init s.hw) in
      let open5 : r.unlocked h5 ≡ true = r.tcr (tcr_value f) h4 ∙ open4 in
      let tcr : u.tcr (u.write_ter 1 h5) ≡ tcr_value f =
        r.tcr_ter 1 h5 ∙ r.tcr_tcr (tcr_value f) h4 open4 in
      let ter : u.ter (u.write_ter 1 h5) ≡ 1 = r.ter_ter 1 h5 open5 in
      simp (first) (rw (tcr, ter, tcr_value-enables r) refl)

module _ {H : Type 0} (u : ItmUnit H) (s : IsPort u) (f : Fields) (fuel : ℕ) where
  -- On a unit whose registers hold what is written once the key 0xC5ACCE55 has opened it, with the
  -- bits of the trace control register at the architecture's positions, with a memory of bytes and more
  -- reads of a port than it can be busy for: after the first call of `mbed_itm_init` and any number
  -- of further calls, a block sent to port 0 adds its bytes, in order, to what the port had sent
  -- after the first call.
  pub mbed_itm_init-mbed_itm_send_block :
      (r : IsWritable u f) (memory : ℕ → ℕ) (ptr len n : ℕ) (t : Itm H)
      → ((a : ℕ) → memory a < 2 ^ 8)
      → s.rounds < fuel
      → t.do_init ≡ true
      → Returns
          (λ h'.
            bytes_of (s.sent h' 0)
            ≡ bytes_of (s.sent (mbed_itm_init u f t).hw 0) ++ slice memory ptr len)
          (mbed_itm_send_block u f fuel memory 0 ptr len (init_times u f (suc n) t).hw)
  unfolding init_times
  mbed_itm_init-mbed_itm_send_block r memory ptr len n t bytes enough first =
      let t1 : Itm H = mbed_itm_init u f t in
      rw (init_again u f n t1 (init_done u f t first)) (
        Returns-mono _ _ (mbed_itm_send_block u f fuel memory 0 ptr len t1.hw)
          (mbed_itm_send_block-sends u s f fuel memory 0 ptr len t1.hw bytes enough)
          (λ h' a.
            a.0
            ∙ ap (λ b. bytes_of (s.sent t1.hw 0) ++ (if b then slice memory ptr len else []))
                (init-is_enabled u f r t first)))

  -- `mbed_itm_send` returns the word it is given; it sends it where the ITM and the port are enabled
  -- and nothing otherwise.
  pub mbed_itm_send-sends :
      (p value : ℕ) (h : H)
      → s.rounds < fuel
      → Returns
          (λ (r : ℕ × H).
            (r.0 ≡ value)
            × (bytes_of (s.sent r.1 p)
                ≡ bytes_of (s.sent h p)
                  ++ (if is_enabled u f p h then bytes_of (word value ∷ []) else [])))
          (mbed_itm_send u f fuel p value h)
  unfolding mbed_itm_send
  mbed_itm_send-sends p value h enough = elim (Bool-cases (is_enabled u f p h)) [
    | inl on ↦ rw on (
        Returns-bind _ _ (itm_out32 u fuel p value h) _ (itm_out32-Added u s fuel p value h enough)
          (λ h' a. (refl, a.0)))
    | inr off ↦ rw off (refl, sym (append-nil (bytes_of (s.sent h p))))
  ]

-- ===== src/Itm/Tests.antt =====
-- The functions of hal/source/mbed_itm_api.c on a concrete unit.
use mcu_driver_hal.Base.{
  ℕ, ◌-◌, ◌%◌, ◌^◌, ◌≤◌, ◌<◌, ◌≡◌, refl, bit_and, Bool, true, false, List, [], ◌∷◌, ◌++◌, arith,
  Returns, ltb, ◌==◌, ◌!=◌, if◌then◌else◌, Bool-cases, inl, inr,
}
use mcu_driver_hal.Itm.{Fields, ItmUnit, Itm, mbed_itm_init, mbed_itm_send_block}
use mcu_driver_hal.Itm.Sent.{Write, byte, word, bytes_of, IsPort, IsWritable}
use mcu_driver_hal.Itm.Block.{mbed_itm_send_block-sends}
use mcu_driver_hal.Itm.Init.{init_times, mbed_itm_init-mbed_itm_send_block}

-- The registers; `busy` is the number of reads until the ports are ready, at most 3.
record Hardware : Type 0 where
  control : ℕ
  enabled_ports : ℕ
  unlocked : Bool
  busy : ℕ
  sent : ℕ → List Write

abbrev rounds_of : ℕ → ℕ
rounds_of b = if ltb b 3 then b else 3

abbrev written : (port : ℕ) → Write → Hardware → Hardware
written port w h =
    if rounds_of h.busy == 0
    then record h { busy = 3; sent = λ q. if q == port then h.sent q ++ (w ∷ []) else h.sent q }
    else h

abbrev unit : ItmUnit Hardware
unit = record {
  itm_init = λ h. h;
  write_lar = λ v h. record h { unlocked = v == 0xC5ACCE55 };
  write_sppr = λ v h. h;
  write_ffcr = λ v h. h;
  write_dwt_ctrl = λ v h. h;
  write_tpr = λ v h. h;
  write_tcr = λ v h. if h.unlocked then record h { control = v } else h;
  write_ter = λ v h. if h.unlocked then record h { enabled_ports = v } else h;
  tcr = λ h. h.control;
  ter = λ h. h.enabled_ports;
  read_port = λ port h.
      ((if rounds_of h.busy != 0 then 0 else 1), record h { busy = rounds_of h.busy - 1 });
  write_port8 = λ port v h. written port (byte v) h;
  write_port32 = λ port v h. written port (word v) h;
}

ready_lem : (b : Bool) → (bit_and (if b then 0 else 1) 1 == 0) ≡ b
ready_lem true = refl
ready_lem false = refl

time_lem : (b : ℕ) → rounds_of (rounds_of b - 1) ≡ rounds_of b - 1
time_lem b = ground arith

written-sent :
    (p : ℕ) (w : Write) (h : Hardware) (q : ℕ)
    → rounds_of h.busy ≡ 0
    → (written p w h).sent q ≡ (if q == p then h.sent q ++ (w ∷ []) else h.sent q)
written-sent p w h q free = rw free refl

bounded_lem : (b : ℕ) → rounds_of b ≤ 3
bounded_lem b = ground arith

abbrev port_laws : IsPort unit
port_laws = record {
  rounds = 3;
  busy = λ h p. rounds_of h.busy;
  sent = λ h p. h.sent p;
  bounded = λ h p. bounded_lem h.busy;
  ready = λ p h. ready_lem (rounds_of h.busy != 0);
  time = λ p h. time_lem h.busy;
  kept = λ p h q. refl;
  sent8 = λ p b h q free. written-sent p (byte b) h q free;
  sent32 = λ p w h q free. written-sent p (word w) h q free;
}

-- The positions of the ARMv7-M architecture.
abbrev fields : Fields
fields = record {
  sppr_txmode = 0;
  ffcr_trig_in = 8;
  ctrl_cyctap = 9;
  ctrl_postinit = 5;
  ctrl_postpreset = 1;
  ctrl_cyccntena = 0;
  tcr_trace_bus_id = 16;
  tcr_dwtena = 3;
  tcr_syncena = 2;
  tcr_itmena = 0;
  tcr_itmena_msk = 1;
}

tcr_lem : (v : ℕ) (h : Hardware) → (unit.write_tcr v h).unlocked ≡ h.unlocked
tcr_lem v h = elim (Bool-cases h.unlocked) [ inl on ↦ simp (on) refl | inr off ↦ simp (off) refl ]

tcr_tcr_lem : (v : ℕ) (h : Hardware) → h.unlocked ≡ true → (unit.write_tcr v h).control ≡ v
tcr_tcr_lem v h on = simp (on) refl

tcr_ter_lem : (v : ℕ) (h : Hardware) → (unit.write_ter v h).control ≡ h.control
tcr_ter_lem v h = elim (Bool-cases h.unlocked) [
  | inl on ↦ simp (on) refl
  | inr off ↦ simp (off) refl
]

ter_ter_lem : (v : ℕ) (h : Hardware) → h.unlocked ≡ true → (unit.write_ter v h).enabled_ports ≡ v
ter_ter_lem v h on = simp (on) refl

abbrev writable : IsWritable unit fields
writable = record {
  unlocked = λ h. h.unlocked;
  lar = λ h. refl;
  sppr = λ v h. refl;
  ffcr = λ v h. refl;
  dwt_ctrl = λ v h. refl;
  tpr = λ v h. refl;
  tcr = tcr_lem;
  tcr_tcr = tcr_tcr_lem;
  tcr_ter = tcr_ter_lem;
  ter_ter = ter_ter_lem;
  trace_bus_id = refl;
  dwtena = refl;
  syncena = refl;
  itmena = refl;
  itmena_msk = refl;
}

abbrev memory : ℕ → ℕ
memory a = a % 2 ^ 8

memory_lem : (a : ℕ) → memory a < 2 ^ 8
memory_lem a = omega arith

abbrev reset : Itm Hardware
reset = record {
  do_init = true;
  hw = record { control = 0; enabled_ports = 0; unlocked = false; busy = 2; sent = λ q. [] };
}

-- A block that starts and ends in the middle of a word.
mbed_itm_send_block-sends_example :
    Returns
      (λ h.
        (bytes_of (h.sent 0) ≡ 2 ∷ 3 ∷ 4 ∷ 5 ∷ 6 ∷ 7 ∷ 8 ∷ [])
        × ((q : ℕ) → (q == 0) ≡ false → h.sent q ≡ []))
      (mbed_itm_send_block unit fields 4 memory 0 2 7
        (record { control = 1; enabled_ports = 1; unlocked = true; busy = 1; sent = λ q. [] }))
mbed_itm_send_block-sends_example =
    mbed_itm_send_block-sends unit port_laws fields 4 memory 0 2 7
      (record { control = 1; enabled_ports = 1; unlocked = true; busy = 1; sent = λ q. [] })
      memory_lem (omega arith)

mbed_itm_init-mbed_itm_send_block_example :
    Returns
      (λ h. bytes_of (h.sent 0) ≡ 3 ∷ 4 ∷ 5 ∷ 6 ∷ 7 ∷ 8 ∷ [])
      (mbed_itm_send_block unit fields 4 memory 0 3 6 (init_times unit fields 3 reset).hw)
unfolding mbed_itm_init
mbed_itm_init-mbed_itm_send_block_example =
    mbed_itm_init-mbed_itm_send_block unit port_laws fields 4 writable memory 3 6 2 reset memory_lem
      (omega arith) refl

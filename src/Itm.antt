-- ===== src/Itm.antt =====
-- hal/source/mbed_itm_api.c. The registers and the positions of their fields are those of CMSIS,
-- which are parameters, and so is the target's `itm_init`. Addresses are numbers and the memory gives
-- the byte at each.
pub mod Sent
pub mod Block
pub mod Init
mod Tests
use mcu_driver_hal.Base.{
  ℕ, zero, suc, ◌+◌, ◌*◌, ◌%◌, ◌^◌, bit_and, Bool, true, false, ◌&&◌, Run, ok, undefined,
  out_of_fuel, ◌>>=◌, ◌==◌, ◌!=◌, if◌then◌else◌,
}

-- The positions and the mask of CMSIS.
pub record Fields : Type 0 where
  pub sppr_txmode : ℕ
  pub ffcr_trig_in : ℕ
  pub ctrl_cyctap : ℕ
  pub ctrl_postinit : ℕ
  pub ctrl_postpreset : ℕ
  pub ctrl_cyccntena : ℕ
  pub tcr_trace_bus_id : ℕ
  pub tcr_dwtena : ℕ
  pub tcr_syncena : ℕ
  pub tcr_itmena : ℕ
  pub tcr_itmena_msk : ℕ

-- The registers of ITM, TPI and DWT; reading a port takes time.
pub record ItmUnit (H : Type 0) : Type 0 where
  pub itm_init : H → H
  pub write_lar : ℕ → H → H
  pub write_sppr : ℕ → H → H
  pub write_ffcr : ℕ → H → H
  pub write_dwt_ctrl : ℕ → H → H
  pub write_tpr : ℕ → H → H
  pub write_tcr : ℕ → H → H
  pub write_ter : ℕ → H → H
  pub tcr : H → ℕ
  pub ter : H → ℕ
  pub read_port : (port : ℕ) → H → ℕ × H
  pub write_port8 : (port value : ℕ) → H → H
  pub write_port32 : (port value : ℕ) → H → H

-- `do_init` is the static variable of mbed_itm_init.
pub record Itm (H : Type 0) : Type 0 where
  pub do_init : Bool
  pub hw : H

-- ITM_STIM_FIFOREADY_Msk
abbrev pub fifoready_msk : ℕ
fifoready_msk = 1

-- ITM_ENABLE_WRITE
abbrev pub enable_write : ℕ
enable_write = 0xC5ACCE55

-- SWO_NRZ
abbrev pub swo_nrz : ℕ
swo_nrz = 0x02

-- SWO_STIMULUS_PORT
abbrev pub swo_stimulus_port : ℕ
swo_stimulus_port = 0x01

-- The value for the trace control register.
abbrev pub tcr_value : Fields → ℕ
tcr_value f = 2 ^ f.tcr_trace_bus_id + 2 ^ f.tcr_dwtena + 2 ^ f.tcr_syncena + 2 ^ f.tcr_itmena

-- The value for the control register of DWT.
abbrev pub dwt_ctrl_value : Fields → ℕ
dwt_ctrl_value f =
    2 ^ f.ctrl_cyctap
    + 0xF * 2 ^ f.ctrl_postinit
    + 0xF * 2 ^ f.ctrl_postpreset
    + 2 ^ f.ctrl_cyccntena

-- The 32 bits at an address, the lowest byte first; the behaviour at an address that is no multiple
-- of 4 is undefined.
abbrev pub read_word : (memory : ℕ → ℕ) → ℕ → Run ℕ
read_word memory ptr =
    if ptr % 4 == 0
    then ok (
        memory ptr
        + 2 ^ 8 * memory (ptr + 1)
        + 2 ^ 16 * memory (ptr + 2)
        + 2 ^ 24 * memory (ptr + 3))
    else undefined

module _ {H : Type 0} (u : ItmUnit H) (f : Fields) where
  unfoldable pub mbed_itm_init : Itm H → Itm H
  mbed_itm_init s =
      if s.do_init
      then (let h = u.write_lar enable_write (u.itm_init s.hw) in
          let h = u.write_sppr (swo_nrz * 2 ^ f.sppr_txmode) h in
          let h = u.write_ffcr (2 ^ f.ffcr_trig_in) h in
          let h = u.write_dwt_ctrl (dwt_ctrl_value f) h in
          let h = u.write_tcr (tcr_value f) (u.write_tpr 0x0 h) in
          record s { do_init = false; hw = u.write_ter swo_stimulus_port h })
      else s

  -- The ITM and the port are enabled.
  abbrev pub is_enabled : (port : ℕ) → H → Bool
  is_enabled port h = bit_and (u.tcr h) f.tcr_itmena_msk != 0 && bit_and (u.ter h) (2 ^ port) != 0

-- `fuel` is a number of reads of the port after which waiting is given up.
module _ {H : Type 0} (u : ItmUnit H) where
  unfoldable pub wait_ready : (fuel port : ℕ) → H → Run H
  wait_ready zero port h = out_of_fuel
  wait_ready (suc fuel) port h =
      let (value, h') = u.read_port port h in
      let rest = wait_ready fuel port h' in if bit_and value fifoready_msk == 0 then rest else ok h'

  unfoldable pub itm_out8 : (fuel port value : ℕ) → H → Run H
  itm_out8 fuel port value h = do h ← wait_ready fuel port h; ok (u.write_port8 port value h)

  unfoldable pub itm_out32 : (fuel port value : ℕ) → H → Run H
  itm_out32 fuel port value h = do h ← wait_ready fuel port h; ok (u.write_port32 port value h)

-- Where the walk over the data stands: the pointer, the bytes left, the registers.
pub record Walk (H : Type 0) : Type 0 where
  pub ptr : ℕ
  pub len : ℕ
  pub hw : H

module _ {H : Type 0} (u : ItmUnit H) (memory : ℕ → ℕ) (fuel port : ℕ) where
  -- The loop until the data is aligned.
  unfoldable pub align_loop : (ptr len : ℕ) → H → Run (Walk H)
  align_loop ptr zero h = ok (record { ptr = ptr; len = zero; hw = h })
  align_loop ptr (suc len) h =
      let rest = itm_out8 u fuel port (memory ptr) h >>= align_loop (ptr + 1) len in
      if ptr % 4 != 0 then rest else ok (record { ptr = ptr; len = suc len; hw = h })

  -- The loop over the words.
  unfoldable pub word_loop : (ptr len : ℕ) → H → Run (Walk H)
  word_loop ptr zero h = ok (record { ptr = ptr; len = zero; hw = h })
  word_loop ptr (suc zero) h = ok (record { ptr = ptr; len = 1; hw = h })
  word_loop ptr (suc (suc zero)) h = ok (record { ptr = ptr; len = 2; hw = h })
  word_loop ptr (suc (suc (suc zero))) h = ok (record { ptr = ptr; len = 3; hw = h })
  word_loop ptr (suc (suc (suc (suc len)))) h =
      read_word memory ptr >>= λ word. itm_out32 u fuel port word h >>= word_loop (ptr + 4) len

  -- The loop over the trailing bytes.
  unfoldable pub byte_loop : (ptr len : ℕ) → H → Run H
  byte_loop ptr zero h = ok h
  byte_loop ptr (suc len) h = itm_out8 u fuel port (memory ptr) h >>= byte_loop (ptr + 1) len

module _ {H : Type 0} (u : ItmUnit H) (f : Fields) (fuel : ℕ) where
  unfoldable pub mbed_itm_send : (port value : ℕ) → H → Run (ℕ × H)
  mbed_itm_send port value h =
      if is_enabled u f port h
      then (itm_out32 u fuel port value h >>= λ h'. ok (value, h'))
      else ok (value, h)

  unfoldable pub mbed_itm_send_block : (memory : ℕ → ℕ) → (port ptr len : ℕ) → H → Run H
  mbed_itm_send_block memory port ptr len h =
      if is_enabled u f port h
      then (align_loop u memory fuel port ptr len h >>= λ w.
          word_loop u memory fuel port w.ptr w.len w.hw >>= λ v.
          byte_loop u memory fuel port v.ptr v.len v.hw)
      else ok h

-- ===== src/Lli.antt =====
-- The link-layer interface, components/lli/src/lli.c, over a driver handle.
pub mod Init
pub mod Receive
pub mod Fatal
use smart_lock_firmware.Common.{
  ℕ, ◌+◌, ◌-◌, Bool, true, false, not, ◌||◌, Option, none, some, [], ◌∷◌, Bytes, ltb, ◌==◌,
  if◌then◌else◌, length, get_or, drop,
}
use smart_lock_firmware.Transport.Machine.{LliErr, LinkStatus}
use smart_lock_firmware.Pn532.{EspCode, is_ok, max_payload_len}
use smart_lock_firmware.Pn532.Driver.{Handle, pn532_send_command, pn532_receive_response}
use smart_lock_firmware.Pn532.Commands.{
  TgInitParams, pn532_sam_configuration, pn532_set_parameters, pn532_tg_init_as_target,
  pn532_tg_set_data, pn532_tg_get_target_status,
}

-- The card identity that `struct lli_t` keeps for `lli_activate`.
pub record Identity : Type 0 where
  pub sens_res : Bytes
  pub nfcid1 : Bytes
  pub sel_res : ℕ
  pub nfcid2 : Bytes
  pub pad : Bytes
  pub system_code : Bytes
  pub nfcid3t : Bytes
  pub gt : Bytes
  pub gt_len : ℕ
  pub tk : Bytes
  pub tk_len : ℕ

-- `struct lli_t`; the I2C context is part of the state `B`.
pub record Lli (B : Type 0) : Type 0 where
  pub pn532 : Handle B
  pub identity : Identity

unfoldable pub lli_err_from_esp : EspCode → LliErr → LliErr
lli_err_from_esp EspCode.invalid_state fallback = LliErr.bus_fatal
lli_err_from_esp _ fallback = fallback

abbrev pub is_timeout : EspCode → Bool
is_timeout EspCode.timeout = true
is_timeout _ = false

abbrev pub is_lli_ok : LliErr → Bool
is_lli_ok LliErr.ok = true
is_lli_ok _ = false

-- What `lli_activate` hands to the driver: the kept identity, for a passive PICC only.
unfoldable pub activate_params : Identity → TgInitParams
activate_params card = record {
  sens_res = card.sens_res;
  nfcid1 = card.nfcid1;
  sel_res = card.sel_res;
  nfcid2 = card.nfcid2;
  pad = card.pad;
  system_code = card.system_code;
  nfcid3 = card.nfcid3t;
  gt = if ltb 0 card.gt_len then some card.gt else none;
  gt_len = card.gt_len;
  tk = if ltb 0 card.tk_len then some card.tk else none;
  tk_len = card.tk_len;
  mode = 4 + 1;
}

-- What a status byte other than 0 means to `lli_receive_apdu`.
unfoldable pub status_err : ℕ → LliErr
status_err status =
    if status == 0x01
    then LliErr.timeout
    else if status == 0x29
    then LliErr.link_released
    else if status == 0x0B
    then LliErr.link_released
    else LliErr.frame_integrity

-- `lli_receive_apdu` on the driver's response.
unfoldable pub apdu_of_response : Bytes → ℕ → LliErr × Bytes
apdu_of_response resp buf_len =
    if ltb (length resp) 2 || not (get_or resp 0 0 == 0x87)
    then (LliErr.frame_integrity, [])
    else if get_or resp 1 0 == 0x00
    then (if ltb buf_len (length resp - 2)
        then (LliErr.frame_integrity, [])
        else (LliErr.ok, drop 2 resp))
    else (status_err (get_or resp 1 0), [])

-- The state byte of the chip, for `lli_get_link_status`.
unfoldable pub link_status : ℕ → LinkStatus
link_status state =
    if state == 0x81 || state == 0x82
    then LinkStatus.active
    else if state == 0x80 || state == 0x00
    then LinkStatus.released
    else LinkStatus.error

module _ {B : Type 0} where
  -- SAM in normal mode with the IRQ, then automatic ATR_RES and ISO14443-4 PICC emulation.
  unfoldable pub configure_pn532 : Lli B → B → LliErr × B
  configure_pn532 h b =
      let (sam_err, b1) = pn532_sam_configuration h.pn532 0x01 0 true b in
      if is_ok sam_err
      then (let (err, b2) = pn532_set_parameters h.pn532 (4 + 32) b1 in
          if is_ok err then (LliErr.ok, b2) else (lli_err_from_esp err LliErr.internal, b2))
      else (lli_err_from_esp sam_err LliErr.internal, b1)

  unfoldable pub lli_activate : Lli B → ℕ → B → LliErr × B
  lli_activate h timeout_ms b =
      let (err, b1) = configure_pn532 h b in
      if is_lli_ok err
      then (let (pn532_err, _, b2) =
            pn532_tg_init_as_target h.pn532 (activate_params h.identity) timeout_ms b1 in
          if is_timeout pn532_err
          then (LliErr.timeout, b2)
          else if is_ok pn532_err
          then (LliErr.ok, b2)
          else (lli_err_from_esp pn532_err LliErr.internal, b2))
      else (err, b1)

  unfoldable pub lli_receive_apdu : Lli B → ℕ → ℕ → B → LliErr × Bytes × B
  lli_receive_apdu h buf_len timeout_ms b =
      let (err, b1) = pn532_send_command h.pn532 0x86 [] b in
      if is_ok err
      then (let (receive_err, resp, b2) =
            pn532_receive_response h.pn532 max_payload_len timeout_ms b1 in
          if is_timeout receive_err
          then (LliErr.timeout, [], b2)
          else if is_ok receive_err
          then (let (lli_err, apdu) = apdu_of_response resp buf_len in (lli_err, apdu, b2))
          else (lli_err_from_esp receive_err LliErr.frame_integrity, [], b2))
      else if is_timeout err
      then (LliErr.timeout, [], b1)
      else (lli_err_from_esp err LliErr.internal, [], b1)

  unfoldable pub lli_send_apdu : Lli B → Bytes → ℕ → B → LliErr × B
  lli_send_apdu h bytes timeout_ms b =
      let (err, b1) = pn532_tg_set_data h.pn532 bytes timeout_ms b in
      if is_ok err then (LliErr.ok, b1) else (lli_err_from_esp err LliErr.send_failed, b1)

  unfoldable pub lli_get_link_status : Lli B → B → LinkStatus × B
  lli_get_link_status h b =
      let (err, status, b1) = pn532_tg_get_target_status h.pn532 100 b in
      elim status [
        | none ↦ (LinkStatus.error, b1)
        | some s ↦ if is_ok err then (link_status s.state, b1) else (LinkStatus.error, b1)
      ]

  -- It sends nothing.
  unfoldable pub lli_abort : Lli B → B → LliErr × B
  lli_abort h b = (LliErr.ok, b)

-- ===== src/Lli/Fatal.antt =====
-- How a dead bus reaches the callers of components/lli/src/lli.c.
use smart_lock_firmware.Common.{ℕ, ◌+◌, ◌≤◌, ◌≡◌, ◌≢◌, refl, true, [], ◌∷◌, Bytes, length, arith}
use smart_lock_firmware.Transport.Machine.{LliErr, LinkStatus}
use smart_lock_firmware.Pn532.{EspCode}
use smart_lock_firmware.Pn532.Frame.{pn532_build_frame}
use smart_lock_firmware.Pn532.Driver.{pn532_send_command}
use smart_lock_firmware.Pn532.Driver.Receive.{pn532_send_command-write_fails}
use smart_lock_firmware.Pn532.Commands.{
  exchange, status_exchange, pn532_sam_configuration, pn532_tg_set_data, pn532_tg_get_target_status,
}
use smart_lock_firmware.Pn532.I2c.{Platform, Bus}
use smart_lock_firmware.Pn532.I2c.Write.{pn532_i2c_write, recovery_fail_limit}
use smart_lock_firmware.Pn532.I2c.Write.Failures.{failures, granted-Counts}
use smart_lock_firmware.Lli.{
  Lli, lli_err_from_esp, configure_pn532, lli_activate, lli_receive_apdu, lli_send_apdu,
  lli_get_link_status,
}

module _ {B : Type 0} (h : Lli B) (b : B) where
  -- Whatever is written now, the transport calls itself dead.
  abbrev pub Dead : Type 0
  Dead = (frame : Bytes) → (h.pn532.write frame b).0 ≡ EspCode.invalid_state

  send_dead :
      (cmd_code : ℕ) (params : Bytes)
      → 1 + length params ≤ 264
      → Dead
      → (pn532_send_command h.pn532 cmd_code params b).0 ≡ EspCode.invalid_state
  send_dead cmd_code params fits dead =
      let frame = (pn532_build_frame cmd_code params).1 in
      let (err, b1) = h.pn532.write frame b in
      let here : err ≡ EspCode.invalid_state = dead frame in
      ground
        (arith, here, pn532_send_command-write_fails h.pn532 cmd_code params b b1 err fits refl)

  exchange_dead :
      (cmd_code buf_size min_len timeout_ms : ℕ) (params : Bytes)
      → 1 + length params ≤ 264
      → Dead
      → (exchange h.pn532 cmd_code params buf_size min_len timeout_ms b).0 ≡ EspCode.invalid_state
  unfolding exchange
  exchange_dead cmd_code buf_size min_len timeout_ms params fits dead =
      ground (arith, send_dead cmd_code params fits dead)

  receive_dead :
      (buf_len timeout_ms : ℕ)
      → Dead
      → (lli_receive_apdu h buf_len timeout_ms b).0 ≡ LliErr.bus_fatal
  unfolding lli_receive_apdu lli_err_from_esp
  receive_dead buf_len timeout_ms dead = ground (arith, send_dead 0x86 [] (omega arith) dead)

  send_apdu_dead :
      (bytes : Bytes) (timeout_ms : ℕ)
      → length bytes ≤ 262
      → Dead
      → (lli_send_apdu h bytes timeout_ms b).0 ≡ LliErr.bus_fatal
  unfolding lli_send_apdu lli_err_from_esp pn532_tg_set_data status_exchange
  send_apdu_dead bytes timeout_ms fits dead =
      ground (arith, fits, exchange_dead 0x8E 2 2 timeout_ms bytes (omega (arith, fits)) dead)

  link_status_dead : Dead → (lli_get_link_status h b).0 ≡ LinkStatus.error
  unfolding lli_get_link_status pn532_tg_get_target_status
  link_status_dead dead = ground (arith, exchange_dead 0x8A 8 3 100 [] (omega arith) dead)

  activate_dead : (timeout_ms : ℕ) → Dead → (lli_activate h timeout_ms b).0 ≡ LliErr.bus_fatal
  unfolding lli_activate configure_pn532 lli_err_from_esp pn532_sam_configuration
  activate_dead timeout_ms dead =
      ground (arith, exchange_dead 0x14 1 1 100 (0x01 ∷ 0 ∷ 0x01 ∷ []) (omega arith) dead)

module _ {P : Type 0} (io : Platform P) (h : Lli (Bus P)) where
  writes_dead :
      (b : Bus P)
      → h.pn532.write ≡ pn532_i2c_write io
      → ((timeout_ms : ℕ) (p : P) → (io.mutex_take timeout_ms p).0 ≡ true)
      → failures b ≤ recovery_fail_limit
      → 2 ≤ failures b
      → ((frame : Bytes) → (pn532_i2c_write io frame b).0 ≢ EspCode.ok)
      → Dead h b
  writes_dead b over grants most two fails frame =
      rw over (ground (arith, fails frame, granted-Counts io frame b grants most))

  -- Once two recoveries in a row have failed and the bus, with its mutex free, still takes no frame,
  -- receiving, sending up to 262 bytes and activating report the fatal LLI_ERR_BUS_FATAL, on which the
  -- layers above stop, and the status of the link is LLI_STATUS_ERROR.
  pub dead_bus_is_fatal :
      (buf_len timeout_ms : ℕ) (bytes : Bytes) (b : Bus P)
      → h.pn532.write ≡ pn532_i2c_write io
      → ((timeout_ms : ℕ) (p : P) → (io.mutex_take timeout_ms p).0 ≡ true)
      → failures b ≤ recovery_fail_limit
      → 2 ≤ failures b
      → ((frame : Bytes) → (pn532_i2c_write io frame b).0 ≢ EspCode.ok)
      → length bytes ≤ 262
      → ((lli_receive_apdu h buf_len timeout_ms b).0 ≡ LliErr.bus_fatal)
        × ((lli_send_apdu h bytes timeout_ms b).0 ≡ LliErr.bus_fatal)
        × ((lli_activate h timeout_ms b).0 ≡ LliErr.bus_fatal)
        × ((lli_get_link_status h b).0 ≡ LinkStatus.error)
  dead_bus_is_fatal buf_len timeout_ms bytes b over grants most two fails fits =
      let dead = writes_dead b over grants most two fails in
      (
        receive_dead h b buf_len timeout_ms dead,
        send_apdu_dead h b bytes timeout_ms fits dead,
        activate_dead h b timeout_ms dead,
        link_status_dead h b dead,
      )

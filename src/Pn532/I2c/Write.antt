-- ===== src/Pn532/I2c/Write.antt =====
-- `pn532_i2c_write` of components/pn532/src/pn532_i2c.c.
pub mod Failures
use smart_lock_firmware.Common.{ℕ, zero, suc, ◌+◌, Bool, true, false, Bytes, leb, if◌then◌else◌}
use smart_lock_firmware.Pn532.{EspCode, is_ok}
use smart_lock_firmware.Pn532.I2c.{Platform, Bus, bus_lock, bus_unlock, transmit}
use smart_lock_firmware.Pn532.I2c.Recovery.{recover_i2c_bus, rebuild_i2c_device, rebuild_i2c_bus}

abbrev pub write_max_retries : ℕ
write_max_retries = 5

abbrev pub recovery_fail_limit : ℕ
recovery_fail_limit = 3

abbrev pub is_invalid_state : EspCode → Bool
is_invalid_state EspCode.invalid_state = true
is_invalid_state _ = false

module _ {P : Type 0} where
  abbrev pub with_failures : ℕ → Bus P → Bus P
  with_failures n b = record b { ctx = record b.ctx { recovery_failures = n } }

module _ {P : Type 0} (io : Platform P) where
  -- The attempts before recovery; the second argument is the last error.
  unfoldable pub transmit_loop : ℕ → EspCode → Bytes → Bus P → EspCode × Bus P
  transmit_loop zero err bytes b = (err, b)
  transmit_loop (suc left) err bytes b =
      let (sent, b1) = transmit io bytes b in
      elim (is_ok sent) [
        | true ↦ (EspCode.ok, b1)
        | false ↦ transmit_loop left sent bytes (record b1 { platform = io.delay_ms 1 b1.platform })
      ]

  -- A step of the escalation: after `ESP_ERR_INVALID_STATE` rebuild, and transmit if that succeeds.
  unfoldable pub escalate : (Bus P → EspCode × Bus P) → Bytes → EspCode → Bus P → EspCode × Bus P
  escalate rebuild bytes err b =
      if is_invalid_state err
      then (let (rebuilt, b1) = rebuild b in
          if is_ok rebuilt then transmit io bytes b1 else (err, b1))
      else (err, b)

  -- The transmits that follow a recovery; without one the error of the attempts stays.
  unfoldable pub transmit_recovered : EspCode → Bytes → Bus P → EspCode × Bus P
  transmit_recovered err bytes b =
      let (recovered, b1) = recover_i2c_bus io b in
      if is_ok recovered
      then (let (first, b2) = transmit io bytes b1 in
          let (second, b3) = escalate (rebuild_i2c_device io) bytes first b2 in
          escalate (rebuild_i2c_bus io) bytes second b3)
      else (err, b1)

  -- The end of a write after recovery, with the mutex given back: the counter and the answer.
  unfoldable pub count_recovery : EspCode → Bus P → EspCode × Bus P
  count_recovery err b =
      let failures = b.ctx.recovery_failures + 1 in
      if is_ok err
      then (EspCode.ok, with_failures 0 b)
      else if leb recovery_fail_limit failures
      then (EspCode.invalid_state, with_failures failures b)
      else (EspCode.timeout, with_failures failures b)

  -- `pn532_i2c_write` with the mutex taken.
  unfoldable pub write_locked : Bytes → Bus P → EspCode × Bus P
  write_locked bytes b =
      let (err, b1) = transmit_loop write_max_retries EspCode.fail bytes b in
      if is_ok err
      then (EspCode.ok, bus_unlock io (with_failures 0 b1))
      else if leb recovery_fail_limit b1.ctx.recovery_failures
      then (EspCode.invalid_state, bus_unlock io b1)
      else let (sent, b2) = transmit_recovered err bytes b1 in
        count_recovery sent (bus_unlock io b2)

  unfoldable pub pn532_i2c_write : Bytes → Bus P → EspCode × Bus P
  pn532_i2c_write bytes b =
      let (err, b1) = bus_lock io b in if is_ok err then write_locked bytes b1 else (err, b1)

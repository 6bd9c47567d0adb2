-- ===== src/Lli/Init.antt =====
-- `lli_init` and `lli_deinit` of components/lli/src/lli.c over the I2C transport.
pub mod Twice
use smart_lock_firmware.Common.{
  ℕ, Bool, true, false, not, ◌||◌, ◌⊎◌, inl, inr, Option, none, some, Bytes, ltb, ◌==◌,
  if◌then◌else◌, take,
}
use smart_lock_firmware.Transport.Machine.{LliErr}
use smart_lock_firmware.Pn532.{EspCode, is_ok}
use smart_lock_firmware.Pn532.Driver.{Handle, pn532_init, pn532_deinit, pn532_wakeup}
use smart_lock_firmware.Pn532.Commands.{pn532_get_firmware_version}
use smart_lock_firmware.Pn532.I2c.{Platform, Bus}
use smart_lock_firmware.Pn532.I2c.Lifecycle.{
  I2cConfig, Created, created, failed, pn532_i2c_create, pn532_i2c_destroy, i2c_ops,
}
use smart_lock_firmware.Lli.{Identity, Lli, lli_err_from_esp, is_lli_ok, configure_pn532}

-- `lli_config_t`
pub record LliConfig : Type 0 where
  pub i2c : I2cConfig
  pub card : Identity

module _ {P : Type 0} (io : Platform P) where
  -- `vTaskDelay` on the platform of the context.
  abbrev pub delay : ℕ → Bus P → Bus P
  delay t b = record b { platform = io.delay_ms t b.platform }

  -- `lli_deinit` of a handle, and `cleanup_deinit` of `lli_init`.
  unfoldable pub lli_deinit : Handle (Bus P) → Bus P → Bus P
  lli_deinit h b = pn532_i2c_destroy io (pn532_deinit (some h) b)

  -- `lli_init` once the driver has its handle: wake-up, version check, configuration.
  unfoldable pub start_chip : LliConfig → Handle (Bus P) → Bus P → LliErr × Bus P
  start_chip cfg h b =
      let (wake_err, b1) = pn532_wakeup delay h b in
      if is_ok wake_err
      then (let (fw_err, fw, b2) = pn532_get_firmware_version h b1 in
          let expected : Bool = elim fw [ none ↦ false | some v ↦ v.ic == 0x32 ] in
          if is_ok fw_err
          then (if expected
              then configure_pn532 (record { pn532 = h; identity = cfg.card }) b2
              else (lli_err_from_esp EspCode.fail LliErr.internal, b2))
          else (lli_err_from_esp fw_err LliErr.internal, b2))
      else (lli_err_from_esp wake_err LliErr.internal, b1)

  -- `lli_init` from the driver's handle on.
  unfoldable pub start_driver :
      Bool → LliConfig → Bus P → LliErr × Option (Lli (Bus P)) × (P ⊎ Bus P)
  start_driver memory cfg b =
      let (err, handle) = pn532_init memory (i2c_ops io) in
      elim handle [
        | none ↦ (lli_err_from_esp err LliErr.internal, none, inr (pn532_i2c_destroy io b))
        | some h ↦
            let (lli_err, b1) = start_chip cfg h b in
            if is_lli_ok lli_err
            then (LliErr.ok, some (record { pn532 = h; identity = cfg.card }), inr b1)
            else (lli_err, none, inr (lli_deinit h b1))
      ]

  -- `lli_init`: the first argument says which of the three allocations have memory. The last result is
  -- the platform alone where no I2C context was made.
  unfoldable pub lli_init : (ℕ → Bool) → LliConfig → P → LliErr × Option (Lli (Bus P)) × (P ⊎ Bus P)
  lli_init memory cfg p =
      if ltb 47 cfg.card.gt_len || ltb 47 cfg.card.tk_len
      then (LliErr.invalid_arg, none, inl p)
      else if memory 0
      then elim (pn532_i2c_create io (memory 1) cfg.i2c p) [
        | failed err p1 ↦ (lli_err_from_esp err LliErr.internal, none, inl p1)
        | created b ↦ start_driver (memory 2) cfg b
      ]
      else (LliErr.internal, none, inl p)

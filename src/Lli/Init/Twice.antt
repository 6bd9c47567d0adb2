-- ===== src/Lli/Init/Twice.antt =====
-- What `lli_deinit` of components/lli/src/lli.c frees.
use smart_lock_firmware.Common.{◌+◌, ◌≡◌, ap, Bool, true, false, Option, none, some, arith}
use smart_lock_firmware.Pn532.{EspCode}
use smart_lock_firmware.Pn532.Driver.{Handle, pn532_init, pn532_deinit}
use smart_lock_firmware.Pn532.I2c.{Platform, Bus}
use smart_lock_firmware.Pn532.I2c.Lifecycle.{i2c_ops, pn532_i2c_destroy}
use smart_lock_firmware.Lli.Init.{lli_deinit}

module _ {B : Type 0} where
  destroy_of : Option (Handle B) → Option (B → B)
  destroy_of none = none
  destroy_of (some h) = h.destroy

module _ {P : Type 0} (io : Platform P) where
  -- The driver's handle over the I2C transport releases the context in `pn532_deinit`, and `lli_deinit`
  -- releases it again: the context is freed twice.
  pub lli_deinit-frees_twice :
      (memory : Bool) (h : Handle (Bus P)) (b : Bus P)
      → pn532_init memory (i2c_ops io) ≡ (EspCode.ok, some h)
      → (lli_deinit io h b).frees ≡ b.frees + 2
  unfolding pn532_init lli_deinit pn532_deinit pn532_i2c_destroy destroy_of
  lli_deinit-frees_twice false h b e = ground (arith, e)
  lli_deinit-frees_twice true h b e =
      let same : some (pn532_i2c_destroy io) ≡ h.destroy = ap (λ r. destroy_of r.1) e in
      rw (← same) (omega arith)

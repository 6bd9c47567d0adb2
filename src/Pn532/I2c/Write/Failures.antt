-- ===== src/Pn532/I2c/Write/Failures.antt =====
-- The counter of failed recoveries in components/pn532/src/pn532_i2c.c.
use smart_lock_firmware.Common.{
  ℕ, zero, suc, ◌+◌, ◌≤◌, ◌<◌, ◌≡◌, ◌≢◌, ◌⊎◌, inl, inr, refl, sym, ◌∙◌, true, Option-cases,
  Bool-cases, Bytes, leb, arith, subst,
}
use smart_lock_firmware.Pn532.{EspCode, is_ok}
use smart_lock_firmware.Pn532.I2c.{
  Platform, Direction, Bus, bus_lock, bus_unlock, transmit, pn532_i2c_reset_device,
}
use smart_lock_firmware.Pn532.I2c.Recovery.{
  bitbang_release_sda, reset_both, recover_i2c_bus, rebuild_i2c_device, drop_device, drop_bus,
  new_bus, rebuild_i2c_bus, rst_pulse_ms, rst_settle_ms,
}
use smart_lock_firmware.Pn532.I2c.Write.{
  transmit_loop, escalate, transmit_recovered, count_recovery, write_locked, pn532_i2c_write,
  recovery_fail_limit, write_max_retries,
}

module _ {P : Type 0} where
  abbrev pub failures : Bus P → ℕ
  failures b = b.ctx.recovery_failures

  -- The operation leaves the counter alone.
  abbrev Keeps : (Bus P → EspCode × Bus P) → Type 0
  Keeps f = (b : Bus P) → failures (f b).1 ≡ failures b

  -- The answer and the counter after a write, from the counter before it.
  abbrev pub Counts : ℕ → EspCode × Bus P → Type 0
  Counts before (err, b) =
      ((err ≡ EspCode.ok) × (failures b ≡ 0))
      ⊎ (((err ≡ EspCode.timeout) × (failures b ≡ before + 1) × (failures b < recovery_fail_limit))
          ⊎ ((err ≡ EspCode.invalid_state)
              × (failures b ≡ recovery_fail_limit)
              × (recovery_fail_limit ≤ before + 1)))

module _ {P : Type 0} (io : Platform P) where
  transmit_loop-Keeps :
      (left : ℕ) (err : EspCode) (bytes : Bytes) → Keeps (transmit_loop io left err bytes)
  unfolding transmit_loop
  transmit_loop-Keeps zero err bytes b = refl
  transmit_loop-Keeps (suc left) err bytes b =
      let (sent, p) = io.i2c_master_transmit b.ctx.dev bytes 50 b.platform in
      let waited : Bus P = record b { platform = io.delay_ms 1 p } in
      ground (arith, transmit_loop-Keeps left sent bytes waited)

  reset_device-Keeps :
      (pulse_ms settle_ms : ℕ) → Keeps (pn532_i2c_reset_device io pulse_ms settle_ms)
  unfolding pn532_i2c_reset_device
  reset_device-Keeps pulse_ms settle_ms b = elim (Option-cases b.ctx.rst_gpio) [
    | inl h ↦ rw h refl
    | inr (pin, h) ↦ rw h refl
  ]

  reset_both-Keeps : Keeps (reset_both io)
  unfolding reset_both
  reset_both-Keeps b =
      let b1 : Bus P = record b { platform = (io.i2c_master_bus_reset b.ctx.bus b.platform).1 } in
      elim (Option-cases b.ctx.rst_gpio) [
        | inl h ↦ ground (arith, h)
        | inr (pin, h) ↦ ground (arith, h, reset_device-Keeps rst_pulse_ms rst_settle_ms b1)
      ]

  bitbang_release_sda-Keeps : Keeps (bitbang_release_sda io)
  unfolding bitbang_release_sda
  bitbang_release_sda-Keeps b = refl

  recover_i2c_bus-Keeps : Keeps (recover_i2c_bus io)
  unfolding recover_i2c_bus
  recover_i2c_bus-Keeps b =
      let sda = b.ctx.sda_gpio in
      let input = io.gpio_set_direction sda Direction.input b.platform in
      let b1 : Bus P = record b { platform = (io.gpio_get_level sda input).1 } in
      let b2 = (bitbang_release_sda io b1).1 in
      ground (arith, bitbang_release_sda-Keeps b1, reset_both-Keeps b1, reset_both-Keeps b2)

  rebuild_i2c_device-Keeps : Keeps (rebuild_i2c_device io)
  unfolding rebuild_i2c_device
  rebuild_i2c_device-Keeps b = ground arith

  drop_device-Keeps : Keeps (drop_device io)
  unfolding drop_device
  drop_device-Keeps b = ground arith

  drop_bus-Keeps : Keeps (drop_bus io)
  unfolding drop_bus
  drop_bus-Keeps b = ground arith

  new_bus-Keeps : Keeps (new_bus io)
  unfolding new_bus
  new_bus-Keeps b = ground arith

  rebuild_i2c_bus-Keeps : Keeps (rebuild_i2c_bus io)
  unfolding rebuild_i2c_bus
  rebuild_i2c_bus-Keeps b =
      let b1 = (drop_device io b).1 in
      let b2 = (drop_bus io b1).1 in
      ground (arith, drop_device-Keeps b, drop_bus-Keeps b1, new_bus-Keeps b2)

  escalate-Keeps :
      (rebuild : Bus P → EspCode × Bus P) (bytes : Bytes) (err : EspCode)
      → Keeps rebuild
      → Keeps (escalate io rebuild bytes err)
  unfolding escalate
  escalate-Keeps rebuild bytes err keeps b = ground (arith, keeps b)

  transmit_recovered-Keeps :
      (err : EspCode) (bytes : Bytes) → Keeps (transmit_recovered io err bytes)
  unfolding transmit_recovered
  transmit_recovered-Keeps err bytes b =
      let b1 = (recover_i2c_bus io b).1 in
      let (first, b2) = transmit io bytes b1 in
      let (second, b3) = escalate io (rebuild_i2c_device io) bytes first b2 in
      ground (
        arith,
        recover_i2c_bus-Keeps b,
        escalate-Keeps (rebuild_i2c_device io) bytes first rebuild_i2c_device-Keeps b2,
        escalate-Keeps (rebuild_i2c_bus io) bytes second rebuild_i2c_bus-Keeps b3,
      )

  count_recovery-Counts :
      (err : EspCode) (b : Bus P)
      → failures b < recovery_fail_limit
      → Counts (failures b) (count_recovery io err b)
  unfolding count_recovery
  count_recovery-Counts err b h = ground (arith, h)

  -- A write with the mutex: what it answers is what it does to the counter.
  write_locked-Counts :
      (bytes : Bytes) (b : Bus P)
      → failures b ≤ recovery_fail_limit
      → Counts (failures b) (write_locked io bytes b)
  unfolding write_locked bus_unlock
  write_locked-Counts bytes b h =
      let (err, b1) = transmit_loop io write_max_retries EspCode.fail bytes b in
      let same : failures b1 ≡ failures b =
        transmit_loop-Keeps write_max_retries EspCode.fail bytes b in
      let (sent, b2) = transmit_recovered io err bytes b1 in
      let same2 : failures b2 ≡ failures b1 = transmit_recovered-Keeps err bytes b1 in
      elim (Bool-cases (is_ok err)) [
        | inl sent_first ↦ inl (ground (arith, sent_first), ground (arith, sent_first))
        | inr fails ↦ elim (Bool-cases (leb recovery_fail_limit (failures b1))) [
          | inl limit ↦ inr (
              inr (
                ground (arith, fails, limit),
                ground (arith, fails, limit, same, h),
                ground (arith, limit, same),
              ))
          | inr below ↦
              let counted =
                count_recovery-Counts sent (bus_unlock io b2) (ground (arith, below, same2)) in
              let reached : write_locked io bytes b ≡ count_recovery io sent (bus_unlock io b2) =
                (ground (arith, fails, below)) in
              subst (Counts (failures b)) (sym reached) (
                subst (λ n. Counts n (count_recovery io sent (bus_unlock io b2))) (same2 ∙ same)
                  counted)
        ]
      ]

  -- A write keeps the number of failed recoveries at most 3. It answers ok with the counter at 0, or
  -- ESP_ERR_TIMEOUT with the counter raised below 3 or, without the mutex, as it was, or
  -- ESP_ERR_INVALID_STATE with the counter at 3, which it was before or is now.
  pub pn532_i2c_write-Counts :
      (bytes : Bytes) (b : Bus P)
      → failures b ≤ recovery_fail_limit
      → Counts (failures b) (pn532_i2c_write io bytes b)
        ⊎ (((pn532_i2c_write io bytes b).0 ≡ EspCode.timeout)
            × (failures (pn532_i2c_write io bytes b).1 ≡ failures b))
  unfolding pn532_i2c_write bus_lock
  pn532_i2c_write-Counts bytes b h =
      let (taken, p) = io.mutex_take 5000 b.platform in
      elim (Bool-cases taken) [
        | inl t ↦
            inl (rw (t, pn532_i2c_write) (write_locked-Counts bytes (record b { platform = p }) h))
        | inr t ↦ inr (ground (arith, t), ground (arith, t))
      ]

  abbrev pub Grants : Type 0
  Grants = (timeout_ms : ℕ) (p : P) → (io.mutex_take timeout_ms p).0 ≡ true

  pub granted-Counts :
      (bytes : Bytes) (b : Bus P)
      → Grants
      → failures b ≤ recovery_fail_limit
      → Counts (failures b) (pn532_i2c_write io bytes b)
  unfolding pn532_i2c_write bus_lock
  granted-Counts bytes b grants h =
      let p = (io.mutex_take 5000 b.platform).1 in
      rw (grants 5000 b.platform, pn532_i2c_write)
        (write_locked-Counts bytes (record b { platform = p }) h)

  -- Where the mutex is free, three failed writes in a row, of whatever frames and from a healthy bus,
  -- are answered ESP_ERR_TIMEOUT, ESP_ERR_TIMEOUT and then the fatal ESP_ERR_INVALID_STATE.
  pub pn532_i2c_write-third_is_fatal :
      (w1 w2 w3 : Bytes) (b : Bus P)
      → ((timeout_ms : ℕ) (p : P) → (io.mutex_take timeout_ms p).0 ≡ true)
      → failures b ≡ 0
      → let (e1, b1) = pn532_i2c_write io w1 b in
        let (e2, b2) = pn532_i2c_write io w2 b1 in
        let (e3, b3) = pn532_i2c_write io w3 b2 in
        e1 ≢ EspCode.ok
        → e2 ≢ EspCode.ok
        → e3 ≢ EspCode.ok
        → (e1 ≡ EspCode.timeout) × (e2 ≡ EspCode.timeout) × (e3 ≡ EspCode.invalid_state)
  pn532_i2c_write-third_is_fatal w1 w2 w3 b grants start n1 n2 n3 =
      let (e1, b1) = pn532_i2c_write io w1 b in
      let (e2, b2) = pn532_i2c_write io w2 b1 in
      ground (
        arith,
        n1,
        n2,
        n3,
        granted-Counts w1 b grants,
        granted-Counts w2 b1 grants,
        granted-Counts w3 b2 grants,
      )

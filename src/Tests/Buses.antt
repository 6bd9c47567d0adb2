-- ===== src/Tests/Buses.antt =====
-- An I2C bus on which no device answers, and the link over it.
use smart_lock_firmware.Pn532.I2c.Recovery.{
  drop_bus, drop_device, new_bus, rebuild_i2c_bus, rebuild_i2c_device, recover_i2c_bus, reset_both,
}
use smart_lock_firmware.Pn532.I2c.Write.{
  count_recovery, escalate, transmit_loop, transmit_recovered, write_locked,
}
use smart_lock_firmware.Common.{
  ℕ, suc, ◌+◌, ◌≡◌, ◌⊎◌, refl, true, false, none, some, [], ◌∷◌, Bytes, arith,
}
use smart_lock_firmware.Transport.Machine.{LliErr, LinkStatus}
use smart_lock_firmware.Pn532.{EspCode}
use smart_lock_firmware.Pn532.Driver.{Handle, pn532_init}
use smart_lock_firmware.Pn532.I2c.{
  bus_lock, Platform, Bus, pn532_i2c_read_frame, pn532_i2c_wait_ready, pn532_i2c_reset_device,
  vtable_bus_lock, bus_unlock,
}
use smart_lock_firmware.Pn532.I2c.Write.{pn532_i2c_write}
use smart_lock_firmware.Pn532.I2c.Write.Failures.{failures, Counts, pn532_i2c_write-Counts}
use smart_lock_firmware.Pn532.I2c.Lifecycle.{I2cConfig, fresh_ctx, pn532_i2c_destroy}
use smart_lock_firmware.Lli.{
  Lli, lli_activate, lli_receive_apdu, lli_send_apdu, lli_get_link_status,
}
use smart_lock_firmware.Lli.Fatal.{dead_bus_is_fatal}
use smart_lock_firmware.Lli.Init.{lli_deinit}
use smart_lock_firmware.Lli.Init.Twice.{lli_deinit-frees_twice}
use smart_lock_firmware.Tests.Chips.{card, select}

-- The state is the number of transmits that were tried.
abbrev pub dead_platform : Platform ℕ
dead_platform = record {
  mutex_create = λ p. (true, p);
  mutex_take = λ t p. (true, p);
  mutex_give = λ p. p;
  mutex_delete = λ p. p;
  irq_sem_create = λ p. (true, p);
  irq_sem_take = λ t p. (false, p);
  irq_sem_delete = λ p. p;
  i2c_master_transmit = λ dev bytes t p. (EspCode.invalid_state, suc p);
  i2c_master_receive = λ dev n t p. (EspCode.fail, [], p);
  i2c_master_bus_reset = λ bus p. (EspCode.ok, p);
  i2c_master_bus_rm_device = λ dev p. (EspCode.ok, p);
  i2c_master_bus_add_device = λ bus cfg p. (EspCode.ok, p);
  i2c_new_master_bus = λ cfg p. (EspCode.ok, p);
  i2c_del_master_bus = λ p. (EspCode.ok, p);
  i2c_master_probe = λ a p. (EspCode.ok, p);
  gpio_get_level = λ pin p. (1, p);
  gpio_set_level = λ pin v p. p;
  gpio_set_direction = λ pin d p. p;
  gpio_config = λ pin p. (EspCode.ok, p);
  gpio_install_isr_service = λ p. (EspCode.ok, p);
  gpio_isr_handler_add = λ pin p. (EspCode.ok, p);
  gpio_isr_handler_remove = λ pin p. p;
  delay_ms = λ t p. p;
  delay_us = λ t p. p;
}

abbrev pins : I2cConfig
pins = record {
  sda_gpio = some 8;
  scl_gpio = some 9;
  irq_gpio = none;
  rst_gpio = some 10;
  port = 0;
  clk_speed = 0;
}

abbrev pub bus_after : ℕ → Bus ℕ
bus_after n = record {
  ctx = record (fresh_ctx pins 8 9) { bus = true; dev = true; mutex = true; recovery_failures = n };
  frees = 0;
  platform = 0;
}

abbrev frame : Bytes
frame = 0x55 ∷ []

pn532_i2c_write-Counts_example :
    Counts 2 (pn532_i2c_write dead_platform frame (bus_after 2))
    ⊎ (((pn532_i2c_write dead_platform frame (bus_after 2)).0 ≡ EspCode.timeout)
        × (failures (pn532_i2c_write dead_platform frame (bus_after 2)).1 ≡ 2))
pn532_i2c_write-Counts_example =
    pn532_i2c_write-Counts dead_platform frame (bus_after 2) (omega arith)

abbrev i2c_handle : Handle (Bus ℕ)
i2c_handle = record {
  write = pn532_i2c_write dead_platform;
  read_frame = pn532_i2c_read_frame dead_platform;
  wait_ready = pn532_i2c_wait_ready dead_platform;
  destroy = some (pn532_i2c_destroy dead_platform);
  reset_device = some (pn532_i2c_reset_device dead_platform);
  bus_lock = some (vtable_bus_lock dead_platform);
  bus_unlock = some (bus_unlock dead_platform);
}

abbrev pub i2c_lli : Lli (Bus ℕ)
i2c_lli = record { pn532 = i2c_handle; identity = card }

writes_fail :
    (bytes : Bytes) → (pn532_i2c_write dead_platform bytes (bus_after 2)).0 ≡ EspCode.invalid_state
unfolding pn532_i2c_write bus_lock write_locked transmit_loop count_recovery transmit_recovered
    recover_i2c_bus reset_both pn532_i2c_reset_device escalate rebuild_i2c_device rebuild_i2c_bus
    drop_device drop_bus new_bus bus_unlock
writes_fail bytes = refl

dead_bus_is_fatal_example :
    ((lli_receive_apdu i2c_lli 264 500 (bus_after 2)).0 ≡ LliErr.bus_fatal)
    × ((lli_send_apdu i2c_lli select 500 (bus_after 2)).0 ≡ LliErr.bus_fatal)
    × ((lli_activate i2c_lli 500 (bus_after 2)).0 ≡ LliErr.bus_fatal)
    × ((lli_get_link_status i2c_lli (bus_after 2)).0 ≡ LinkStatus.error)
dead_bus_is_fatal_example =
    dead_bus_is_fatal dead_platform i2c_lli 264 500 select (bus_after 2) refl (λ t p. refl)
      (omega arith) (omega arith) (λ bytes e. cc (e, writes_fail bytes)) (omega arith)

lli_deinit-frees_twice_example : (lli_deinit dead_platform i2c_handle (bus_after 0)).frees ≡ 0 + 2
unfolding pn532_init
lli_deinit-frees_twice_example =
    lli_deinit-frees_twice dead_platform true i2c_handle (bus_after 0) refl

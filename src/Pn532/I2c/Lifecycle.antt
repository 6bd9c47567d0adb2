-- ===== src/Pn532/I2c/Lifecycle.antt =====
-- `pn532_i2c_create` and `pn532_i2c_destroy` of components/pn532/src/pn532_i2c.c, and the operations
-- that the driver gets.
use smart_lock_firmware.Common.{
  ℕ, ◌+◌, ◌*◌, Bool, true, false, Option, none, some, ◌==◌, if◌then◌else◌,
}
use smart_lock_firmware.Pn532.{EspCode, is_ok}
use smart_lock_firmware.Pn532.Driver.{TransportOps}
use smart_lock_firmware.Pn532.I2c.{
  Platform, Bus, Ctx, xfer_timeout_ms, pn532_i2c_read_frame, pn532_i2c_wait_ready,
  pn532_i2c_reset_device, vtable_bus_lock, bus_unlock,
}
use smart_lock_firmware.Pn532.I2c.Recovery.{bitbang_release_sda, rst_pulse_ms, rst_settle_ms}
use smart_lock_firmware.Pn532.I2c.Write.{pn532_i2c_write}

-- `pn532_i2c_config_t`; a pin that is negative is `none`.
pub record I2cConfig : Type 0 where
  pub sda_gpio : Option ℕ
  pub scl_gpio : Option ℕ
  pub irq_gpio : Option ℕ
  pub rst_gpio : Option ℕ
  pub port : ℕ
  pub clk_speed : ℕ

abbrev pub i2c_address : ℕ
i2c_address = 0x24

abbrev pub default_clk_hz : ℕ
default_clk_hz = 400000

-- The context that was allocated, or the error.
pub data Created (P : Type 0) : Type 0 where
  created : Bus P → Created P
  failed : EspCode → P → Created P

-- The context before its handles are made.
abbrev pub fresh_ctx : I2cConfig → ℕ → ℕ → Ctx
fresh_ctx cfg sda scl = record {
  bus = false;
  dev = false;
  mutex = false;
  dev_cfg = record {
    device_address = i2c_address;
    scl_speed_hz = if cfg.clk_speed == 0 then default_clk_hz else cfg.clk_speed;
    scl_wait_us = xfer_timeout_ms * 1000;
  };
  bus_cfg = record { i2c_port = cfg.port; sda_io_num = sda; scl_io_num = scl };
  irq_gpio = cfg.irq_gpio;
  rst_gpio = cfg.rst_gpio;
  sda_gpio = sda;
  scl_gpio = scl;
  isr_added = false;
  irq_sem = false;
  poll_interval_ms = 1;
  poll_max_retries = 1000;
  recovery_failures = 0;
}

module _ {P : Type 0} (io : Platform P) where
  -- A step of the construction, and the next one unless it fails.
  abbrev pub and_then :
      (Bus P → EspCode × Bus P) → (Bus P → EspCode × Bus P) → Bus P → EspCode × Bus P
  and_then first next b = let (err, b1) = first b in if is_ok err then next b1 else (err, b1)

  unfoldable pub make_mutex : Bus P → EspCode × Bus P
  make_mutex b =
      let (made, p) = io.mutex_create b.platform in
      (
        if made then EspCode.ok else EspCode.no_mem,
        record b { ctx = record b.ctx { mutex = made }; platform = p },
      )

  unfoldable pub make_bus : Bus P → EspCode × Bus P
  make_bus b =
      let (err, p) = io.i2c_new_master_bus b.ctx.bus_cfg b.platform in
      (err, record b { ctx = record b.ctx { bus = is_ok err }; platform = p })

  unfoldable pub make_device : Bus P → EspCode × Bus P
  make_device b =
      let (err, p) = io.i2c_master_bus_add_device b.ctx.bus b.ctx.dev_cfg b.platform in
      (err, record b { ctx = record b.ctx { dev = is_ok err }; platform = p })

  unfoldable pub pulse_reset : Bus P → EspCode × Bus P
  pulse_reset b = elim b.ctx.rst_gpio [
    | none ↦ (EspCode.ok, b)
    | some rst_gpio ↦
        let (err, p) = io.gpio_config rst_gpio b.platform in
        let b1 = record b { platform = p } in
        if is_ok err then pn532_i2c_reset_device io rst_pulse_ms rst_settle_ms b1 else (err, b1)
  ]

  unfoldable pub release_at_boot : Bus P → EspCode × Bus P
  release_at_boot b =
      let (level, p) = io.gpio_get_level b.ctx.sda_gpio b.platform in
      let b1 = record b { platform = p } in
      if level == 0
      then (let (err, b2) = bitbang_release_sda io b1 in
          if is_ok err
          then (let (reset_err, p1) = io.i2c_master_bus_reset b2.ctx.bus b2.platform in
              (reset_err, record b2 { platform = p1 }))
          else (err, b2))
      else (EspCode.ok, b1)

  unfoldable pub probe : Bus P → EspCode × Bus P
  probe b =
      let (err, p) = io.i2c_master_probe i2c_address b.platform in (err, record b { platform = p })

  -- The interrupt of the IRQ line, once its semaphore exists.
  unfoldable pub attach_isr : ℕ → Bus P → EspCode × Bus P
  attach_isr irq_gpio b =
      let (config_err, p1) = io.gpio_config irq_gpio b.platform in
      if is_ok config_err
      then (let (service_err, p2) = io.gpio_install_isr_service p1 in
          let installed : Bool = elim service_err [
            | EspCode.ok ↦ true
            | EspCode.invalid_state ↦ true
            | _ ↦ false
          ] in
          if installed
          then (let (err, p3) = io.gpio_isr_handler_add irq_gpio p2 in
              (err, record b { ctx = record b.ctx { isr_added = is_ok err }; platform = p3 }))
          else (service_err, record b { platform = p2 }))
      else (config_err, record b { platform = p1 })

  unfoldable pub setup_irq : Bus P → EspCode × Bus P
  setup_irq b = elim b.ctx.irq_gpio [
    | none ↦ (EspCode.ok, b)
    | some irq_gpio ↦
        let (made, p) = io.irq_sem_create b.platform in
        let b1 = record b { ctx = record b.ctx { irq_sem = made }; platform = p } in
        if made then attach_isr irq_gpio b1 else (EspCode.no_mem, b1)
  ]

  -- The clean-up of what exists, and `free`.
  unfoldable pub pn532_i2c_destroy : Bus P → Bus P
  pn532_i2c_destroy b =
      let c = b.ctx in
      let no_isr : P = elim c.irq_gpio [
        | none ↦ b.platform
        | some irq_gpio ↦
            if c.isr_added then io.gpio_isr_handler_remove irq_gpio b.platform else b.platform
      ] in
      let no_sem = if c.irq_sem then io.irq_sem_delete no_isr else no_isr in
      let no_dev = if c.dev then (io.i2c_master_bus_rm_device true no_sem).1 else no_sem in
      let no_bus = if c.bus then (io.i2c_del_master_bus no_dev).1 else no_dev in
      let no_mutex = if c.mutex then io.mutex_delete no_bus else no_bus in
      record b { frees = b.frees + 1; platform = no_mutex }

  unfoldable pub create_steps : Bus P → EspCode × Bus P
  create_steps = and_then make_mutex (
      and_then make_bus (
        and_then make_device
          (and_then pulse_reset (and_then release_at_boot (and_then probe setup_irq)))))

  -- `pn532_i2c_create`: the first argument says whether the allocator has memory.
  unfoldable pub pn532_i2c_create : Bool → I2cConfig → P → Created P
  pn532_i2c_create memory cfg p = elim cfg.sda_gpio [
    | none ↦ Created.failed EspCode.invalid_arg p
    | some sda ↦ elim cfg.scl_gpio [
      | none ↦ Created.failed EspCode.invalid_arg p
      | some scl ↦
          if memory
          then (let fresh : Bus P = record {
            ctx = fresh_ctx cfg sda scl;
            frees = 0;
            platform = p;
          } in
              let (err, b) = create_steps fresh in
              if is_ok err
              then Created.created b
              else Created.failed err (pn532_i2c_destroy b).platform)
          else Created.failed EspCode.no_mem p
    ]
  ]

  -- `s_pn532_i2c_ops`
  abbrev pub i2c_ops : TransportOps (Bus P)
  i2c_ops = record {
    write = some (pn532_i2c_write io);
    read_frame = some (pn532_i2c_read_frame io);
    wait_ready = some (pn532_i2c_wait_ready io);
    destroy = some pn532_i2c_destroy;
    reset_device = some (pn532_i2c_reset_device io);
    bus_lock = some (vtable_bus_lock io);
    bus_unlock = some (bus_unlock io);
  }

-- ===== src/Pn532/I2c/Recovery.antt =====
-- Bus recovery in components/pn532/src/pn532_i2c.c: the release of a data line that is held low, the
-- resets, and the rebuild of the device and of the bus.
use smart_lock_firmware.Common.{ℕ, zero, suc, true, false, none, some, [], ◌∷◌, ◌==◌, if◌then◌else◌}
use smart_lock_firmware.Pn532.{EspCode, is_ok}
use smart_lock_firmware.Pn532.I2c.{Platform, Direction, Bus, transmit, pn532_i2c_reset_device}

abbrev pub rst_pulse_ms : ℕ
rst_pulse_ms = 50

abbrev pub rst_settle_ms : ℕ
rst_settle_ms = 250

module _ {P : Type 0} (io : Platform P) where
  -- The clock pulses of `bitbang_release_sda`, at most as many as the first argument.
  unfoldable pub clock_pulses : ℕ → ℕ → ℕ → P → P
  clock_pulses zero scl sda p = p
  clock_pulses (suc left) scl sda p =
      let low = io.delay_us 50 (io.gpio_set_level scl 0 p) in
      let high = io.delay_us 50 (io.gpio_set_level scl 1 low) in
      let (level, p1) = io.gpio_get_level sda high in
      elim (level == 1) [ true ↦ p1 | false ↦ clock_pulses left scl sda p1 ]

  -- The STOP condition and the test of the data line.
  unfoldable pub stop_condition : ℕ → ℕ → P → ℕ × P
  stop_condition scl sda p =
      let driven = io.gpio_set_direction sda Direction.output p in
      let low = io.delay_us 5 (io.gpio_set_level sda 0 driven) in
      let clock = io.delay_us 5 (io.gpio_set_level scl 1 low) in
      let high = io.delay_us 5 (io.gpio_set_level sda 1 clock) in
      io.gpio_get_level sda (io.gpio_set_direction sda Direction.input high)

  unfoldable pub bitbang_release_sda : Bus P → EspCode × Bus P
  bitbang_release_sda b =
      let scl = b.ctx.scl_gpio in
      let sda = b.ctx.sda_gpio in
      let driven = io.gpio_set_direction scl Direction.output b.platform in
      let ready = io.delay_us 5 (io.gpio_set_level scl 1 driven) in
      let (level, p) = stop_condition scl sda (clock_pulses 9 scl sda ready) in
      (if level == 1 then EspCode.ok else EspCode.fail, record b { platform = p })

  -- `recover_i2c_bus` once the data line is free: the controller, then the chip.
  unfoldable pub reset_both : Bus P → EspCode × Bus P
  reset_both b =
      let (err, p1) = io.i2c_master_bus_reset b.ctx.bus b.platform in
      let b1 = record b { platform = p1 } in
      if is_ok err
      then elim b.ctx.rst_gpio [
        | some _ ↦
            let (reset_err, b2) = pn532_i2c_reset_device io rst_pulse_ms rst_settle_ms b1 in
            (if is_ok reset_err then EspCode.ok else EspCode.fail, b2)
        | none ↦
            let (_, b2) = transmit io (0x55 ∷ 0x55 ∷ 0x55 ∷ 0x55 ∷ 0x55 ∷ 0x55 ∷ []) b1 in
            (EspCode.ok, record b2 { platform = io.delay_ms 2 b2.platform })
      ]
      else (EspCode.fail, b1)

  unfoldable pub recover_i2c_bus : Bus P → EspCode × Bus P
  recover_i2c_bus b =
      let sda = b.ctx.sda_gpio in
      let (level, p1) =
        io.gpio_get_level sda (io.gpio_set_direction sda Direction.input b.platform) in
      let b1 = record b { platform = p1 } in
      if level == 1
      then reset_both b1
      else let (err, b2) = bitbang_release_sda b1 in if is_ok err then reset_both b2 else (err, b2)

  unfoldable pub rebuild_i2c_device : Bus P → EspCode × Bus P
  rebuild_i2c_device b =
      let (err, p1) = io.i2c_master_bus_rm_device b.ctx.dev b.platform in
      if is_ok err
      then (let (add_err, p2) = io.i2c_master_bus_add_device b.ctx.bus b.ctx.dev_cfg p1 in
          (add_err, record b { ctx = record b.ctx { dev = is_ok add_err }; platform = p2 }))
      else (err, record b { platform = p1 })

  -- `rebuild_i2c_bus`: the device is removed unless it is NULL.
  unfoldable pub drop_device : Bus P → EspCode × Bus P
  drop_device b =
      if b.ctx.dev
      then (let (err, p) = io.i2c_master_bus_rm_device b.ctx.dev b.platform in
          if is_ok err
          then (EspCode.ok, record b { ctx = record b.ctx { dev = false }; platform = p })
          else (err, record b { platform = p }))
      else (EspCode.ok, b)

  -- `rebuild_i2c_bus`: the bus is deleted unless it is NULL.
  unfoldable pub drop_bus : Bus P → EspCode × Bus P
  drop_bus b =
      if b.ctx.bus
      then (let (err, p) = io.i2c_del_master_bus b.platform in
          if is_ok err
          then (EspCode.ok, record b { ctx = record b.ctx { bus = false }; platform = p })
          else (err, record b { platform = p }))
      else (EspCode.ok, b)

  -- `rebuild_i2c_bus`: the bus and then the device are made again.
  unfoldable pub new_bus : Bus P → EspCode × Bus P
  new_bus b =
      let (err, p1) = io.i2c_new_master_bus b.ctx.bus_cfg b.platform in
      if is_ok err
      then (let (add_err, p2) = io.i2c_master_bus_add_device true b.ctx.dev_cfg p1 in
          (
            add_err,
            record b { ctx = record b.ctx { bus = true; dev = is_ok add_err }; platform = p2 },
          ))
      else (err, record b { platform = p1 })

  unfoldable pub rebuild_i2c_bus : Bus P → EspCode × Bus P
  rebuild_i2c_bus b =
      let (dev_err, b1) = drop_device b in
      if is_ok dev_err
      then (let (bus_err, b2) = drop_bus b1 in if is_ok bus_err then new_bus b2 else (bus_err, b2))
      else (dev_err, b1)

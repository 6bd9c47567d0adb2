-- ===== src/Pn532/I2c.antt =====
-- The I2C transport, components/pn532/src/pn532_i2c.c: the context, and the operations that run under
-- the bus mutex. The operations of the platform are the record Platform over its state.
pub mod Recovery
pub mod Write
pub mod Lifecycle
use smart_lock_firmware.Common.{
  ℕ, zero, suc, ◌+◌, ◌%◌, Bool, true, false, ◌&&◌, Option, none, some, [], Bytes, leb, ◌==◌,
  if◌then◌else◌, get_or,
}
use smart_lock_firmware.Pn532.{EspCode, is_ok}

pub data Direction : Type 0 where
  input output : Direction

-- `i2c_master_bus_config_t` and `i2c_device_config_t`, where the firmware sets more than constants.
pub record BusConfig : Type 0 where
  pub i2c_port : ℕ
  pub sda_io_num : ℕ
  pub scl_io_num : ℕ

pub record DeviceConfig : Type 0 where
  pub device_address : ℕ
  pub scl_speed_hz : ℕ
  pub scl_wait_us : ℕ

-- The drivers of the platform. A device or bus handle is a Boolean, `false` for NULL; pins are
-- numbers.
pub record Platform (P : Type 0) : Type 0 where
  pub mutex_create : P → Bool × P
  pub mutex_take : ℕ → P → Bool × P
  pub mutex_give : P → P
  pub mutex_delete : P → P
  pub irq_sem_create : P → Bool × P
  pub irq_sem_take : ℕ → P → Bool × P
  pub irq_sem_delete : P → P
  pub i2c_master_transmit : Bool → Bytes → ℕ → P → EspCode × P
  pub i2c_master_receive : Bool → ℕ → ℕ → P → EspCode × Bytes × P
  pub i2c_master_bus_reset : Bool → P → EspCode × P
  pub i2c_master_bus_rm_device : Bool → P → EspCode × P
  pub i2c_master_bus_add_device : Bool → DeviceConfig → P → EspCode × P
  pub i2c_new_master_bus : BusConfig → P → EspCode × P
  pub i2c_del_master_bus : P → EspCode × P
  pub i2c_master_probe : ℕ → P → EspCode × P
  pub gpio_get_level : ℕ → P → ℕ × P
  pub gpio_set_level : ℕ → ℕ → P → P
  pub gpio_set_direction : ℕ → Direction → P → P
  pub gpio_config : ℕ → P → EspCode × P
  pub gpio_install_isr_service : P → EspCode × P
  pub gpio_isr_handler_add : ℕ → P → EspCode × P
  pub gpio_isr_handler_remove : ℕ → P → P
  pub delay_ms : ℕ → P → P
  pub delay_us : ℕ → P → P

-- `pn532_i2c_ctx_t`. A handle is `false` while it is NULL; a pin that is -1 is `none`.
pub record Ctx : Type 0 where
  pub bus : Bool
  pub dev : Bool
  pub mutex : Bool
  pub dev_cfg : DeviceConfig
  pub bus_cfg : BusConfig
  pub irq_gpio : Option ℕ
  pub rst_gpio : Option ℕ
  pub sda_gpio : ℕ
  pub scl_gpio : ℕ
  pub isr_added : Bool
  pub irq_sem : Bool
  pub poll_interval_ms : ℕ
  pub poll_max_retries : ℕ
  pub recovery_failures : ℕ

-- The context on the heap with the platform: how often it was freed.
pub record Bus (P : Type 0) : Type 0 where
  pub ctx : Ctx
  pub frees : ℕ
  pub platform : P

abbrev pub mutex_timeout_ms : ℕ
mutex_timeout_ms = 5000

abbrev pub xfer_timeout_ms : ℕ
xfer_timeout_ms = 50

module _ {P : Type 0} (io : Platform P) where
  unfoldable pub bus_lock : Bus P → EspCode × Bus P
  bus_lock b =
      let (taken, p) = io.mutex_take mutex_timeout_ms b.platform in
      (if taken then EspCode.ok else EspCode.timeout, record b { platform = p })

  unfoldable pub bus_unlock : Bus P → Bus P
  bus_unlock b = record b { platform = io.mutex_give b.platform }

  unfoldable pub vtable_bus_lock : ℕ → Bus P → EspCode × Bus P
  vtable_bus_lock timeout_ms b =
      let (taken, p) = io.mutex_take timeout_ms b.platform in
      (if taken then EspCode.ok else EspCode.timeout, record b { platform = p })

  abbrev pub transmit : Bytes → Bus P → EspCode × Bus P
  transmit bytes b =
      let (err, p) = io.i2c_master_transmit b.ctx.dev bytes xfer_timeout_ms b.platform in
      (err, record b { platform = p })

  unfoldable pub pn532_i2c_read_status : Bus P → EspCode × Bytes × Bus P
  pn532_i2c_read_status b =
      let (err, b1) = bus_lock b in
      if is_ok err
      then (let (receive_err, bytes, p) =
            io.i2c_master_receive b1.ctx.dev 1 xfer_timeout_ms b1.platform in
          (receive_err, bytes, bus_unlock (record b1 { platform = p })))
      else (err, [], b1)

  unfoldable pub pn532_i2c_read_frame : ℕ → Bus P → EspCode × Bytes × Bus P
  pn532_i2c_read_frame len b =
      let (err, b1) = bus_lock b in
      if is_ok err
      then (let (receive_err, bytes, p) =
            io.i2c_master_receive b1.ctx.dev len xfer_timeout_ms b1.platform in
          let b2 = bus_unlock (record b1 { platform = p }) in
          if is_ok receive_err
          then (if get_or bytes 0 0 % 2 == 0
              then (EspCode.invalid_response, bytes, b2)
              else (EspCode.ok, bytes, b2))
          else (receive_err, bytes, b2))
      else (err, [], b1)

  -- The argument is the pin of the IRQ line, which is low when a frame is ready.
  unfoldable pub wait_ready_irq : ℕ → ℕ → Bus P → EspCode × Bus P
  wait_ready_irq irq_gpio timeout_ms b =
      let (level, p1) = io.gpio_get_level irq_gpio b.platform in
      if level == 0
      then (EspCode.ok, record b { platform = p1 })
      else let (taken, p2) = io.irq_sem_take timeout_ms p1 in
        if taken
        then (EspCode.ok, record b { platform = p2 })
        else let (last, p3) = io.gpio_get_level irq_gpio p2 in
          (if last == 0 then EspCode.ok else EspCode.timeout, record b { platform = p3 })

  -- The loop of `wait_ready_poll`, over the iterations that are left.
  unfoldable pub poll_loop : ℕ → ℕ → ℕ → Bus P → EspCode × Bus P
  poll_loop timeout_ms elapsed zero b = (EspCode.timeout, b)
  poll_loop timeout_ms elapsed (suc left) b =
      let (err, status, b1) = pn532_i2c_read_status b in
      elim (is_ok err && get_or status 0 0 % 2 == 1) [
        | true ↦ (EspCode.ok, b1)
        | false ↦ elim (leb timeout_ms elapsed) [
          | true ↦ (EspCode.timeout, b1)
          | false ↦
              let b2 = record b1 { platform = io.delay_ms b1.ctx.poll_interval_ms b1.platform } in
              poll_loop timeout_ms (elapsed + b1.ctx.poll_interval_ms) left b2
        ]
      ]

  unfoldable pub wait_ready_poll : ℕ → Bus P → EspCode × Bus P
  wait_ready_poll timeout_ms b = poll_loop timeout_ms 0 b.ctx.poll_max_retries b

  unfoldable pub pn532_i2c_wait_ready : ℕ → Bus P → EspCode × Bus P
  pn532_i2c_wait_ready timeout_ms b = elim b.ctx.irq_gpio [
    | none ↦ wait_ready_poll timeout_ms b
    | some irq_gpio ↦ wait_ready_irq irq_gpio timeout_ms b
  ]

  unfoldable pub pn532_i2c_reset_device : ℕ → ℕ → Bus P → EspCode × Bus P
  pn532_i2c_reset_device pulse_ms settle_ms b = elim b.ctx.rst_gpio [
    | none ↦ (EspCode.not_supported, b)
    | some rst_gpio ↦
        let low = io.delay_ms pulse_ms (io.gpio_set_level rst_gpio 0 b.platform) in
        let high = io.delay_ms settle_ms (io.gpio_set_level rst_gpio 1 low) in
        (EspCode.ok, record b { platform = high })
  ]

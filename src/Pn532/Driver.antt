-- ===== src/Pn532/Driver.antt =====
-- The public interface of components/pn532/src/pn532.c over the transport's operations. The state of
-- the bus and of the chip is `B`; a read returns the error and the buffer of the length asked for,
-- whose first byte is the status byte.

pub mod Receive
use smart_lock_firmware.Common.{
  ℕ, zero, suc, Bool, true, false, ◌&&◌, Option, none, some, [], ◌∷◌, Bytes, ltb, ◌==◌,
  if◌then◌else◌, get_or, drop,
}
use smart_lock_firmware.Pn532.{EspCode, is_ok, rx_buf_size, ack_frame, nack_frame, ack_timeout_ms}
use smart_lock_firmware.Pn532.Frame.{pn532_build_frame, pn532_match_fixed, pn532_parse_frame}

-- `pn532_transport_ops_t`: `none` is a NULL pointer.
pub record TransportOps (B : Type 0) : Type 0 where
  pub write : Option (Bytes → B → EspCode × B)
  pub read_frame : Option (ℕ → B → EspCode × Bytes × B)
  pub wait_ready : Option (ℕ → B → EspCode × B)
  pub destroy : Option (B → B)
  pub reset_device : Option (ℕ → ℕ → B → EspCode × B)
  pub bus_lock : Option (ℕ → B → EspCode × B)
  pub bus_unlock : Option (B → B)

-- `struct pn532_t`, whose transport has the three operations that `pn532_init` asks for.
pub record Handle (B : Type 0) : Type 0 where
  pub write : Bytes → B → EspCode × B
  pub read_frame : ℕ → B → EspCode × Bytes × B
  pub wait_ready : ℕ → B → EspCode × B
  pub destroy : Option (B → B)
  pub reset_device : Option (ℕ → ℕ → B → EspCode × B)
  pub bus_lock : Option (ℕ → B → EspCode × B)
  pub bus_unlock : Option (B → B)

abbrev pub is_invalid_crc : EspCode → Bool
is_invalid_crc EspCode.invalid_crc = true
is_invalid_crc _ = false

module _ {B : Type 0} where
  -- `pn532_init`: the first argument says whether the allocator has memory.
  unfoldable pub pn532_init : Bool → TransportOps B → EspCode × Option (Handle B)
  pn532_init memory ops = elim ops.write [
    | none ↦ (EspCode.invalid_arg, none)
    | some write ↦ elim ops.read_frame [
      | none ↦ (EspCode.invalid_arg, none)
      | some read_frame ↦ elim ops.wait_ready [
        | none ↦ (EspCode.invalid_arg, none)
        | some wait_ready ↦
            if memory
            then (
              EspCode.ok,
              some (record {
                write = write;
                read_frame = read_frame;
                wait_ready = wait_ready;
                destroy = ops.destroy;
                reset_device = ops.reset_device;
                bus_lock = ops.bus_lock;
                bus_unlock = ops.bus_unlock;
              }),
            )
            else (EspCode.no_mem, none)
      ]
    ]
  ]

  -- `pn532_deinit`: the transport's context is released; the handle is gone.
  unfoldable pub pn532_deinit : Option (Handle B) → B → B
  pn532_deinit none b = b
  pn532_deinit (some h) b = elim h.destroy [ none ↦ b | some destroy ↦ destroy b ]

  unfoldable pub pn532_read_ack : Handle B → ℕ → B → EspCode × B
  pn532_read_ack h timeout_ms b =
      let (err, b1) = h.wait_ready timeout_ms b in
      if is_ok err
      then (let (read_err, raw, b2) = h.read_frame 7 b1 in
          if is_ok read_err
          then (if pn532_match_fixed (drop 1 raw) ack_frame
              then (EspCode.ok, b2)
              else (EspCode.fail, b2))
          else (read_err, b2))
      else (err, b1)

  -- The loop of `resync_frame`: how many bytes may still be consumed, and the last two of the window.
  unfoldable pub resync_loop : Handle B → ℕ → ℕ → ℕ → ℕ → B → EspCode × B
  resync_loop h timeout_ms zero w1 w2 b = (EspCode.fail, b)
  resync_loop h timeout_ms (suc left) w1 w2 b =
      let (err, b1) = h.wait_ready timeout_ms b in
      elim (is_ok err) [
        | false ↦ (err, b1)
        | true ↦
            let (read_err, raw, b2) = h.read_frame 2 b1 in
            elim (is_ok read_err) [
              | false ↦ (read_err, b2)
              | true ↦
                  let byte = get_or raw 1 0 in
                  elim (w1 == 0x00 && w2 == 0x00 && byte == 0xFF) [
                    | true ↦ (EspCode.ok, b2)
                    | false ↦ resync_loop h timeout_ms left w2 byte b2
                  ]
            ]
      ]

  unfoldable pub resync_frame : Handle B → ℕ → B → EspCode × B
  resync_frame h timeout_ms b = resync_loop h timeout_ms 512 0 0 b

  unfoldable pub pn532_send_command : Handle B → ℕ → Bytes → B → EspCode × B
  pn532_send_command h cmd_code params b =
      let (err, frame) = pn532_build_frame cmd_code params in
      if is_ok err
      then (let (write_err, b1) = h.write frame b in
          if is_ok write_err then pn532_read_ack h ack_timeout_ms b1 else (write_err, b1))
      else (err, b)

  -- The second read of `pn532_receive_response`, after a resync.
  unfoldable pub retry_receive : Handle B → ℕ → ℕ → B → EspCode × Bytes × B
  retry_receive h buf_size timeout_ms b =
      let (err, b1) = h.wait_ready timeout_ms b in
      if is_ok err
      then (let (read_err, raw, b2) = h.read_frame rx_buf_size b1 in
          if is_ok read_err
          then (let (parse_err, payload) = pn532_parse_frame raw buf_size in
              (parse_err, payload, b2))
          else (read_err, [], b2))
      else (err, [], b1)

  -- `pn532_receive_response` after a checksum mismatch.
  unfoldable pub recover_receive : Handle B → ℕ → ℕ → B → EspCode × Bytes × B
  recover_receive h buf_size timeout_ms b =
      let (resync_err, b1) = resync_frame h timeout_ms b in
      let (err, payload, b2) =
        if is_ok resync_err
        then retry_receive h buf_size timeout_ms b1
        else (EspCode.invalid_crc, [], b1) in
      if is_invalid_crc err then (err, [], (h.write nack_frame b2).1) else (err, payload, b2)

  unfoldable pub pn532_receive_response : Handle B → ℕ → ℕ → B → EspCode × Bytes × B
  pn532_receive_response h buf_size timeout_ms b =
      let (err, b1) = h.wait_ready timeout_ms b in
      if is_ok err
      then (let (read_err, raw, b2) = h.read_frame rx_buf_size b1 in
          if is_ok read_err
          then (let (parse_err, payload) = pn532_parse_frame raw buf_size in
              if is_invalid_crc parse_err
              then recover_receive h buf_size timeout_ms b2
              else (parse_err, payload, b2))
          else (read_err, [], b2))
      else (err, [], b1)

  -- `vTaskDelay` is the first argument.
  unfoldable pub pn532_wakeup : (ℕ → B → B) → Handle B → B → EspCode × B
  pn532_wakeup delay_ms h b =
      let (err, b1) = h.write (0x55 ∷ 0x55 ∷ 0x55 ∷ 0x55 ∷ 0x55 ∷ 0x55 ∷ []) b in
      (err, delay_ms 2 b1)

  unfoldable pub pn532_send_ack : Handle B → B → EspCode × B
  pn532_send_ack h b = h.write ack_frame b

  -- `pn532_reset` under the bus lock, which it gives back.
  unfoldable pub reset_locked : Handle B → (ℕ → ℕ → B → EspCode × B) → ℕ → ℕ → B → EspCode × B
  reset_locked h reset_device pulse_ms settle_ms b =
      let (err, b1) = reset_device pulse_ms settle_ms b in
      (err, elim h.bus_unlock [ none ↦ b1 | some bus_unlock ↦ bus_unlock b1 ])

  unfoldable pub pn532_reset : Handle B → ℕ → ℕ → B → EspCode × B
  pn532_reset h pulse_ms settle_ms b = elim h.reset_device [
    | none ↦ (EspCode.not_supported, b)
    | some reset_device ↦ elim h.bus_lock [
      | none ↦ reset_locked h reset_device pulse_ms settle_ms b
      | some bus_lock ↦
          let (err, b1) = bus_lock 5000 b in
          if is_ok err then reset_locked h reset_device pulse_ms settle_ms b1 else (err, b1)
    ]
  ]

-- ===== src/Pn532/Driver/Receive.antt =====
-- What `pn532_receive_response` and `pn532_send_command` of components/pn532/src/pn532.c return.
use smart_lock_firmware.Common.{
  ℕ, ◌+◌, ◌≤◌, ◌≡◌, ◌≢◌, inl, inr, refl, [], ◌∷◌, Bytes, length, drop, arith, Bool-cases,
}
use smart_lock_firmware.Pn532.{EspCode, rx_buf_size, ack_frame, ack_timeout_ms}
use smart_lock_firmware.Pn532.Frame.{
  pn532_build_frame, pn532_parse_frame, pn532_match_fixed, pn532_find_start,
}
use smart_lock_firmware.Pn532.Frame.Sound.{Carries, pn532_parse_frame-Carries}
use smart_lock_firmware.Pn532.Driver.{
  Handle, retry_receive, recover_receive, resync_frame, pn532_receive_response, is_invalid_crc,
  pn532_send_command, pn532_read_ack,
}

module _ {B : Type 0} (h : Handle B) where
  -- The buffer of a successful read, which the parser took for the payload.
  abbrev Read : ℕ → Bytes → Type 0
  Read buf_size payload =
      (before after : B) × (raw : Bytes) × (h.read_frame rx_buf_size before
        ≡ (EspCode.ok, raw, after))
      × (pn532_parse_frame raw buf_size ≡ (EspCode.ok, payload))

  retry_reads :
      (buf_size timeout_ms : ℕ) (b b' : B) (payload : Bytes)
      → retry_receive h buf_size timeout_ms b ≡ (EspCode.ok, payload, b')
      → Read buf_size payload
  unfolding retry_receive
  retry_reads buf_size timeout_ms b b' payload e =
      let b1 = (h.wait_ready timeout_ms b).1 in
      let (read_err, raw, b2) = h.read_frame rx_buf_size b1 in
      (b1, b2, raw, ground (arith, e), ground (arith, e))

  recover_reads :
      (buf_size timeout_ms : ℕ) (b b' : B) (payload : Bytes)
      → recover_receive h buf_size timeout_ms b ≡ (EspCode.ok, payload, b')
      → Read buf_size payload
  unfolding recover_receive
  recover_reads buf_size timeout_ms b b' payload e =
      let b1 = (resync_frame h timeout_ms b).1 in
      retry_reads buf_size timeout_ms b1 b' payload (ground (arith, e))

  receive_reads :
      (buf_size timeout_ms : ℕ) (b b' : B) (payload : Bytes)
      → pn532_receive_response h buf_size timeout_ms b ≡ (EspCode.ok, payload, b')
      → Read buf_size payload
  unfolding pn532_receive_response
  receive_reads buf_size timeout_ms b b' payload e =
      let b1 = (h.wait_ready timeout_ms b).1 in
      let (read_err, raw, b2) = h.read_frame rx_buf_size b1 in
      elim (Bool-cases (is_invalid_crc (pn532_parse_frame raw buf_size).0)) [
        | inl c ↦ recover_reads buf_size timeout_ms b2 b' payload (ground (arith, e, c))
        | inr c ↦ (b1, b2, raw, ground (arith, e, c), ground (arith, e, c))
      ]

  -- A response that the driver returns was read from the bus, also after a resync: some read gave a
  -- buffer in which, behind the status byte, `D5`, the payload and a byte stand whose sum is 0 modulo
  -- 256, and the payload fits the caller's buffer.
  pub pn532_receive_response-read :
      (buf_size timeout_ms : ℕ) (b b' : B) (payload : Bytes)
      → pn532_receive_response h buf_size timeout_ms b ≡ (EspCode.ok, payload, b')
      → (before after : B) × (raw : Bytes) × (h.read_frame rx_buf_size before
          ≡ (EspCode.ok, raw, after))
        × Carries (drop 1 raw) payload
        × (length payload ≤ buf_size)
  pn532_receive_response-read buf_size timeout_ms b b' payload e =
      let (before, after, raw, read, parsed) = receive_reads buf_size timeout_ms b b' payload e in
      let (carries, fits) = pn532_parse_frame-Carries raw payload buf_size parsed in
      (before, after, raw, read, carries, fits)

  -- The errors that the transport reports go up unchanged: while the chip is not ready for the response
  -- the driver returns that error.
  pub pn532_receive_response-not_ready :
      (buf_size timeout_ms : ℕ) (b b1 : B) (err : EspCode)
      → h.wait_ready timeout_ms b ≡ (err, b1)
      → err ≢ EspCode.ok
      → pn532_receive_response h buf_size timeout_ms b ≡ (err, [], b1)
  unfolding pn532_receive_response
  pn532_receive_response-not_ready buf_size timeout_ms b b1 err w ne = ground (arith, w, ne)

  -- A command that fits is written as its frame, and a write error goes up unchanged.
  pub pn532_send_command-write_fails :
      (cmd_code : ℕ) (params : Bytes) (b b1 : B) (err : EspCode)
      → 1 + length params ≤ 264
      → h.write (pn532_build_frame cmd_code params).1 b ≡ (err, b1)
      → err ≢ EspCode.ok
      → pn532_send_command h cmd_code params b ≡ (err, b1)
  unfolding pn532_send_command pn532_build_frame
  pn532_send_command-write_fails cmd_code params b b1 err fits w ne = ground (arith, w, ne)

  read_ack-ack :
      (status timeout_ms : ℕ) (b b1 b2 : B)
      → h.wait_ready timeout_ms b ≡ (EspCode.ok, b1)
      → h.read_frame 7 b1 ≡ (EspCode.ok, status ∷ ack_frame, b2)
      → pn532_read_ack h timeout_ms b ≡ (EspCode.ok, b2)
  unfolding pn532_read_ack pn532_match_fixed pn532_find_start
  read_ack-ack status timeout_ms b b1 b2 w r = rw (w, r, pn532_read_ack) refl

  -- A command that fits succeeds when its frame is written and the chip answers with the ACK frame.
  pub pn532_send_command-acked :
      (cmd_code status : ℕ) (params : Bytes) (b b1 b2 b3 : B)
      → 1 + length params ≤ 264
      → h.write (pn532_build_frame cmd_code params).1 b ≡ (EspCode.ok, b1)
      → h.wait_ready ack_timeout_ms b1 ≡ (EspCode.ok, b2)
      → h.read_frame 7 b2 ≡ (EspCode.ok, status ∷ ack_frame, b3)
      → pn532_send_command h cmd_code params b ≡ (EspCode.ok, b3)
  unfolding pn532_send_command pn532_build_frame
  pn532_send_command-acked cmd_code status params b b1 b2 b3 fits w r a =
      ground (arith, w, read_ack-ack status ack_timeout_ms b1 b2 b3 r a)

  -- The first read settles a response unless its checksum fails.
  pub pn532_receive_response-parsed :
      (buf_size timeout_ms : ℕ) (raw payload : Bytes) (b b1 b2 : B)
      → h.wait_ready timeout_ms b ≡ (EspCode.ok, b1)
      → h.read_frame rx_buf_size b1 ≡ (EspCode.ok, raw, b2)
      → pn532_parse_frame raw buf_size ≡ (EspCode.ok, payload)
      → pn532_receive_response h buf_size timeout_ms b ≡ (EspCode.ok, payload, b2)
  unfolding pn532_receive_response
  pn532_receive_response-parsed buf_size timeout_ms raw payload b b1 b2 w r p =
      ground (arith, w, r, p)

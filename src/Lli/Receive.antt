-- ===== src/Lli/Receive.antt =====
-- What `lli_receive_apdu` of components/lli/src/lli.c delivers.
use smart_lock_firmware.Common.{ℕ, ◌≤◌, ◌≡◌, [], ◌∷◌, Bytes, length, drop, arith, subst}
use smart_lock_firmware.Transport.Machine.{LliErr}
use smart_lock_firmware.Pn532.{EspCode, rx_buf_size, max_payload_len, ack_frame, ack_timeout_ms}
use smart_lock_firmware.Pn532.Frame.{negate, add_bytes, pn532_build_frame, pn532_parse_frame}
use smart_lock_firmware.Pn532.Frame.Bodies.{chip_frame}
use smart_lock_firmware.Pn532.Frame.Accepts.{pn532_parse_frame-chip_frame}
use smart_lock_firmware.Pn532.Frame.Layout.{negate-sum}
use smart_lock_firmware.Pn532.Frame.Sound.{Carries}
use smart_lock_firmware.Pn532.Driver.{pn532_send_command, pn532_receive_response}
use smart_lock_firmware.Pn532.Driver.Receive.{
  pn532_receive_response-read, pn532_send_command-acked, pn532_receive_response-parsed,
}
use smart_lock_firmware.Lli.{Lli, apdu_of_response, lli_receive_apdu, status_err, lli_err_from_esp}

-- A response that is accepted is `87 00` and the APDU, which fits.
apdu_of_response-ok :
    (resp apdu : Bytes) (buf_len : ℕ)
    → apdu_of_response resp buf_len ≡ (LliErr.ok, apdu)
    → (resp ≡ 0x87 ∷ 0x00 ∷ apdu) × (length apdu ≤ buf_len)
unfolding apdu_of_response status_err
apdu_of_response-ok [] apdu buf_len e = ground (arith, e)
apdu_of_response-ok (x ∷ []) apdu buf_len e = ground (arith, e)
apdu_of_response-ok (x ∷ y ∷ rest) apdu buf_len e = ground (arith, e)

apdu_of_response-apdu :
    (apdu : Bytes) (buf_len : ℕ)
    → length apdu ≤ buf_len
    → apdu_of_response (0x87 ∷ 0x00 ∷ apdu) buf_len ≡ (LliErr.ok, apdu)
unfolding apdu_of_response
apdu_of_response-apdu apdu buf_len fits = ground (arith, fits)

-- A response of the chip with a good checksum is read whole.
read_response :
    (status zeros : ℕ) (payload rest : Bytes)
    → length payload ≤ max_payload_len
    → pn532_parse_frame
        (status ∷ chip_frame zeros payload (negate (add_bytes 0xD5 payload)) rest)
        max_payload_len
      ≡ (EspCode.ok, payload)
read_response status zeros payload rest small = ground (
  arith,
  pn532_parse_frame-chip_frame status zeros (negate (add_bytes 0xD5 payload)) max_payload_len
      payload rest (omega (arith, small)),
  negate-sum (add_bytes 0xD5 payload),
)

module _ {B : Type 0} (h : Lli B) where
  receive_returns :
      (buf_len timeout_ms : ℕ) (b b' : B) (apdu : Bytes)
      → lli_receive_apdu h buf_len timeout_ms b ≡ (LliErr.ok, apdu, b')
      → (b1 : B) × (resp : Bytes) × (pn532_receive_response h.pn532 max_payload_len timeout_ms b1
          ≡ (EspCode.ok, resp, b'))
        × (apdu_of_response resp buf_len ≡ (LliErr.ok, apdu))
  unfolding lli_receive_apdu lli_err_from_esp
  receive_returns buf_len timeout_ms b b' apdu e =
      let b1 = (pn532_send_command h.pn532 0x86 [] b).1 in
      let (receive_err, resp, b2) = pn532_receive_response h.pn532 max_payload_len timeout_ms b1 in
      (b1, resp, ground (arith, e), ground (arith, e))

  -- An APDU that the link delivers was in a frame on the bus: some read of the transport gave a buffer
  -- that carries `D5 87 00`, the APDU and a checksum byte that fits; and the APDU fits the caller's
  -- buffer.
  pub lli_receive_apdu-read :
      (buf_len timeout_ms : ℕ) (b b' : B) (apdu : Bytes)
      → lli_receive_apdu h buf_len timeout_ms b ≡ (LliErr.ok, apdu, b')
      → (before after : B) × (raw : Bytes) × (h.pn532.read_frame rx_buf_size before
          ≡ (EspCode.ok, raw, after))
        × Carries (drop 1 raw) (0x87 ∷ 0x00 ∷ apdu)
        × (length apdu ≤ buf_len)
  lli_receive_apdu-read buf_len timeout_ms b b' apdu e =
      let (b1, resp, received, accepted) = receive_returns buf_len timeout_ms b b' apdu e in
      let (shape, fits) = apdu_of_response-ok resp apdu buf_len accepted in
      let (before, after, raw, read, carries, _) =
        pn532_receive_response-read h.pn532 max_payload_len timeout_ms b1 b' resp received in
      (before, after, raw, read, subst (Carries (drop 1 raw)) shape carries, fits)

  -- Where the chip acknowledges TgGetData and answers `87 00` with an APDU in a frame of its own, padded
  -- and followed by whatever the bus reads, the caller gets that APDU if its buffer holds it.
  pub lli_receive_apdu-delivers :
      (buf_len timeout_ms status zeros : ℕ) (apdu rest : Bytes) (b b1 b2 b3 b4 b5 : B)
      → length apdu ≤ buf_len
      → length apdu ≤ 263
      → h.pn532.write (pn532_build_frame 0x86 []).1 b ≡ (EspCode.ok, b1)
      → h.pn532.wait_ready ack_timeout_ms b1 ≡ (EspCode.ok, b2)
      → h.pn532.read_frame 7 b2 ≡ (EspCode.ok, 0x01 ∷ ack_frame, b3)
      → h.pn532.wait_ready timeout_ms b3 ≡ (EspCode.ok, b4)
      → h.pn532.read_frame rx_buf_size b4 ≡ (
        EspCode.ok,
        status
            ∷ chip_frame zeros
                (0x87 ∷ 0x00 ∷ apdu)
                (negate (add_bytes 0xD5 (0x87 ∷ 0x00 ∷ apdu)))
                rest,
        b5,
      )
      → lli_receive_apdu h buf_len timeout_ms b ≡ (LliErr.ok, apdu, b5)
  unfolding lli_receive_apdu
  lli_receive_apdu-delivers buf_len timeout_ms status zeros apdu rest b b1 b2 b3 b4 b5 fits small w
        r a w2 r2 =
      let resp : Bytes = 0x87 ∷ 0x00 ∷ apdu in
      let raw : Bytes = status ∷ chip_frame zeros resp (negate (add_bytes 0xD5 resp)) rest in
      ground (
        arith,
        pn532_send_command-acked h.pn532 0x86 0x01 [] b b1 b2 b3 (omega arith) w r a,
        pn532_receive_response-parsed h.pn532 max_payload_len timeout_ms raw resp b3 b4 b5 w2 r2
            (read_response status zeros resp rest (omega (arith, small))),
        apdu_of_response-apdu apdu buf_len fits,
      )

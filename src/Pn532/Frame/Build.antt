-- ===== src/Pn532/Frame/Build.antt =====
-- What the frame builder of components/pn532/src/pn532.c writes.
use smart_lock_firmware.Common.{
  ℕ, ◌+◌, ◌%◌, ◌≤◌, ◌≡◌, refl, ◌∙◌, false, [], ◌∷◌, ◌++◌, Bytes, length, arith, length-append, ltb,
  Bool-cases, inl, inr,
}
use smart_lock_firmware.Pn532.{EspCode, tx_buf_size, max_payload_len}
use smart_lock_firmware.Pn532.Frame.{negate, add_bytes, length_field, pn532_build_frame}
use smart_lock_firmware.Pn532.Frame.Layout.{add_bytes-append, negate-sum}

length-length_field_bound : (n : ℕ) → length (length_field n) ≤ 5
unfolding length_field
length-length_field_bound n = elim (Bool-cases (ltb 254 n)) [
  | inl h ↦ rw h (omega arith)
  | inr h ↦ rw h (omega arith)
]

length-frame :
    (field : Bytes) (cmd_code dcs : ℕ) (params : Bytes)
    → length ((0x00 ∷ 0x00 ∷ 0xFF ∷ []) ++ (field ++ 0xD4 ∷ cmd_code ∷ (params ++ dcs ∷ 0x00 ∷ [])))
      ≡ 7 + length field + length params
length-frame field cmd_code dcs params = omega (
  arith,
  length-append field (0xD4 ∷ cmd_code ∷ (params ++ dcs ∷ 0x00 ∷ [])),
  length-append params (dcs ∷ 0x00 ∷ []),
)

-- A command of at most 264 bytes, its code included, is built into a frame that the driver's buffer
-- holds: the start code, the length field of the command with its `D4`, these bytes, a checksum byte
-- that makes their `uint8_t` sum 0, and a zero byte.
pub pn532_build_frame-fits :
    (cmd_code : ℕ) (params : Bytes)
    → 1 + length params ≤ 264
    → (dcs : ℕ) × (pn532_build_frame cmd_code params ≡ (
      EspCode.ok,
      (0x00 ∷ 0x00 ∷ 0xFF ∷ [])
          ++ (length_field (1 + (1 + length params))
              ++ 0xD4 ∷ cmd_code ∷ (params ++ dcs ∷ 0x00 ∷ [])),
    ))
      × (add_bytes 0 (0xD4 ∷ cmd_code ∷ (params ++ dcs ∷ [])) ≡ 0)
      × (length (pn532_build_frame cmd_code params).1 ≤ tx_buf_size)
unfolding pn532_build_frame add_bytes
pn532_build_frame-fits cmd_code params h =
    let sum = add_bytes ((0xD4 + cmd_code) % 256) params in
    let small : ltb max_payload_len (1 + (1 + length params)) ≡ false = (ground arith) in
    (
      negate sum,
      rw small refl,
      add_bytes-append ((0xD4 + cmd_code) % 256) params (negate sum ∷ []) ∙ negate-sum sum,
      rw small (
          omega (
            arith,
            length-frame (length_field (1 + (1 + length params))) cmd_code (negate sum) params,
            length-length_field_bound (1 + (1 + length params)),
          )),
    )

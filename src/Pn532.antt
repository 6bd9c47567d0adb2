-- ===== src/Pn532.antt =====
-- The driver of the NFC chip, components/pn532/: error codes, frame constants and sizes, of
-- include/pn532.h and src/pn532.c.
pub mod Frame
pub mod Driver
pub mod Commands
pub mod Targets
pub mod I2c
use smart_lock_firmware.Common.{ℕ, ◌+◌, ◌-◌, ◌%◌, Bool, true, false, [], ◌∷◌, Bytes}

-- The error codes of the platform that the driver returns, and any other.
pub data EspCode : Type 0 where
  ok fail no_mem invalid_arg invalid_state invalid_size not_found not_supported : EspCode
  timeout invalid_response invalid_crc other : EspCode

abbrev pub is_ok : EspCode → Bool
is_ok EspCode.ok = true
is_ok _ = false

-- `PN532_MAX_PAYLOAD_LEN`, `PN532_NORMAL_LEN_MAX`, `PN532_TX_BUF_SIZE` and `PN532_RX_BUF_SIZE`.
abbrev pub max_payload_len : ℕ
max_payload_len = 265

abbrev pub normal_len_max : ℕ
normal_len_max = 0xFE

abbrev pub tx_buf_size : ℕ
tx_buf_size = 11 + (max_payload_len - 1)

abbrev pub rx_buf_size : ℕ
rx_buf_size = 12 + (max_payload_len - 1)

abbrev pub ack_frame : Bytes
ack_frame = 0x00 ∷ 0x00 ∷ 0xFF ∷ 0x00 ∷ 0xFF ∷ 0x00 ∷ []

abbrev pub nack_frame : Bytes
nack_frame = 0x00 ∷ 0x00 ∷ 0xFF ∷ 0xFF ∷ 0x00 ∷ 0x00 ∷ []

abbrev pub ack_timeout_ms : ℕ
ack_timeout_ms = 100

-- ===== src/Transport/Apdu.antt =====
-- The APDU types of components/transport/include/transport.h and the codec of
-- components/transport/src/transport.c.
pub mod Codec
use smart_lock_firmware.Common.{
  ℕ, ◌+◌, ◌-◌, Bool, true, false, not, List, [], ◌∷◌, ◌++◌, Bytes, ltb, ◌==◌, if◌then◌else◌, length,
  get_or, take, drop,
}

pub data TransportErr : Type 0 where
  ok timeout link_lost invalid_state invalid_apdu payload_too_large internal bus_fatal :
      TransportErr

-- `transport_capdu_t`; `payload` is the first `lc` bytes of its `data`.
pub record Capdu : Type 0 where
  pub cla : ℕ
  pub ins : ℕ
  pub p1 : ℕ
  pub p2 : ℕ
  pub lc : ℕ
  pub payload : Bytes

-- `transport_rapdu_t`; `payload` is the buffer `data`, of which `len` bytes are sent.
pub record Rapdu : Type 0 where
  pub payload : Bytes
  pub len : ℕ
  pub sw1 : ℕ
  pub sw2 : ℕ

abbrev pub ins_handshake_init : ℕ
ins_handshake_init = 0x10

abbrev pub ins_handshake_finish : ℕ
ins_handshake_finish = 0x11

abbrev pub ins_secure_payload : ℕ
ins_secure_payload = 0x20

abbrev pub ins_session_abort : ℕ
ins_session_abort = 0x30

abbrev pub sw1_ok : ℕ
sw1_ok = 0x90

abbrev pub sw2_ok : ℕ
sw2_ok = 0x00

abbrev pub sw1_security : ℕ
sw1_security = 0x69

abbrev pub sw2_auth_failed : ℕ
sw2_auth_failed = 0x82

abbrev pub sw2_wrong_state : ℕ
sw2_wrong_state = 0x85

abbrev pub sw1_wrong_param : ℕ
sw1_wrong_param = 0x6A

abbrev pub sw2_invalid_data : ℕ
sw2_invalid_data = 0x80

abbrev pub sw2_not_supported : ℕ
sw2_not_supported = 0x81

abbrev pub plaintext_budget : ℕ
plaintext_budget = 227

-- `sizeof(rapdu->data)`.
abbrev pub rapdu_capacity : ℕ
rapdu_capacity = 256

-- What `parse_capdu` leaves: the command, or the status words to answer with.
pub data Parsed : Type 0 where
  parsed : Capdu → Parsed
  refused : ℕ → ℕ → Parsed

-- Reads the header where all five of its bytes are there.
unfoldable pub read_capdu : Bytes → Capdu
read_capdu raw = record {
  cla = get_or raw 0 0;
  ins = get_or raw 1 0;
  p1 = get_or raw 2 0;
  p2 = get_or raw 3 0;
  lc = get_or raw 4 0;
  payload = take (get_or raw 4 0) (drop 5 raw);
}

unfoldable pub parse_capdu : Bytes → Parsed
unfolding read_capdu
parse_capdu raw =
    let out = read_capdu raw in
    if ltb (length raw) 5
    then refused sw1_wrong_param sw2_invalid_data
    else if not (out.cla == 0x80)
    then refused sw1_wrong_param sw2_not_supported
    else if not (out.lc == length raw - 5)
    then refused sw1_wrong_param sw2_invalid_data
    else parsed out

-- The bytes that `send_rapdu` puts on the link: Data ‖ SW1 ‖ SW2.
unfoldable pub rapdu_bytes : Rapdu → Bytes
rapdu_bytes r = take r.len r.payload ++ r.sw1 ∷ r.sw2 ∷ []

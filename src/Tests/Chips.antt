-- ===== src/Tests/Chips.antt =====
-- A chip that answers from a script, a bus that is dead, and the driver on them.
use smart_lock_firmware.Common.{get_or, ◌/◌, ◌%◌, ◌==◌, ◌<◌, if◌then◌else◌, subst}
use smart_lock_firmware.Common.{ap, sym, ◌∙◌}
use smart_lock_firmware.Pn532.Frame.{
  parse_body, parse_length, pn532_find_start, pn532_is_error_frame, pn532_match_fixed, sum_range,
}
use smart_lock_firmware.Common.{
  ℕ, ◌+◌, ◌≤◌, ◌≡◌, refl, Bool, true, false, none, List, [], ◌∷◌, ◌++◌, Bytes, length, drop, arith,
}
use smart_lock_firmware.Transport.Machine.{LliErr}
use smart_lock_firmware.Pn532.{EspCode, ack_frame, tx_buf_size}
use smart_lock_firmware.Pn532.Frame.{
  negate, add_bytes, length_field, pn532_parse_frame, pn532_build_frame,
}
use smart_lock_firmware.Pn532.Frame.Bodies.{chip_frame, verdict}
use smart_lock_firmware.Pn532.Frame.Accepts.{
  pn532_parse_frame-chip_frame, pn532_parse_frame-corrupted,
}
use smart_lock_firmware.Pn532.Frame.Build.{pn532_build_frame-fits}
use smart_lock_firmware.Pn532.Frame.Sound.{Carries}
use smart_lock_firmware.Pn532.Driver.{
  Handle, pn532_read_ack, pn532_send_command, pn532_receive_response,
}
use smart_lock_firmware.Pn532.Commands.{exchange, pn532_tg_get_data, tg_max_data_len}
use smart_lock_firmware.Pn532.Commands.Chaining.{
  pn532_tg_get_data-never_returns, pn532_tg_get_data-returns,
}
use smart_lock_firmware.Pn532.Targets.{read_targets}
use smart_lock_firmware.Pn532.Targets.Listed.{list_bytes, read_targets-list_bytes}
use smart_lock_firmware.Pn532.Commands.{PassiveTarget}
use smart_lock_firmware.Common.{some, inl, inr}
use smart_lock_firmware.Lli.{Identity, Lli, lli_receive_apdu}
use smart_lock_firmware.Lli.Receive.{lli_receive_apdu-read, lli_receive_apdu-delivers}

-- The buffers that the chip still has to give, and what was written to it.
record Chip : Type 0 where
  reads : List Bytes
  written : List Bytes

abbrev next_read : List Bytes → Chip → EspCode × Bytes × Chip
next_read [] c = (EspCode.timeout, [], c)
next_read (r ∷ rs) c = (EspCode.ok, r, record c { reads = rs })

abbrev scripted : Handle Chip
scripted = record {
  write = λ frame c. (EspCode.ok, record c { written = frame ∷ c.written });
  read_frame = λ n c. next_read c.reads c;
  wait_ready = λ t c. (EspCode.ok, c);
  destroy = none;
  reset_device = none;
  bus_lock = none;
  bus_unlock = none;
}

abbrev pub card : Identity
card = record {
  sens_res = 4 ∷ 0 ∷ [];
  nfcid1 = 1 ∷ 2 ∷ 3 ∷ [];
  sel_res = 0x20;
  nfcid2 = [];
  pad = [];
  system_code = [];
  nfcid3t = [];
  gt = [];
  gt_len = 0;
  tk = [];
  tk_len = 0;
}

abbrev scripted_lli : Lli Chip
scripted_lli = record { pn532 = scripted; identity = card }

abbrev pub select : Bytes
select = 0x00 ∷ 0xA4 ∷ 0x04 ∷ 0x00 ∷ []

abbrev answer_frame : Bytes
answer_frame =
    0x01
    ∷ chip_frame 1 (0x87 ∷ 0x00 ∷ select) (negate (add_bytes 0xD5 (0x87 ∷ 0x00 ∷ select)))
        (0x00 ∷ 0x33 ∷ [])

abbrev ack_read : Bytes
ack_read = 0x01 ∷ ack_frame

abbrev script : Chip
script = record { reads = ack_read ∷ answer_frame ∷ []; written = [] }

abbrev asked : Chip
asked = record script {
  written = (0x00 ∷ 0x00 ∷ 0xFF ∷ 0x02 ∷ 0xFE ∷ 0xD4 ∷ 0x86 ∷ 0xA6 ∷ 0x00 ∷ []) ∷ [];
}

abbrev acked : Chip
acked = record asked { reads = answer_frame ∷ [] }

abbrev answered : Chip
answered = record asked { reads = [] }

lli_receive_apdu-delivers_example :
    lli_receive_apdu scripted_lli 264 500 script ≡ (LliErr.ok, select, answered)
unfolding pn532_build_frame length_field negate add_bytes
lli_receive_apdu-delivers_example =
    lli_receive_apdu-delivers scripted_lli 264 500 0x01 1 select (0x00 ∷ 0x33 ∷ []) script asked
      asked acked acked answered (omega arith) (omega arith) refl refl refl refl refl

lli_receive_apdu-read_example :
    (before after : Chip) × (raw : Bytes) × (next_read before.reads before
      ≡ (EspCode.ok, raw, after))
    × Carries (drop 1 raw) (0x87 ∷ 0x00 ∷ select)
    × (length select ≤ 264)
lli_receive_apdu-read_example =
    lli_receive_apdu-read scripted_lli 264 500 script answered select
      lli_receive_apdu-delivers_example

pn532_parse_frame-chip_frame_example :
    pn532_parse_frame (0x01 ∷ chip_frame 2 (0x03 ∷ 0x32 ∷ []) 0xF6 (0x00 ∷ [])) 5
    ≡ verdict (0x03 ∷ 0x32 ∷ []) 0xF6 5
pn532_parse_frame-chip_frame_example =
    pn532_parse_frame-chip_frame 0x01 2 0xF6 5 (0x03 ∷ 0x32 ∷ []) (0x00 ∷ []) (omega arith)

pn532_parse_frame-corrupted_example :
    pn532_parse_frame
      (0x01
        ∷ chip_frame 1
            ((0x03 ∷ []) ++ 0x33 ∷ [])
            (negate (add_bytes 0xD5 ((0x03 ∷ []) ++ 0x32 ∷ [])))
            [])
      5
    ≡ (EspCode.invalid_crc, [])
pn532_parse_frame-corrupted_example =
    pn532_parse_frame-corrupted 0x01 1 5 0x32 0x33 (0x03 ∷ []) [] [] (omega arith) (omega arith)
      (omega arith) (λ e. omega (arith, e))

pn532_build_frame-fits_example :
    (dcs : ℕ) × (pn532_build_frame 0x02 [] ≡ (
      EspCode.ok,
      (0x00 ∷ 0x00 ∷ 0xFF ∷ []) ++ (length_field (1 + (1 + 0)) ++ 0xD4 ∷ 0x02 ∷ (dcs ∷ 0x00 ∷ [])),
    ))
    × (add_bytes 0 (0xD4 ∷ 0x02 ∷ (dcs ∷ [])) ≡ 0)
    × (length (pn532_build_frame 0x02 []).1 ≤ tx_buf_size)
pn532_build_frame-fits_example = pn532_build_frame-fits 0x02 [] (omega arith)

abbrev more_read : Bool → EspCode × Bytes × Bool
more_read true = (EspCode.ok, ack_read, false)
more_read false = (
  EspCode.ok,
  0x01 ∷ chip_frame 1 (0x87 ∷ 0x40 ∷ []) (negate (add_bytes 0xD5 (0x87 ∷ 0x40 ∷ []))) [],
  false,
)

-- A chip that acknowledges each command and answers that more follows.
abbrev endless : Handle Bool
endless = record {
  write = λ frame b. (EspCode.ok, true);
  read_frame = λ n b. more_read b;
  wait_ready = λ t b. (EspCode.ok, b);
  destroy = none;
  reset_device = none;
  bus_lock = none;
  bus_unlock = none;
}

pn532_tg_get_data-never_returns_example : pn532_tg_get_data 5 endless 262 1000 false ≡ none
unfolding exchange pn532_send_command pn532_build_frame pn532_read_ack pn532_match_fixed
    pn532_find_start pn532_receive_response pn532_parse_frame pn532_is_error_frame length_field
    parse_length negate parse_body sum_range add_bytes
pn532_tg_get_data-never_returns_example =
    pn532_tg_get_data-never_returns endless 5 262 1000 false (λ b. (false, refl))

-- A phone with an ATS of two bytes and a tag without one.
abbrev phone : PassiveTarget
phone = record {
  tg = 1;
  atqa = 0x03 ∷ 0x04 ∷ [];
  sak = 0x20;
  nfcid = 0x08 ∷ 0x01 ∷ 0x02 ∷ 0x03 ∷ [];
  ats = 0x75 ∷ 0x77 ∷ [];
}

abbrev tag : PassiveTarget
tag = record {
  tg = 2;
  atqa = 0x44 ∷ 0x00 ∷ [];
  sak = 0x08;
  nfcid = 0x04 ∷ 0x05 ∷ 0x06 ∷ 0x07 ∷ [];
  ats = [];
}

read_targets-list_bytes_example :
    read_targets 2 ((0x4B ∷ 0x02 ∷ []) ++ (list_bytes (phone ∷ tag ∷ []) ++ 0x00 ∷ [])) 2
    ≡ some (phone ∷ tag ∷ [])
read_targets-list_bytes_example =
    read_targets-list_bytes 2 (0x4B ∷ 0x02 ∷ []) (0x00 ∷ []) (phone ∷ tag ∷ []) refl (
      record { atqa = refl; nfcid = omega arith; ats = inl refl },
      (record { atqa = refl; nfcid = omega arith; ats = inr (λ e. omega (arith, e), refl) }, tt),
    )

abbrev one_byte : Bytes
one_byte = 0x87 ∷ 0x40 ∷ 5 ∷ []

abbrev filled_read : Bool → EspCode × Bytes × Bool
filled_read true = (EspCode.ok, ack_read, false)
filled_read false =
    (EspCode.ok, 0x01 ∷ chip_frame 1 one_byte (negate (add_bytes 0xD5 one_byte)) [], false)

-- A chip that answers each command with one byte and announces more.
abbrev filled : Handle Bool
filled = record endless { read_frame = λ n b. filled_read b }

filled_answer :
    (b : Bool)
    → exchange filled 0x86 [] (1 + tg_max_data_len + 1) 2 1000 b ≡ (EspCode.ok, one_byte, false)
unfolding exchange pn532_send_command pn532_build_frame pn532_read_ack pn532_match_fixed
    pn532_find_start pn532_receive_response pn532_parse_frame pn532_is_error_frame length_field
    parse_length negate parse_body sum_range add_bytes
filled_answer b = refl

filled_long :
    (b b1 : Bool) (rsp : Bytes)
    → exchange filled 0x86 [] (1 + tg_max_data_len + 1) 2 1000 b ≡ (EspCode.ok, rsp, b1)
    → get_or rsp 1 0 / 64 % 2 ≡ 1
    → (if get_or rsp 1 0 / 128 % 2 == 1 then 3 else 2) < length rsp
filled_long b b1 rsp e more =
    let same = ap (λ (r : EspCode × Bytes × Bool). r.1) (sym (filled_answer b) ∙ e) in
    subst (λ (xs : Bytes). (if get_or xs 1 0 / 128 % 2 == 1 then 3 else 2) < length xs) same
      (omega arith)

pn532_tg_get_data-returns_example :
    (o : EspCode × Bytes × Bool) × (pn532_tg_get_data 266 filled 262 1000 false ≡ some o)
pn532_tg_get_data-returns_example =
    pn532_tg_get_data-returns filled 266 262 1000 false filled_long (omega arith)

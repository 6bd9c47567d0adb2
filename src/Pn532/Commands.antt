-- ===== src/Pn532/Commands.antt =====
-- The command layer, components/pn532/src/pn532_cmd.c: each function sends one command and checks the
-- response. Bits of a byte are read by `/` and `%`.
pub mod Chaining
use smart_lock_firmware.Common.{
  ℕ, zero, suc, ◌+◌, ◌-◌, ◌/◌, ◌%◌, min, Bool, true, false, ◌&&◌, ◌||◌, not, Option, none, some,
  List, [], ◌∷◌, ◌++◌, Bytes, ltb, ◌==◌, if◌then◌else◌, length, get_or, take, drop, Next, again,
  stop, iterate,
}
use smart_lock_firmware.Pn532.{EspCode, is_ok, max_payload_len}
use smart_lock_firmware.Pn532.Driver.{Handle, pn532_send_command, pn532_receive_response}

-- `PN532_TG_MAX_DATA_LEN` and `PN532_TG_MAX_GTK_LEN`.
abbrev pub tg_max_data_len : ℕ
tg_max_data_len = 262

abbrev pub tg_max_gtk_len : ℕ
tg_max_gtk_len = 47

-- `pn532_firmware_version_t`
pub record FirmwareVersion : Type 0 where
  pub ic : ℕ
  pub ver : ℕ
  pub rev : ℕ
  pub support : ℕ

-- `pn532_tg_init_params_t`; `none` is a NULL pointer.
pub record TgInitParams : Type 0 where
  pub sens_res : Bytes
  pub nfcid1 : Bytes
  pub sel_res : ℕ
  pub nfcid2 : Bytes
  pub pad : Bytes
  pub system_code : Bytes
  pub nfcid3 : Bytes
  pub gt : Option Bytes
  pub gt_len : ℕ
  pub tk : Option Bytes
  pub tk_len : ℕ
  pub mode : ℕ

-- `pn532_tg_status_t`
pub record TgStatus : Type 0 where
  pub state : ℕ
  pub br_it : ℕ

-- `pn532_passive_target_t`; the lists are the bytes in use, so the two length fields are theirs.
pub record PassiveTarget : Type 0 where
  pub tg : ℕ
  pub atqa : Bytes
  pub sak : ℕ
  pub nfcid : Bytes
  pub ats : Bytes

-- The bytes that `pn532_tg_init_as_target` appends for Gt and for Tk.
unfoldable pub length_prefixed : Option Bytes → ℕ → Bytes
length_prefixed none len = len ∷ []
length_prefixed (some bytes) len = len ∷ take len bytes

-- The parameters of TgInitAsTarget.
unfoldable pub tg_init_bytes : TgInitParams → Bytes
tg_init_bytes p =
    p.mode
    ∷ (take 2 p.sens_res
        ++ (take 3 p.nfcid1
            ++ (p.sel_res
                ∷ (take 8 p.nfcid2
                    ++ (take 8 p.pad
                        ++ (take 2 p.system_code
                            ++ (take 10 p.nfcid3
                                ++ (length_prefixed p.gt p.gt_len
                                    ++ length_prefixed p.tk p.tk_len))))))))

module _ {B : Type 0} where
  -- What each command does: send, receive into a buffer, and check the length and the response code.
  unfoldable pub exchange : Handle B → ℕ → Bytes → ℕ → ℕ → ℕ → B → EspCode × Bytes × B
  exchange h cmd_code params buf_size min_len timeout_ms b =
      let (err, b1) = pn532_send_command h cmd_code params b in
      if is_ok err
      then (let (receive_err, rsp, b2) = pn532_receive_response h buf_size timeout_ms b1 in
          if is_ok receive_err
          then (if ltb (length rsp) min_len || not (get_or rsp 0 0 == cmd_code + 1)
              then (EspCode.fail, [], b2)
              else (EspCode.ok, rsp, b2))
          else (receive_err, [], b2))
      else (err, [], b1)

  -- The commands that check a status byte and keep nothing of the response.
  unfoldable pub status_exchange : Handle B → ℕ → Bytes → ℕ → B → EspCode × B
  status_exchange h cmd_code bytes timeout_ms b =
      if ltb tg_max_data_len (length bytes)
      then (EspCode.invalid_size, b)
      else let (err, rsp, b1) = exchange h cmd_code bytes 2 2 timeout_ms b in
        if is_ok err
        then (if get_or rsp 1 0 == 0x00 then (EspCode.ok, b1) else (EspCode.fail, b1))
        else (err, b1)

  unfoldable pub pn532_get_firmware_version : Handle B → B → EspCode × Option FirmwareVersion × B
  pn532_get_firmware_version h b =
      let (err, rsp, b1) = exchange h 0x02 [] 5 5 100 b in
      if is_ok err
      then (let out : FirmwareVersion = record {
        ic = get_or rsp 1 0;
        ver = get_or rsp 2 0;
        rev = get_or rsp 3 0;
        support = get_or rsp 4 0;
      } in
          if get_or rsp 1 0 == 0x32
          then (EspCode.ok, some out, b1)
          else (EspCode.fail, some out, b1))
      else (err, none, b1)

  unfoldable pub pn532_sam_configuration : Handle B → ℕ → ℕ → Bool → B → EspCode × B
  pn532_sam_configuration h mode timeout_50ms irq_enabled b =
      let irq = if irq_enabled then 0x01 else 0x00 in
      let (err, _, b1) = exchange h 0x14 (mode ∷ timeout_50ms ∷ irq ∷ []) 1 1 100 b in (err, b1)

  -- Bits 3 and 7 are reserved.
  unfoldable pub pn532_set_parameters : Handle B → ℕ → B → EspCode × B
  pn532_set_parameters h flags b =
      if flags / 8 % 2 == 0 && flags / 128 % 2 == 0
      then (let (err, _, b1) = exchange h 0x12 (flags ∷ []) 1 1 100 b in (err, b1))
      else (EspCode.invalid_arg, b)

  -- The result is the mode in which the chip was activated.
  unfoldable pub pn532_tg_init_as_target : Handle B → TgInitParams → ℕ → B → EspCode × Option ℕ × B
  pn532_tg_init_as_target h params timeout_ms b =
      if ltb tg_max_gtk_len params.gt_len || ltb tg_max_gtk_len params.tk_len
      then (EspCode.invalid_arg, none, b)
      else let (err, rsp, b1) =
          exchange h 0x8C (tg_init_bytes params) (2 + tg_max_data_len) 2 timeout_ms b in
        if is_ok err then (EspCode.ok, some (get_or rsp 1 0), b1) else (err, none, b1)

  unfoldable pub pn532_tg_get_target_status : Handle B → ℕ → B → EspCode × Option TgStatus × B
  pn532_tg_get_target_status h timeout_ms b =
      let (err, rsp, b1) = exchange h 0x8A [] 8 3 timeout_ms b in
      if is_ok err
      then (EspCode.ok, some (record { state = get_or rsp 1 0; br_it = get_or rsp 2 0 }), b1)
      else (err, none, b1)

  -- One round of the loop of `pn532_tg_get_data`, on what was accumulated. Bits 0 to 5 of the status are
  -- an error, bit 6 says that more follows, bit 7 that a NAD byte precedes the bytes.
  unfoldable pub get_data_round : Handle B → ℕ → Bytes × B → Next (Bytes × B) (EspCode × Bytes × B)
  get_data_round h timeout_ms (accum, b) =
      let (err, rsp, b1) = exchange h 0x86 [] (1 + tg_max_data_len + 1) 2 timeout_ms b in
      let status = get_or rsp 1 0 in
      let data_offset = if status / 128 % 2 == 1 then 3 else 2 in
      let grown = accum ++ drop data_offset rsp in
      if is_ok err
      then (if status % 64 == 0x00
          then (if ltb max_payload_len (length grown)
              then stop (EspCode.invalid_size, [], b1)
              else if status / 64 % 2 == 1
              then again (grown, b1)
              else stop (EspCode.ok, grown, b1))
          else stop (EspCode.fail, [], b1))
      else stop (err, [], b1)

  -- `pn532_tg_get_data`; `none` when the fuel ends before the chip sends its last fragment.
  unfoldable pub pn532_tg_get_data : ℕ → Handle B → ℕ → ℕ → B → Option (EspCode × Bytes × B)
  pn532_tg_get_data fuel h buf_size timeout_ms b =
      elim (iterate fuel (get_data_round h timeout_ms) ([], b)) [
        | none ↦ none
        | some (err, accum, b1) ↦
            if is_ok err && ltb buf_size (length accum)
            then some (EspCode.invalid_size, [], b1)
            else some (err, accum, b1)
      ]

  unfoldable pub pn532_tg_set_data : Handle B → Bytes → ℕ → B → EspCode × B
  pn532_tg_set_data h bytes timeout_ms b = status_exchange h 0x8E bytes timeout_ms b

  unfoldable pub pn532_tg_response_to_initiator : Handle B → Bytes → ℕ → B → EspCode × B
  pn532_tg_response_to_initiator h bytes timeout_ms b = status_exchange h 0x90 bytes timeout_ms b

  unfoldable pub pn532_tg_set_meta_data : Handle B → Bytes → ℕ → B → EspCode × B
  pn532_tg_set_meta_data h bytes timeout_ms b = status_exchange h 0x94 bytes timeout_ms b

  unfoldable pub pn532_tg_get_initiator_command : Handle B → ℕ → ℕ → B → EspCode × Bytes × B
  pn532_tg_get_initiator_command h buf_size timeout_ms b =
      let (err, rsp, b1) = exchange h 0x88 [] (2 + tg_max_data_len) 2 timeout_ms b in
      if is_ok err
      then (if get_or rsp 1 0 == 0x00
          then (if ltb buf_size (length rsp - 2)
              then (EspCode.invalid_size, [], b1)
              else (EspCode.ok, drop 2 rsp, b1))
          else (EspCode.fail, [], b1))
      else (err, [], b1)

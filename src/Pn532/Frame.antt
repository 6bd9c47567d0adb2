-- ===== src/Pn532/Frame.antt =====
-- The frame builder and the frame parser of components/pn532/src/pn532.c. A parser reads a buffer
-- at offsets, as the source does, and 0 stands for what is read past the end of the buffer.
pub mod Layout
pub mod Bodies
pub mod Accepts
pub mod Build
pub mod Sound
use smart_lock_firmware.Common.{
  ℕ, zero, suc, ◌+◌, ◌-◌, ◌*◌, ◌/◌, ◌%◌, Bool, true, false, ◌&&◌, Option, none, some, [], ◌∷◌, ◌++◌,
  Bytes, ltb, leb, ◌==◌, if◌then◌else◌, length, get_or, take, drop,
}
use smart_lock_firmware.Pn532.{EspCode, max_payload_len, normal_len_max}
use mathlib.Core.Option

-- `(uint8_t)(~x + 1)`.
unfoldable pub negate : ℕ → ℕ
negate x = (256 - x % 256) % 256

-- A `uint8_t` sum, to which the bytes are added one by one.
unfoldable pub add_bytes : ℕ → Bytes → ℕ
add_bytes sum [] = sum
add_bytes sum (b ∷ bytes) = add_bytes ((sum + b) % 256) bytes

-- LEN and LCS, in the normal or in the extended form.
unfoldable pub length_field : ℕ → Bytes
length_field info_len =
    let hi = info_len / 256 % 256 in
    let lo = info_len % 256 in
    if ltb normal_len_max info_len
    then 0xFF ∷ 0xFF ∷ hi ∷ lo ∷ negate (hi + lo) ∷ []
    else info_len ∷ negate info_len ∷ []

unfoldable pub pn532_build_frame : ℕ → Bytes → EspCode × Bytes
pn532_build_frame cmd_code params =
    let info_len = 1 + (1 + length params) in
    if ltb max_payload_len info_len
    then (EspCode.invalid_arg, [])
    else let sum = add_bytes ((0xD4 + cmd_code) % 256) params in
      (
        EspCode.ok,
        (0x00 ∷ 0x00 ∷ 0xFF ∷ [])
            ++ (length_field info_len ++ 0xD4 ∷ cmd_code ∷ (params ++ negate sum ∷ 0x00 ∷ [])),
      )

-- The offset past the first `00 FF`; `none` stands for `ESP_ERR_INVALID_RESPONSE`.
unfoldable pub pn532_find_start : Bytes → Option ℕ
pn532_find_start [] = none
pn532_find_start (x ∷ []) = none
pn532_find_start (x ∷ y ∷ rest) =
    let later = pn532_find_start (y ∷ rest) in
    if x == 0x00 && y == 0xFF then some 2 else Option.map suc later

unfoldable pub pn532_match_fixed : Bytes → Bytes → Bool
pn532_match_fixed buf pattern = elim (pn532_find_start buf) [
  | none ↦ false
  | some off ↦
      if ltb (length buf) (off + 3)
      then false
      else get_or buf off 0 == get_or pattern 3 0
        && get_or buf (off + 1) 0 == get_or pattern 4 0
        && get_or buf (off + 2) 0 == get_or pattern 5 0
]

unfoldable pub pn532_is_error_frame : Bytes → Bool
pn532_is_error_frame buf = elim (pn532_find_start buf) [
  | none ↦ false
  | some off ↦
      leb (off + 3) (length buf)
      && get_or buf off 0 == 0x01
      && get_or buf (off + 1) 0 == 0xFF
      && get_or buf (off + 2) 0 == 0x7F
]

-- The `uint8_t` sum of `n` bytes of the buffer from an offset.
unfoldable pub sum_range : Bytes → ℕ → ℕ → ℕ → ℕ
sum_range buf off zero sum = sum
sum_range buf off (suc n) sum = sum_range buf (suc off) n ((sum + get_or buf off 0) % 256)

-- `pn532_parse_frame` after the length field: TFI, DATA and DCS, from an offset.
unfoldable pub parse_body : Bytes → ℕ → ℕ → ℕ → EspCode × Bytes
parse_body buf off info_len out_size =
    if ltb info_len 1
    then (EspCode.invalid_response, [])
    else if ltb (length buf) (off + info_len + 1)
    then (EspCode.invalid_response, [])
    else if get_or buf off 0 == 0xD5
    then (if (sum_range buf off info_len 0 + get_or buf (off + info_len) 0) % 256 == 0
        then (if ltb out_size (info_len - 1)
            then (EspCode.invalid_size, [])
            else (EspCode.ok, take (info_len - 1) (drop (off + 1) buf)))
        else (EspCode.invalid_crc, []))
    else (EspCode.invalid_response, [])

-- `pn532_parse_frame` from the offset past the start code: the two forms of the length field.
unfoldable pub parse_length : Bytes → ℕ → ℕ → EspCode × Bytes
parse_length buf off out_size =
    if ltb (length buf) (off + 2)
    then (EspCode.invalid_response, [])
    else if get_or buf off 0 == 0xFF && ltb (off + 1) (length buf) && get_or buf (off + 1) 0 == 0xFF
    then (let hi = get_or buf (off + 2) 0 in
        let lo = get_or buf (off + 3) 0 in
        let lcs = get_or buf (off + 4) 0 in
        if ltb (length buf) (off + 2 + 3)
        then (EspCode.invalid_response, [])
        else if (hi + lo + lcs) % 256 == 0
        then parse_body buf (off + 5) (hi * 256 + lo) out_size
        else (EspCode.invalid_crc, []))
    else let info_len = get_or buf off 0 in
      if (info_len + get_or buf (off + 1) 0) % 256 == 0
      then parse_body buf (off + 2) info_len out_size
      else (EspCode.invalid_crc, [])

-- The first argument is what the transport read, with its status byte in front.
unfoldable pub pn532_parse_frame : Bytes → ℕ → EspCode × Bytes
pn532_parse_frame raw out_size =
    let buf = drop 1 raw in
    if pn532_is_error_frame buf then (EspCode.fail, []) else elim (pn532_find_start buf) [
      | none ↦ (EspCode.invalid_response, [])
      | some off ↦ parse_length buf off out_size
    ]

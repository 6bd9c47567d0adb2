-- ===== src/Pn532/Frame/Accepts.antt =====
-- What the frame parser of components/pn532/src/pn532.c answers to a frame of the chip.
use smart_lock_firmware.Common.{
  ℕ, zero, suc, ◌+◌, ◌%◌, ◌<◌, ◌≡◌, ◌≢◌, refl, sym, ◌∙◌, false, [], ◌∷◌, ◌++◌, Bytes, length,
  get_or, arith, length-append, ltb, Bool-cases, inl, inr, some,
}
use smart_lock_firmware.Pn532.{EspCode}
use smart_lock_firmware.Pn532.Frame.{
  negate, add_bytes, length_field, pn532_find_start, pn532_is_error_frame, pn532_parse_frame,
}
use smart_lock_firmware.Pn532.Frame.Layout.{
  get_or-append_at, get_or-append_here, add_bytes-append, add_bytes-injective, add_bytes-lt,
  negate_unique,
}
use smart_lock_firmware.Pn532.Frame.Bodies.{start, body, chip_frame, verdict, parse_length-frame}

find_start-zeros :
    (zeros : ℕ) (rest : Bytes) → pn532_find_start (start zeros ++ rest) ≡ some (zeros + 2)
unfolding pn532_find_start
find_start-zeros zero rest = refl
find_start-zeros (suc zero) rest = refl
find_start-zeros (suc (suc zeros)) rest = ground (arith, find_start-zeros (suc zeros) rest)

length-start : (zeros : ℕ) → length (start zeros) ≡ zeros + 2
length-start zero = refl
length-start (suc zeros) = omega (arith, length-start zeros)

not_error :
    (buf : Bytes) (off : ℕ)
    → pn532_find_start buf ≡ some off
    → (get_or buf off 0 ≡ 1 → get_or buf (off + 2) 0 ≢ 0x7F)
    → pn532_is_error_frame buf ≡ false
unfolding pn532_is_error_frame
not_error buf off found differs = rw (found, pn532_is_error_frame) (ground (arith, differs))

field_not_error :
    (n : ℕ) (payload rest : Bytes) (dcs : ℕ)
    → get_or (length_field n ++ body payload dcs rest) 0 0 ≡ 1
    → get_or (length_field n ++ body payload dcs rest) 2 0 ≢ 0x7F
unfolding length_field
field_not_error n payload rest dcs = elim (Bool-cases (ltb 254 n)) [
  | inl h ↦ rw h (λ a b. absurd (omega (arith, a)))
  | inr h ↦ rw h (λ a b. absurd (omega (arith, b)))
]

chip_frame-not_error :
    (zeros : ℕ) (payload rest : Bytes) (dcs : ℕ)
    → pn532_is_error_frame (chip_frame zeros payload dcs rest) ≡ false
chip_frame-not_error zeros payload rest dcs =
    let frame : Bytes = length_field (suc (length payload)) ++ body payload dcs rest in
    not_error (chip_frame zeros payload dcs rest) (zeros + 2) (find_start-zeros zeros frame) (
      rw
        (
          get_or-append_here (zeros + 2) (start zeros) frame (length-start zeros),
          get_or-append_at (zeros + 2) 2 (start zeros) frame (length-start zeros),
        )
        (field_not_error (suc (length payload)) payload rest dcs))

-- The driver takes a frame of the chip with any payload that the length field can count: it returns
-- the payload if the checksum byte makes the sum of `D5`, the payload and itself 0 modulo 256 and the
-- caller's buffer holds it, and else says which of the two failed.
pub pn532_parse_frame-chip_frame :
    (status zeros dcs out_size : ℕ) (payload rest : Bytes)
    → length payload < 65535
    → pn532_parse_frame (status ∷ chip_frame zeros payload dcs rest) out_size
      ≡ verdict payload dcs out_size
unfolding pn532_parse_frame
pn532_parse_frame-chip_frame status zeros dcs out_size payload rest fits =
    rw
      (
        chip_frame-not_error zeros payload rest dcs,
        find_start-zeros zeros (length_field (suc (length payload)) ++ body payload dcs rest),
      )
      (parse_length-frame (zeros + 2) (start zeros) payload rest dcs (length-start zeros) out_size
        fits)

-- The checksum of a payload does not fit a payload that differs in one byte.
changed_sum :
    (x y : ℕ) (before after : Bytes)
    → x < 256
    → y < 256
    → x ≢ y
    → (add_bytes 0xD5 (before ++ y ∷ after) + negate (add_bytes 0xD5 (before ++ x ∷ after))) % 256
      ≢ 0
unfolding add_bytes
changed_sum x y before after a b ne h =
    let sum = add_bytes 0xD5 before in
    let ends_equal : add_bytes 0xD5 (before ++ y ∷ after) ≡ add_bytes 0xD5 (before ++ x ∷ after) =
      negate_unique _ _ (add_bytes-lt 0xD5 (before ++ y ∷ after) (omega arith))
        (add_bytes-lt 0xD5 (before ++ x ∷ after) (omega arith)) h in
    let mid : (sum + y) % 256 ≡ (sum + x) % 256 =
      add_bytes-injective ((sum + y) % 256) ((sum + x) % 256) after (omega arith) (omega arith) (
        sym (add_bytes-append 0xD5 before (y ∷ after))
        ∙ ends_equal
        ∙ add_bytes-append 0xD5 before (x ∷ after)) in
    ne (omega (arith, mid, a, b))

-- A frame whose checksum byte was made for a payload is refused with a checksum error when one byte
-- of the payload has become another on the bus.
pub pn532_parse_frame-corrupted :
    (status zeros out_size x y : ℕ) (before after rest : Bytes)
    → length (before ++ x ∷ after) < 65535
    → x < 256
    → y < 256
    → x ≢ y
    → pn532_parse_frame
        (status
          ∷ chip_frame zeros
              (before ++ y ∷ after)
              (negate (add_bytes 0xD5 (before ++ x ∷ after)))
              rest)
        out_size
      ≡ (EspCode.invalid_crc, [])
pn532_parse_frame-corrupted status zeros out_size x y before after rest fits a b ne = ground (
  arith,
  pn532_parse_frame-chip_frame status zeros (negate (add_bytes 0xD5 (before ++ x ∷ after))) out_size
      (before ++ y ∷ after) rest
      (omega (arith, length-append before (x ∷ after), length-append before (y ∷ after))),
  changed_sum x y before after a b ne,
)

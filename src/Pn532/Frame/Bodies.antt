-- ===== src/Pn532/Frame/Bodies.antt =====
-- A frame of the chip, and what components/pn532/src/pn532.c reads behind its start code.
use smart_lock_firmware.Common.{
  ℕ, suc, ◌+◌, ◌-◌, ◌*◌, ◌/◌, ◌%◌, ◌≤◌, ◌<◌, ◌≡◌, refl, sym, ap, ◌∙◌, [], ◌∷◌, ◌++◌, Bytes, length,
  get_or, take, drop, arith, length-append, ltb, Bool-cases, inl, inr, ◌==◌, if◌then◌else◌,
  replicate, take-append_at, drop-append_at, subst,
}
use mathlib.Core.List.{append_assoc}
use smart_lock_firmware.Pn532.{EspCode}
use smart_lock_firmware.Pn532.Frame.{
  negate, add_bytes, length_field, sum_range, parse_body, parse_length,
}
use smart_lock_firmware.Pn532.Frame.Layout.{
  get_or-append_at, get_or-append_here, sum_range-add_bytes, negate-sum,
}

-- What precedes the length field: preamble bytes and the start code.
abbrev pub start : ℕ → Bytes
start zeros = replicate zeros 0x00 ++ 0x00 ∷ 0xFF ∷ []

-- `D5`, a payload, a checksum byte, and what the bus reads after it.
abbrev pub body : Bytes → ℕ → Bytes → Bytes
body payload dcs rest = 0xD5 ∷ (payload ++ dcs ∷ rest)

-- What the chip sends: the start, the length field and the body.
abbrev pub chip_frame : ℕ → Bytes → ℕ → Bytes → Bytes
chip_frame zeros payload dcs rest =
    start zeros ++ (length_field (suc (length payload)) ++ body payload dcs rest)

-- The checksum byte decides, then the caller's buffer.
abbrev pub verdict : Bytes → ℕ → ℕ → EspCode × Bytes
verdict payload dcs out_size =
    if (add_bytes 0xD5 payload + dcs) % 256 == 0
    then (if ltb out_size (length payload)
        then (EspCode.invalid_size, [])
        else (EspCode.ok, payload))
    else (EspCode.invalid_crc, [])

module _ (off n : ℕ) (pre payload rest : Bytes) (dcs : ℕ) (at_off : length pre ≡ off)
    (counts : n ≡ suc (length payload)) where
  abbrev tail : Bytes
  tail = body payload dcs rest

  body-length : length (pre ++ tail) ≡ off + n + 1 + length rest
  body-length = omega (arith, length-append pre tail, length-append payload (dcs ∷ rest))

  body-dcs : get_or (pre ++ tail) (off + n) 0 ≡ dcs
  body-dcs =
      get_or-append_at off n pre tail at_off
      ∙ rw counts (get_or-append_here (length payload) payload (dcs ∷ rest) refl)

  body-sum : sum_range (pre ++ tail) off n 0 ≡ add_bytes 0xD5 payload
  unfolding add_bytes
  body-sum =
      sum_range-add_bytes (pre ++ tail) off n 0 (omega (arith, body-length))
      ∙ rw (drop-append_at off pre tail at_off, counts)
          (ap (add_bytes 0xD5) (take-append_at (length payload) payload (dcs ∷ rest) refl))

  body-payload : take (n - 1) (drop (off + 1) (pre ++ tail)) ≡ payload
  body-payload =
      let one_less : n - 1 ≡ length payload = (omega (arith, counts)) in
      rw (one_less, sym (append_assoc pre (0xD5 ∷ []) (payload ++ dcs ∷ rest)))
        (rw
          (drop-append_at (off + 1) (pre ++ 0xD5 ∷ []) (payload ++ dcs ∷ rest)
            (omega (arith, length-append pre (0xD5 ∷ []))))
          (take-append_at (length payload) payload (dcs ∷ rest) refl))

  parse_body-frame :
      (out_size : ℕ) → parse_body (pre ++ tail) off n out_size ≡ verdict payload dcs out_size
  unfolding parse_body
  parse_body-frame out_size =
      ground (
        arith,
        body-length,
        body-dcs,
        body-sum,
        body-payload,
        get_or-append_here off pre tail at_off,
      )

read_normal :
    (buf : Bytes) (off n out_size : ℕ)
    → get_or buf off 0 ≡ n
    → n ≤ 254
    → (n + get_or buf (off + 1) 0) % 256 ≡ 0
    → off + 2 ≤ length buf
    → parse_length buf off out_size ≡ parse_body buf (off + 2) n out_size
unfolding parse_length
read_normal buf off n out_size len_here small checked long = rw len_here (ground (arith, checked))

read_extended :
    (buf : Bytes) (off hi lo lcs out_size : ℕ)
    → get_or buf off 0 ≡ 0xFF
    → get_or buf (off + 1) 0 ≡ 0xFF
    → get_or buf (off + 2) 0 ≡ hi
    → get_or buf (off + 3) 0 ≡ lo
    → get_or buf (off + 4) 0 ≡ lcs
    → (hi + lo + lcs) % 256 ≡ 0
    → off + 5 ≤ length buf
    → parse_length buf off out_size ≡ parse_body buf (off + 5) (hi * 256 + lo) out_size
unfolding parse_length
read_extended buf off hi lo lcs out_size a b c d e checked long =
    rw (a, b, c, d, e) (ground (arith, checked))

-- A frame from the length field on, behind a prefix.
module _ (off : ℕ) (front payload rest : Bytes) (dcs : ℕ) (at_off : length front ≡ off) where
  abbrev frame_tail : Bytes
  frame_tail = body payload dcs rest

  -- The body behind a field that starts at the offset.
  body_after :
      (field : Bytes) (off' n out_size : ℕ)
      → off' ≡ off + length field
      → n ≡ suc (length payload)
      → parse_body (front ++ (field ++ frame_tail)) off' n out_size ≡ verdict payload dcs out_size
  body_after field off' n out_size start counts =
      subst (λ buf. parse_body buf off' n out_size ≡ verdict payload dcs out_size)
        (append_assoc front field frame_tail)
        (parse_body-frame off' n (front ++ field) payload rest dcs
          (omega (arith, length-append front field)) counts out_size)

  frame_long : (field : Bytes) → off + length field ≤ length (front ++ (field ++ frame_tail))
  frame_long field =
      omega (arith, length-append front (field ++ frame_tail), length-append field frame_tail)

  pub parse_length-frame :
      (out_size : ℕ)
      → length payload < 65535
      → parse_length (front ++ (length_field (suc (length payload)) ++ frame_tail)) off out_size
        ≡ verdict payload dcs out_size
  unfolding length_field
  parse_length-frame out_size fits =
      let n = suc (length payload) in
      let hi = n / 256 % 256 in
      let lo = n % 256 in
      let extended : Bytes = 0xFF ∷ 0xFF ∷ hi ∷ lo ∷ negate (hi + lo) ∷ [] in
      let normal : Bytes = n ∷ negate n ∷ [] in
      elim (Bool-cases (ltb 254 n)) [
        | inl h ↦ rw h (
            read_extended (front ++ (extended ++ frame_tail)) off hi lo (negate (hi + lo)) out_size
              (get_or-append_here off front (extended ++ frame_tail) at_off)
              (get_or-append_at off 1 front (extended ++ frame_tail) at_off)
              (get_or-append_at off 2 front (extended ++ frame_tail) at_off)
              (get_or-append_at off 3 front (extended ++ frame_tail) at_off)
              (get_or-append_at off 4 front (extended ++ frame_tail) at_off) (negate-sum (hi + lo))
              (frame_long extended)
            ∙ body_after extended (off + 5) (hi * 256 + lo) out_size (omega arith) (omega arith))
        | inr h ↦ rw h (
            read_normal (front ++ (normal ++ frame_tail)) off n out_size
              (get_or-append_here off front (normal ++ frame_tail) at_off) (ground (arith, h))
              (rw (get_or-append_at off 1 front (normal ++ frame_tail) at_off) (negate-sum n))
              (frame_long normal)
            ∙ body_after normal (off + 2) n out_size (omega arith) refl)
      ]

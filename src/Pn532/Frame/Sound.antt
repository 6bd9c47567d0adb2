-- ===== src/Pn532/Frame/Sound.antt =====
-- Where the payload stands that the frame parser of components/pn532/src/pn532.c returns.
use smart_lock_firmware.Common.{
  ℕ, zero, suc, ◌+◌, ◌*◌, ◌%◌, ◌≤◌, ◌<◌, ◌≡◌, ◌≢◌, refl, sym, ap, ◌∙◌, [], ◌∷◌, ◌++◌, Bytes, length,
  get_or, take, drop, arith, length-take, length-drop, Option-cases, ◌⊎◌, inl, inr,
}
use smart_lock_firmware.Pn532.{EspCode}
use smart_lock_firmware.Pn532.Frame.{
  add_bytes, parse_body, parse_length, pn532_parse_frame, sum_range, pn532_find_start,
}
use smart_lock_firmware.Pn532.Frame.Layout.{drop-cons, take-append-drop, sum_range-add_bytes}
use smart_lock_firmware.Pn532.Frame.Bodies.{body}

-- A body with a good checksum stands in the buffer behind some bytes.
abbrev pub Carries : Bytes → Bytes → Type 0
Carries buf payload =
    (front rest : Bytes) × (dcs : ℕ) × (buf ≡ front ++ body payload dcs rest)
    × ((add_bytes 0xD5 payload + dcs) % 256 ≡ 0)

-- What `parse_body` has tested when it returns data.
body_tests :
    (buf payload : Bytes) (off k out_size : ℕ)
    → parse_body buf off (suc k) out_size ≡ (EspCode.ok, payload)
    → (off + suc k < length buf)
      × (get_or buf off 0 ≡ 0xD5)
      × ((sum_range buf off (suc k) 0 + get_or buf (off + suc k) 0) % 256 ≡ 0)
      × (k ≤ out_size)
      × (take k (drop (suc off) buf) ≡ payload)
unfolding parse_body
body_tests buf payload off k out_size h = ground arith

-- An information length of zero is refused.
body_not_empty :
    (buf payload : Bytes) (off out_size : ℕ) → parse_body buf off 0 out_size ≢ (EspCode.ok, payload)
unfolding parse_body
body_not_empty buf payload off out_size h = ground arith

get_or-drop : (m i : ℕ) (xs : Bytes) → get_or (drop m xs) i 0 ≡ get_or xs (m + i) 0
get_or-drop zero i xs = ground arith
get_or-drop (suc m) i [] = refl
get_or-drop (suc m) i (x ∷ xs) = ground (arith, get_or-drop m i xs)

split_at :
    (buf : Bytes) (n : ℕ) → n < length buf → take n buf ++ get_or buf n 0 ∷ drop (suc n) buf ≡ buf
split_at buf n h = rw (← drop-cons buf n h) (take-append-drop n buf)

-- What is accepted stands in the buffer.
parse_body-Carries :
    (buf payload : Bytes) (off n out_size : ℕ)
    → parse_body buf off n out_size ≡ (EspCode.ok, payload)
    → Carries buf payload × (length payload ≤ out_size)
unfolding add_bytes
parse_body-Carries buf payload off zero out_size h =
    absurd (body_not_empty buf payload off out_size h)
parse_body-Carries buf payload off (suc k) out_size h =
    let (long, tfi, checked, fits, taken) = body_tests buf payload off k out_size h in
    let tail = drop (suc off) buf in
    let dcs = get_or tail k 0 in
    let rest = drop (suc k) tail in
    let at : get_or buf (off + suc k) 0 ≡ dcs = (ground (arith, get_or-drop (suc off) k buf)) in
    let tail_split : payload ++ dcs ∷ rest ≡ tail =
      (rw (← taken) (split_at tail k (omega (arith, length-drop (suc off) buf)))) in
    let whole : buf ≡ take off buf ++ body payload dcs rest =
      (rw (tail_split, ← tfi) (sym (split_at buf off (omega arith)))) in
    let sum : sum_range buf off (suc k) 0 ≡ add_bytes 0xD5 payload =
      sum_range-add_bytes buf off (suc k) 0 (omega arith)
      ∙ rw (drop-cons buf off (omega arith), tfi, ← taken) refl in
    (
      (take off buf, rest, dcs, whole, rw (← sum, ← at) checked),
      omega (arith, ap length taken, length-take k tail),
    )

-- Either length field leads to a body.
length_forms :
    (buf payload : Bytes) (off out_size : ℕ)
    → parse_length buf off out_size ≡ (EspCode.ok, payload)
    → (parse_body buf (off + 5) (get_or buf (off + 2) 0 * 256 + get_or buf (off + 3) 0) out_size
        ≡ (EspCode.ok, payload))
      ⊎ (parse_body buf (off + 2) (get_or buf off 0) out_size ≡ (EspCode.ok, payload))
unfolding parse_length
length_forms buf payload off out_size h = ground arith

parse_length-Carries :
    (buf payload : Bytes) (off out_size : ℕ)
    → parse_length buf off out_size ≡ (EspCode.ok, payload)
    → Carries buf payload × (length payload ≤ out_size)
parse_length-Carries buf payload off out_size h = elim (length_forms buf payload off out_size h) [
  | inl e ↦ parse_body-Carries buf payload (off + 5) _ out_size e
  | inr e ↦ parse_body-Carries buf payload (off + 2) _ out_size e
]

-- What the driver takes for a response was on the bus: behind the status byte stands `D5`, then the
-- payload that is returned, then a byte that makes their sum 0 modulo 256; and the payload fits the
-- caller's buffer.
pub pn532_parse_frame-Carries :
    (raw payload : Bytes) (out_size : ℕ)
    → pn532_parse_frame raw out_size ≡ (EspCode.ok, payload)
    → Carries (drop 1 raw) payload × (length payload ≤ out_size)
unfolding pn532_parse_frame
pn532_parse_frame-Carries raw payload out_size h =
    elim (Option-cases (pn532_find_start (drop 1 raw))) [
      | inl e ↦ absurd (ground (arith, e))
      | inr (off, e) ↦ parse_length-Carries (drop 1 raw) payload off out_size (ground (arith, e))
    ]

-- ===== src/Transport/Apdu/Codec.antt =====
-- The wire format that `parse_capdu` of components/transport/src/transport.c accepts.
use smart_lock_firmware.Common.{◌≡◌, refl, ap, ◌∙◌, ◌↔◌, List, [], ◌∷◌, Bytes, length, take, arith}
use smart_lock_firmware.Transport.Apdu.{Capdu, parsed, parse_capdu}

-- CLA ‖ INS ‖ P1 ‖ P2 ‖ Lc ‖ data.
abbrev pub capdu_bytes : Capdu → Bytes
capdu_bytes c = c.cla ∷ c.ins ∷ c.p1 ∷ c.p2 ∷ c.lc ∷ c.payload

pub record IsWellFormed (c : Capdu) : Type 0 where
  pub class_byte : c.cla ≡ 0x80
  pub exact_length : length c.payload ≡ c.lc

take_all {ℓ} : {A : Type ℓ} (xs : List A) → take (length xs) xs ≡ xs
take_all [] = refl
take_all (x ∷ xs) = ap (◌∷◌ x) (take_all xs)

parse-capdu_bytes : (c : Capdu) → IsWellFormed c → parse_capdu (capdu_bytes c) ≡ parsed c
unfolding parse_capdu
parse-capdu_bytes c w = ground (arith, take_all c.payload)

parsed_bytes :
    (raw : Bytes) (c : Capdu) → parse_capdu raw ≡ parsed c → (raw ≡ capdu_bytes c) × IsWellFormed c
unfolding parse_capdu
parsed_bytes [] c h = cc
parsed_bytes (a ∷ []) c h = cc
parsed_bytes (a ∷ b ∷ []) c h = cc
parsed_bytes (a ∷ b ∷ p ∷ []) c h = cc
parsed_bytes (a ∷ b ∷ p ∷ q ∷ []) c h = cc
parsed_bytes (a ∷ b ∷ p ∷ q ∷ l ∷ rest) c h = ground (arith, take_all rest)

-- A buffer is parsed to a command exactly when it is that command's wire form: class byte 0x80, and
-- a length byte equal to the number of bytes that follow it.
pub parse_capdu_iff :
    (raw : Bytes) (c : Capdu)
    → (parse_capdu raw ≡ parsed c) ↔ ((raw ≡ capdu_bytes c) × IsWellFormed c)
parse_capdu_iff raw c = (parsed_bytes raw c, λ h. ap parse_capdu h.0 ∙ parse-capdu_bytes c h.1)

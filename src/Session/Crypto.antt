-- ===== src/Session/Crypto.antt =====
-- The crypto seam, components/session/src/session_crypto.c, over the primitives of monocypher and
-- mbedtls.
pub mod Rfc5869
use Prim.Native.Nat.{bit_or}
use smart_lock_firmware.Common.{
  ℕ, zero, suc, ◌+◌, ◌-◌, ◌*◌, ◌%◌, ◌<◌, ◌≡◌, Bool, true, ◌&&◌, ◌||◌, Option, none, some, [], ◌∷◌,
  ◌++◌, Bytes, ltb, leb, ◌==◌, if◌then◌else◌, length, take, replicate, arith, bit_or_byte,
}

-- The third-party functions, as functions of their inputs. `none` is a call that fails.
pub record Primitives : Type 0 where
  pub x25519_public_key : Bytes → Bytes
  pub x25519 : Bytes → Bytes → Bytes
  pub ed25519_sign : Bytes → Bytes → Bytes
  pub ed25519_check : Bytes → Bytes → Bytes → Bool
  pub md_hmac : Bytes → Bytes → Option Bytes
  pub gcm_crypt_and_tag : Bytes → Bytes → Bytes → Option (Bytes × Bytes)
  pub gcm_auth_decrypt : Bytes → Bytes → Bytes → Bytes → Option Bytes

-- `session_crypto_zeroize` of a buffer of `len` bytes.
abbrev pub zeroize : ℕ → Bytes
zeroize len = replicate len 0

is_zero_from : ℕ → Bytes → Bool
is_zero_from acc [] = acc == 0
is_zero_from acc (b ∷ bs) = is_zero_from (bit_or acc b) bs

unfoldable pub session_crypto_is_zero : Bytes → Bool
unfolding is_zero_from
session_crypto_is_zero buf = is_zero_from 0 buf

abbrev pub AllBytes : Bytes → Type 0
AllBytes [] = Unit
AllBytes (b ∷ bs) = (b < 256) × AllBytes bs

abbrev all_zero : Bytes → Bool
all_zero [] = true
all_zero (b ∷ bs) = (b == 0) && all_zero bs

is_zero_from-eq :
    (acc : ℕ) (bs : Bytes)
    → acc < 256
    → AllBytes bs
    → is_zero_from acc bs ≡ ((acc == 0) && all_zero bs)
unfolding is_zero_from
is_zero_from-eq acc [] h a = ground arith
is_zero_from-eq acc (b ∷ bs) h a =
    ground (arith, bit_or_byte acc b h a.0, is_zero_from-eq (bit_or acc b) bs)

-- The constant-time test accepts exactly the buffers of zero bytes.
pub session_crypto_is_zero-eq : (bs : Bytes) → AllBytes bs → session_crypto_is_zero bs ≡ all_zero bs
unfolding session_crypto_is_zero
session_crypto_is_zero-eq bs a = is_zero_from-eq 0 bs (omega arith) a

module _ (prim : Primitives) where
  -- The shared secret; an all-zero one is refused (RFC 7748, section 6.1).
  unfoldable pub session_crypto_x25519_shared : Bytes → Bytes → Option Bytes
  unfolding session_crypto_is_zero
  session_crypto_x25519_shared sk peer_pk =
      let out = prim.x25519 sk peer_pk in if session_crypto_is_zero out then none else some out

  unfoldable pub session_crypto_ed25519_verify : Bytes → Bytes → Bytes → Bool
  session_crypto_ed25519_verify pk message sig = prim.ed25519_check sig pk message

  -- The `while (produced < out_len)` loop of HKDF-Expand, with one unit of fuel for each block:
  -- `t` is T(i-1), `counter` a `uint8_t`, `out` what was produced.
  hkdf_expand : ℕ → Bytes → Bytes → ℕ → Bytes → ℕ → Bytes → Option Bytes
  hkdf_expand zero prk info out_len t counter out = none
  hkdf_expand (suc fuel) prk info out_len t counter out =
      let next : Option Bytes = (elim (prim.md_hmac prk (t ++ info ++ ((counter + 1) % 256) ∷ [])) [
        | none ↦ none
        | some t' ↦
            hkdf_expand fuel prk info out_len t' ((counter + 1) % 256)
              (out ++ take (out_len - length out) t')
      ]) in
      if leb out_len (length out) then some out else if ltb 256 (length info) then none else next

  -- HKDF-SHA-256. The caller's salt is never absent here.
  unfoldable pub session_crypto_hkdf_sha256 : Bytes → Bytes → Bytes → ℕ → Option Bytes
  unfolding hkdf_expand
  session_crypto_hkdf_sha256 salt ikm info out_len =
      let okm : Option Bytes = (elim (prim.md_hmac salt ikm) [
        | none ↦ none
        | some prk ↦ hkdf_expand (suc out_len) prk info out_len [] 0 []
      ]) in
      if (out_len == 0) || ltb (255 * 32) out_len then none else okm

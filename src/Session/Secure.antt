-- ===== src/Session/Secure.antt =====
-- The secure channel of components/session/src/session.c: sizes, and what the phone reads.
use mathlib.Core.List.{append_assoc}
use smart_lock_firmware.Common.{
  inl, inr, subst, sym, ℕ, ◌+◌, ◌-◌, ◌%◌, ◌≤◌, ◌≡◌, ap, some, ◌++◌, Bytes, arith, length, take,
  drop, length-append, take-append_at, drop-append_at, take-length_at, Option-cases,
}
use smart_lock_firmware.Transport.Apdu.{TransportErr, Capdu, Rapdu}
use smart_lock_firmware.Session.State.{Session, Env}
use smart_lock_firmware.Session.Channel.{
  reply_length, seal_reply, open_payload, session_handle_secure_payload,
}

-- AES-256-GCM as documented: the ciphertext is as long as the plaintext, the tag has 16 bytes, and
-- what was sealed opens under the same key and nonce. A random buffer has the bytes asked for.
pub record GcmLaws {C : Type 0} (env : Env C) : Type 0 where
  pub random_length : (n : ℕ) (c : C) → length (env.fill_random n c).0 ≡ n
  pub sealed :
      (k n m ct tag : Bytes)
      → env.prim.gcm_crypt_and_tag k n m ≡ some (ct, tag)
      → (length ct ≡ length m) × (length tag ≡ 16) × (env.prim.gcm_auth_decrypt k n ct tag ≡ some m)

module _ {C : Type 0} (env : Env C) where
  -- The length byte of a reply never wraps: an answered payload gives 28 to 255 bytes, of which all
  -- but 28 are the handler's, and none if it failed.
  pub session_reply_bounds :
      (h : Session) (capdu : Capdu) (r : Rapdu) (c : C) (plaintext : Bytes)
      → open_payload env h capdu ≡ some plaintext
      → let o = session_handle_secure_payload env h capdu r c in
        o.err ≡ TransportErr.ok
        → (o.rapdu.len
            ≡ 28 + reply_length (env.app_handler plaintext c).0 (env.app_handler plaintext c).2)
          × (o.rapdu.len ≤ 255)
  unfolding session_handle_secure_payload reply_length
  session_reply_bounds h capdu r c plaintext e f = ground arith

  -- The response as the phone reads it: a command that carries what was sent.
  abbrev pub mirrored : Rapdu → Capdu
  mirrored r = record {
    cla = 0x80;
    ins = 0x20;
    p1 = 0;
    p2 = 0;
    lc = r.len;
    payload = take r.len r.payload;
  }

  module _ (laws : GcmLaws env) where
    abbrev frame : Bytes → ℕ → Capdu
    frame bytes len = record { cla = 0x80; ins = 0x20; p1 = 0; p2 = 0; lc = len; payload = bytes }

    framed-opens :
        (h : Session) (nonce ct tag m : Bytes)
        → length nonce ≡ 12
        → length ct ≡ length m
        → length tag ≡ 16
        → env.prim.gcm_auth_decrypt h.k_p2e nonce ct tag ≡ some m
        → open_payload env h (frame (nonce ++ (ct ++ tag)) (28 + length m)) ≡ some m
    unfolding open_payload
    framed-opens h nonce ct tag m ln lc lt e =
        let first : take 12 (nonce ++ (ct ++ tag)) ≡ nonce = take-append_at 12 nonce _ ln in
        let rest : drop 12 (nonce ++ (ct ++ tag)) ≡ ct ++ tag = drop-append_at 12 nonce _ ln in
        let size : 28 + length m - 28 ≡ length m = omega arith in
        let mid : take (28 + length m - 28) (ct ++ tag) ≡ ct =
          rw size (take-append_at (length m) ct tag lc) in
        let last : drop (28 + length m - 16) (nonce ++ (ct ++ tag)) ≡ tag =
          rw (← append_assoc nonce ct tag) (
            drop-append_at (28 + length m - 16) (nonce ++ ct) tag
              (omega (arith, length-append nonce ct))) in
        cc (first, rest, mid, last)

    frame-mirrored :
        (nonce ct tag m : Bytes) (a b : ℕ)
        → length nonce ≡ 12
        → length ct ≡ length m
        → length tag ≡ 16
        → length m ≤ 227
        → frame (nonce ++ (ct ++ tag)) (28 + length m)
          ≡ mirrored (record {
            payload = nonce ++ (ct ++ tag);
            len = (28 + length m) % 256;
            sw1 = a;
            sw2 = b;
          })
    frame-mirrored nonce ct tag m a b ln lc lt small =
        let size : (28 + length m) % 256 ≡ 28 + length m = omega arith in
        let all : length (nonce ++ (ct ++ tag)) ≡ 28 + length m =
          omega (arith, length-append nonce (ct ++ tag), length-append ct tag) in
        rw size (ap (λ b. frame b (28 + length m)) (sym (take-length_at _ _ all)))

    -- What the lock answers, the phone opens: a sealed reply of up to 227 bytes, framed as nonce,
    -- ciphertext and tag, opens to that reply under the key for the phone.
    pub seal_reply-opens :
        (h : Session) (reply : Bytes) (r : Rapdu) (c : C)
        → length reply ≤ 227
        → let o = seal_reply env h reply (length reply) r c in
          o.err ≡ TransportErr.ok
          → open_payload env (record h { k_p2e = h.k_e2p }) (mirrored o.rapdu) ≡ some reply
    unfolding seal_reply
    seal_reply-opens h reply r c small f =
        elim (Option-cases (env.prim.gcm_crypt_and_tag h.k_e2p (env.fill_random 12 c).0 reply)) [
          | inl e ↦ absurd (ground (arith, e))
          | inr ((ct, tag), e) ↦
              let (lc, lt, opens) = laws.sealed _ _ _ ct tag e in
              let ln = laws.random_length 12 c in
              rw (e, seal_reply)
                (subst (λ f. open_payload env (record h { k_p2e = h.k_e2p }) f ≡ some reply)
                  (frame-mirrored _ ct tag reply 0x90 0x00 ln lc lt small)
                  (framed-opens (record h { k_p2e = h.k_e2p }) _ ct tag reply ln lc lt opens))
        ]

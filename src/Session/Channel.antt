-- ===== src/Session/Channel.antt =====
-- The secure channel, the dispatch on INS and the provisioning window of
-- components/session/src/session.c.
use smart_lock_firmware.Common.{
  ℕ, ◌+◌, ◌-◌, ◌*◌, ◌%◌, Bool, true, false, not, Option, none, some, ◌++◌, Bytes, ltb, ◌==◌,
  if◌then◌else◌, take, drop,
}
use smart_lock_firmware.Transport.Apdu.{
  TransportErr, Capdu, Rapdu, ins_handshake_init, ins_handshake_finish, ins_secure_payload, sw1_ok,
  sw2_ok, sw1_security, sw2_auth_failed,
}
use smart_lock_firmware.Session.Crypto.{Primitives, session_crypto_ed25519_verify, zeroize}
use smart_lock_firmware.Session.State.{
  Stage, SessionErr, Session, Env, transcript_len, gcm_nonce_len, gcm_tag_len, gcm_overhead,
  plaintext_max,
}
use smart_lock_firmware.Session.Handlers.{Handled, status, session_handle_m1, session_handle_m3}

-- The reply that is sent: none of a handler that failed, and never more than the buffer holds.
unfoldable pub reply_bytes : SessionErr → Bytes → ℕ → Bytes
reply_bytes SessionErr.ok reply len =
    take (if ltb plaintext_max len then plaintext_max else len) reply
reply_bytes _ reply len = take 0 reply

-- `reply_len` as it stands when the reply is sealed.
unfoldable pub reply_length : SessionErr → ℕ → ℕ
reply_length SessionErr.ok len = if ltb plaintext_max len then plaintext_max else len
reply_length _ len = 0

module _ {C : Type 0} (env : Env C) where
  -- The reply goes out under `k_e2p` and a fresh nonce: nonce ‖ ciphertext ‖ tag.
  unfoldable pub seal_reply : Session → Bytes → ℕ → Rapdu → C → Handled C
  seal_reply h reply reply_len r c =
      let (nonce, c1) = env.fill_random gcm_nonce_len c in
      elim (env.prim.gcm_crypt_and_tag h.k_e2p nonce reply) [
        | none ↦ record {
          err = TransportErr.internal;
          rapdu = record r { payload = nonce };
          session = h;
          context = c1;
        }
        | some (ct, tag) ↦ record {
          err = TransportErr.ok;
          rapdu = record {
            payload = nonce ++ (ct ++ tag);
            len = (gcm_overhead + reply_len) % 256;
            sw1 = sw1_ok;
            sw2 = sw2_ok;
          };
          session = h;
          context = c1;
        }
      ]

  -- The plaintext goes to the application's handler.
  unfoldable pub forward : Session → Bytes → Rapdu → C → Handled C
  unfolding seal_reply reply_bytes reply_length
  forward h plaintext r c =
      let (e, reply, reply_len, c1) = env.app_handler plaintext c in
      seal_reply h (reply_bytes e reply reply_len) (reply_length e reply_len) r c1

  unfoldable pub open_payload : Session → Capdu → Option Bytes
  open_payload h capdu =
      env.prim.gcm_auth_decrypt h.k_p2e (take gcm_nonce_len capdu.payload)
        (take (capdu.lc - gcm_overhead) (drop gcm_nonce_len capdu.payload))
        (drop (capdu.lc - gcm_tag_len) capdu.payload)

  unfoldable pub session_handle_secure_payload : Session → Capdu → Rapdu → C → Handled C
  unfolding forward open_payload
  session_handle_secure_payload h capdu r c = elim h.stage [
    | Stage.established ↦
        if ltb capdu.lc gcm_overhead
        then record { err = TransportErr.invalid_apdu; rapdu = r; session = h; context = c }
        else (elim (open_payload h capdu) [
          | none ↦ record {
            err = TransportErr.internal;
            rapdu = status r sw1_security sw2_auth_failed;
            session = h;
            context = c;
          }
          | some plaintext ↦ forward h plaintext r c
        ])
    | _ ↦ record { err = TransportErr.invalid_state; rapdu = r; session = h; context = c }
  ]

  unfoldable pub session_on_apdu : Session → Capdu → Rapdu → C → Handled C
  unfolding session_handle_m1 session_handle_m3 session_handle_secure_payload
  session_on_apdu h capdu r c =
      if capdu.ins == ins_handshake_init
      then session_handle_m1 env h capdu r c
      else if capdu.ins == ins_handshake_finish
      then session_handle_m3 env h capdu r c
      else if capdu.ins == ins_secure_payload
      then session_handle_secure_payload h capdu r c
      else record { err = TransportErr.invalid_apdu; rapdu = r; session = h; context = c }

-- `timer` is `esp_timer_get_time`, over what it reads.
unfoldable pub session_arm_provisioning_window :
    {T : Type 0} → (T → ℕ × T) → Session → ℕ → T → Session × T
session_arm_provisioning_window timer h timeout_ms t =
    let (now, t1) = timer t in
    (
      record h {
        provisioning_armed = true;
        provisioning_deadline_us = now + timeout_ms * 1000;
        m3_cached = false;
        cached_sig_p = zeroize 64;
        cached_transcript = zeroize transcript_len;
      },
      t1,
    )

unfoldable pub session_provision_verify_identity : Primitives → Session → Bytes → Bool
unfolding session_crypto_ed25519_verify
session_provision_verify_identity prim h claimed =
    if not h.m3_cached
    then false
    else session_crypto_ed25519_verify prim claimed h.cached_transcript h.cached_sig_p

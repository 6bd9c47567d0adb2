-- ===== src/Session/Handlers.antt =====
-- The message handlers of components/session/src/session.c.
use smart_lock_firmware.Common.{
  ℕ, zero, suc, ◌+◌, Bool, true, false, not, Option, none, some, [], ◌∷◌, ◌++◌, Bytes, leb, ◌==◌,
  if◌then◌else◌, take, drop,
}
use smart_lock_firmware.Transport.Apdu.{
  TransportErr, Capdu, Rapdu, sw1_ok, sw2_ok, sw1_security, sw2_auth_failed,
}
use smart_lock_firmware.Session.Crypto.{
  session_crypto_is_zero, session_crypto_x25519_shared, session_crypto_ed25519_verify,
  session_crypto_hkdf_sha256,
}
use smart_lock_firmware.Session.State.{
  Stage, Session, Env, build_transcript, session_on_erase, m1_len, m2_len, m3_len,
  max_peer_candidates,
}

-- The error, the response as the handler left it, the session and the context.
pub record Handled (C : Type 0) : Type 0 where
  pub err : TransportErr
  pub rapdu : Rapdu
  pub session : Session
  pub context : C

abbrev pub info_p2e : Bytes
info_p2e = b'p' ∷ b'h' ∷ b'o' ∷ b'n' ∷ b'e' ∷ b'-' ∷ b'>' ∷ b'e' ∷ b's' ∷ b'p' ∷ []

abbrev pub info_e2p : Bytes
info_e2p = b'e' ∷ b's' ∷ b'p' ∷ b'-' ∷ b'>' ∷ b'p' ∷ b'h' ∷ b'o' ∷ b'n' ∷ b'e' ∷ []

-- A response of status words only.
abbrev pub status : Rapdu → ℕ → ℕ → Rapdu
status r a b = record r { len = 0; sw1 = a; sw2 = b }

module _ {C : Type 0} (env : Env C) where
  -- M1 past its checks: a clean slate, fresh ephemeral keys, the signed answer.
  unfoldable pub answer_m1 : Session → Bytes → Rapdu → C → Handled C
  unfolding session_on_erase build_transcript
  answer_m1 h payload r c =
      let (h0, c0) = session_on_erase env h c in
      let (sk, c1) = env.fill_random 32 c0 in
      let (nonce, c2) = env.fill_random 32 c1 in
      let pk = env.prim.x25519_public_key sk in
      let h1 = record h0 {
        pk_eph_l = pk;
        sk_eph_l = sk;
        c_l = nonce;
        pk_eph_p = take 32 payload;
        c_p = take 32 (drop 32 payload);
      } in
      let sig_l = env.prim.ed25519_sign env.local_sk (build_transcript h1) in
      record {
        err = TransportErr.ok;
        rapdu = record {
          payload = pk ++ (nonce ++ sig_l);
          len = m2_len;
          sw1 = sw1_ok;
          sw2 = sw2_ok;
        };
        session = record h1 { stage = Stage.ephemeral };
        context = c2;
      }

  unfoldable pub session_handle_m1 : Session → Capdu → Rapdu → C → Handled C
  unfolding answer_m1 session_crypto_is_zero
  session_handle_m1 h capdu r c =
      if not (capdu.lc == m1_len)
      then record { err = TransportErr.invalid_apdu; rapdu = r; session = h; context = c }
      else if session_crypto_is_zero (take 32 capdu.payload)
      then record { err = TransportErr.internal; rapdu = r; session = h; context = c }
      else answer_m1 h capdu.payload r c

  -- The candidate loop: `n` candidates are still allowed, the next has index `i`.
  unfoldable pub find_peer : ℕ → ℕ → Bytes → Bytes → C → Bool
  find_peer zero i transcript sig_p c = false
  find_peer (suc n) i transcript sig_p c =
      let rest = find_peer n (i + 1) transcript sig_p c in
      elim (env.peer_key_provider i c) [
        | none ↦ false
        | some candidate ↦
            if session_crypto_ed25519_verify env.prim candidate transcript sig_p then true else rest
      ]

  -- The armed window of M3: it is consumed, and used if the deadline has not passed.
  unfoldable pub use_window : Session → Bytes → C → Bool × Session × C
  unfolding build_transcript
  use_window h sig_p c =
      let (now, c1) = env.timer_us c in
      if not h.provisioning_armed
      then (false, h, c)
      else if leb now h.provisioning_deadline_us
      then (
        true,
        record h {
          provisioning_armed = false;
          cached_sig_p = sig_p;
          cached_transcript = build_transcript h;
          m3_cached = true;
        },
        c1,
      )
      else (false, record h { provisioning_armed = false }, c1)

  -- The session keys from the shared secret, salted with both nonces.
  unfoldable pub derive_keys : Session → Bytes → Option (Bytes × Bytes)
  derive_keys h shared =
      elim (session_crypto_hkdf_sha256 env.prim (h.c_p ++ h.c_l) shared info_p2e 32) [
        | none ↦ none
        | some p2e ↦
            elim (session_crypto_hkdf_sha256 env.prim (h.c_p ++ h.c_l) shared info_e2p 32) [
              | none ↦ none
              | some e2p ↦ some (p2e, e2p)
            ]
      ]

  unfoldable pub notify_established : C → C
  notify_established c = elim env.on_established [ none ↦ c | some call ↦ call c ]

  -- M3 once the phone is authenticated.
  unfoldable pub establish : Session → Rapdu → C → Handled C
  unfolding derive_keys notify_established session_on_erase session_crypto_x25519_shared
  establish h r c = elim (session_crypto_x25519_shared env.prim h.sk_eph_l h.pk_eph_p) [
    | none ↦ record {
      err = TransportErr.internal;
      rapdu = status r sw1_security sw2_auth_failed;
      session = h;
      context = c;
    }
    | some shared ↦ elim (derive_keys h shared) [
      | none ↦
          let (h', c') = session_on_erase env h c in
          record { err = TransportErr.internal; rapdu = r; session = h'; context = c' }
      | some (p2e, e2p) ↦ record {
        err = TransportErr.ok;
        rapdu = status r sw1_ok sw2_ok;
        session = record h { k_p2e = p2e; k_e2p = e2p; stage = Stage.established };
        context = notify_established c;
      }
    ]
  ]

  unfoldable pub verify_m3 : Session → Bytes → Rapdu → C → Handled C
  unfolding use_window establish
  verify_m3 h sig_p r c =
      let (used, h1, c1) = use_window h sig_p c in
      let known = find_peer max_peer_candidates 0 (build_transcript h) sig_p c1 in
      if used then establish h1 r c1 else if known then establish h1 r c1 else record {
        err = TransportErr.internal;
        rapdu = status r sw1_security sw2_auth_failed;
        session = h1;
        context = c1;
      }

  unfoldable pub session_handle_m3 : Session → Capdu → Rapdu → C → Handled C
  unfolding verify_m3
  session_handle_m3 h capdu r c = elim h.stage [
    | Stage.ephemeral ↦
        if not (capdu.lc == m3_len)
        then record { err = TransportErr.invalid_apdu; rapdu = r; session = h; context = c }
        else verify_m3 h capdu.payload r c
    | _ ↦ record { err = TransportErr.invalid_state; rapdu = r; session = h; context = c }
  ]

-- ===== src/Tests/Sessions.antt =====
-- Runs of the session layer.
use smart_lock_firmware.Common.{Bytes}
use smart_lock_firmware.Tests.Platform.{toy}
use smart_lock_firmware.Session.Crypto.Rfc5869.{rfc5869, session_crypto_hkdf_sha256-rfc5869}
use smart_lock_firmware.Common.{bytes_eq, suc, ◌≡◌, ◌≢◌, ◌⊎◌, refl, some, [], ◌∷◌, replicate, arith}
use smart_lock_firmware.Session.Crypto.{session_crypto_ed25519_verify, session_crypto_hkdf_sha256}
use smart_lock_firmware.Session.Handlers.{find_peer, use_window, session_handle_m3}
use smart_lock_firmware.Transport.Apdu.{Capdu}
use smart_lock_firmware.Session.State.{
  Stage, Session, build_transcript, max_peer_candidates, session_init, session_on_erase,
}
use smart_lock_firmware.Session.Channel.{seal_reply, open_payload}
use smart_lock_firmware.Session.Handshake.{IsWindowOpen, Vouched, session_handle_m3-authenticates}
use smart_lock_firmware.Session.Erase.{session_on_erase-reports_twice}
use smart_lock_firmware.Session.Transcript.{IsSized}
use smart_lock_firmware.Session.Secure.{mirrored, seal_reply-opens}
use smart_lock_firmware.Stack.{blank_rapdu}
use smart_lock_firmware.Tests.Platform.{session_env, toy_laws}

-- After M1.
abbrev after_m1 : Session
after_m1 = record session_init {
  stage = Stage.ephemeral;
  pk_eph_p = replicate 32 1;
  c_p = replicate 32 2;
  pk_eph_l = replicate 32 4;
  sk_eph_l = replicate 32 7;
  c_l = replicate 32 7;
}

-- After M3.
abbrev secured : Session
secured = record after_m1 {
  stage = Stage.established;
  k_p2e = replicate 32 3;
  k_e2p = replicate 32 3;
}

abbrev m3_command : Capdu
m3_command = record { cla = 0x80; ins = 0x11; p1 = 0; p2 = 0; lc = 64; payload = replicate 64 9 }

abbrev payload_command : Capdu
payload_command = record {
  cla = 0x80;
  ins = 0x20;
  p1 = 0;
  p2 = 0;
  lc = 29;
  payload = replicate 29 2;
}

session_handle_m3-authenticates_example :
    (Stage.ephemeral ≡ Stage.ephemeral)
    × (IsWindowOpen session_env after_m1 0
        ⊎ Vouched session_env max_peer_candidates 0
            (build_transcript after_m1)
            (replicate 64 9)
            (use_window session_env after_m1 (replicate 64 9) 0).2)
unfolding session_init session_handle_m3 find_peer session_crypto_ed25519_verify bytes_eq
    session_crypto_hkdf_sha256
session_handle_m3-authenticates_example =
    session_handle_m3-authenticates session_env after_m1 m3_command blank_rapdu 0 refl

after_m1-IsSized : IsSized after_m1
after_m1-IsSized = record { pk_eph_p = refl; pk_eph_l = refl; c_p = refl; c_l = refl }

secured-IsSized : IsSized secured
secured-IsSized = record { pk_eph_p = refl; pk_eph_l = refl; c_p = refl; c_l = refl }

seal_reply-opens_example :
    open_payload session_env
      (record secured { k_p2e = secured.k_e2p })
      (mirrored session_env (seal_reply session_env secured (0 ∷ 100 ∷ []) 2 blank_rapdu 1).rapdu)
    ≡ some (0 ∷ 100 ∷ [])
unfolding seal_reply
seal_reply-opens_example =
    seal_reply-opens session_env toy_laws secured (0 ∷ 100 ∷ []) blank_rapdu 1 (omega arith) refl

session_on_erase-reports_twice_example :
    let (h', c') = session_on_erase session_env secured 1 in
    (Stage.established ≡ Stage.established → c' ≡ 3)
    × (Stage.established ≢ Stage.established → c' ≡ 1)
    × ((session_on_erase session_env h' c').1 ≡ c')
session_on_erase-reports_twice_example =
    session_on_erase-reports_twice session_env secured 1 suc refl

-- The toy HMAC.
abbrev toy_hmac : Bytes → Bytes → Bytes
toy_hmac key m = replicate 32 3

session_crypto_hkdf_sha256-rfc5869_example :
    session_crypto_hkdf_sha256 toy (1 ∷ []) (2 ∷ []) (3 ∷ []) 64
    ≡ some (rfc5869 toy_hmac (1 ∷ []) (2 ∷ []) (3 ∷ []) 64)
session_crypto_hkdf_sha256-rfc5869_example =
    session_crypto_hkdf_sha256-rfc5869 toy toy_hmac (1 ∷ []) (2 ∷ []) (3 ∷ []) 64 (λ key m. refl)
      (λ key m. refl) (omega arith) (omega arith) (omega arith)

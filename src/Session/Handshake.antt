-- ===== src/Session/Handshake.antt =====
-- Who gets through the handshake of components/session/src/session.c.
use smart_lock_firmware.Common.{
  ℕ, zero, suc, ◌+◌, ◌≤◌, ◌<◌, ◌≡◌, ◌⊎◌, inl, inr, true, some, Bytes, arith, Bool-cases,
  Option-cases,
}
use smart_lock_firmware.Transport.Apdu.{TransportErr, Capdu, Rapdu}
use smart_lock_firmware.Session.Crypto.{session_crypto_ed25519_verify}
use smart_lock_firmware.Session.State.{Stage, Session, Env, build_transcript, max_peer_candidates}
use smart_lock_firmware.Session.Handlers.{find_peer, use_window, session_handle_m3}

module _ {C : Type 0} (env : Env C) where
  -- A key among the candidates from index `i` on, below `i + n`, that verifies the signature.
  abbrev pub Vouched : ℕ → ℕ → Bytes → Bytes → C → Type 0
  Vouched n i transcript sig_p c =
      (j : ℕ) × (pk : Bytes) × (i ≤ j)
      × (j < i + n)
      × (env.peer_key_provider j c ≡ some pk)
      × (session_crypto_ed25519_verify env.prim pk transcript sig_p ≡ true)

  find_peer-Vouched :
      (n i : ℕ) (transcript sig_p : Bytes) (c : C)
      → find_peer env n i transcript sig_p c ≡ true
      → Vouched n i transcript sig_p c
  unfolding find_peer
  find_peer-Vouched zero i t s c h = cc
  find_peer-Vouched (suc n) i t s c h = elim (Option-cases (env.peer_key_provider i c)) [
    | inl e ↦ absurd (ground (arith, e))
    | inr (pk, e) ↦ elim (Bool-cases (session_crypto_ed25519_verify env.prim pk t s)) [
      | inl v ↦ (i, pk, omega arith, omega arith, e, v)
      | inr v ↦
          let (j, key, above, below, provided, verified) =
            find_peer-Vouched n (i + 1) t s c (ground (arith, e, v)) in
          (j, key, omega arith, omega arith, provided, verified)
    ]
  ]

  -- The window was armed and its deadline, on the session's clock, had not passed.
  abbrev pub IsWindowOpen : Session → C → Type 0
  IsWindowOpen h c =
      (h.provisioning_armed ≡ true) × ((env.timer_us c).0 ≤ h.provisioning_deadline_us)

  -- M3 is accepted only from an authenticated phone. Either the provisioning window was open, or
  -- one of the first 64 keys of the provider verifies the signature of the phone over the transcript
  -- of this very handshake; and the session was waiting for M3.
  pub session_handle_m3-authenticates :
      (h : Session) (capdu : Capdu) (r : Rapdu) (c : C)
      → (session_handle_m3 env h capdu r c).err ≡ TransportErr.ok
      → (h.stage ≡ Stage.ephemeral)
        × (IsWindowOpen h c
            ⊎ Vouched max_peer_candidates 0
                (build_transcript h)
                capdu.payload
                (use_window env h capdu.payload c).2)
  unfolding session_handle_m3
  session_handle_m3-authenticates h capdu r c e = ground (
    arith,
    find_peer-Vouched max_peer_candidates 0 (build_transcript h) capdu.payload
        (use_window env h capdu.payload c).2,
  )

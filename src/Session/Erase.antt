-- ===== src/Session/Erase.antt =====
-- What `session_on_erase` of components/session/src/session.c leaves behind.
use smart_lock_firmware.Common.{◌≡◌, refl, ◌≢◌, ◌⊎◌, some, arith}
use smart_lock_firmware.Transport.Apdu.{TransportErr, Capdu, Rapdu}
use smart_lock_firmware.Session.Crypto.{zeroize}
use smart_lock_firmware.Session.State.{Stage, Session, Env, session_init, session_on_erase}
use smart_lock_firmware.Session.Channel.{session_on_apdu}

-- No key material: the stage is EMPTY and each key, nonce and ephemeral buffer is zero.
pub record IsClean (h : Session) : Type 0 where
  pub stage : h.stage ≡ Stage.empty
  pub pk_eph_p : h.pk_eph_p ≡ zeroize 32
  pub c_p : h.c_p ≡ zeroize 32
  pub pk_eph_l : h.pk_eph_l ≡ zeroize 32
  pub sk_eph_l : h.sk_eph_l ≡ zeroize 32
  pub c_l : h.c_l ≡ zeroize 32
  pub k_p2e : h.k_p2e ≡ zeroize 32
  pub k_e2p : h.k_e2p ≡ zeroize 32

pub session_init-IsClean : IsClean session_init
unfolding session_init
session_init-IsClean = record {
  stage = refl;
  pk_eph_p = refl;
  c_p = refl;
  pk_eph_l = refl;
  sk_eph_l = refl;
  c_l = refl;
  k_p2e = refl;
  k_e2p = refl;
}

module _ {C : Type 0} (env : Env C) where
  pub session_on_erase-IsClean : (h : Session) (c : C) → IsClean (session_on_erase env h c).0
  unfolding session_on_erase
  session_on_erase-IsClean h c = record {
    stage = refl;
    pk_eph_p = refl;
    c_p = refl;
    pk_eph_l = refl;
    sk_eph_l = refl;
    c_l = refl;
    k_p2e = refl;
    k_e2p = refl;
  }

  -- Erasing keeps the provisioning window and the cached M3, and erasing again changes nothing and
  -- reports nothing more.
  pub session_on_erase-keeps :
      (h : Session) (c : C)
      → let (h', c') = session_on_erase env h c in
        (h'.provisioning_armed ≡ h.provisioning_armed)
        × (h'.provisioning_deadline_us ≡ h.provisioning_deadline_us)
        × (h'.m3_cached ≡ h.m3_cached)
        × (h'.cached_sig_p ≡ h.cached_sig_p)
        × (h'.cached_transcript ≡ h.cached_transcript)
        × (session_on_erase env h' c' ≡ (h', c'))
  unfolding session_on_erase
  session_on_erase-keeps h c = (refl, refl, refl, refl, refl, refl)

  -- Where the layer above takes reports, the erase of an established session reports its end twice, the
  -- erase of any other session reports nothing, and neither does an erase that follows.
  pub session_on_erase-reports_twice :
      (h : Session) (c : C) (report : C → C)
      → env.on_terminated ≡ some report
      → let (h', c') = session_on_erase env h c in
        (h.stage ≡ Stage.established → c' ≡ report (report c))
        × (h.stage ≢ Stage.established → c' ≡ c)
        × ((session_on_erase env h' c').1 ≡ c')
  unfolding session_on_erase
  session_on_erase-reports_twice h c report e =
      (λ s. ground (arith, e, s), λ s. ground (arith, e, s), refl)

  -- Every message either keeps to the stages of the handshake (M1 leads to EPHEMERAL, M3 from
  -- EPHEMERAL to ESTABLISHED, a payload stays ESTABLISHED), or is refused, and then the session is
  -- never more established than it was.
  pub session_on_apdu-stages :
      (h : Session) (capdu : Capdu) (r : Rapdu) (c : C)
      → let o = session_on_apdu env h capdu r c in
        (((o.err ≡ TransportErr.ok) × (capdu.ins ≡ 0x10) × (o.session.stage ≡ Stage.ephemeral))
          ⊎ ((o.err ≡ TransportErr.ok)
              × (capdu.ins ≡ 0x11)
              × (h.stage ≡ Stage.ephemeral)
              × (o.session.stage ≡ Stage.established)))
        ⊎ (((o.err ≡ TransportErr.ok)
              × (capdu.ins ≡ 0x20)
              × (h.stage ≡ Stage.established)
              × (o.session ≡ h))
            ⊎ ((o.err ≢ TransportErr.ok)
                × ((o.session.stage ≡ h.stage) ⊎ (o.session.stage ≡ Stage.empty))))
  unfolding session_on_apdu
  session_on_apdu-stages h capdu r c = ground arith

-- ===== src/Session/Transcript.antt =====
-- The handshake transcript of components/session/src/session.c.
use smart_lock_firmware.Common.{
  ◌≡◌, refl, sym, ◌∙◌, [], ◌++◌, ◌∷◌, Bytes, arith, length, length-append, append-eq_append,
}
use smart_lock_firmware.Session.State.{
  Session, build_transcript, domain, protocol_version, transcript_len,
}

-- The four handshake buffers have the 32 bytes of their arrays.
pub record IsSized (h : Session) : Type 0 where
  pub pk_eph_p : length h.pk_eph_p ≡ 32
  pub pk_eph_l : length h.pk_eph_l ≡ 32
  pub c_p : length h.c_p ≡ 32
  pub c_l : length h.c_l ≡ 32

-- A transcript fills the array exactly.
pub length-build_transcript :
    (h : Session) → IsSized h → length (build_transcript h) ≡ transcript_len
unfolding build_transcript
length-build_transcript h z = omega (
  arith,
  length-append h.pk_eph_p (h.pk_eph_l ++ (h.c_p ++ h.c_l)),
  length-append h.pk_eph_l (h.c_p ++ h.c_l),
  length-append h.c_p h.c_l,
)

-- A transcript binds the handshake: two sessions with one transcript have the same ephemeral keys
-- and the same nonces, so a signature over it is for no other handshake.
pub build_transcript-injective :
    (h h' : Session)
    → IsSized h
    → IsSized h'
    → build_transcript h ≡ build_transcript h'
    → (h.pk_eph_p ≡ h'.pk_eph_p) × (h.pk_eph_l ≡ h'.pk_eph_l) × (h.c_p ≡ h'.c_p) × (h.c_l ≡ h'.c_l)
unfolding build_transcript
build_transcript-injective h h' z z' e =
    let prefix : Bytes = domain ++ protocol_version ∷ [] in
    let (_, e1) = append-eq_append prefix prefix _ _ refl e in
    let (same_p, e2) =
      append-eq_append h.pk_eph_p h'.pk_eph_p _ _ (z.pk_eph_p ∙ sym z'.pk_eph_p) e1 in
    let (same_l, e3) =
      append-eq_append h.pk_eph_l h'.pk_eph_l _ _ (z.pk_eph_l ∙ sym z'.pk_eph_l) e2 in
    let (same_c, same_d) = append-eq_append h.c_p h'.c_p _ _ (z.c_p ∙ sym z'.c_p) e3 in
    (same_p, same_l, same_c, same_d)

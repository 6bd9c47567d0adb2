-- ===== src/Session/State.antt =====
-- `struct session_t` of components/session/src/session.c, and what the session calls.
use smart_lock_firmware.Common.{ℕ, Bool, false, Option, none, some, [], ◌∷◌, ◌++◌, Bytes}
use smart_lock_firmware.Session.Crypto.{Primitives, zeroize}

pub data Stage : Type 0 where
  empty ephemeral established : Stage

pub data SessionErr : Type 0 where
  ok invalid_arg auth_failed internal : SessionErr

pub record Session : Type 0 where
  pub stage : Stage
  pub pk_eph_p : Bytes
  pub c_p : Bytes
  pub pk_eph_l : Bytes
  pub sk_eph_l : Bytes
  pub c_l : Bytes
  pub k_p2e : Bytes
  pub k_e2p : Bytes
  pub provisioning_armed : Bool
  pub provisioning_deadline_us : ℕ
  pub m3_cached : Bool
  pub cached_sig_p : Bytes
  pub cached_transcript : Bytes

-- What the session calls, over a context `C` that the calls read and change: the random numbers and
-- the timer of ESP-IDF, and the callbacks of `session_config_t` with its key. The reply of the
-- handler is its buffer and the length that it reports.
pub record Env (C : Type 0) : Type 0 where
  pub prim : Primitives
  pub fill_random : ℕ → C → Bytes × C
  pub timer_us : C → ℕ × C
  pub local_sk : Bytes
  pub peer_key_provider : ℕ → C → Option Bytes
  pub app_handler : Bytes → C → SessionErr × Bytes × ℕ × C
  pub on_established : Option (C → C)
  pub on_terminated : Option (C → C)

abbrev pub domain : Bytes
domain = b'S' ∷ b'L' ∷ b'O' ∷ b'C' ∷ b'K' ∷ b'-' ∷ b'H' ∷ b'S' ∷ b'-' ∷ b'v' ∷ b'1' ∷ []

abbrev pub protocol_version : ℕ
protocol_version = 0x01

abbrev pub transcript_len : ℕ
transcript_len = 140

abbrev pub m1_len : ℕ
m1_len = 64

abbrev pub m2_len : ℕ
m2_len = 128

abbrev pub m3_len : ℕ
m3_len = 64

abbrev pub gcm_nonce_len : ℕ
gcm_nonce_len = 12

abbrev pub gcm_tag_len : ℕ
gcm_tag_len = 16

abbrev pub gcm_overhead : ℕ
gcm_overhead = 28

abbrev pub plaintext_max : ℕ
plaintext_max = 227

abbrev pub max_peer_candidates : ℕ
max_peer_candidates = 64

-- `calloc` in `session_init`: every byte is zero.
unfoldable pub session_init : Session
session_init = record {
  stage = Stage.empty;
  pk_eph_p = zeroize 32;
  c_p = zeroize 32;
  pk_eph_l = zeroize 32;
  sk_eph_l = zeroize 32;
  c_l = zeroize 32;
  k_p2e = zeroize 32;
  k_e2p = zeroize 32;
  provisioning_armed = false;
  provisioning_deadline_us = 0;
  m3_cached = false;
  cached_sig_p = zeroize 64;
  cached_transcript = zeroize transcript_len;
}

-- "SLOCK-HS-v1" ‖ version ‖ pk_eph_P ‖ pk_eph_L ‖ c_P ‖ c_L.
unfoldable pub build_transcript : Session → Bytes
build_transcript h = domain ++ (protocol_version ∷ (h.pk_eph_p ++ (h.pk_eph_l ++ (h.c_p ++ h.c_l))))

-- The calls of `on_terminated` in `session_on_erase`: the code has two of them.
unfoldable pub notify_terminated : {C : Type 0} → Env C → Stage → C → C
notify_terminated env Stage.established c = elim env.on_terminated [
  | none ↦ c
  | some call ↦ call (call c)
]
notify_terminated env _ c = c

unfoldable pub session_on_erase : {C : Type 0} → Env C → Session → C → Session × C
unfolding notify_terminated
session_on_erase env h c = (
  record h {
    pk_eph_p = zeroize 32;
    c_p = zeroize 32;
    pk_eph_l = zeroize 32;
    sk_eph_l = zeroize 32;
    c_l = zeroize 32;
    k_p2e = zeroize 32;
    k_e2p = zeroize 32;
    stage = Stage.empty;
  },
  notify_terminated env h.stage c,
)

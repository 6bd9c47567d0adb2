-- ===== src/Session.antt =====
-- The session layer, components/session/src/session.c and session_crypto.c: the handshake, the
-- secure channel and the provisioning window.
pub mod Crypto
pub mod State
pub mod Handlers
pub mod Channel
pub mod Handshake
pub mod Erase
pub mod Transcript
pub mod Secure

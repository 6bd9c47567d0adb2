-- ===== src/Transport.antt =====
-- The transport layer, components/transport/src/transport.c: the APDU codec, the session state
-- machine over the link layer.
pub mod Apdu
pub mod Machine
pub mod States
pub mod Run
pub mod Tracking
pub mod Exits
pub mod Termination
pub mod Deadline

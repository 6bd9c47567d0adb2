-- ===== src/Transport/Tracking.antt =====
-- An invariant between the transport's state and the world below and above it, for
-- components/transport/src/transport.c.
mod Base
mod Handlers
mod Session
pub use Base.{Tracks}
pub use Session.*

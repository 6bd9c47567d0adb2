-- ===== src/Transport/Termination.antt =====
-- Enough fuel for the loops of components/transport/src/transport.c.
mod Handlers
mod Ranks
mod Session
pub use Handlers.{Drains}
pub use Session.*

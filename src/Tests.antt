-- ===== src/Tests.antt =====
-- Concrete platforms and runs on which the theorems of the other modules are applied.
mod Platform
mod Transports
mod Sessions
mod Stores
mod Reboots
mod Mailbox
mod Application
mod Bolts
mod Wakes
pub mod Chips
mod Buses
mod Starts
mod Boards

-- ===== src/Transport.antt =====
-- fabricfs-transport/src/policy.rs: what the transport does besides carrying messages.
pub mod Retry
pub mod Local
pub mod Replay
pub mod Authenticated
pub mod NamespaceLocks
pub mod Delivering
mod Tests

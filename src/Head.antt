-- ===== src/Head.antt =====
-- The pages of the head and what they ask of the minions and of the database.
pub mod BridgeClient
pub mod Forwards
pub mod Admitted
pub mod Guarded
pub mod Dns
pub mod Owners
pub mod Polling
pub mod Polled
mod Tests

-- ===== src/Config.antt =====
-- The configuration: config.py.
pub mod Targets
pub mod OwnNode
pub mod Checks
pub mod HostLookup
mod Tests

-- ===== src/Devices.antt =====
-- The inventory of WireGuard clients on the head: services/devices.py.
pub mod Inventory
pub mod Naming
pub mod Stored
pub mod Scan
pub mod Reported
mod Tests

-- ===== src/Collectors.antt =====
-- The collectors of a host: collectors/wireguard.py.
pub mod Wireguard
pub mod Filtered
mod Tests

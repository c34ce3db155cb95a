-- ===== src/Hosts.antt =====
-- The files of a host, as far as its collectors may look: what collectors/public_interfaces.py and
-- collectors/mounts.py have in common.
pub mod Paths
pub mod Lexical
pub mod Files
pub mod Unread
pub mod Agreeing

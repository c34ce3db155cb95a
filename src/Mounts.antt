-- ===== src/Mounts.antt =====
-- The mounts of a host and what it exports by SFTP: collectors/mounts.py.
pub mod Table
pub mod Escapes
pub mod Windows
pub mod SshConfig
pub mod Exports
pub mod Reading
pub mod Named
pub mod Allowed
mod Tests
pub mod Correlated
pub mod Rows
pub mod Slashes
pub mod Chroot

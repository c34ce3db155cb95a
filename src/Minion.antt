-- ===== src/Minion.antt =====
-- The bridge API of a minion: api/minion.py.
pub mod Api
pub mod Access
mod Tests

-- ===== src/HeadAuth.antt =====
-- Head authentication: services/head_auth.py, middleware/head_auth.py and api/auth.py.
pub mod State
pub mod Store
pub mod Throttle
pub mod Origin
pub mod Middleware
pub mod Routes
mod Tests
mod PageTests

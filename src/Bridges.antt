-- ===== src/Bridges.antt =====
-- Bridge management on a minion: services/bridges.py and the bridge models of schemas.py.
pub mod Yaml
pub mod Decimal
pub mod Names
pub mod Service
pub mod ServiceLaws
pub mod State
pub mod Document
pub mod Compose
pub mod View
pub mod Manager
pub mod Ports
pub mod Outcomes
pub mod ViewLaws
pub mod Edits
pub mod Steady
pub mod Histories
pub mod Lookups
pub mod Results
pub mod Applied
mod Tests

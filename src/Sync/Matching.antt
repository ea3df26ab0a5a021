-- ===== src/Sync/Matching.antt =====
-- What `try_match` of app/services/sync/matcher.py guarantees.
pub mod Emission
mod Built
pub mod Order
pub mod Counts
pub mod Guarantees

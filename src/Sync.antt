-- ===== src/Sync.antt =====
-- app/services/sync: frames of several cameras are buffered and matched into frame sets.
pub mod Models
pub mod Buffer
pub mod Manager
pub mod Selection
pub mod CaptureIdentity
pub mod Manifest
pub mod Matcher
pub mod Matching
pub mod Service

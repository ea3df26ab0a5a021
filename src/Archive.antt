-- ===== src/Archive.antt =====
-- app/services/sync/manifest_store.py: the durable manifests of the frame sets, over the tables of
-- app/models/frame_set_manifest.py.
pub mod Rows
pub mod Checks
pub mod Store
pub mod Persisting
pub mod Waiting
pub mod Superseding
pub mod Offering
pub mod Durable

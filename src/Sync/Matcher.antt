-- ===== src/Sync/Matcher.antt =====
-- `SyncMatcher` of app/services/sync/matcher.py. The buffer manager that a matcher refers to is the
-- one of its service, so a method takes the manager beside the matcher and returns both. The time
-- of the call and a fresh `uuid4` for a new capture run are arguments.
mod State
unfoldable pub use State.*
mod Build
unfoldable pub use Build.*
mod Match
unfoldable pub use Match.*
mod Archive
unfoldable pub use Archive.*

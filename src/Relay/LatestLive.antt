-- ===== src/Relay/LatestLive.antt =====
-- `LatestLiveStore` of app/services/relay_v2/latest_live.py: the durable scheduler that offers the
-- newest frame set to the consumer, over the tables of app/models/frame_set_manifest.py. A method is one
-- transaction: it takes the tables and returns them with its result. Times are arguments.
pub mod Tables
pub use Tables.*
pub mod Claims
pub use Claims.*
pub mod Reports
pub use Reports.*
pub mod Newest
pub mod Claiming
pub mod Consistency
pub mod Progress
pub mod Flying
pub mod Transitions

-- ===== src/Stream.antt =====
-- app/services/stream/state.py: what is known of the stream of each camera.
pub mod State
pub mod Counts

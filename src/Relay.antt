-- ===== src/Relay.antt =====
-- app/services/relay_v2: the delivery of frame sets to a live consumer.
pub mod LatestLive

-- ===== src/Protocol.antt =====
-- app/services/relay_v2/protocol.py: what the producer and the processor of the relay say to each other.
pub mod Messages
pub mod Hello
pub mod Members
pub mod Payload
pub mod Admissible

-- ===== src/Tests.antt =====
-- Concrete runs of the program that the theorems apply to.
mod Sync
mod Relay
mod Service
mod Archive
mod Session
mod Authorized
mod Stream
mod Protocol
mod RelayCredentials
mod Alerts

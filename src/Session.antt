-- ===== src/Session.antt =====
-- app/services/session_identity.py: the scopes of verified tokens, the credentials that are active, the
-- caches of what the main service says, and the verifiers.
pub mod Values
pub mod Keyed
pub mod Scopes
pub mod WellFormed
pub mod Credentials
pub mod Status
pub mod Keys
pub mod Said
pub mod Agreement
pub mod Verifiers
pub mod Versioned
pub mod Registered
pub mod Cached
pub mod Verified
pub mod Active
pub mod ActiveCamera
pub mod Authorized
pub mod RelayScopes
pub mod RelayCredentials
pub mod Relayed

-- ===== src/Session/Status.antt =====
-- `SessionStatusCache` and `CameraCredentialStatusCache`: what the main service said of a processing job
-- or of a camera credential, for a time. `now` is the monotonic clock; a fetch that raises is `none`.
use gc_image_stream.Prelude.{
  ℕ, ◌+◌, String, Bool, false, not, ◌&&◌, Option, none, some, length, ltb, leb, nat_eq, string_eq,
  pair_eq, if◌then◌else◌,
}
use gc_image_stream.Session.Values.{
  Value, Fields, get_field, is_text, is_true, as_object, Checked, ok, refused,
}
use gc_image_stream.Session.Keyed.{Keyed, get, put, pop, pop_first}

-- The times until which a positive reply is trusted.
pub record StatusCache (K : Type 0) : Type 0 where
  pub cache_ttl : ℕ
  pub active_until : Keyed K ℕ

abbrev pub SessionStatusCache : Type 0
SessionStatusCache = StatusCache String

-- The key is the credential and the processing job.
abbrev pub CredentialStatusCache : Type 0
CredentialStatusCache = StatusCache (String × String)

abbrev pub is_after : Option ℕ → ℕ → Bool
is_after none now = false
is_after (some until) now = ltb now until

-- The reply says that the processing job is known and active.
unfoldable pub says_session : Option Fields → String → Bool
unfolding get_field
says_session none job = false
says_session (some reply) job =
    is_text (get_field reply "processingJobId") job
    && is_true (get_field reply "known")
    && is_true (get_field reply "active")

unfoldable pub assert_session_active :
    SessionStatusCache
    → String
    → ℕ
    → (String → Option Value)
    → SessionStatusCache × Checked (Unit {0})
unfolding says_session
assert_session_active c job now fetch =
    if is_after (get c.active_until job) now then (c, ok tt) else elim (fetch job) [
      | none ↦ (c, refused "could not verify Main session status")
      | some payload ↦
          if not (says_session (as_object payload) job)
          then (
            record c { active_until = pop c.active_until job },
            refused "Main session is inactive or unknown",
          )
          else (record c { active_until = put c.active_until job (now + c.cache_ttl) }, ok tt)
    ]

abbrev pub retained_limit : ℕ
retained_limit = 1024

-- The reply says that the camera credential of the processing job is known and active.
unfoldable pub says_credential : Option Fields → String → String → Bool
unfolding get_field
says_credential none credential job = false
says_credential (some reply) credential job =
    is_text (get_field reply "credentialId") credential
    && is_text (get_field reply "processingJobId") job
    && is_text (get_field reply "credentialKind") "CAMERA_INGEST"
    && is_true (get_field reply "known")
    && is_true (get_field reply "active")

-- A positive result is kept in place of the oldest one, where the cache is full.
unfoldable pub retain : Keyed (String × String) ℕ → String × String → ℕ → Keyed (String × String) ℕ
retain d key until = put (if leb retained_limit (length d) then pop_first d else d) key until

unfoldable pub assert_credential_active :
    CredentialStatusCache
    → String
    → String
    → ℕ
    → (String → Option Value)
    → CredentialStatusCache × Checked (Unit {0})
unfolding says_credential retain
assert_credential_active c credential job now fetch =
    let key : String × String = (credential, job) in
    let left = pop c.active_until key in
    if is_after (get c.active_until key) now then (c, ok tt) else elim (fetch credential) [
      | none ↦ (
        record c { active_until = left },
        refused "could not verify Main camera credential status",
      )
      | some payload ↦
          if not (says_credential (as_object payload) credential job)
          then (
            record c { active_until = left },
            refused "Main camera credential is inactive or unknown",
          )
          else (record c { active_until = retain left key (now + c.cache_ttl) }, ok tt)
    ]

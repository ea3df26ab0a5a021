-- ===== src/Session/Credentials.antt =====
-- `ActiveSessionCredentialStore` and `ActiveCameraIngestCredentialStore`. `now` is `int(self.now())`.
use gc_image_stream.Prelude.{
  ℕ, String, Bool, true, false, not, ◌&&◌, Option, none, some, [], ◌==◌, string_eq, option_eq,
  pair_eq, if◌then◌else◌, List,
}
use gc_image_stream.Session.Values.{int_ltb, is_at_most, Checked, ok, refused}
use gc_image_stream.Session.Keyed.{Keyed, get, put, pop}
use gc_image_stream.Session.Scopes.{
  AuthorizedSessionScope, AuthorizedCameraIngestScope, session_scope_beq, camera_scope_beq,
  same_cameras,
}

-- `ActiveSessionCredential`, with the scope of its store.
pub record Credential (S : Type 0) : Type 0 where
  pub token : String
  pub scope : S

abbrev pub SessionCredential : Type 0
SessionCredential = Credential AuthorizedSessionScope

abbrev pub CameraCredential : Type 0
CameraCredential = Credential AuthorizedCameraIngestScope

abbrev pub SessionStore : Type 0
SessionStore = Keyed String SessionCredential

-- The key is the processing job and the camera.
abbrev pub CameraStore : Type 0
CameraStore = Keyed (String × String) CameraCredential

-- What `resolve_for_claim` reads of a claimed frame set.
pub record Claim : Type 0 where
  pub tenant_id : Option String
  pub site_id : Option String
  pub capture_session_id : Option String
  pub processing_job_id : Option String
  pub profile_digest : Option String
  pub authorized_subject : Option String
  pub session_token_jti : Option String
  pub authorized_camera_ids : List String

-- `actual == expected`
abbrev pub matches_claim : AuthorizedSessionScope → Claim → Bool
matches_claim s claim =
    some s.tenant_id == claim.tenant_id
    && some s.site_id == claim.site_id
    && some s.capture_session_id == claim.capture_session_id
    && some s.processing_job_id == claim.processing_job_id
    && some s.profile_digest == claim.profile_digest
    && some s.authorized_subject == claim.authorized_subject
    && some s.token_jti == claim.session_token_jti
    && same_cameras s.camera_ids claim.authorized_camera_ids

-- The credential there may be replaced by one of the scope.
abbrev pub same_session : Option SessionCredential → AuthorizedSessionScope → Bool
same_session none scope = true
same_session (some existing) scope = session_scope_beq existing.scope scope

unfoldable pub register_session :
    SessionStore → String → AuthorizedSessionScope → ℕ → SessionStore × Checked SessionCredential
register_session store token scope now =
    let credential : SessionCredential = record { token = token; scope = scope } in
    if token == ""
    then (store, refused "session token is required")
    else if is_at_most scope.expires_at now
    then (store, refused "session token is expired")
    else if not (same_session (get store scope.processing_job_id) scope)
    then (store, refused "processing job credential scope cannot be replaced")
    else (put store scope.processing_job_id credential, ok credential)

abbrev pub check_credential :
    SessionStore → String → SessionCredential → Claim → ℕ → SessionStore × Checked SessionCredential
check_credential store job credential claim now =
    if is_at_most credential.scope.expires_at now
    then (pop store job, refused "active session credential is expired")
    else if not (matches_claim credential.scope claim)
    then (store, refused "active credential does not match authorized manifest")
    else (store, ok credential)

unfoldable pub resolve_for_claim :
    SessionStore → Claim → ℕ → SessionStore × Checked SessionCredential
resolve_for_claim store claim now = elim claim.processing_job_id [
  | none ↦ (store, refused "authorized manifest is missing processing_job_id")
  | some job ↦
      if job == ""
      then (store, refused "authorized manifest is missing processing_job_id")
      else elim (get store job) [
        | none ↦ (store, refused "active session credential is unavailable")
        | some credential ↦ check_credential store job credential claim now
      ]
]

abbrev pub is_set {ℓ} : {A : Type ℓ} → Option A → Bool
is_set none = false
is_set (some a) = true

unfoldable pub revoke_session : SessionStore → String → SessionStore × Bool
revoke_session store job = (pop store job, is_set (get store job))

abbrev pub clear_sessions : SessionStore → SessionStore
clear_sessions store = []

-- Why the credential there cannot be replaced by one of the scope.
abbrev pub replacement_error : Option CameraCredential → AuthorizedCameraIngestScope → Option String
replacement_error none scope = none
replacement_error (some existing) scope =
    if not (existing.scope.camera_claim_id == scope.camera_claim_id)
    then some "active camera claim cannot be replaced"
    else if int_ltb scope.issued_at existing.scope.issued_at
    then some "older camera ingest credential cannot replace a newer one"
    else none

abbrev pub camera_key : AuthorizedCameraIngestScope → String × String
camera_key scope = (scope.processing_job_id, scope.camera_id)

unfoldable pub register_camera :
    CameraStore → String → AuthorizedCameraIngestScope → ℕ → CameraStore × Checked CameraCredential
register_camera store token scope now =
    let credential : CameraCredential = record { token = token; scope = scope } in
    if token == ""
    then (store, refused "camera ingest credential is required")
    else if is_at_most scope.expires_at now
    then (store, refused "camera ingest credential is expired")
    else elim (replacement_error (get store (camera_key scope)) scope) [
      | some message ↦ (store, refused message)
      | none ↦ (put store (camera_key scope) credential, ok credential)
    ]

unfoldable pub resolve_camera :
    CameraStore → String × String → ℕ → CameraStore × Checked CameraCredential
resolve_camera store key now = elim (get store key) [
  | none ↦ (store, refused "active camera ingest credential is unavailable")
  | some credential ↦
      if is_at_most credential.scope.expires_at now
      then (pop store key, refused "active camera ingest credential is expired")
      else (store, ok credential)
]

abbrev pub check_current :
    Checked CameraCredential → AuthorizedCameraIngestScope → Checked (Unit {0})
check_current (refused message) scope = refused message
check_current (ok credential) scope =
    if camera_scope_beq credential.scope scope
    then ok tt
    else refused "camera ingest credential has been replaced"

-- `assert_current`
unfoldable pub assert_current :
    CameraStore → AuthorizedCameraIngestScope → ℕ → CameraStore × Checked (Unit {0})
unfolding resolve_camera
assert_current store scope now =
    let (after, found) = resolve_camera store (camera_key scope) now in
    (after, check_current found scope)

unfoldable pub revoke_camera : CameraStore → String × String → CameraStore × Bool
revoke_camera store key = (pop store key, is_set (get store key))

abbrev pub clear_cameras : CameraStore → CameraStore
clear_cameras store = []

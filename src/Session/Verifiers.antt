-- ===== src/Session/Verifiers.antt =====
-- `SessionTokenVerifier` and `CameraIngestCredentialVerifier`. PyJWT is a parameter: `none` is a
-- `PyJWTError`.
use gc_image_stream.Prelude.{
  ℕ, String, not, Option, none, some, List, [], ◌∷◌, ◌==◌, string_eq, pair_eq, if◌then◌else◌,
  nat_eq,
}
use gc_image_stream.Session.Values.{
  Value, Fields, get_field, is_text, is_at_most, Checked, ok, refused,
}
use gc_image_stream.Session.Scopes.{
  Platform, AuthorizedSessionScope, AuthorizedCameraIngestScope, scope_from_claims,
  camera_ingest_scope_from_claims,
}
use gc_image_stream.Session.Status.{
  SessionStatusCache, CredentialStatusCache, assert_session_active, assert_credential_active,
}
use gc_image_stream.Session.Keys.{Fetched, KeyCache, resolve_key}

abbrev pub legacy_required_claims : List String
legacy_required_claims =
    "iss" ∷ "aud" ∷ "sub" ∷ "tenant_id" ∷ "site_id" ∷ "capture_session_id" ∷ "processing_job_id"
    ∷ "camera_ids" ∷ "profile_digest" ∷ "mode" ∷ "iat" ∷ "nbf" ∷ "exp" ∷ "jti" ∷ []

abbrev pub camera_ingest_required_claims : List String
camera_ingest_required_claims =
    "iss" ∷ "aud" ∷ "sub" ∷ "credential_kind" ∷ "tenant_id" ∷ "site_id" ∷ "capture_session_id"
    ∷ "processing_job_id" ∷ "profile_digest" ∷ "camera_claim_id" ∷ "camera_id" ∷ "device_id" ∷ "iat"
    ∷ "nbf" ∷ "exp" ∷ "jti" ∷ []

-- The arguments of `jwt.decode` beside the token: the only algorithm is RS256.
pub record DecodeOptions (Key : Type 0) : Type 0 where
  pub key : Key
  pub issuer : String
  pub audience : String
  pub leeway_sec : ℕ
  pub required : List String

-- PyJWT, and `str(value or "")` of a header's value.
pub record Jwt (Key : Type 0) : Type 0 where
  pub get_unverified_header : String → Option Fields
  pub decode : String → DecodeOptions Key → Option Fields
  pub decode_unverified : String → Option Fields
  pub parse_key : Fields → Option Key
  pub text_or_empty : Value → String

-- The state of a verifier. A verifier of session tokens has no cache of credentials.
pub record Verifier (Key : Type 0) : Type 0 where
  pub issuer : String
  pub audience : String
  pub leeway_sec : ℕ
  pub key_cache : KeyCache Key
  pub status_cache : Option SessionStatusCache
  pub credential_status_cache : Option CredentialStatusCache

-- The clocks that a call reads and what its fetches return.
pub record Moment : Type 0 where
  pub now : ℕ
  pub key_time : ℕ
  pub fetched_keys : Fetched
  pub retry_time : ℕ
  pub refetched_keys : Fetched
  pub status_time : ℕ
  pub fetch_session : String → Option Value
  pub credential_time : ℕ
  pub fetch_credential : String → Option Value

module _ {Key : Type 0} where
  -- `self.status_cache.assert_active(job)`, where there is such a cache.
  unfoldable pub check_session : Verifier Key → String → Moment → Verifier Key × Checked (Unit {0})
  unfolding assert_session_active
  check_session v job m = elim v.status_cache [
    | none ↦ (v, ok tt)
    | some c ↦
        let (after, said) = assert_session_active c job m.status_time m.fetch_session in
        (record v { status_cache = some after }, said)
  ]

  unfoldable pub check_credential_status :
      Verifier Key → String → String → Moment → Verifier Key × Checked (Unit {0})
  unfolding assert_credential_active
  check_credential_status v credential job m = elim v.credential_status_cache [
    | none ↦ (v, ok tt)
    | some c ↦
        let (after, said) =
          assert_credential_active c credential job m.credential_time m.fetch_credential in
        (record v { credential_status_cache = some after }, said)
  ]

  -- `SessionTokenVerifier.assert_active`
  unfoldable pub assert_session_scope_active :
      Verifier Key → AuthorizedSessionScope → Moment → Verifier Key × Checked (Unit {0})
  unfolding check_session
  assert_session_scope_active v scope m =
      if is_at_most scope.expires_at m.now
      then (v, refused "session token is expired")
      else check_session v scope.processing_job_id m

  -- `CameraIngestCredentialVerifier.assert_active`
  unfoldable pub assert_camera_scope_active :
      Verifier Key → AuthorizedCameraIngestScope → Moment → Verifier Key × Checked (Unit {0})
  unfolding check_session check_credential_status
  assert_camera_scope_active v scope m =
      if is_at_most scope.expires_at m.now
      then (v, refused "camera ingest credential is expired")
      else elim (check_session v scope.processing_job_id m).1 [
        | refused message ↦ ((check_session v scope.processing_job_id m).0, refused message)
        | ok u ↦
            check_credential_status (check_session v scope.processing_job_id m).0 scope.token_jti
              scope.processing_job_id m
      ]

  -- The end of `verify`: the scope, where it is active.
  abbrev pub active_scope {ℓ} :
      {S : Type ℓ} → Verifier Key × Checked (Unit {0}) → S → Verifier Key × Checked S
  active_scope (v, refused message) scope = (v, refused message)
  active_scope (v, ok u) scope = (v, ok scope)

module _ {Key : Type 0} (jwt : Jwt Key) where
  -- The claims of a token that `jwt.decode` accepts with the key of its header. `algorithm` and
  -- `invalid` are the messages of the verifier.
  unfoldable pub verified_claims :
      Verifier Key → String → List String → String → String → Moment → Verifier Key × Checked Fields
  unfolding get_field resolve_key
  verified_claims v token required algorithm invalid m = elim (jwt.get_unverified_header token) [
    | none ↦ (v, refused invalid)
    | some header ↦
        if not (is_text (get_field header "alg") "RS256")
        then (v, refused algorithm)
        else let (keys, found) =
            resolve_key jwt.parse_key v.key_cache (jwt.text_or_empty (get_field header "kid"))
              m.key_time m.fetched_keys m.retry_time m.refetched_keys in
          let after : Verifier Key = record v { key_cache = keys } in
          elim found [
            | refused message ↦ (after, refused message)
            | ok key ↦
                elim (jwt.decode token (record {
                  key = key;
                  issuer = v.issuer;
                  audience = v.audience;
                  leeway_sec = v.leeway_sec;
                  required = required;
                })) [ none ↦ (after, refused invalid) | some claims ↦ (after, ok claims) ]
          ]
  ]

module _ (p : Platform) {Key : Type 0} (jwt : Jwt Key) where
  -- `SessionTokenVerifier.verify`
  unfoldable pub verify_session :
      Verifier Key → String → Moment → Verifier Key × Checked AuthorizedSessionScope
  unfolding verified_claims assert_session_scope_active
  verify_session v token m =
      if token == ""
      then (v, refused "session token is required")
      else let (after, claims) =
          verified_claims jwt v token legacy_required_claims "session token algorithm must be RS256"
            "session token validation failed" m in
        elim claims [
          | refused message ↦ (after, refused message)
          | ok fields ↦ elim (scope_from_claims p fields) [
            | refused message ↦ (after, refused message)
            | ok scope ↦ active_scope (assert_session_scope_active after scope m) scope
          ]
        ]

  -- `CameraIngestCredentialVerifier.verify`
  unfoldable pub verify_camera :
      Verifier Key → String → Moment → Verifier Key × Checked AuthorizedCameraIngestScope
  unfolding verified_claims assert_camera_scope_active
  verify_camera v token m =
      if token == ""
      then (v, refused "camera ingest credential is required")
      else let (after, claims) =
          verified_claims jwt v token camera_ingest_required_claims
            "camera ingest credential algorithm must be RS256"
            "camera ingest credential validation failed" m in
        elim claims [
          | refused message ↦ (after, refused message)
          | ok fields ↦ elim (camera_ingest_scope_from_claims p fields) [
            | refused message ↦ (after, refused message)
            | ok scope ↦ active_scope (assert_camera_scope_active after scope m) scope
          ]
        ]

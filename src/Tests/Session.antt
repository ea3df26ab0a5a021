-- ===== src/Tests/Session.antt =====
-- Concrete runs of app/services/session_identity.py.
use gc_image_stream.Prelude.{
  ℕ, String, Bool, true, false, Option, none, some, List, [], ◌∷◌, ◌≡◌, ◌⊎◌, ◌≤◌, refl, inl, inr,
  length, join, arith, string_eq, pair_eq, ◌==◌, if◌then◌else◌,
}
use gc_image_stream.Session.Values
use gc_image_stream.Session.Keyed
use gc_image_stream.Session.Scopes
use gc_image_stream.Prelude
use gc_image_stream.Session.Values.{
  ℤ, pos, Value, Fields, text, integer, array, object, nil, item, end, field, boolean, Checked, ok,
  refused, is_at_most,
}
use gc_image_stream.Session.Scopes.{
  Platform, IsPlatform, AuthorizedSessionScope, AuthorizedCameraIngestScope, scope_from_claims,
}
use gc_image_stream.Session.Credentials.{
  CameraStore, CameraCredential, SessionStore, Claim, register_camera, resolve_camera,
  resolve_for_claim,
}
use gc_image_stream.Session.Status.{CredentialStatusCache, retained_limit, assert_credential_active}
use gc_image_stream.Session.Keys.{payload, failed}
use gc_image_stream.Session.Said.{IsUnexpired}
use gc_image_stream.Session.Verifiers.{
  Jwt, Verifier, Moment, verify_session, verify_camera, legacy_required_claims,
}
use gc_image_stream.Session.WellFormed.{IsSessionScope}
use gc_image_stream.Session.Registered.{
  Replaces, IsActiveFor, register-resolve, register_camera-Replaces, resolve-IsActiveFor,
}
use gc_image_stream.Session.Cached.{
  IsSaidActive, assert_credential_active-bounded, assert_credential_active-fails_closed,
}
use gc_image_stream.Session.Verified.{IsSigned}
use gc_image_stream.Session.Active.{IsJobActive, verify_session_sound}
use gc_image_stream.Session.ActiveCamera.{IsVerifiedCamera, verify_camera_sound}

-- Every text is the text of a UUID in lower case.
abbrev pub platform : Platform
platform = record { uuid_text = λ s. some s; lower = λ s. s }

pub platform-IsPlatform : IsPlatform platform
platform-IsPlatform = record { uuid_again = λ s n h. refl; uuid_lower = λ s n h. refl }

abbrev scope : ℕ → AuthorizedCameraIngestScope
scope issued_at = record {
  tenant_id = "t";
  site_id = "s";
  capture_session_id = "c";
  processing_job_id = "job";
  profile_digest = "d";
  camera_claim_id = "claim";
  camera_id = "camera";
  device_id = "device";
  authorized_subject = "subject";
  token_jti = "jti";
  issued_at = pos issued_at;
  expires_at = pos 100;
}

abbrev key : String × String
key = ("job", "camera")

abbrev registered : CameraStore
registered = (key, record { token = "old"; scope = scope 5 }) ∷ []

abbrev renewed : CameraStore × Checked CameraCredential
renewed = register_camera registered "new" (scope 7) 10

renewed_lem : renewed ≡ (renewed.0, ok (record { token = "new"; scope = scope 7 }))
unfolding register_camera Keyed.get
renewed_lem = refl

register-resolve_example :
    resolve_camera renewed.0 key 50 ≡ (renewed.0, ok (record { token = "new"; scope = scope 7 }))
register-resolve_example = register-resolve registered "new" (scope 7) 10 50 renewed_lem refl

register_camera-Replaces_example :
    (c : CameraCredential) × (Keyed.get renewed.0 key ≡ some c)
    × Replaces c (record { token = "old"; scope = scope 5 })
unfolding Keyed.get
register_camera-Replaces_example =
    register_camera-Replaces registered "new" (scope 7) 10 key
      (record { token = "old"; scope = scope 5 }) refl

abbrev session : AuthorizedSessionScope
session = record {
  tenant_id = "t";
  site_id = "s";
  capture_session_id = "c";
  processing_job_id = "job";
  camera_ids = "camera" ∷ [];
  profile_digest = "d";
  authorized_subject = "subject";
  token_jti = "job";
  expires_at = pos 100;
}

abbrev pub claim : Claim
claim = record {
  tenant_id = some "t";
  site_id = some "s";
  capture_session_id = some "c";
  processing_job_id = some "job";
  profile_digest = some "d";
  authorized_subject = some "subject";
  session_token_jti = some "job";
  authorized_camera_ids = "camera" ∷ [];
}

abbrev sessions : SessionStore
sessions = ("job", record { token = "token"; scope = session }) ∷ []

resolve-IsActiveFor_example :
    (sessions ≡ sessions)
    × IsActiveFor sessions claim 50 (record { token = "token"; scope = session })
unfolding resolve_for_claim Keyed.get
resolve-IsActiveFor_example = resolve-IsActiveFor sessions claim 50 refl

abbrev active_reply : String → Option Value
active_reply credential = some (
    object (
      field "credentialId" (text credential) (
        field "processingJobId" (text "job") (
          field "credentialKind" (text "CAMERA_INGEST")
            (field "known" (boolean true) (field "active" (boolean true) end))))))

abbrev statuses : CredentialStatusCache
statuses = record { cache_ttl = 1; active_until = (("old", "job"), 3) ∷ [] }

assert_credential_active-bounded_example :
    length (assert_credential_active statuses "jti" "job" 5 active_reply).0.active_until
    ≤ retained_limit
assert_credential_active-bounded_example =
    assert_credential_active-bounded statuses "jti" "job" 5 active_reply (omega arith)

assert_credential_active-fails_closed_example :
    ((assert_credential_active statuses "old" "job" 5 (λ c. none)).1 ≡ ok tt)
      × IsSaidActive statuses "old" "job" 5 (λ c. none)
    ⊎ ((m : String) × ((assert_credential_active statuses "old" "job" 5 (λ c. none)).1 ≡ refused m)
        × (¬ (IsSaidActive statuses "old" "job" 5 (λ c. none)))
        × ((assert_credential_active statuses "old" "job" 5 (λ c. none)).0.active_until
            ≡ Keyed.pop statuses.active_until ("old", "job")))
assert_credential_active-fails_closed_example =
    assert_credential_active-fails_closed statuses "old" "job" 5 (λ c. none)

abbrev pub digest : String
digest = "0123456789abcdef0123456789abcdef0123456789abcdef0123456789abcdef"

abbrev pub session_claims : Fields
session_claims = field "sub" (text "subject") (
    field "tenant_id" (text "t") (
      field "site_id" (text "s") (
        field "capture_session_id" (text "c") (
          field "processing_job_id" (text "job") (
            field "jti" (text "job") (
              field "camera_ids" (array (item (text "left") (item (text "right") nil))) (
                field "mode" (text "LIVE") (
                  field "exp" (integer (pos 100)) (field "profile_digest" (text digest) end)))))))))

abbrev pub camera_claims : Fields
camera_claims = field "credential_kind" (text "CAMERA_INGEST") (
    field "camera_claim_id" (text "claim") (
      field "camera_id" (text "left")
        (field "device_id" (text "device") (field "iat" (integer (pos 5)) session_claims))))

abbrev pub jwt_of : Fields → Jwt String
jwt_of claims = record {
  get_unverified_header = λ token. some (field "alg" (text "RS256") (field "kid" (text "k") end));
  decode = λ token options. some claims;
  decode_unverified = λ token. some claims;
  parse_key = λ fields. some "key";
  text_or_empty = λ value. Prelude.or_text (Values.as_text value) "";
}

abbrev pub verifier : Verifier String
verifier = record {
  issuer = "main";
  audience = "ingest";
  leeway_sec = 5;
  key_cache = record { cache_ttl = 300; keys = []; loaded_at = none };
  status_cache = some (record { cache_ttl = 1; active_until = [] });
  credential_status_cache = some statuses;
}

-- The keys are fetched, and the main service says that the job is active.
abbrev pub moment : Moment
moment = record {
  now = 50;
  key_time = 7;
  fetched_keys = payload (
      object (
        field "keys"
          (array (
            item
              (object (
                field "kid" (text "k") (field "kty" (text "RSA") (field "alg" (text "RS256") end))))
              nil))
          end));
  retry_time = 8;
  refetched_keys = failed;
  status_time = 9;
  fetch_session = λ job. some (
      object (
        field "processingJobId" (text job)
          (field "known" (boolean true) (field "active" (boolean true) end))));
  credential_time = 9;
  fetch_credential = active_reply;
}

abbrev verified : Verifier String × Checked AuthorizedSessionScope
verified = verify_session platform (jwt_of session_claims) verifier "token" moment

abbrev verified_scope : AuthorizedSessionScope
verified_scope = record {
  tenant_id = "t";
  site_id = "s";
  capture_session_id = "c";
  processing_job_id = "job";
  camera_ids = "left" ∷ "right" ∷ [];
  profile_digest = digest;
  authorized_subject = "subject";
  token_jti = "job";
  expires_at = pos 100;
}

verified_lem : verified ≡ (verified.0, ok verified_scope)
unfolding verify_session Keyed.get Keyed.put scope_from_claims Values.◌>>=◌ Scopes.all_hex
    Scopes.text_length Prelude.strip
verified_lem = refl

verify_session_sound_example :
    (claims : Fields) × IsSigned
      (jwt_of session_claims)
      verified.0
      "token"
      legacy_required_claims
      claims
    × (scope_from_claims platform claims ≡ ok verified_scope)
    × IsSessionScope platform verified_scope
    × IsUnexpired verified_scope.expires_at 50
    × IsJobActive verifier.status_cache "job" moment
verify_session_sound_example =
    verify_session_sound platform platform-IsPlatform (jwt_of session_claims) verifier "token"
      moment verified_lem

abbrev camera_verified : Verifier String × Checked AuthorizedCameraIngestScope
camera_verified = verify_camera platform (jwt_of camera_claims) verifier "token" moment

abbrev pub camera_scope : AuthorizedCameraIngestScope
camera_scope = record {
  tenant_id = "t";
  site_id = "s";
  capture_session_id = "c";
  processing_job_id = "job";
  profile_digest = digest;
  camera_claim_id = "claim";
  camera_id = "left";
  device_id = "device";
  authorized_subject = "subject";
  token_jti = "job";
  issued_at = pos 5;
  expires_at = pos 100;
}

camera_verified_lem : camera_verified ≡ (camera_verified.0, ok camera_scope)
unfolding verify_camera Keyed.get Keyed.put Scopes.camera_ingest_scope_from_claims Values.◌>>=◌
    Scopes.all_hex Scopes.text_length Prelude.strip
camera_verified_lem = refl

verify_camera_sound_example :
    IsVerifiedCamera platform
      (jwt_of camera_claims)
      verifier
      "token"
      moment
      camera_verified.0
      camera_scope
verify_camera_sound_example =
    verify_camera_sound platform platform-IsPlatform (jwt_of camera_claims) verifier "token" moment
      camera_verified_lem

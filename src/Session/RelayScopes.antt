-- ===== src/Session/RelayScopes.antt =====
-- app/services/relay_credentials.py: the scope of a credential with which a claimed frame set is relayed,
-- and its verification.
use Prim.Native.String as Text
use gc_image_stream.Prelude.{
  String, Bool, false, not, ◌&&◌, Option, none, some, List, [], ◌∷◌, any, all, strip, join, ◌==◌,
  nat_eq, string_eq, option_eq, if◌then◌else◌,
}
use gc_image_stream.Session.Values.{
  ℤ, Value, Values, Fields, text, array, object, nil, item, end, field, null, integer, real,
  boolean, truth, get_field, is_text, as_text, is_at_most, Checked, ok, refused, ◌>>=◌, ◌>>◌,
  require, found_or,
}
use gc_image_stream.Session.Scopes.{
  Platform, same_cameras, canonical_uuid, digest_claim, cameras_claim, int_claim,
}
use gc_image_stream.Session.Credentials.{Credential, Claim}
use gc_image_stream.Session.Verifiers.{Jwt, Verifier, Moment, verified_claims}

abbrev pub relay_required_claims : List String
relay_required_claims =
    "iss" ∷ "aud" ∷ "sub" ∷ "credential_kind" ∷ "tenant_id" ∷ "site_id" ∷ "capture_session_id"
    ∷ "processing_job_id" ∷ "profile_digest" ∷ "coordinator_subject" ∷ "camera_ids" ∷ "iat" ∷ "nbf"
    ∷ "exp" ∷ "jti" ∷ []

pub record ProcessingRelayScope : Type 0 where
  pub tenant_id : String
  pub site_id : String
  pub capture_session_id : String
  pub processing_job_id : String
  pub profile_digest : String
  pub coordinator_subject : String
  pub camera_ids : List String
  pub workload_subject : String
  pub token_jti : String
  pub expires_at : ℤ

abbrev pub RelayCredential : Type 0
RelayCredential = Credential ProcessingRelayScope

-- `ProcessingRelayScope.matches_claim`
abbrev pub relay_matches : ProcessingRelayScope → Claim → Bool
relay_matches s claim =
    claim.tenant_id == some s.tenant_id
    && claim.site_id == some s.site_id
    && claim.capture_session_id == some s.capture_session_id
    && claim.processing_job_id == some s.processing_job_id
    && claim.profile_digest == some s.profile_digest
    && same_cameras claim.authorized_camera_ids s.camera_ids

-- `_required_text`
unfoldable pub stripped_claim : Value → String → Checked String
stripped_claim value claim_name = do
  s ← found_or (as_text value) (join "" (claim_name ∷ " must be non-empty" ∷ []))
  require (not (strip s == "")) (join "" (claim_name ∷ " must be non-empty" ∷ []))
  ok (strip s)

-- `_relay_scope_from_claims`
unfoldable pub relay_scope_from_claims : Platform → Fields → Checked ProcessingRelayScope
unfolding get_field cameras_claim digest_claim stripped_claim canonical_uuid int_claim
relay_scope_from_claims p claims = do
  require (is_text (get_field claims "credential_kind") "PROCESSING_RELAY")
      "credential_kind must be PROCESSING_RELAY"
  digest ← digest_claim (get_field claims "profile_digest")
  cameras ← cameras_claim p (get_field claims "camera_ids")
  expires_at ← int_claim (get_field claims "exp") "exp"
  tenant ← canonical_uuid p (get_field claims "tenant_id") "tenant_id"
  site ← canonical_uuid p (get_field claims "site_id") "site_id"
  capture ← canonical_uuid p (get_field claims "capture_session_id") "capture_session_id"
  job ← canonical_uuid p (get_field claims "processing_job_id") "processing_job_id"
  coordinator ← stripped_claim (get_field claims "coordinator_subject") "coordinator_subject"
  workload ← stripped_claim (get_field claims "sub") "sub"
  jti ← canonical_uuid p (get_field claims "jti") "jti"
  ok (record {
    tenant_id = tenant;
    site_id = site;
    capture_session_id = capture;
    processing_job_id = job;
    profile_digest = digest;
    coordinator_subject = coordinator;
    camera_ids = cameras;
    workload_subject = workload;
    token_jti = jti;
    expires_at = expires_at;
  })

-- `frozenset(value or [])`, as the values of its elements: `none` is a `TypeError`.
abbrev values_of : Values → List Value
values_of nil = []
values_of (item v vs) = v ∷ values_of vs

abbrev names_of : Fields → List Value
names_of end = []
names_of (field n v fs) = text n ∷ names_of fs

abbrev letters_of : String → List Value
letters_of Text.[] = []
letters_of (Text.◌∷◌ c s) = text (Text.◌∷◌ c Text.[]) ∷ letters_of s

abbrev all_elements : Value → Option (List Value)
all_elements (text s) = some (letters_of s)
all_elements (array vs) = some (values_of vs)
all_elements (object fs) = some (names_of fs)
all_elements null = none
all_elements (integer n) = none
all_elements (real r) = none
all_elements (boolean b) = none

abbrev elements : Value → Option (List Value)
elements value = if truth value then all_elements value else some []

abbrev pub same_elements : Option (List Value) → List String → Bool
same_elements none cameras = false
same_elements (some values) cameras =
    all (λ v. any (λ c. is_text v c) cameras) values
    && all (λ c. any (λ v. is_text v c) values) cameras

-- `_assert_response_matches_scope`
unfoldable pub response_matches : Option Fields → ProcessingRelayScope → Bool
unfolding get_field
response_matches none s = false
response_matches (some reply) s =
    is_text (get_field reply "credentialId") s.token_jti
    && is_text (get_field reply "captureSessionId") s.capture_session_id
    && is_text (get_field reply "processingJobId") s.processing_job_id
    && is_text (get_field reply "credentialKind") "PROCESSING_RELAY"
    && same_elements (elements (get_field reply "cameraIds")) s.camera_ids

-- `ProcessingRelayCredentialVerifier.verify`
unfoldable pub verify_relay :
    Platform
    → {Key : Type 0} → Jwt Key
    → Verifier Key
    → String
    → Moment
    → Verifier Key × Checked ProcessingRelayScope
unfolding verified_claims
verify_relay p jwt v token m =
    if token == ""
    then (v, refused "processing relay credential is required")
    else let (after, claims) =
        verified_claims jwt v token relay_required_claims
          "processing relay credential algorithm must be RS256"
          "processing relay credential validation failed" m in
      elim claims [
        | refused message ↦ (after, refused message)
        | ok fields ↦ elim (relay_scope_from_claims p fields) [
          | refused message ↦ (after, refused message)
          | ok scope ↦
              if is_at_most scope.expires_at m.now
              then (after, refused "processing relay credential is expired")
              else (after, ok scope)
        ]
      ]

-- ===== src/Session/Scopes.antt =====
-- `AuthorizedSessionScope`, `AuthorizedCameraIngestScope` and the functions that read them from the
-- claims of a token. `str(UUID(value))`, `none` where UUID raises, and `str.lower` are parameters.
use Prim.Native.Char.{code}
use Prim.Native.String as Text
use gc_image_stream.Prelude.{
  ℕ, suc, String, Bool, true, false, not, ◌&&◌, ◌||◌, Option, some, List, [], ◌∷◌, length, any, all,
  distinct, strip, join, leb, ◌==◌, nat_eq, string_eq, option_eq, ◌≡◌,
}
use gc_image_stream.Session.Values.{
  ℤ, Value, Values, nil, item, Fields, get_field, is_text, as_text, as_int, as_list, int_beq,
  Checked, ok, ◌>>=◌, ◌>>◌, require, found_or,
}

pub record Platform : Type 0 where
  pub uuid_text : String → Option String
  pub lower : String → String

-- The documented form of a UUID's text: it is lower case, and parsed again it is itself.
pub record IsPlatform (p : Platform) : Type 0 where
  pub uuid_again : (s n : String) → p.uuid_text s ≡ some n → p.uuid_text n ≡ some n
  pub uuid_lower : (s n : String) → p.uuid_text s ≡ some n → p.lower n ≡ n

pub record AuthorizedSessionScope : Type 0 where
  pub tenant_id : String
  pub site_id : String
  pub capture_session_id : String
  pub processing_job_id : String
  pub camera_ids : List String
  pub profile_digest : String
  pub authorized_subject : String
  pub token_jti : String
  pub expires_at : ℤ

pub record AuthorizedCameraIngestScope : Type 0 where
  pub tenant_id : String
  pub site_id : String
  pub capture_session_id : String
  pub processing_job_id : String
  pub profile_digest : String
  pub camera_claim_id : String
  pub camera_id : String
  pub device_id : String
  pub authorized_subject : String
  pub token_jti : String
  pub issued_at : ℤ
  pub expires_at : ℤ

-- `c in cameras`, and the equality of two frozensets.
abbrev pub has_camera : List String → String → Bool
has_camera cameras c = any (λ x. x == c) cameras

abbrev pub same_cameras : List String → List String → Bool
same_cameras a b = all (has_camera b) a && all (has_camera a) b

abbrev pub session_scope_beq : AuthorizedSessionScope → AuthorizedSessionScope → Bool
session_scope_beq a b =
    a.tenant_id == b.tenant_id
    && a.site_id == b.site_id
    && a.capture_session_id == b.capture_session_id
    && a.processing_job_id == b.processing_job_id
    && same_cameras a.camera_ids b.camera_ids
    && a.profile_digest == b.profile_digest
    && a.authorized_subject == b.authorized_subject
    && a.token_jti == b.token_jti
    && int_beq a.expires_at b.expires_at

abbrev pub camera_scope_beq : AuthorizedCameraIngestScope → AuthorizedCameraIngestScope → Bool
camera_scope_beq a b =
    a.tenant_id == b.tenant_id
    && a.site_id == b.site_id
    && a.capture_session_id == b.capture_session_id
    && a.processing_job_id == b.processing_job_id
    && a.profile_digest == b.profile_digest
    && a.camera_claim_id == b.camera_claim_id
    && a.camera_id == b.camera_id
    && a.device_id == b.device_id
    && a.authorized_subject == b.authorized_subject
    && a.token_jti == b.token_jti
    && int_beq a.issued_at b.issued_at
    && int_beq a.expires_at b.expires_at

-- The scope that a caller declares.
pub record DeclaredScope : Type 0 where
  pub tenant_id : Option String
  pub site_id : Option String
  pub capture_session_id : Option String
  pub processing_job_id : Option String
  pub profile_digest : Option String

-- `AuthorizedSessionScope.matches_declared_scope`
unfoldable pub session_matches_declared : AuthorizedSessionScope → DeclaredScope → String → Bool
session_matches_declared s declared camera_id =
    declared.tenant_id == some s.tenant_id
    && declared.site_id == some s.site_id
    && declared.capture_session_id == some s.capture_session_id
    && declared.processing_job_id == some s.processing_job_id
    && declared.profile_digest == some s.profile_digest
    && has_camera s.camera_ids camera_id

-- `AuthorizedCameraIngestScope.matches_declared_scope`
unfoldable pub camera_matches_declared :
    AuthorizedCameraIngestScope → DeclaredScope → String → Option String → Bool
camera_matches_declared s declared camera_id device_id =
    declared.tenant_id == some s.tenant_id
    && declared.site_id == some s.site_id
    && declared.capture_session_id == some s.capture_session_id
    && declared.processing_job_id == some s.processing_job_id
    && declared.profile_digest == some s.profile_digest
    && camera_id == s.camera_id
    && device_id == some s.device_id

-- A character of [0-9a-f], by its code point, and a text of them.
abbrev is_hex : ℕ → Bool
is_hex c = (leb 48 c && leb c 57) || (leb 97 c && leb c 102)

unfoldable pub all_hex : String → Bool
all_hex Text.[] = true
all_hex (Text.◌∷◌ c s) = is_hex (code c) && all_hex s

unfoldable pub text_length : String → ℕ
text_length Text.[] = 0
text_length (Text.◌∷◌ c s) = suc (text_length s)

-- `PROFILE_DIGEST_PATTERN.fullmatch`
abbrev pub is_digest : String → Bool
is_digest s = all_hex s && text_length s == 64

-- `_canonical_uuid`
unfoldable pub canonical_uuid : Platform → Value → String → Checked String
canonical_uuid p value claim_name = do
  s ← found_or (as_text value) (join "" (claim_name ∷ " must be a UUID string" ∷ []))
  n ← found_or (p.uuid_text s) (join "" (claim_name ∷ " must be a UUID string" ∷ []))
  require (n == p.lower s) (join "" (claim_name ∷ " must use canonical UUID form" ∷ []))
  ok n

-- `_required_text_claim`
unfoldable pub required_text_claim : Value → String → Checked String
required_text_claim value claim_name = do
  s ← found_or (as_text value) (join "" (claim_name ∷ " must be non-empty" ∷ []))
  require (not (strip s == "")) (join "" (claim_name ∷ " must be non-empty" ∷ []))
  require (s == strip s) (join "" (claim_name ∷ " must not contain outer whitespace" ∷ []))
  ok s

-- `profile_digest` of the claims.
unfoldable pub digest_claim : Value → Checked String
digest_claim value = do
  s ← found_or (as_text value) "profile_digest must be a lowercase SHA-256 digest"
  require (is_digest s) "profile_digest must be a lowercase SHA-256 digest"
  ok s

unfoldable pub canonical_uuids : Platform → Values → Checked (List String)
unfolding canonical_uuid
canonical_uuids p nil = ok []
canonical_uuids p (item value values) = do
  n ← canonical_uuid p value "camera_ids"
  ns ← canonical_uuids p values
  ok (n ∷ ns)

abbrev is_empty : Values → Bool
is_empty nil = true
is_empty (item v vs) = false

-- `camera_ids` of the claims, as the elements of the frozenset.
unfoldable pub cameras_claim : Platform → Value → Checked (List String)
unfolding canonical_uuids
cameras_claim p value = do
  values ← found_or (as_list value) "camera_ids must be a non-empty list"
  require (not (is_empty values)) "camera_ids must be a non-empty list"
  cameras ← canonical_uuids p values
  require (length (distinct cameras) == length cameras) "camera_ids must not contain duplicates"
  ok (distinct cameras)

unfoldable pub subject_claim : Value → Checked String
subject_claim value = do
  s ← found_or (as_text value) "sub must be non-empty"
  require (not (strip s == "")) "sub must be non-empty"
  ok (strip s)

unfoldable pub int_claim : Value → String → Checked ℤ
int_claim value claim_name =
    found_or (as_int value) (join "" (claim_name ∷ " must be an integer timestamp" ∷ []))

-- `_scope_from_claims`
unfoldable pub scope_from_claims : Platform → Fields → Checked AuthorizedSessionScope
unfolding get_field cameras_claim digest_claim subject_claim canonical_uuid int_claim
scope_from_claims p claims = do
  cameras ← cameras_claim p (get_field claims "camera_ids")
  digest ← digest_claim (get_field claims "profile_digest")
  subject ← subject_claim (get_field claims "sub")
  job ← canonical_uuid p (get_field claims "processing_job_id") "processing_job_id"
  jti ← canonical_uuid p (get_field claims "jti") "jti"
  require (jti == job) "jti must equal processing_job_id"
  require (is_text (get_field claims "mode") "LIVE") "session token mode must be LIVE"
  expires_at ← int_claim (get_field claims "exp") "exp"
  tenant ← canonical_uuid p (get_field claims "tenant_id") "tenant_id"
  site ← canonical_uuid p (get_field claims "site_id") "site_id"
  capture ← canonical_uuid p (get_field claims "capture_session_id") "capture_session_id"
  ok (record {
    tenant_id = tenant;
    site_id = site;
    capture_session_id = capture;
    processing_job_id = job;
    camera_ids = cameras;
    profile_digest = digest;
    authorized_subject = subject;
    token_jti = jti;
    expires_at = expires_at;
  })

-- `_camera_ingest_scope_from_claims`
unfoldable pub camera_ingest_scope_from_claims :
    Platform → Fields → Checked AuthorizedCameraIngestScope
unfolding get_field digest_claim required_text_claim canonical_uuid int_claim
camera_ingest_scope_from_claims p claims = do
  require (is_text (get_field claims "credential_kind") "CAMERA_INGEST")
      "credential_kind must be CAMERA_INGEST"
  digest ← digest_claim (get_field claims "profile_digest")
  subject ← required_text_claim (get_field claims "sub") "sub"
  device ← required_text_claim (get_field claims "device_id") "device_id"
  issued_at ← int_claim (get_field claims "iat") "iat"
  expires_at ← int_claim (get_field claims "exp") "exp"
  tenant ← canonical_uuid p (get_field claims "tenant_id") "tenant_id"
  site ← canonical_uuid p (get_field claims "site_id") "site_id"
  capture ← canonical_uuid p (get_field claims "capture_session_id") "capture_session_id"
  job ← canonical_uuid p (get_field claims "processing_job_id") "processing_job_id"
  claim ← canonical_uuid p (get_field claims "camera_claim_id") "camera_claim_id"
  camera ← canonical_uuid p (get_field claims "camera_id") "camera_id"
  jti ← canonical_uuid p (get_field claims "jti") "jti"
  ok (record {
    tenant_id = tenant;
    site_id = site;
    capture_session_id = capture;
    processing_job_id = job;
    profile_digest = digest;
    camera_claim_id = claim;
    camera_id = camera;
    device_id = device;
    authorized_subject = subject;
    token_jti = jti;
    issued_at = issued_at;
    expires_at = expires_at;
  })

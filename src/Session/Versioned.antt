-- ===== src/Session/Versioned.antt =====
-- `VersionedIngestCredentialVerifier` and `extract_bearer_token`.
use Prim.Native.Char.{code}
use Prim.Native.String as Text
use gc_image_stream.Prelude.{
  String, not, ◌||◌, Option, none, some, List, [], ◌∷◌, map, keep_if, strip, ◌==◌, string_eq,
  pair_eq, if◌then◌else◌, nat_eq,
}
use gc_image_stream.Session.Values.{Value, get_field, is_text, is_null, Checked, ok, refused}
use gc_image_stream.Session.Scopes.{Platform, AuthorizedSessionScope, AuthorizedCameraIngestScope}
use gc_image_stream.Session.Verifiers.{
  Jwt, Verifier, Moment, assert_session_scope_active, assert_camera_scope_active, verify_session,
  verify_camera,
}

pub data Scope : Type 0 where
  session_scope : AuthorizedSessionScope → Scope
  camera_scope : AuthorizedCameraIngestScope → Scope

abbrev pub as_scope {ℓ} : {S : Type ℓ} → (S → Scope) → Checked S → Checked Scope
as_scope f (ok s) = ok (f s)
as_scope f (refused message) = refused message

-- `VersionedIngestCredentialVerifier`
pub record Versioned (Key : Type 0) : Type 0 where
  pub legacy : Option (Verifier Key)
  pub camera_ingest : Option (Verifier Key)

module _ (p : Platform) {Key : Type 0} (jwt : Jwt Key) where
  unfoldable pub verify_kind :
      Versioned Key → String → Value → Moment → Versioned Key × Checked Scope
  unfolding verify_session verify_camera
  verify_kind v token kind m =
      if not (is_null kind)
      then elim v.camera_ingest [
        | none ↦ (v, refused "unsupported ingest credential kind")
        | some camera ↦
            if not (is_text kind "CAMERA_INGEST")
            then (v, refused "unsupported ingest credential kind")
            else let (after, scope) = verify_camera p jwt camera token m in
              (record v { camera_ingest = some after }, as_scope camera_scope scope)
      ]
      else elim v.legacy [
        | none ↦ (v, refused "legacy session credential is disabled")
        | some legacy ↦
            let (after, scope) = verify_session p jwt legacy token m in
            (record v { legacy = some after }, as_scope session_scope scope)
      ]

  unfoldable pub verify : Versioned Key → String → Moment → Versioned Key × Checked Scope
  unfolding get_field verify_kind
  verify v token m = elim (jwt.decode_unverified token) [
    | none ↦ (v, refused "ingest credential is malformed")
    | some unverified ↦ verify_kind v token (get_field unverified "credential_kind") m
  ]

-- `assert_active`
unfoldable pub assert_active :
    {Key : Type 0} → Versioned Key → Scope → Moment → Versioned Key × Checked (Unit {0})
unfolding assert_session_scope_active assert_camera_scope_active
assert_active v (camera_scope scope) m = elim v.camera_ingest [
  | none ↦ (v, refused "camera ingest credential is disabled")
  | some camera ↦
      let (after, said) = assert_camera_scope_active camera scope m in
      (record v { camera_ingest = some after }, said)
]
assert_active v (session_scope scope) m = elim v.legacy [
  | none ↦ (v, refused "legacy session credential is disabled")
  | some legacy ↦
      let (after, said) = assert_session_scope_active legacy scope m in
      (record v { legacy = some after }, said)
]

-- `value.partition(" ")`, without the separator: `none` where there is none.
unfoldable pub partition_space : String → Option (String × String)
partition_space Text.[] = none
partition_space (Text.◌∷◌ c s) =
    let rest = partition_space s in
    if code c == 32
    then some ("", s)
    else elim rest [ none ↦ none | some parts ↦ some (Text.◌∷◌ c parts.0, parts.1) ]

abbrev bearer_of : Platform → Option (String × String) → Checked String
bearer_of p none = refused "authorization must use Bearer credentials"
bearer_of p (some (scheme, token)) =
    if not (p.lower scheme == "bearer") || strip token == ""
    then refused "authorization must use Bearer credentials"
    else ok (strip token)

abbrev single_value : Platform → List String → Checked String
single_value p [] = refused "exactly one authorization value is required"
single_value p (value ∷ []) = bearer_of p (partition_space value)
single_value p (value ∷ other ∷ values) = refused "exactly one authorization value is required"

-- `extract_bearer_token`; the metadata is `none` where the context has none.
unfoldable pub extract_bearer_token : Platform → Option (List (String × String)) → Checked String
unfolding partition_space strip
extract_bearer_token p none = refused "authorization metadata is required"
extract_bearer_token p (some metadata) =
    single_value p
      (map (λ e. e.1) (keep_if (λ (e : String × String). p.lower e.0 == "authorization") metadata))

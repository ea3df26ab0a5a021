-- ===== src/Session/Authorized.antt =====
-- What `VersionedIngestCredentialVerifier.verify` returns.
use gc_image_stream.Prelude.{
  String, ◌≡◌, refl, ap, subst, false, true, Bool-cases, some, Option-cases, inl, inr,
}
use gc_image_stream.Session.Values.{
  Value, Fields, get_field, is_text, is_null, Checked, ok, refused, ok_inj, refused-ne-ok,
}
use gc_image_stream.Session.Scopes.{Platform, IsPlatform, scope_from_claims}
use gc_image_stream.Session.WellFormed.{IsSessionScope}
use gc_image_stream.Session.Said.{IsUnexpired}
use gc_image_stream.Session.Verifiers.{
  Jwt, Verifier, Moment, legacy_required_claims, verify_session, verify_camera,
}
use gc_image_stream.Session.Versioned.{
  Scope, session_scope, camera_scope, Versioned, as_scope, verify_kind, verify,
}
use gc_image_stream.Session.Verified.{IsSigned}
use gc_image_stream.Session.Active.{IsJobActive, verify_session_sound}
use gc_image_stream.Session.ActiveCamera.{IsVerifiedCamera, verify_camera_sound}

-- The scope inside a scope of either kind.
as_scope-ok :
    {S : Type 0} (f : S → Scope) (c : Checked S) {scope : Scope}
    → as_scope f c ≡ ok scope
    → (s : S) × (c ≡ ok s) × (f s ≡ scope)
as_scope-ok f (ok s) h = (s, refl, ok_inj h)
as_scope-ok f (refused m) h = absurd (refused-ne-ok h)

module _ (p : Platform) {Key : Type 0} (jwt : Jwt Key) where
  -- The session scope is vouched for by the legacy verifier, the camera scope by the camera verifier;
  -- the kind of the credential is the one that this verifier takes.
  abbrev pub IsAuthorized : Versioned Key → String → Value → Moment → Versioned Key → Scope → Type 0
  IsAuthorized v token kind m after (session_scope scope) =
      (is_null kind ≡ true)
      × (legacy : Verifier Key) × (left : Verifier Key) × (v.legacy ≡ some legacy)
      × (record v { legacy = some left } ≡ after)
      × (claims : Fields) × IsSigned jwt left token legacy_required_claims claims
      × (scope_from_claims p claims ≡ ok scope)
      × IsSessionScope p scope
      × IsUnexpired scope.expires_at m.now
      × IsJobActive legacy.status_cache scope.processing_job_id m
  IsAuthorized v token kind m after (camera_scope scope) =
      (is_text kind "CAMERA_INGEST" ≡ true)
      × (camera : Verifier Key) × (left : Verifier Key) × (v.camera_ingest ≡ some camera)
      × (record v { camera_ingest = some left } ≡ after)
      × IsVerifiedCamera p jwt camera token m left scope

  module _ (documented : IsPlatform p) (v : Versioned Key) (token : String) (m : Moment) where
    legacy_kind-IsAuthorized :
        (kind : Value) {after : Versioned Key} {scope : Scope}
        → is_null kind ≡ true
        → verify_kind p jwt v token kind m ≡ (after, ok scope)
        → IsAuthorized v token kind m after scope
    unfolding verify_kind
    legacy_kind-IsAuthorized kind {after} {scope} null h = elim (Option-cases v.legacy) [
      | inl e ↦ absurd (refused-ne-ok (ap (λ r. r.1) (rw (verify_kind, null, e) at h)))
      | inr (legacy, e) ↦
          let said = verify_session p jwt legacy token m in
          let same : (record v { legacy = some said.0 }, as_scope session_scope said.1)
              ≡ (after, ok scope) =
            rw (verify_kind, null, e) at h in
          let (s, good, is) = as_scope-ok session_scope said.1 (ap (λ r. r.1) same) in
          let (claims, signed, read, formed, live, job) =
            verify_session_sound p documented jwt legacy token m (ap (λ c. (said.0, c)) good) in
          subst (IsAuthorized v token kind m after) is
            (null, legacy, said.0, e, ap (λ r. r.0) same, claims, signed, read, formed, live, job)
    ]

    camera_kind-IsAuthorized :
        (kind : Value) {after : Versioned Key} {scope : Scope}
        → is_null kind ≡ false
        → verify_kind p jwt v token kind m ≡ (after, ok scope)
        → IsAuthorized v token kind m after scope
    unfolding verify_kind
    camera_kind-IsAuthorized kind {after} {scope} given h = elim (Option-cases v.camera_ingest) [
      | inl e ↦ absurd (refused-ne-ok (ap (λ r. r.1) (rw (verify_kind, given, e) at h)))
      | inr (camera, e) ↦ elim (Bool-cases (is_text kind "CAMERA_INGEST")) [
        | inr n ↦ absurd (refused-ne-ok (ap (λ r. r.1) (rw (verify_kind, given, e, n) at h)))
        | inl t ↦
            let said = verify_camera p jwt camera token m in
            let same : (record v { camera_ingest = some said.0 }, as_scope camera_scope said.1)
                ≡ (after, ok scope) =
              rw (verify_kind, given, e, t) at h in
            let (s, good, is) = as_scope-ok camera_scope said.1 (ap (λ r. r.1) same) in
            subst (IsAuthorized v token kind m after) is (
              t,
              camera,
              said.0,
              e,
              ap (λ r. r.0) same,
              verify_camera_sound p documented jwt camera token m (ap (λ c. (said.0, c)) good),
            )
      ]
    ]

    -- The scope that `verify` returns is of the kind that the token names, and the verifier of this kind
    -- vouches for it: the token is signed by a key of this verifier, the scope is well formed and not
    -- expired, and its job, and its credential where it is of a camera, count as active. Condition: the
    -- text of a UUID has its documented form.
    pub verify-IsAuthorized :
        {after : Versioned Key} {scope : Scope}
        → verify p jwt v token m ≡ (after, ok scope)
        → (unverified : Fields) × (jwt.decode_unverified token ≡ some unverified)
          × IsAuthorized v token (get_field unverified "credential_kind") m after scope
    unfolding verify
    verify-IsAuthorized {after} {scope} h = elim (Option-cases (jwt.decode_unverified token)) [
      | inl e ↦ absurd (refused-ne-ok (ap (λ r. r.1) (rw (verify, e) at h)))
      | inr (unverified, e) ↦
          let kind = get_field unverified "credential_kind" in
          let same : verify_kind p jwt v token kind m ≡ (after, ok scope) = rw (verify, e) at h in
          (
            unverified,
            e,
            elim (Bool-cases (is_null kind)) [
              | inl null ↦ legacy_kind-IsAuthorized kind null same
              | inr given ↦ camera_kind-IsAuthorized kind given same
            ],
          )
    ]

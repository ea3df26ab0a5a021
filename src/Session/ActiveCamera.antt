-- ===== src/Session/ActiveCamera.antt =====
-- The scopes that `CameraIngestCredentialVerifier.verify` returns.
use gc_image_stream.Prelude.{
  String, ◌≡◌, refl, sym, ap, ◌∙◌, subst, Option, none, some, Bool-cases, Option-cases, ◌==◌,
  string_eq, pair_eq, inl, inr,
}
use gc_image_stream.Session.Values.{Fields, is_at_most, ok, refused-ne-ok, Checked-cases}
use gc_image_stream.Session.Scopes.{
  Platform, IsPlatform, AuthorizedCameraIngestScope, camera_ingest_scope_from_claims,
}
use gc_image_stream.Session.WellFormed.{
  IsCameraScope, camera_ingest_scope_from_claims-IsCameraScope,
}
use gc_image_stream.Session.Status.{CredentialStatusCache, assert_credential_active}
use gc_image_stream.Session.Cached.{IsSaidActive, assert_credential_active-fails_closed}
use gc_image_stream.Session.Said.{IsUnexpired, at_most-IsUnexpired}
use gc_image_stream.Session.Verifiers.{
  Jwt, Verifier, Moment, camera_ingest_required_claims, verified_claims, check_session,
  check_credential_status, assert_camera_scope_active, verify_camera,
}
use gc_image_stream.Session.Verified.{IsSigned, verified_claims-IsSigned}
use gc_image_stream.Session.Active.{IsJobActive, check_session-ok, active_scope-ok}

-- Why a camera credential counts as active.
abbrev pub IsCredentialActive : Option CredentialStatusCache → String → String → Moment → Type 0
IsCredentialActive none credential job m = Unit
IsCredentialActive (some c) credential job m =
    IsSaidActive c credential job m.credential_time m.fetch_credential

passed-IsSaidActive :
    (c : CredentialStatusCache) (credential job : String) (m : Moment)
    → (assert_credential_active c credential job m.credential_time m.fetch_credential).1 ≡ ok tt
    → IsSaidActive c credential job m.credential_time m.fetch_credential
passed-IsSaidActive c credential job m h =
    elim (assert_credential_active-fails_closed c credential job m.credential_time
      m.fetch_credential) [
        | inl passed ↦ passed.1
        | inr (w, e, unsaid, left) ↦ absurd (refused-ne-ok (sym e ∙ h))
      ]

module _ {Key : Type 0} where
  -- Nothing but the status caches differs.
  abbrev KeepsOthers : Verifier Key → Verifier Key → Type 0
  KeepsOthers v w = w ≡ record v {
    status_cache = w.status_cache;
    credential_status_cache = w.credential_status_cache;
  }

  check_credential-ok :
      (v : Verifier Key) (credential job : String) (m : Moment) {after : Verifier Key}
      → check_credential_status v credential job m ≡ (after, ok tt)
      → IsCredentialActive v.credential_status_cache credential job m × KeepsOthers v after
  unfolding check_credential_status
  check_credential-ok v credential job m {after} h = elim (Option-cases v.credential_status_cache) [
    | inl e ↦
        let same : (v, ok tt) ≡ (after, ok tt) = rw (check_credential_status, e) at h in
        (rw e tt, subst (KeepsOthers v) (ap (λ r. r.0) same) refl)
    | inr (c, e) ↦
        let said = assert_credential_active c credential job m.credential_time m.fetch_credential in
        let same : (record v { credential_status_cache = some said.0 }, said.1) ≡ (after, ok tt) =
          rw (check_credential_status, e) at h in
        (
          rw e (passed-IsSaidActive c credential job m (ap (λ r. r.1) same)),
          subst (KeepsOthers v) (ap (λ r. r.0) same) refl,
        )
  ]

  camera_active-ok :
      (v : Verifier Key) (scope : AuthorizedCameraIngestScope) (m : Moment) {after : Verifier Key}
      → assert_camera_scope_active v scope m ≡ (after, ok tt)
      → IsUnexpired scope.expires_at m.now
        × IsJobActive v.status_cache scope.processing_job_id m
        × IsCredentialActive v.credential_status_cache scope.token_jti scope.processing_job_id m
        × KeepsOthers v after
  unfolding assert_camera_scope_active
  camera_active-ok v scope m {after} h = elim (Bool-cases (is_at_most scope.expires_at m.now)) [
    | inl e ↦ absurd (refused-ne-ok (ap (λ r. r.1) (rw (assert_camera_scope_active, e) at h)))
    | inr e ↦
        let job = check_session v scope.processing_job_id m in
        elim (Checked-cases job.1) [
          | inr (w, s) ↦
              absurd (refused-ne-ok (ap (λ r. r.1) (rw (assert_camera_scope_active, e, s) at h)))
          | inl (u, s) ↦
              let (active, kept) =
                check_session-ok v scope.processing_job_id m (ap (λ c. (job.0, c)) s) in
              let (said, left) =
                check_credential-ok job.0 scope.token_jti scope.processing_job_id m
                  (rw (assert_camera_scope_active, e, s) at h) in
              (
                at_most-IsUnexpired scope.expires_at m.now e,
                active,
                subst
                    (λ (w : Verifier Key).
                      IsCredentialActive w.credential_status_cache scope.token_jti
                        scope.processing_job_id m)
                    kept said,
                subst (λ w. KeepsOthers w after) kept left,
              )
        ]
  ]

-- What a camera scope that `verify` returns is, at the moment of the call.
pub record IsVerifiedCamera (p : Platform) {Key : Type 0} (jwt : Jwt Key) (v : Verifier Key)
    (token : String) (m : Moment) (after : Verifier Key) (scope : AuthorizedCameraIngestScope)
    : Type 0 where
  pub claims : Fields
  pub signed : IsSigned jwt after token camera_ingest_required_claims claims
  pub read : camera_ingest_scope_from_claims p claims ≡ ok scope
  pub formed : IsCameraScope p scope
  pub live : IsUnexpired scope.expires_at m.now
  pub job : IsJobActive v.status_cache scope.processing_job_id m
  pub credential :
      IsCredentialActive v.credential_status_cache scope.token_jti scope.processing_job_id m

-- A camera scope that `verify` returns is read from the claims of a token that `jwt.decode` accepts as
-- signed with RS256 by a key of the cache; it is well formed, it has not expired, and its processing
-- job and its credential count as active. Condition: the text of a UUID has its documented form.
pub verify_camera_sound :
    (p : Platform) (documented : IsPlatform p) {Key : Type 0} (jwt : Jwt Key) (v : Verifier Key)
    (token : String) (m : Moment) {after : Verifier Key} {scope : AuthorizedCameraIngestScope}
    → verify_camera p jwt v token m ≡ (after, ok scope)
    → IsVerifiedCamera p jwt v token m after scope
unfolding verify_camera
verify_camera_sound p documented jwt v token m {after} {scope} h = elim (Bool-cases (token == "")) [
  | inl t ↦ absurd (refused-ne-ok (ap (λ r. r.1) (rw (verify_camera, t) at h)))
  | inr t ↦
      let checked =
        verified_claims jwt v token camera_ingest_required_claims
          "camera ingest credential algorithm must be RS256"
          "camera ingest credential validation failed" m in
      elim (Checked-cases checked.1) [
        | inr (w, e) ↦ absurd (refused-ne-ok (ap (λ r. r.1) (rw (verify_camera, t, e) at h)))
        | inl (claims, e) ↦ elim (Checked-cases (camera_ingest_scope_from_claims p claims)) [
          | inr (w, s) ↦ absurd (refused-ne-ok (ap (λ r. r.1) (rw (verify_camera, t, e, s) at h)))
          | inl (read, s) ↦
              let (passed, same) =
                active_scope-ok (assert_camera_scope_active checked.0 read m) read
                  (rw (verify_camera, t, e, s) at h) in
              let (live, active, said, kept) = camera_active-ok checked.0 read m passed in
              let (signed, caches) =
                verified_claims-IsSigned jwt v token camera_ingest_required_claims
                  "camera ingest credential algorithm must be RS256"
                  "camera ingest credential validation failed" m (ap (λ c. (checked.0, c)) e) in
              subst (IsVerifiedCamera p jwt v token m after) same (record {
                claims = claims;
                signed =
                    subst (λ w. IsSigned jwt w token camera_ingest_required_claims claims)
                      (sym kept) signed;
                read = s;
                formed = camera_ingest_scope_from_claims-IsCameraScope p documented claims s;
                live = live;
                job = subst (λ o. IsJobActive o read.processing_job_id m) caches.0 active;
                credential =
                    subst (λ o. IsCredentialActive o read.token_jti read.processing_job_id m)
                      caches.1 said;
              })
        ]
      ]
]

-- ===== src/Session/Active.antt =====
-- What `assert_active` of a verifier finds, and the scopes that `verify` returns.
use gc_image_stream.Prelude.{
  String, ◌≡◌, ◌⊎◌, refl, sym, ap, subst, Option, none, some, Bool-cases, Option-cases, ◌==◌,
  string_eq, inl, inr,
}
use gc_image_stream.Session.Values.{
  Value, Fields, as_object, is_at_most, Checked, ok, refused, refused-ne-ok, ok_inj, Checked-cases,
}
use gc_image_stream.Session.Keyed.{get}
use gc_image_stream.Session.Scopes.{Platform, IsPlatform, AuthorizedSessionScope, scope_from_claims}
use gc_image_stream.Session.WellFormed.{IsSessionScope, scope_from_claims-IsSessionScope}
use gc_image_stream.Session.Status.{
  SessionStatusCache, is_after, says_session, assert_session_active,
}
use gc_image_stream.Session.Said.{
  IsUnexpired, at_most-IsUnexpired, IsKept, SaysJob, is_after-IsKept, says_session-SaysJob,
}
use gc_image_stream.Session.Verifiers.{
  Jwt, Verifier, Moment, legacy_required_claims, verified_claims, check_session,
  assert_session_scope_active, active_scope, verify_session,
}
use gc_image_stream.Session.Verified.{IsSigned, verified_claims-IsSigned}

-- Why a processing job counts as active: no status is asked for, a positive result is not yet stale, or
-- the main service replies that the job is known and active.
abbrev pub IsJobActive : Option SessionStatusCache → String → Moment → Type 0
IsJobActive none job m = Unit
IsJobActive (some c) job m =
    IsKept (get c.active_until job) m.status_time
    ⊎ ((payload : Value) × (m.fetch_session job ≡ some payload) × SaysJob payload job)

assert_session_active-ok :
    (c : SessionStatusCache) (job : String) (m : Moment)
    → (assert_session_active c job m.status_time m.fetch_session).1 ≡ ok tt
    → IsJobActive (some c) job m
unfolding assert_session_active
assert_session_active-ok c job m h =
    elim (Bool-cases (is_after (get c.active_until job) m.status_time)) [
      | inl e ↦ inl (is_after-IsKept _ _ e)
      | inr e ↦ elim (Option-cases (m.fetch_session job)) [
        | inl f ↦ absurd (refused-ne-ok (rw (assert_session_active, e, f) at h))
        | inr (payload, f) ↦ elim (Bool-cases (says_session (as_object payload) job)) [
          | inr s ↦ absurd (refused-ne-ok (rw (assert_session_active, e, f, s) at h))
          | inl s ↦ inr (payload, f, says_session-SaysJob payload job s)
        ]
      ]
    ]

module _ {Key : Type 0} where
  -- Nothing but the status cache of the processing jobs differs.
  abbrev pub KeepsKeys : Verifier Key → Verifier Key → Type 0
  KeepsKeys v w = w ≡ record v { status_cache = w.status_cache }

  pub check_session-ok :
      (v : Verifier Key) (job : String) (m : Moment) {after : Verifier Key}
      → check_session v job m ≡ (after, ok tt)
      → IsJobActive v.status_cache job m × KeepsKeys v after
  unfolding check_session
  check_session-ok v job m {after} h = elim (Option-cases v.status_cache) [
    | inl e ↦
        let same : (v, ok tt) ≡ (after, ok tt) = rw (check_session, e) at h in
        (rw e tt, subst (KeepsKeys v) (ap (λ r. r.0) same) refl)
    | inr (c, e) ↦
        let said = assert_session_active c job m.status_time m.fetch_session in
        let same : (record v { status_cache = some said.0 }, said.1) ≡ (after, ok tt) =
          rw (check_session, e) at h in
        (
          rw e (assert_session_active-ok c job m (ap (λ r. r.1) same)),
          subst (KeepsKeys v) (ap (λ r. r.0) same) refl,
        )
  ]

  -- The verifier that is left, and the scope, of an `assert_active` that passes.
  pub active_scope-ok :
      {S : Type 0} (checked : Verifier Key × Checked (Unit {0})) (scope : S) {after : Verifier Key}
      {s : S}
      → active_scope checked scope ≡ (after, ok s)
      → (checked ≡ (after, ok tt)) × (scope ≡ s)
  active_scope-ok (v, refused m) scope h = absurd (refused-ne-ok (ap (λ r. r.1) h))
  active_scope-ok (v, ok tt) scope h = (ap (λ r. (r.0, ok tt)) h, ok_inj (ap (λ r. r.1) h))

  session_active-ok :
      (v : Verifier Key) (scope : AuthorizedSessionScope) (m : Moment) {after : Verifier Key}
      → assert_session_scope_active v scope m ≡ (after, ok tt)
      → IsUnexpired scope.expires_at m.now
        × IsJobActive v.status_cache scope.processing_job_id m
        × KeepsKeys v after
  unfolding assert_session_scope_active
  session_active-ok v scope m h = elim (Bool-cases (is_at_most scope.expires_at m.now)) [
    | inl e ↦ absurd (refused-ne-ok (ap (λ r. r.1) (rw (assert_session_scope_active, e) at h)))
    | inr e ↦
        let (active, kept) =
          check_session-ok v scope.processing_job_id m (rw (assert_session_scope_active, e) at h) in
        (at_most-IsUnexpired scope.expires_at m.now e, active, kept)
  ]

-- A session scope that `verify` returns is read from the claims of a token that `jwt.decode` accepts as
-- signed with RS256 by a key of the cache; it is well formed, it has not expired, and its processing
-- job counts as active. Condition: the text of a UUID has its documented form.
pub verify_session_sound :
    (p : Platform) (documented : IsPlatform p) {Key : Type 0} (jwt : Jwt Key) (v : Verifier Key)
    (token : String) (m : Moment) {after : Verifier Key} {scope : AuthorizedSessionScope}
    → verify_session p jwt v token m ≡ (after, ok scope)
    → (claims : Fields) × IsSigned jwt after token legacy_required_claims claims
      × (scope_from_claims p claims ≡ ok scope)
      × IsSessionScope p scope
      × IsUnexpired scope.expires_at m.now
      × IsJobActive v.status_cache scope.processing_job_id m
unfolding verify_session
verify_session_sound p documented jwt v token m {after} {scope} h =
    elim (Bool-cases (token == "")) [
      | inl t ↦ absurd (refused-ne-ok (ap (λ r. r.1) (rw (verify_session, t) at h)))
      | inr t ↦
          let checked =
            verified_claims jwt v token legacy_required_claims
              "session token algorithm must be RS256" "session token validation failed" m in
          elim (Checked-cases checked.1) [
            | inr (w, e) ↦ absurd (refused-ne-ok (ap (λ r. r.1) (rw (verify_session, t, e) at h)))
            | inl (claims, e) ↦ elim (Checked-cases (scope_from_claims p claims)) [
              | inr (w, s) ↦
                  absurd (refused-ne-ok (ap (λ r. r.1) (rw (verify_session, t, e, s) at h)))
              | inl (read, s) ↦
                  let (passed, same) =
                    active_scope-ok (assert_session_scope_active checked.0 read m) read
                      (rw (verify_session, t, e, s) at h) in
                  let (live, active, kept) = session_active-ok checked.0 read m passed in
                  let (signed, caches) =
                    verified_claims-IsSigned jwt v token legacy_required_claims
                      "session token algorithm must be RS256" "session token validation failed" m
                      (ap (λ c. (checked.0, c)) e) in
                  subst
                    (λ (x : AuthorizedSessionScope).
                      (claims : Fields) × IsSigned jwt after token legacy_required_claims claims
                      × (scope_from_claims p claims ≡ ok x)
                      × IsSessionScope p x
                      × IsUnexpired x.expires_at m.now
                      × IsJobActive v.status_cache x.processing_job_id m)
                    same
                    (
                      claims,
                      subst (λ w. IsSigned jwt w token legacy_required_claims claims) (sym kept)
                          signed,
                      s,
                      scope_from_claims-IsSessionScope p documented claims s,
                      live,
                      subst (λ o. IsJobActive o read.processing_job_id m) caches.0 active,
                    )
            ]
          ]
    ]

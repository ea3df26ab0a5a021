-- ===== src/Session/Registered.antt =====
-- What the stores of active credentials keep and return.
use gc_image_stream.Prelude.{
  ℕ, String, ◌≡◌, refl, sym, ap, ◌∙◌, true, false, none, some, arith, Bool-cases, Option-cases,
  none-ne-some, ◌==◌, string_eq, option_eq, pair_eq, eq_iff, inl, inr,
}
use gc_image_stream.Session.Values.{ℤ, pos, negsuc, int_ltb, is_at_most, ok, ok_inj, refused-ne-ok}
use gc_image_stream.Session.Keyed.{get, put, get-put, get-put_self}
use gc_image_stream.Session.Scopes.{AuthorizedCameraIngestScope}
use gc_image_stream.Session.Said.{IsUnexpired, at_most-IsUnexpired}
use gc_image_stream.Session.Agreement.{IsClaimOf, matches_claim-IsClaimOf}
use gc_image_stream.Session.Credentials.{
  SessionCredential, CameraCredential, SessionStore, CameraStore, Claim, matches_claim,
  check_credential, resolve_for_claim, replacement_error, camera_key, register_camera,
  resolve_camera,
}

-- What a registration of a camera credential that succeeds did.
record Registered (store : CameraStore) (token : String) (scope : AuthorizedCameraIngestScope)
    (now : ℕ) (after : CameraStore) : Type 0 where
  allowed : replacement_error (get store (camera_key scope)) scope ≡ none
  ended : after ≡ put store (camera_key scope) (record { token = token; scope = scope })

register-Registered :
    (store : CameraStore) (token : String) (scope : AuthorizedCameraIngestScope) (now : ℕ)
    {after : CameraStore} {c : CameraCredential}
    → register_camera store token scope now ≡ (after, ok c)
    → Registered store token scope now after
unfolding register_camera
register-Registered store token scope now h = elim (Bool-cases (token == "")) [
  | inl t ↦ absurd (refused-ne-ok (ap (λ r. r.1) (rw (register_camera, t) at h)))
  | inr t ↦ elim (Bool-cases (is_at_most scope.expires_at now)) [
    | inl e ↦ absurd (refused-ne-ok (ap (λ r. r.1) (rw (register_camera, t, e) at h)))
    | inr e ↦ elim (Option-cases (replacement_error (get store (camera_key scope)) scope)) [
      | inr (m, r) ↦ absurd (refused-ne-ok (ap (λ x. x.1) (rw (register_camera, t, e, r) at h)))
      | inl r ↦ record {
        allowed = r;
        ended = sym (ap (λ x. x.0) (rw (register_camera, t, e, r) at h));
      }
    ]
  ]
]

-- A credential of a camera that is registered is what its job and camera resolve to, at any later time
-- before it expires, and the lookup changes nothing.
pub register-resolve :
    (store : CameraStore) (token : String) (scope : AuthorizedCameraIngestScope) (now later : ℕ)
    {after : CameraStore} {c : CameraCredential}
    → register_camera store token scope now ≡ (after, ok c)
    → is_at_most scope.expires_at later ≡ false
    → resolve_camera after (scope.processing_job_id, scope.camera_id) later
      ≡ (after, ok (record { token = token; scope = scope }))
unfolding resolve_camera
register-resolve store token scope now later {after} h e =
    let r = register-Registered store token scope now h in
    let key = camera_key scope in
    let credential : CameraCredential = record { token = token; scope = scope } in
    let found : get after key ≡ some credential =
      ap (λ d. get d key) r.ended ∙ get-put_self store key credential in
    rw (resolve_camera, found, e) refl

-- The claim of the camera is the same, and the credential is not older.
abbrev pub Replaces : CameraCredential → CameraCredential → Type 0
Replaces new old =
    (new.scope.camera_claim_id ≡ old.scope.camera_claim_id)
    × (int_ltb new.scope.issued_at old.scope.issued_at ≡ false)

not_less : (a : ℤ) → int_ltb a a ≡ false
not_less (pos a) = ground arith
not_less (negsuc a) = ground arith

allowed-Replaces :
    (old : CameraCredential) (scope : AuthorizedCameraIngestScope) (token : String)
    → replacement_error (some old) scope ≡ none
    → Replaces (record { token = token; scope = scope }) old
allowed-Replaces old scope token h =
    elim (Bool-cases (old.scope.camera_claim_id == scope.camera_claim_id)) [
      | inr e ↦ absurd (none-ne-some (sym (rw e at h)))
      | inl e ↦ elim (Bool-cases (int_ltb scope.issued_at old.scope.issued_at)) [
        | inl o ↦ absurd (none-ne-some (sym (rw (e, o) at h)))
        | inr o ↦ (sym ((eq_iff _ _).0 e), o)
      ]
    ]

put-Replaces :
    (store : CameraStore) (key own : String × String) (new old : CameraCredential)
    → (get store own ≡ some old → Replaces new old)
    → get store key ≡ some old
    → (c : CameraCredential) × (get (put store own new) key ≡ some c) × Replaces c old
put-Replaces store key own new old f h = elim (Bool-cases (own == key)) [
  | inl e ↦
      let same : own ≡ key = (pair_eq.beq_iff own key).0 e in
      (new, rw (get-put store own key new, e) refl, f (rw same h))
  | inr e ↦ (old, rw (get-put store own key new, e) h, (refl, not_less old.scope.issued_at))
]

-- Whatever a registration of a camera credential returns, each job and camera that has an active
-- credential still has one, of the same camera claim and not issued earlier.
pub register_camera-Replaces :
    (store : CameraStore) (token : String) (scope : AuthorizedCameraIngestScope) (now : ℕ)
    (key : String × String) (old : CameraCredential)
    → get store key ≡ some old
    → (c : CameraCredential) × (get (register_camera store token scope now).0 key ≡ some c)
      × Replaces c old
unfolding register_camera
register_camera-Replaces store token scope now key old h =
    let stays : Replaces old old = (refl, not_less old.scope.issued_at) in
    elim (Bool-cases (token == "")) [
      | inl t ↦ rw (register_camera, t) (old, h, stays)
      | inr t ↦ elim (Bool-cases (is_at_most scope.expires_at now)) [
        | inl e ↦ rw (register_camera, t, e) (old, h, stays)
        | inr e ↦ elim (Option-cases (replacement_error (get store (camera_key scope)) scope)) [
          | inr (m, r) ↦ rw (register_camera, t, e, r) (old, h, stays)
          | inl r ↦
              rw (register_camera, t, e, r)
                (put-Replaces store key (camera_key scope) (record { token = token; scope = scope })
                  old (λ g. allowed-Replaces old scope token (rw g at r)) h)
        ]
      ]
    ]

-- What a session credential that is returned for a claim is.
abbrev pub IsActiveFor : SessionStore → Claim → ℕ → SessionCredential → Type 0
IsActiveFor store claim now c =
    (job : String) × (claim.processing_job_id ≡ some job)
    × (get store job ≡ some c)
    × IsUnexpired c.scope.expires_at now
    × IsClaimOf c.scope claim

check-IsActiveFor :
    (store : SessionStore) (job : String) (c : SessionCredential) (claim : Claim) (now : ℕ)
    {after : SessionStore} {d : SessionCredential}
    → check_credential store job c claim now ≡ (after, ok d)
    → (after ≡ store)
      × (d ≡ c)
      × (is_at_most c.scope.expires_at now ≡ false)
      × (matches_claim c.scope claim ≡ true)
check-IsActiveFor store job c claim now h = elim (Bool-cases (is_at_most c.scope.expires_at now)) [
  | inl e ↦ absurd (refused-ne-ok (ap (λ r. r.1) (rw e at h)))
  | inr e ↦ elim (Bool-cases (matches_claim c.scope claim)) [
    | inr m ↦ absurd (refused-ne-ok (ap (λ r. r.1) (rw (e, m) at h)))
    | inl m ↦
        (sym (ap (λ r. r.0) (rw (e, m) at h)), sym (ok_inj (ap (λ r. r.1) (rw (e, m) at h))), e, m)
  ]
]

-- A session credential that is returned for a claim is registered for the claim's job and is not expired;
-- the claim's tenant, site, session, job, profile, subject and token are its own, and the claim has the
-- same cameras. The store is as before.
pub resolve-IsActiveFor :
    (store : SessionStore) (claim : Claim) (now : ℕ) {after : SessionStore} {c : SessionCredential}
    → resolve_for_claim store claim now ≡ (after, ok c)
    → (after ≡ store) × IsActiveFor store claim now c
unfolding resolve_for_claim
resolve-IsActiveFor store claim now {c = found} h = elim (Option-cases claim.processing_job_id) [
  | inl e ↦ absurd (refused-ne-ok (ap (λ r. r.1) (rw (resolve_for_claim, e) at h)))
  | inr (job, e) ↦ elim (Bool-cases (job == "")) [
    | inl n ↦ absurd (refused-ne-ok (ap (λ r. r.1) (rw (resolve_for_claim, e, n) at h)))
    | inr n ↦ elim (Option-cases (get store job)) [
      | inl g ↦ absurd (refused-ne-ok (ap (λ r. r.1) (rw (resolve_for_claim, e, n, g) at h)))
      | inr (c, g) ↦
          let (kept, same, live, matching) =
            check-IsActiveFor store job c claim now (rw (resolve_for_claim, e, n, g) at h) in
          (
            kept,
            (
              job,
              e,
              g ∙ ap some (sym same),
              at_most-IsUnexpired found.scope.expires_at now
                  (ap (λ (d : SessionCredential). is_at_most d.scope.expires_at now) same ∙ live),
              matches_claim-IsClaimOf found.scope claim
                  (ap (λ (d : SessionCredential). matches_claim d.scope claim) same ∙ matching),
            ),
          )
    ]
  ]
]

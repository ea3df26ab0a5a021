-- ===== src/Session/Relayed.antt =====
-- The credentials that the relay gets for a claimed frame set.
use gc_image_stream.Prelude.{
  ℕ, ◌+◌, String, ◌≡◌, refl, sym, ap, ◌∙◌, subst, true, false, Option, some, arith, Bool-cases,
  Option-cases, ◌==◌, string_eq, option_eq, inl, inr,
}
use gc_image_stream.Session.Values.{
  ℤ, pos, negsuc, Value, is_at_most, ok, from_ok, require-ok, refused-ne-ok, ok_inj, Checked-cases,
  Checked, refused,
}
use gc_image_stream.Session.Keyed.{get, get-put_self}
use gc_image_stream.Session.Scopes.{Platform}
use gc_image_stream.Session.Said.{IsUnexpired, at_most-IsUnexpired}
use gc_image_stream.Session.Agreement.{IsRelayClaimOf, relay_matches-IsRelayClaimOf}
use gc_image_stream.Session.Credentials.{Claim}
use gc_image_stream.Session.Verifiers.{Jwt, Verifier, Moment, verified_claims}
use gc_image_stream.Session.RelayScopes.{
  ProcessingRelayScope, RelayCredential, relay_required_claims, relay_matches,
  relay_scope_from_claims, verify_relay,
}
use gc_image_stream.Session.RelayCredentials.{
  Provider, Issue, resolve_access_token, token_and_payload, accept_scope, verify_issued, issue,
  is_reusable, keep_issued, resolve_for_job, resolve_relay_for_claim,
}

-- The claim has what the credential grants, and the credential has not expired.
abbrev pub IsGood : RelayCredential → Claim → ℕ → Type 0
IsGood c claim now = IsRelayClaimOf c.scope claim × IsUnexpired c.scope.expires_at now

sooner : (e : ℤ) (now skew : ℕ) → is_at_most e (now + skew) ≡ false → is_at_most e now ≡ false
sooner (pos n) now skew h = ground arith
sooner (negsuc n) now skew h = h

verify_relay-live :
    (p : Platform) {Key : Type 0} (jwt : Jwt Key) (v : Verifier Key) (token : String) (m : Moment)
    {s : ProcessingRelayScope}
    → (verify_relay p jwt v token m).1 ≡ ok s
    → is_at_most s.expires_at m.now ≡ false
unfolding verify_relay
verify_relay-live p jwt v token m h = elim (Bool-cases (token == "")) [
  | inl t ↦ absurd (refused-ne-ok (rw (verify_relay, t) at h))
  | inr t ↦
      let checked =
        verified_claims jwt v token relay_required_claims
          "processing relay credential algorithm must be RS256"
          "processing relay credential validation failed" m in
      elim (Checked-cases checked.1) [
        | inr (w, e) ↦ absurd (refused-ne-ok (rw (verify_relay, t, e) at h))
        | inl (claims, e) ↦ elim (Checked-cases (relay_scope_from_claims p claims)) [
          | inr (w, r) ↦ absurd (refused-ne-ok (rw (verify_relay, t, e, r) at h))
          | inl (scope, r) ↦ elim (Bool-cases (is_at_most scope.expires_at m.now)) [
            | inl x ↦ absurd (refused-ne-ok (rw (verify_relay, t, e, r, x) at h))
            | inr x ↦
                subst (λ (s : ProcessingRelayScope). is_at_most s.expires_at m.now ≡ false)
                  (ok_inj (rw (verify_relay, t, e, r, x) at h)) x
          ]
        ]
      ]
]

accept_scope-IsGood :
    (payload : Value) (token : String) (s : ProcessingRelayScope) (claim : Claim) (now : ℕ)
    {c : RelayCredential}
    → is_at_most s.expires_at now ≡ false
    → accept_scope payload token s claim ≡ ok c
    → IsGood c claim now
unfolding accept_scope
accept_scope-IsGood payload token s claim now live h = from_ok _ _ h (λ u e1 h1.
    from_ok _ _ h1 (λ v e2 h2.
      subst (λ c. IsGood c claim now) (ok_inj h2)
        (
          relay_matches-IsRelayClaimOf s claim (require-ok _ _ e1),
          at_most-IsUnexpired s.expires_at now live,
        )))

module _ (p : Platform) {Key : Type 0} (jwt : Jwt Key) where
  verify_issued-IsGood :
      (v : Verifier Key) (issued : String × Value) (claim : Claim) (m : Moment)
      {c : RelayCredential}
      → (verify_issued p jwt v issued claim m).1 ≡ ok c
      → IsGood c claim m.now
  unfolding verify_issued
  verify_issued-IsGood v issued claim m h =
      elim (Checked-cases (verify_relay p jwt v issued.0 m).1) [
        | inr (w, e) ↦ absurd (refused-ne-ok (rw (verify_issued, e) at h))
        | inl (s, e) ↦
            accept_scope-IsGood issued.1 issued.0 s claim m.now
              (verify_relay-live p jwt v issued.0 m e) (rw (verify_issued, e) at h)
      ]

module _ (p : Platform) (seconds : Value → Option ℕ) {Key : Type 0} (jwt : Jwt Key) where
  issue-IsGood :
      (c : Provider Key) (claim : Claim) (job : String) (i : Issue) {credential : RelayCredential}
      → (issue p seconds jwt c claim job i).1 ≡ ok credential
      → IsGood credential claim i.moment.now
  unfolding issue
  issue-IsGood c claim job i h =
      let access = resolve_access_token seconds c.access_tokens i.token_time i.token_reply in
      elim (Checked-cases access.1) [
        | inr (w, e) ↦ absurd (refused-ne-ok (rw (issue, e) at h))
        | inl (token, e) ↦
            elim (Checked-cases (token_and_payload (i.post token claim.tenant_id job))) [
              | inr (w, r) ↦ absurd (refused-ne-ok (rw (issue, e, r) at h))
              | inl (issued, r) ↦
                  verify_issued-IsGood p jwt c.verifier issued claim i.moment
                    (rw (issue, e, r) at h)
            ]
      ]

  keep-IsGood :
      (issued : Provider Key × Checked RelayCredential) (job : String) (claim : Claim) (now : ℕ)
      {after : Provider Key} {credential : RelayCredential}
      → ((c : RelayCredential) → issued.1 ≡ ok c → IsGood c claim now)
      → keep_issued issued job ≡ (after, ok credential)
      → IsGood credential claim now × (get after.credentials job ≡ some credential)
  keep-IsGood (c, refused w) job claim now f h = absurd (refused-ne-ok (ap (λ r. r.1) h))
  keep-IsGood (c, ok new) job claim now {after} f h =
      let same = ok_inj (ap (λ r. r.1) h) in
      (
        subst (λ x. IsGood x claim now) same (f new refl),
        ap (λ (r : Provider Key × Checked RelayCredential). get r.0.credentials job) (sym h)
            ∙ get-put_self c.credentials job new
            ∙ ap some same,
      )

  job-IsGood :
      (c : Provider Key) (claim : Claim) (job : String) (i : Issue) {after : Provider Key}
      {credential : RelayCredential}
      → resolve_for_job p seconds jwt c claim job i ≡ (after, ok credential)
      → IsGood credential claim i.moment.now × (get after.credentials job ≡ some credential)
  unfolding resolve_for_job
  job-IsGood c claim job i {after} {credential} h =
      let until = i.moment.now + c.refresh_skew_sec in
      let new = issue p seconds jwt c claim job i in
      let good : (x : RelayCredential) → new.1 ≡ ok x → IsGood x claim i.moment.now =
        λ x e. issue-IsGood c claim job i e in
      elim (Option-cases (get c.credentials job)) [
        | inl g ↦ keep-IsGood new job claim i.moment.now good (rw (resolve_for_job, g) at h)
        | inr (old, g) ↦ elim (Bool-cases (is_reusable (some old) claim until)) [
          | inr r ↦ keep-IsGood new job claim i.moment.now good (rw (resolve_for_job, g, r) at h)
          | inl r ↦
              let live : is_at_most old.scope.expires_at until ≡ false = ground (arith, r) in
              let matching : relay_matches old.scope claim ≡ true = ground (arith, r) in
              let same : (c, ok old) ≡ (after, ok credential) = rw (resolve_for_job, g, r) at h in
              let is_old = ok_inj (ap (λ x. x.1) same) in
              (
                subst (λ x. IsGood x claim i.moment.now) is_old
                    (
                      relay_matches-IsRelayClaimOf old.scope claim matching,
                      at_most-IsUnexpired old.scope.expires_at i.moment.now
                          (sooner old.scope.expires_at i.moment.now c.refresh_skew_sec live),
                    ),
                ap (λ (x : Provider Key × Checked RelayCredential). get x.0.credentials job)
                      (sym same)
                    ∙ g
                    ∙ ap some is_old,
              )
        ]
      ]

-- A relay credential that is returned for a claim has not expired and is the one that is kept for the
-- claim's job; the claim's tenant, site, session, job and profile are its own, and the claim has the same
-- cameras.
pub resolve_relay-IsGood :
    (p : Platform) (seconds : Value → Option ℕ) {Key : Type 0} (jwt : Jwt Key) (c : Provider Key)
    (claim : Claim) (i : Issue) {after : Provider Key} {credential : RelayCredential}
    → resolve_relay_for_claim p seconds jwt c claim i ≡ (after, ok credential)
    → IsGood credential claim i.moment.now
      × (job : String) × (claim.processing_job_id ≡ some job)
      × (get after.credentials job ≡ some credential)
unfolding resolve_relay_for_claim
resolve_relay-IsGood p seconds jwt c claim i h = elim (Option-cases claim.processing_job_id) [
  | inl e ↦ absurd (refused-ne-ok (ap (λ r. r.1) (rw (resolve_relay_for_claim, e) at h)))
  | inr (job, e) ↦ elim (Bool-cases (job == "")) [
    | inl n ↦ absurd (refused-ne-ok (ap (λ r. r.1) (rw (resolve_relay_for_claim, e, n) at h)))
    | inr n ↦
        let (good, kept) =
          job-IsGood p seconds jwt c claim job i (rw (resolve_relay_for_claim, e, n) at h) in
        (good, job, e, kept)
  ]
]

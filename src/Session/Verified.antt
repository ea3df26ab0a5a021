-- ===== src/Session/Verified.antt =====
-- A scope that a verifier returns comes from a signed token, is well formed, not expired, and active.
use gc_image_stream.Prelude.{
  ℕ, String, ◌≡◌, refl, sym, ap, ◌∙◌, subst, true, Option, some, List, Bool-cases, Option-cases,
  ◌==◌, string_eq, inl, inr,
}
use gc_image_stream.Session.Values.{
  Fields, get_field, is_text, Checked, ok, refused-ne-ok, ok_inj, Checked-cases,
}
use gc_image_stream.Session.Keyed.{get}
use gc_image_stream.Session.Keys.{
  Fetched, is_due, KeyCache, resolve_key, refresh, look_up, key_or_error,
}
use gc_image_stream.Session.Verifiers.{Jwt, DecodeOptions, Verifier, Moment, verified_claims}

-- `jwt.decode` accepts the token as signed with RS256 by a key of the verifier's cache.
abbrev pub IsSigned :
    {Key : Type 0} → Jwt Key → Verifier Key → String → List String → Fields → Type 0
IsSigned {Key} jwt after token required claims =
    (header : Fields) × (key : Key) × (jwt.get_unverified_header token ≡ some header)
    × (is_text (get_field header "alg") "RS256" ≡ true)
    × (get after.key_cache.keys (jwt.text_or_empty (get_field header "kid")) ≡ some key)
    × (jwt.decode token (record {
      key = key;
      issuer = after.issuer;
      audience = after.audience;
      leeway_sec = after.leeway_sec;
      required = required;
    })
        ≡ some claims)

-- The status caches are the same.
abbrev pub SameCaches : {Key : Type 0} → Verifier Key → Verifier Key → Type 0
SameCaches w v =
    (w.status_cache ≡ v.status_cache) × (w.credential_status_cache ≡ v.credential_status_cache)

key_or_error-found :
    {Key : Type 0} (c : KeyCache Key) (kid : String) {after : KeyCache Key} {key : Key}
    → key_or_error c kid ≡ (after, ok key)
    → get after.keys kid ≡ some key
key_or_error-found c kid h = elim (Option-cases (get c.keys kid)) [
  | inl e ↦ absurd (refused-ne-ok (ap (λ r. r.1) (rw (key_or_error, e) at h)))
  | inr (k, e) ↦
      let same : (c, ok k) ≡ (_, ok _) = rw (key_or_error, e) at h in
      ap (λ (r : KeyCache _ × Checked _). get r.0.keys kid) (sym same)
      ∙ e
      ∙ ap some (ok_inj (ap (λ r. r.1) same))
]

module _ {Key : Type 0} (parse : Fields → Option Key) where
  look_up-found :
      (c : KeyCache Key) (kid : String) (later : ℕ) (refetched : Fetched) {after : KeyCache Key}
      {key : Key}
      → look_up parse c kid later refetched ≡ (after, ok key)
      → get after.keys kid ≡ some key
  unfolding look_up
  look_up-found c kid later refetched h = elim (Option-cases (get c.keys kid)) [
    | inr (k, e) ↦
        let same : (c, ok k) ≡ (_, ok _) = rw (look_up, e) at h in
        ap (λ (r : KeyCache Key × Checked Key). get r.0.keys kid) (sym same)
        ∙ e
        ∙ ap some (ok_inj (ap (λ r. r.1) same))
    | inl e ↦ elim (Checked-cases (refresh parse c refetched later).1) [
      | inr (m, r) ↦ absurd (refused-ne-ok (ap (λ x. x.1) (rw (look_up, e, r) at h)))
      | inl (u, r) ↦
          key_or_error-found (refresh parse c refetched later).0 kid (rw (look_up, e, r) at h)
    ]
  ]

  -- The key that `resolve` returns is in the cache that it leaves.
  pub resolve_key-found :
      (c : KeyCache Key) (kid : String) (now : ℕ) (fetched : Fetched) (later : ℕ)
      (refetched : Fetched) {after : KeyCache Key} {key : Key}
      → resolve_key parse c kid now fetched later refetched ≡ (after, ok key)
      → get after.keys kid ≡ some key
  unfolding resolve_key
  resolve_key-found c kid now fetched later refetched h = elim (Bool-cases (kid == "")) [
    | inl k ↦ absurd (refused-ne-ok (ap (λ x. x.1) (rw (resolve_key, k) at h)))
    | inr k ↦ elim (Bool-cases (is_due c now)) [
      | inr d ↦ look_up-found c kid later refetched (rw (resolve_key, k, d) at h)
      | inl d ↦ elim (Checked-cases (refresh parse c fetched now).1) [
        | inr (m, r) ↦ absurd (refused-ne-ok (ap (λ x. x.1) (rw (resolve_key, k, d, r) at h)))
        | inl (u, r) ↦
            look_up-found (refresh parse c fetched now).0 kid later refetched
              (rw (resolve_key, k, d, r) at h)
      ]
    ]
  ]

module _ {Key : Type 0} (jwt : Jwt Key) where
  -- The token is signed, with the key cache that is left, and the verifier differs in that alone.
  pub verified_claims-IsSigned :
      (v : Verifier Key) (token : String) (required : List String) (algorithm invalid : String)
      (m : Moment) {after : Verifier Key} {claims : Fields}
      → verified_claims jwt v token required algorithm invalid m ≡ (after, ok claims)
      → IsSigned jwt after token required claims × SameCaches after v
  unfolding verified_claims
  verified_claims-IsSigned v token required algorithm invalid m {after} {claims} h =
      elim (Option-cases (jwt.get_unverified_header token)) [
        | inl e ↦ absurd (refused-ne-ok (ap (λ r. r.1) (rw (verified_claims, e) at h)))
        | inr (header, e) ↦ elim (Bool-cases (is_text (get_field header "alg") "RS256")) [
          | inr a ↦ absurd (refused-ne-ok (ap (λ r. r.1) (rw (verified_claims, e, a) at h)))
          | inl a ↦
              let kid = jwt.text_or_empty (get_field header "kid") in
              let found =
                resolve_key jwt.parse_key v.key_cache kid m.key_time m.fetched_keys m.retry_time
                  m.refetched_keys in
              elim (Checked-cases found.1) [
                | inr (w, r) ↦
                    absurd (refused-ne-ok (ap (λ x. x.1) (rw (verified_claims, e, a, r) at h)))
                | inl (key, r) ↦
                    let options : DecodeOptions Key = record {
                      key = key;
                      issuer = v.issuer;
                      audience = v.audience;
                      leeway_sec = v.leeway_sec;
                      required = required;
                    } in
                    elim (Option-cases (jwt.decode token options)) [
                      | inl d ↦
                          absurd
                            (refused-ne-ok (ap (λ x. x.1) (rw (verified_claims, e, a, r, d) at h)))
                      | inr (fields, d) ↦
                          let same : (record v { key_cache = found.0 }, ok fields)
                              ≡ (after, ok claims) =
                            rw (verified_claims, e, a, r, d) at h in
                          let there : get found.0.keys kid ≡ some key =
                            resolve_key-found jwt.parse_key v.key_cache kid m.key_time
                              m.fetched_keys m.retry_time m.refetched_keys
                              (ap (λ x. (found.0, x)) r) in
                          let decoded : jwt.decode token options ≡ some claims =
                            d ∙ ap some (ok_inj (ap (λ x. x.1) same)) in
                          subst (λ w. IsSigned jwt w token required claims × SameCaches w v)
                            (ap (λ x. x.0) same) ((header, key, e, a, there, decoded), (refl, refl))
                    ]
              ]
        ]
      ]

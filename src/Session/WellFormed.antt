-- ===== src/Session/WellFormed.antt =====
-- The scopes that are read from the claims of a token are well formed.
use gc_image_stream.Prelude.{String, ◌≡◌, subst, true, some, List, nat_eq, string_eq, eq_iff, All}
use gc_image_stream.Prelude.Distinct.{IsDistinct, All-distinct, distinct-IsDistinct}
use gc_image_stream.Session.Values.{
  Value, Values, nil, item, Fields, ok, >>=-ok, from_ok, require-ok, found_or-ok, ok_inj,
}
use gc_image_stream.Session.Scopes.{
  Platform, IsPlatform, AuthorizedSessionScope, AuthorizedCameraIngestScope, is_digest,
  canonical_uuid, canonical_uuids, cameras_claim, digest_claim, scope_from_claims,
  camera_ingest_scope_from_claims,
}

-- A text that parses as a UUID and is the text of this UUID, in lower case.
abbrev pub IsCanonical : Platform → String → Type 0
IsCanonical p s = (p.uuid_text s ≡ some s) × (p.lower s ≡ s)

module _ (p : Platform) (documented : IsPlatform p) where
  canonical_uuid-IsCanonical :
      (value : Value) (name : String) {n : String}
      → canonical_uuid p value name ≡ ok n
      → IsCanonical p n
  unfolding canonical_uuid
  canonical_uuid-IsCanonical value name h =
      let (s, e, h1) = >>=-ok _ _ h in
      let (m, f, h2) = >>=-ok _ _ h1 in
      let (u, g, h3) = >>=-ok _ _ h2 in
      let parsed = found_or-ok _ _ f in
      subst (IsCanonical p) (ok_inj h3)
        (documented.uuid_again s m parsed, documented.uuid_lower s m parsed)

  canonical_uuids-IsCanonical :
      (values : Values) {ns : List String}
      → canonical_uuids p values ≡ ok ns
      → All (IsCanonical p) ns
  unfolding canonical_uuids
  canonical_uuids-IsCanonical nil h = subst (All (IsCanonical p)) (ok_inj h) tt
  canonical_uuids-IsCanonical (item value values) h =
      let (n, e, h1) = >>=-ok _ _ h in
      let (ns, f, h2) = >>=-ok _ _ h1 in
      subst (All (IsCanonical p)) (ok_inj h2)
        (canonical_uuid-IsCanonical value _ e, canonical_uuids-IsCanonical values f)

  cameras_claim-cameras :
      (value : Value) {cameras : List String}
      → cameras_claim p value ≡ ok cameras
      → All (IsCanonical p) cameras × IsDistinct cameras
  unfolding cameras_claim
  cameras_claim-cameras value h =
      let (values, e, h1) = >>=-ok _ _ h in
      let (u, f, h2) = >>=-ok _ _ h1 in
      let (ns, g, h3) = >>=-ok _ _ h2 in
      let (v, d, h4) = >>=-ok _ _ h3 in
      subst (λ cs. All (IsCanonical p) cs × IsDistinct cs) (ok_inj h4)
        (
          All-distinct (IsCanonical p) ns (canonical_uuids-IsCanonical values g),
          distinct-IsDistinct ns,
        )

digest_claim-is_digest :
    (value : Value) {s : String} → digest_claim value ≡ ok s → is_digest s ≡ true
unfolding digest_claim
digest_claim-is_digest value h =
    let (s, e, h1) = >>=-ok _ _ h in
    let (u, f, h2) = >>=-ok _ _ h1 in subst (λ x. is_digest x ≡ true) (ok_inj h2) (require-ok _ _ f)

-- A scope of a session: its identifiers are UUIDs in their canonical form, its cameras are distinct,
-- its digest has 64 hexadecimal digits, and the token is the job's.
pub record IsSessionScope (p : Platform) (s : AuthorizedSessionScope) : Type 0 where
  pub tenant : IsCanonical p s.tenant_id
  pub site : IsCanonical p s.site_id
  pub capture : IsCanonical p s.capture_session_id
  pub job : IsCanonical p s.processing_job_id
  pub cameras : All (IsCanonical p) s.camera_ids
  pub distinct_cameras : IsDistinct s.camera_ids
  pub digest : is_digest s.profile_digest ≡ true
  pub jti : s.token_jti ≡ s.processing_job_id

-- A scope of a camera.
pub record IsCameraScope (p : Platform) (s : AuthorizedCameraIngestScope) : Type 0 where
  pub tenant : IsCanonical p s.tenant_id
  pub site : IsCanonical p s.site_id
  pub capture : IsCanonical p s.capture_session_id
  pub job : IsCanonical p s.processing_job_id
  pub claim : IsCanonical p s.camera_claim_id
  pub camera : IsCanonical p s.camera_id
  pub jti : IsCanonical p s.token_jti
  pub digest : is_digest s.profile_digest ≡ true

-- The scope that is read from the claims of a session token is well formed. Condition: the text of a
-- UUID has its documented form.
pub scope_from_claims-IsSessionScope :
    (p : Platform) (documented : IsPlatform p) (claims : Fields) {s : AuthorizedSessionScope}
    → scope_from_claims p claims ≡ ok s
    → IsSessionScope p s
unfolding scope_from_claims
scope_from_claims-IsSessionScope p documented claims h = from_ok _ _ h (λ cameras e1 h1.
    from_ok _ _ h1 (λ digest e2 h2. from_ok _ _ h2 (λ subject e3 h3. from_ok _ _ h3 (λ job e4 h4.
      from_ok _ _ h4 (λ jti e5 h5. from_ok _ _ h5 (λ u e6 h6. from_ok _ _ h6 (λ v e7 h7.
        from_ok _ _ h7 (λ expires_at e8 h8. from_ok _ _ h8 (λ tenant e9 h9.
          from_ok _ _ h9 (λ site e10 h10. from_ok _ _ h10 (λ capture e11 h11.
            let (cams, dist) = cameras_claim-cameras p documented _ e1 in
            subst (IsSessionScope p) (ok_inj h11) (record {
              tenant = canonical_uuid-IsCanonical p documented _ _ e9;
              site = canonical_uuid-IsCanonical p documented _ _ e10;
              capture = canonical_uuid-IsCanonical p documented _ _ e11;
              job = canonical_uuid-IsCanonical p documented _ _ e4;
              cameras = cams;
              distinct_cameras = dist;
              digest = digest_claim-is_digest _ e2;
              jti = (eq_iff jti job).0 (require-ok _ _ e6);
            }))))))))))))

-- The scope that is read from the claims of a camera credential is well formed. Condition: the text
-- of a UUID has its documented form.
pub camera_ingest_scope_from_claims-IsCameraScope :
    (p : Platform) (documented : IsPlatform p) (claims : Fields) {s : AuthorizedCameraIngestScope}
    → camera_ingest_scope_from_claims p claims ≡ ok s
    → IsCameraScope p s
unfolding camera_ingest_scope_from_claims
camera_ingest_scope_from_claims-IsCameraScope p documented claims h = from_ok _ _ h (λ u e1 h1.
    from_ok _ _ h1 (λ digest e2 h2. from_ok _ _ h2 (λ subject e3 h3. from_ok _ _ h3 (λ device e4 h4.
      from_ok _ _ h4 (λ issued_at e5 h5. from_ok _ _ h5 (λ expires_at e6 h6.
        from_ok _ _ h6 (λ tenant e7 h7. from_ok _ _ h7 (λ site e8 h8.
          from_ok _ _ h8 (λ capture e9 h9. from_ok _ _ h9 (λ job e10 h10.
            from_ok _ _ h10 (λ claim e11 h11. from_ok _ _ h11 (λ camera e12 h12.
              from_ok _ _ h12 (λ jti e13 h13. subst (IsCameraScope p) (ok_inj h13) (record {
                tenant = canonical_uuid-IsCanonical p documented _ _ e7;
                site = canonical_uuid-IsCanonical p documented _ _ e8;
                capture = canonical_uuid-IsCanonical p documented _ _ e9;
                job = canonical_uuid-IsCanonical p documented _ _ e10;
                claim = canonical_uuid-IsCanonical p documented _ _ e11;
                camera = canonical_uuid-IsCanonical p documented _ _ e12;
                jti = canonical_uuid-IsCanonical p documented _ _ e13;
                digest = digest_claim-is_digest _ e2;
              }))))))))))))))

-- ===== src/Archive/Persisting.antt =====
-- What `persist_frame_set_manifest` did when it added a frame set, and that a second call changes
-- nothing.
use gc_image_stream.Prelude.{
  ℕ, String, ◌≡◌, refl, sym, ap, ◌∙◌, Bool, true, false, inl, inr, Option, none, some, List, [],
  ◌∷◌, ◌++◌, is_nil, truthy, arith, Bool-cases, Option-cases, none-ne-some, ◌==◌, nat_eq, string_eq,
  option_eq, eq_iff,
}
use gc_image_stream.Dict
use gc_image_stream.Dict.{has-put_self}
use gc_image_stream.Sync.Models.{SynchronizedFrameSet}
use gc_image_stream.Relay.LatestLive.Tables.{FrameSetManifest, manifest_of}
use gc_image_stream.Archive.Rows.{Archive, CaptureRun, column, members_of, manifest_row}
use gc_image_stream.Archive.Checks.{validate_v2_frame_set, is_same_manifest, missing}
use gc_image_stream.Archive.Store.{
  Outcome, done, integrity_error, value_error, or_now, roll_runs, conflicts, insert_frame_set,
  next_projections, newer_eligible_exists, persist_new, persist_again, persist_frame_set_manifest,
}

pub record Persisted (db : Archive) (fs : SynchronizedFrameSet) (t : ℕ) (after : Archive)
    : Type 0 where
  pub runs : List CaptureRun
  pub identity : (fs.identity_mode == "V2") ≡ true
  pub valid : validate_v2_frame_set fs ≡ none
  pub fresh : manifest_of db.live.manifests (column fs.frame_set_uid) ≡ none
  pub rolled : roll_runs db.runs fs t ≡ some runs
  pub free : conflicts db fs ≡ false
  pub ended : after ≡ insert_frame_set db fs runs t

done_inj : {a b : Bool} → done a ≡ done b → a ≡ b
done_inj h = cc

integrity_ne : {a : Bool} {m : String} → ¬ (integrity_error m ≡ done a)
integrity_ne h = cc

value_ne : {a : Bool} {m : String} → ¬ (◌≡◌ {A = Outcome Bool} (value_error m) (done a))
value_ne h = cc

new_cases :
    (db : Archive) (fs : SynchronizedFrameSet) (t : ℕ) {after : Archive}
    → persist_new db fs t ≡ (after, done true)
    → (runs : List CaptureRun) × (roll_runs db.runs fs t ≡ some runs)
      × (conflicts db fs ≡ false)
      × (after ≡ insert_frame_set db fs runs t)
unfolding persist_new
new_cases db fs t h = elim (Option-cases (roll_runs db.runs fs t)) [
  | inl e ↦ absurd (integrity_ne (ap (λ p. p.1) (rw (e, persist_new) at h)))
  | inr (runs, e) ↦ elim (Bool-cases (is_nil (members_of fs))) [
    | inl n ↦ absurd (value_ne (ap (λ p. p.1) (rw (e, persist_new, n) at h)))
    | inr n ↦ elim (Bool-cases (conflicts db fs)) [
      | inl c ↦ absurd (integrity_ne (ap (λ p. p.1) (rw (e, persist_new, n, c) at h)))
      | inr c ↦ (runs, e, c, sym (ap (λ p. p.0) (rw (e, persist_new, n, c) at h)))
    ]
  ]
]

false-ne-true : ¬ (done false ≡ done true)
false-ne-true h = cc

again_false :
    (db : Archive) (existing : FrameSetManifest) (fs : SynchronizedFrameSet) (now_ms : ℕ)
    {after : Archive}
    → ¬ (persist_again db existing fs now_ms ≡ (after, done true))
unfolding persist_again
again_false db existing fs now_ms h = elim (Bool-cases (is_same_manifest existing fs)) [
  | inr e ↦ integrity_ne (ap (λ p. p.1) (rw (persist_again, e) at h))
  | inl e ↦ elim (Bool-cases (Dict.has db.live.projections (column fs.frame_set_uid))) [
    | inl p ↦ false-ne-true (ap (λ p. p.1) (rw (persist_again, e, p) at h))
    | inr p ↦ false-ne-true (ap (λ p. p.1) (rw (persist_again, e, p) at h))
  ]
]

pub persist-Persisted :
    (db : Archive) (fs : SynchronizedFrameSet) (created_at_ms : Option ℕ) (now_ms : ℕ)
    {after : Archive}
    → persist_frame_set_manifest db fs created_at_ms now_ms ≡ (after, done true)
    → Persisted db fs (or_now created_at_ms now_ms) after
unfolding persist_frame_set_manifest
persist-Persisted db fs created_at_ms now_ms h = elim (Bool-cases (fs.identity_mode == "V2")) [
  | inr v ↦ absurd (false-ne-true (ap (λ p. p.1) (rw (persist_frame_set_manifest, v) at h)))
  | inl v ↦ elim (Option-cases (validate_v2_frame_set fs)) [
    | inr (m, e) ↦
        absurd (integrity_ne (ap (λ p. p.1) (rw (persist_frame_set_manifest, v, e) at h)))
    | inl e ↦ elim (Option-cases (manifest_of db.live.manifests (column fs.frame_set_uid))) [
      | inr (row, f) ↦
          absurd (again_false db row fs now_ms (rw (persist_frame_set_manifest, v, e, f) at h))
      | inl f ↦
          let (runs, rolled, free, ended) =
            new_cases db fs (or_now created_at_ms now_ms)
              (rw (persist_frame_set_manifest, v, e, f) at h) in
          record {
            runs = runs;
            identity = v;
            valid = e;
            fresh = f;
            rolled = rolled;
            free = free;
            ended = ended;
          }
    ]
  ]
]

-- The required columns of a frame set that was validated are texts that are not empty.
valid_columns :
    (fs : SynchronizedFrameSet)
    → validate_v2_frame_set fs ≡ none
    → (truthy fs.manifest_digest ≡ true) × (truthy fs.manifest_json ≡ true)
unfolding validate_v2_frame_set
valid_columns fs h = elim (Bool-cases (is_nil (missing fs))) [
  | inr e ↦ absurd (none-ne-some (sym (rw (validate_v2_frame_set, e) at h)))
  | inl e ↦ ground (arith, e)
]

column_of_truthy : (o : Option String) → truthy o ≡ true → some (column o) ≡ o
column_of_truthy none h = ground (arith, h)
column_of_truthy (some s) h = ground (arith, h)

option_refl : (o : Option String) → (o == o) ≡ true
option_refl o = (option_eq.beq_iff o o).1 refl

row-is_same_manifest :
    (fs : SynchronizedFrameSet) (t : ℕ)
    → validate_v2_frame_set fs ≡ none
    → is_same_manifest (manifest_row fs t) fs ≡ true
unfolding is_same_manifest manifest_row
row-is_same_manifest fs t h =
    let (digest, text) = valid_columns fs h in
    rw
      (
        column_of_truthy fs.manifest_digest digest,
        column_of_truthy fs.manifest_json text,
        option_refl fs.manifest_digest,
        option_refl fs.manifest_json,
        option_refl fs.tenant_id,
        option_refl fs.site_id,
        option_refl fs.processing_job_id,
        option_refl fs.profile_digest,
        option_refl fs.authorized_subject,
        option_refl fs.session_token_jti,
      )
      refl

next-has_projection :
    (db : Archive) (fs : SynchronizedFrameSet) (t : ℕ)
    → Dict.has (next_projections db fs t) (column fs.frame_set_uid) ≡ true
unfolding next_projections
next-has_projection db fs t =
    let uid = column fs.frame_set_uid in
    elim (Bool-cases (newer_eligible_exists db fs)) [
      | inl e ↦ rw (next_projections, e) (has-put_self _ uid _)
      | inr e ↦ rw (next_projections, e) (has-put_self _ uid _)
    ]

-- A call with a frame set whose manifest is there, has its content and has its projection.
again_same :
    (db : Archive) (fs : SynchronizedFrameSet) (created_at_ms : Option ℕ) (now_ms : ℕ)
    {row : FrameSetManifest}
    → (fs.identity_mode == "V2") ≡ true
    → validate_v2_frame_set fs ≡ none
    → manifest_of db.live.manifests (column fs.frame_set_uid) ≡ some row
    → is_same_manifest row fs ≡ true
    → Dict.has db.live.projections (column fs.frame_set_uid) ≡ true
    → persist_frame_set_manifest db fs created_at_ms now_ms ≡ (db, done false)
unfolding persist_frame_set_manifest persist_again
again_same db fs created_at_ms now_ms v e f s p =
    rw (persist_frame_set_manifest, v, e, f, persist_again, s, p) refl

pub manifest_of-append :
    (rows : List FrameSetManifest) (row : FrameSetManifest) (uid : String)
    → manifest_of rows uid ≡ none
    → (row.frame_set_uid == uid) ≡ true
    → manifest_of (rows ++ row ∷ []) uid ≡ some row
unfolding manifest_of
manifest_of-append [] row uid h k = rw k refl
manifest_of-append (r ∷ rows) row uid h k = elim (Bool-cases (r.frame_set_uid == uid)) [
  | inl e ↦ absurd (none-ne-some (sym (rw e at h)))
  | inr e ↦ rw e (manifest_of-append rows row uid (rw e at h) k)
]

-- A frame set that was added is found by its key, and another call with it, at whatever time, adds
-- nothing and changes nothing.
pub persist-twice :
    (db : Archive) (fs : SynchronizedFrameSet) (created_at_ms again_at_ms : Option ℕ)
    (now_ms later_ms : ℕ) {after : Archive}
    → persist_frame_set_manifest db fs created_at_ms now_ms ≡ (after, done true)
    → (manifest_of after.live.manifests (column fs.frame_set_uid)
        ≡ some (manifest_row fs (or_now created_at_ms now_ms)))
      × (persist_frame_set_manifest after fs again_at_ms later_ms ≡ (after, done false))
unfolding insert_frame_set manifest_row
persist-twice db fs created_at_ms again_at_ms now_ms later_ms {after} h =
    let t = or_now created_at_ms now_ms in
    let uid = column fs.frame_set_uid in
    let p = persist-Persisted db fs created_at_ms now_ms h in
    let found : manifest_of after.live.manifests uid ≡ some (manifest_row fs t) =
      ap (λ (a : Archive). manifest_of a.live.manifests uid) p.ended
      ∙ manifest_of-append db.live.manifests (manifest_row fs t) uid p.fresh
          ((eq_iff uid uid).1 refl) in
    let shown : Dict.has after.live.projections uid ≡ true =
      ap (λ (a : Archive). Dict.has a.live.projections uid) p.ended ∙ next-has_projection db fs t in
    (
      found,
      again_same after fs again_at_ms later_ms p.identity p.valid found
          (row-is_same_manifest fs t p.valid) shown,
    )

-- ===== src/Archive/Durable.antt =====
-- What `persist_frame_set_manifest` keeps of the archive, and which sessions and runs it leaves open.
use gc_image_stream.Prelude.{
  ℕ, String, ◌≡◌, refl, sym, subst, true, false, inl, inr, Option, some, List, [], ◌∷◌, ◌++◌, map,
  is_nil, Bool-cases, Option-cases, none-ne-some, some_inj, All, All-append, All-map, All_of_In,
  ◌==◌, ◌⊎◌, nat_eq, string_eq, option_eq, eq_iff,
}
use gc_image_stream.Dict
use gc_image_stream.Sync.Models.{SynchronizedFrameSet}
use gc_image_stream.Relay.LatestLive.Tables.{FrameSetManifest, manifest_of}
use gc_image_stream.Archive.Rows.{
  CaptureSession, CaptureRun, Archive, column, members_of, manifest_row,
}
use gc_image_stream.Archive.Checks.{validate_v2_frame_set, is_same_manifest}
use gc_image_stream.Archive.Store.{
  done, or_now, session_of, run_of, close_session, close_run, opened_session, opened_run,
  roll_sessions, roll_runs, conflicts, insert_frame_set, persist_new, persist_again,
  persist_frame_set_manifest,
}
use gc_image_stream.Archive.Persisting.{persist-Persisted}

append_keeps :
    (rows new : List FrameSetManifest) (uid : String) {m : FrameSetManifest}
    → manifest_of rows uid ≡ some m
    → manifest_of (rows ++ new) uid ≡ some m
unfolding manifest_of
append_keeps [] new uid h = absurd (none-ne-some h)
append_keeps (r ∷ rows) new uid h = elim (Bool-cases (r.frame_set_uid == uid)) [
  | inl e ↦ rw e (rw e at h)
  | inr e ↦ rw e (append_keeps rows new uid (rw e at h))
]

module _ (db : Archive) (fs : SynchronizedFrameSet) (uid : String) {m : FrameSetManifest}
    (h : manifest_of db.live.manifests uid ≡ some m) where
  new_keeps : (t : ℕ) → manifest_of (persist_new db fs t).0.live.manifests uid ≡ some m
  unfolding persist_new insert_frame_set
  new_keeps t = elim (Option-cases (roll_runs db.runs fs t)) [
    | inl e ↦ rw (persist_new, e) h
    | inr (runs, e) ↦ elim (Bool-cases (is_nil (members_of fs))) [
      | inl n ↦ rw (persist_new, e, n) h
      | inr n ↦ elim (Bool-cases (conflicts db fs)) [
        | inl c ↦ rw (persist_new, e, n, c) h
        | inr c ↦
            rw (persist_new, e, n, c)
              (append_keeps db.live.manifests (manifest_row fs t ∷ []) uid h)
      ]
    ]
  ]

  again_keeps :
      (existing : FrameSetManifest) (now_ms : ℕ)
      → manifest_of (persist_again db existing fs now_ms).0.live.manifests uid ≡ some m
  unfolding persist_again
  again_keeps existing now_ms = elim (Bool-cases (is_same_manifest existing fs)) [
    | inr e ↦ rw (persist_again, e) h
    | inl e ↦ elim (Bool-cases (Dict.has db.live.projections (column fs.frame_set_uid))) [
      | inl p ↦ rw (persist_again, e, p) h
      | inr p ↦ rw (persist_again, e, p) h
    ]
  ]

-- A call of `persist_frame_set_manifest`, whatever its frame set and its outcome, keeps every manifest
-- of the archive under its key, with all its columns.
pub persist-keeps :
    (db : Archive) (fs : SynchronizedFrameSet) (created_at_ms : Option ℕ) (now_ms : ℕ)
    (uid : String) {m : FrameSetManifest}
    → manifest_of db.live.manifests uid ≡ some m
    → manifest_of (persist_frame_set_manifest db fs created_at_ms now_ms).0.live.manifests uid
      ≡ some m
unfolding persist_frame_set_manifest
persist-keeps db fs created_at_ms now_ms uid h = elim (Bool-cases (fs.identity_mode == "V2")) [
  | inr v ↦ rw (persist_frame_set_manifest, v) h
  | inl v ↦ elim (Option-cases (validate_v2_frame_set fs)) [
    | inr (e, w) ↦ rw (persist_frame_set_manifest, v, w) h
    | inl w ↦ elim (Option-cases (manifest_of db.live.manifests (column fs.frame_set_uid))) [
      | inr (row, f) ↦ rw (persist_frame_set_manifest, v, w, f) (again_keeps db fs uid h row now_ms)
      | inl f ↦
          rw (persist_frame_set_manifest, v, w, f)
            (new_keeps db fs uid h (or_now created_at_ms now_ms))
    ]
  ]
]

-- Closed, or with the identifier.
abbrev pub IsOnlyOpen : String → String → String → Type 0
IsOnlyOpen id state own = (own ≡ id) ⊎ ((state == "OPEN") ≡ false)

closed_session :
    (id : String) (t : ℕ) (row : CaptureSession)
    → IsOnlyOpen id (close_session id t row).state (close_session id t row).id
closed_session id t row = elim (Bool-cases (row.state == "OPEN")) [
  | inr e ↦ rw e (inr e)
  | inl e ↦ elim (Bool-cases (row.id == id)) [
    | inl n ↦ rw (e, n) (inl ((eq_iff row.id id).0 n))
    | inr n ↦ rw (e, n) (inr refl)
  ]
]

closed_run :
    (id : String) (t : ℕ) (row : CaptureRun)
    → IsOnlyOpen id (close_run id t row).state (close_run id t row).id
closed_run id t row = elim (Bool-cases (row.state == "OPEN")) [
  | inr e ↦ rw e (inr e)
  | inl e ↦ elim (Bool-cases (row.id == id)) [
    | inl n ↦ rw (e, n) (inl ((eq_iff row.id id).0 n))
    | inr n ↦ rw (e, n) (inr refl)
  ]
]

sessions_open :
    (rows : List CaptureSession) (fs : SynchronizedFrameSet) (t : ℕ)
    → All
        (λ (row : CaptureSession). IsOnlyOpen (column fs.capture_session_id) row.state row.id)
        (roll_sessions rows fs t)
unfolding roll_sessions
sessions_open rows fs t =
    let id = column fs.capture_session_id in
    let P : CaptureSession → Type 0 = λ row. IsOnlyOpen id row.state row.id in
    let closed : All P (map (close_session id t) rows) =
      All-map P (close_session id t) rows
        (All_of_In (λ row. P (close_session id t row)) rows (λ row i. closed_session id t row)) in
    elim (Option-cases (session_of rows id)) [
      | inl e ↦
          rw (roll_sessions, e)
            (All-append P (map (close_session id t) rows) (opened_session fs t ∷ []) closed
              (inl refl, tt))
      | inr (row, e) ↦ rw (roll_sessions, e) closed
    ]

runs_open :
    (rows : List CaptureRun) (fs : SynchronizedFrameSet) (t : ℕ) {runs : List CaptureRun}
    → roll_runs rows fs t ≡ some runs
    → All (λ (row : CaptureRun). IsOnlyOpen (column fs.capture_run_id) row.state row.id) runs
unfolding roll_runs
runs_open rows fs t h =
    let id = column fs.capture_run_id in
    let P : CaptureRun → Type 0 = λ row. IsOnlyOpen id row.state row.id in
    let closed : All P (map (close_run id t) rows) =
      All-map P (close_run id t) rows
        (All_of_In (λ row. P (close_run id t row)) rows (λ row i. closed_run id t row)) in
    elim (Option-cases (run_of rows id)) [
      | inl e ↦
          subst (All P) (some_inj (rw (roll_runs, e) at h))
            (All-append P (map (close_run id t) rows) (opened_run fs t ∷ []) closed (inl refl, tt))
      | inr (row, e) ↦ elim (Bool-cases (row.capture_session_id == column fs.capture_session_id)) [
        | inr s ↦ absurd (none-ne-some (rw (roll_runs, e, s) at h))
        | inl s ↦ subst (All P) (some_inj (rw (roll_runs, e, s) at h)) closed
      ]
    ]

-- After a frame set was added, no capture session and no capture run is open but its own.
pub persist-closes :
    (db : Archive) (fs : SynchronizedFrameSet) (created_at_ms : Option ℕ) (now_ms : ℕ)
    {after : Archive}
    → persist_frame_set_manifest db fs created_at_ms now_ms ≡ (after, done true)
    → All
        (λ (row : CaptureSession). IsOnlyOpen (column fs.capture_session_id) row.state row.id)
        after.sessions
      × All
          (λ (row : CaptureRun). IsOnlyOpen (column fs.capture_run_id) row.state row.id)
          after.runs
unfolding insert_frame_set
persist-closes db fs created_at_ms now_ms h =
    let t = or_now created_at_ms now_ms in
    let p = persist-Persisted db fs created_at_ms now_ms h in
    subst
      (λ (a : Archive).
        All (λ (row : CaptureSession). IsOnlyOpen (column fs.capture_session_id) row.state row.id)
          a.sessions
        × All (λ (row : CaptureRun). IsOnlyOpen (column fs.capture_run_id) row.state row.id) a.runs)
      (sym p.ended) (sessions_open db.sessions fs t, runs_open db.runs fs t p.rolled)

-- ===== src/Archive/Superseding.antt =====
-- A new frame set supersedes those that wait for an offer, in `persist_frame_set_manifest`.
use gc_image_stream.Prelude.{
  ℕ, ◌≤◌, ◌<◌, ltb, ◌⊎◌, Any, subst, String, ◌≡◌, refl, sym, ap, ◌∙◌, true, false, inl, inr, Option,
  none, some, List, [], ◌∷◌, any, arith, Bool-cases, Option-cases, ◌==◌, nat_eq, string_eq,
  option_eq, if◌then◌else◌, eq_iff, All,
}
use gc_image_stream.Dict
use gc_image_stream.Dict.{Dict, get-put}
use gc_image_stream.Sync.Models.{SynchronizedFrameSet}
use gc_image_stream.Relay.LatestLive.Tables.{
  FrameSetManifest, FrameSetDeliveryProjection, manifest_of,
}
use gc_image_stream.Archive.Rows.{
  Archive, CaptureRun, column, manifest_row, new_delivery_projection,
}
use gc_image_stream.Archive.Store.{
  done, or_now, waiting_rows, superseded, supersede, newer_eligible_exists, next_projections,
  insert_frame_set, persist_frame_set_manifest,
}
use gc_image_stream.Archive.Persisting.{persist-Persisted}
use gc_image_stream.Archive.Waiting.{names, inserted_waiting}

-- A projection that is no longer offered, since a newer frame set is there.
abbrev pub passed_over : ℕ → Option FrameSetDeliveryProjection → Option FrameSetDeliveryProjection
passed_over t none = none
passed_over t (some p) = some (record {
  archive_state = p.archive_state;
  live_state = "SUPERSEDED_BEFORE_OFFER";
  legacy_relay_state = p.legacy_relay_state;
  last_reason = some "NEWER_FRAME_SET_AVAILABLE";
  updated_at_ms = t;
})

again_passed_over :
    (t : ℕ) (p : Option FrameSetDeliveryProjection)
    → passed_over t (passed_over t p) ≡ passed_over t p
again_passed_over t none = refl
again_passed_over t (some p) = refl

get-supersede :
    (d : Dict FrameSetDeliveryProjection) (rows : List FrameSetManifest) (t : ℕ) (j : String)
    → Dict.get (supersede d rows t) j
      ≡ (if any (names j) rows then passed_over t (Dict.get d j) else Dict.get d j)
unfolding supersede
get-supersede d [] t j = refl
get-supersede d (row ∷ rows) t j =
    let rest = supersede d rows t in
    let ih = get-supersede d rows t j in
    elim (Bool-cases (row.frame_set_uid == j)) [
      | inr n ↦ elim (Option-cases (Dict.get rest row.frame_set_uid)) [
        | inl e ↦ rw (supersede, e, n) ih
        | inr (p, e) ↦ rw (supersede, e, get-put rest row.frame_set_uid j (superseded t p), n) ih
      ]
      | inl n ↦
          let here = ap (Dict.get rest) (sym ((eq_iff row.frame_set_uid j).0 n)) in
          let passed : passed_over t (Dict.get rest j) ≡ passed_over t (Dict.get d j) =
            ap (passed_over t) ih ∙ elim (Bool-cases (any (names j) rows)) [
              | inl a ↦ rw a (again_passed_over t (Dict.get d j))
              | inr a ↦ rw a refl
            ] in
          elim (Option-cases (Dict.get rest row.frame_set_uid)) [
            | inl e ↦
                let missing : Dict.get rest j ≡ none = here ∙ e in
                rw (supersede, e, n) (missing ∙ ap (passed_over t) (sym missing) ∙ passed)
            | inr (p, e) ↦
                let found : Dict.get rest j ≡ some p = here ∙ e in
                rw (supersede, e, get-put rest row.frame_set_uid j (superseded t p), n)
                  (ap (passed_over t) (sym found) ∙ passed)
          ]
    ]

-- One that waits was synchronized later than the frame set.
abbrev pub IsBehind : Archive → SynchronizedFrameSet → Type 0
IsBehind db fs =
    Any (λ (row : FrameSetManifest). fs.synchronized_at_ms < row.synchronized_at_ms)
      (waiting_rows db.live.manifests db.live.projections)

-- None that waits was synchronized later than the frame set.
abbrev pub IsNewest : Archive → SynchronizedFrameSet → Type 0
IsNewest db fs =
    All (λ (row : FrameSetManifest). row.synchronized_at_ms ≤ fs.synchronized_at_ms)
      (waiting_rows db.live.manifests db.live.projections)

later_rows :
    (rows : List FrameSetManifest) (at_ms : ℕ)
    → any (λ (row : FrameSetManifest). ltb at_ms row.synchronized_at_ms) rows ≡ true
    → Any (λ (row : FrameSetManifest). at_ms < row.synchronized_at_ms) rows
later_rows [] at_ms h = ground (arith, h)
later_rows (row ∷ rows) at_ms h = elim (Bool-cases (ltb at_ms row.synchronized_at_ms)) [
  | inl e ↦ inl (ground (arith, e))
  | inr e ↦ inr (later_rows rows at_ms (rw e at h))
]

no_later_rows :
    (rows : List FrameSetManifest) (at_ms : ℕ)
    → any (λ (row : FrameSetManifest). ltb at_ms row.synchronized_at_ms) rows ≡ false
    → All (λ (row : FrameSetManifest). row.synchronized_at_ms ≤ at_ms) rows
no_later_rows [] at_ms h = tt
no_later_rows (row ∷ rows) at_ms h = elim (Bool-cases (ltb at_ms row.synchronized_at_ms)) [
  | inl e ↦ absurd (ground (arith, e, h))
  | inr e ↦ (ground (arith, e), no_later_rows rows at_ms (rw e at h))
]

-- The projections of a frame set behind those that wait, and of one that is the newest.
abbrev pub projected_behind :
    Archive → SynchronizedFrameSet → ℕ → String → Option FrameSetDeliveryProjection
projected_behind db fs t uid =
    if column fs.frame_set_uid == uid
    then some
        (new_delivery_projection t "SUPERSEDED_BEFORE_OFFER" (some "NEWER_FRAME_SET_AVAILABLE"))
    else Dict.get db.live.projections uid

abbrev pub projected_newest :
    Archive → SynchronizedFrameSet → ℕ → String → Option FrameSetDeliveryProjection
projected_newest db fs t uid =
    let before = Dict.get db.live.projections uid in
    if column fs.frame_set_uid == uid
    then some (new_delivery_projection t "ELIGIBLE" none)
    else if any (names uid) (waiting_rows db.live.manifests db.live.projections)
    then passed_over t before
    else before

-- What the archive is after a frame set is added.
abbrev pub IsSuperseding : Archive → SynchronizedFrameSet → ℕ → String → Archive → Type 0
IsSuperseding db fs t uid after =
    (IsBehind db fs
      × (waiting_rows after.live.manifests after.live.projections
          ≡ waiting_rows db.live.manifests db.live.projections)
      × (Dict.get after.live.projections uid ≡ projected_behind db fs t uid))
    ⊎ (IsNewest db fs
        × (waiting_rows after.live.manifests after.live.projections ≡ manifest_row fs t ∷ [])
        × (Dict.get after.live.projections uid ≡ projected_newest db fs t uid))

insert-IsSuperseding :
    (db : Archive) (fs : SynchronizedFrameSet) (runs : List CaptureRun) (t : ℕ) (uid : String)
    → manifest_of db.live.manifests (column fs.frame_set_uid) ≡ none
    → IsSuperseding db fs t uid (insert_frame_set db fs runs t)
unfolding insert_frame_set next_projections
insert-IsSuperseding db fs runs t uid fresh =
    let d = db.live.projections in
    let old = waiting_rows db.live.manifests d in
    let own = column fs.frame_set_uid in
    let waiting = inserted_waiting db fs runs t fresh in
    elim (Bool-cases (newer_eligible_exists db fs)) [
      | inl e ↦ inl (
        later_rows old fs.synchronized_at_ms e,
        waiting ∙ rw e refl,
        rw
            (
              next_projections,
              e,
              get-put d own uid (
                  new_delivery_projection t "SUPERSEDED_BEFORE_OFFER"
                    (some "NEWER_FRAME_SET_AVAILABLE")),
            )
            refl,
      )
      | inr e ↦ inr (
        no_later_rows old fs.synchronized_at_ms e,
        waiting ∙ rw e refl,
        rw
            (
              next_projections,
              e,
              get-put (supersede d old t) own uid (new_delivery_projection t "ELIGIBLE" none),
              get-supersede d old t uid,
            )
            refl,
      )
    ]

-- A frame set that is added supersedes every frame set that waits for an offer, and then waits alone:
-- the projection of each of these gets the live state SUPERSEDED_BEFORE_OFFER with the reason that a
-- newer frame set is available, and every other projection stays. This is so where none that waits was
-- synchronized later. Where one was, the new one is superseded, those that wait stay, and no other
-- projection changes.
pub persist-supersedes :
    (db : Archive) (fs : SynchronizedFrameSet) (created_at_ms : Option ℕ) (now_ms : ℕ)
    (uid : String) {after : Archive}
    → persist_frame_set_manifest db fs created_at_ms now_ms ≡ (after, done true)
    → IsSuperseding db fs (or_now created_at_ms now_ms) uid after
persist-supersedes db fs created_at_ms now_ms uid h =
    let p = persist-Persisted db fs created_at_ms now_ms h in
    let t = or_now created_at_ms now_ms in
    subst (IsSuperseding db fs t uid) (sym p.ended)
      (insert-IsSuperseding db fs p.runs t uid p.fresh)

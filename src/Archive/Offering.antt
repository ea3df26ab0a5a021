-- ===== src/Archive/Offering.antt =====
-- A frame set that `persist_frame_set_manifest` adds is what the live scheduler offers next, and what
-- `get_newest_eligible_manifest` returns.
use gc_image_stream.Prelude.{
  ℕ, ◌≡◌, refl, ap, ◌∙◌, Bool, true, false, Option, none, some, List, [], ◌∷◌, keep_if-append,
  keep_if_none, arith, All, All-imp, ◌==◌, string_eq,
}
use gc_image_stream.Prelude.Sorting.{sorted}
use gc_image_stream.Dict
use gc_image_stream.Dict.{Dict, get-put_self}
use gc_image_stream.Sync.Models.{SynchronizedFrameSet}
use gc_image_stream.Relay.LatestLive.Tables.{
  FrameSetManifest, FrameSetDeliveryProjection, Tables, CreditIdentity, ClaimedFrameSet, reply,
}
use gc_image_stream.Relay.LatestLive.Claims.{
  ensure_state_row, is_eligible, eligible, newest, claim_latest,
}
use gc_image_stream.Relay.LatestLive.Newest.{MayOffer}
use gc_image_stream.Relay.LatestLive.Progress.{claim_latest-succeeds}
use gc_image_stream.Archive.Rows.{
  Archive, CaptureRun, column, manifest_row, new_delivery_projection,
}
use gc_image_stream.Archive.Store.{
  done, or_now, newer_eligible_exists, next_projections, insert_frame_set, supersede, waiting_rows,
  persist_frame_set_manifest, has_live_state,
}
use gc_image_stream.Archive.Persisting.{persist-Persisted}
use gc_image_stream.Archive.Waiting.{waits, waits-next_newest, others_of_fresh}

not_eligible :
    (o : Option FrameSetDeliveryProjection)
    → has_live_state "ELIGIBLE" o ≡ false
    → is_eligible o ≡ false
not_eligible none h = refl
not_eligible (some p) h = ground (arith, h)

next_self_eligible :
    (db : Archive) (fs : SynchronizedFrameSet) (t : ℕ)
    → newer_eligible_exists db fs ≡ false
    → is_eligible (Dict.get (next_projections db fs t) (column fs.frame_set_uid)) ≡ true
unfolding next_projections
next_self_eligible db fs t e =
    rw
      (
        next_projections,
        e,
        get-put_self
            (supersede db.live.projections (waiting_rows db.live.manifests db.live.projections) t)
            (column fs.frame_set_uid) (new_delivery_projection t "ELIGIBLE" none),
      )
      refl

inserted_eligible :
    (db : Archive) (fs : SynchronizedFrameSet) (runs : List CaptureRun) (t : ℕ)
    → All (λ row. (row.frame_set_uid == column fs.frame_set_uid) ≡ false) db.live.manifests
    → newer_eligible_exists db fs ≡ false
    → eligible (insert_frame_set db fs runs t).live ≡ manifest_row fs t ∷ []
unfolding insert_frame_set manifest_row
inserted_eligible db fs runs t others e =
    let d = next_projections db fs t in
    let p : FrameSetManifest → Bool = λ row. is_eligible (Dict.get d row.frame_set_uid) in
    let self : p (manifest_row fs t) ≡ true = next_self_eligible db fs t e in
    let rest =
      All-imp (λ (row : FrameSetManifest). waits d row.frame_set_uid ≡ false) (λ row. p row ≡ false)
        db.live.manifests (λ row w. not_eligible (Dict.get d row.frame_set_uid) w)
        (waits-next_newest db fs t others e) in
    keep_if-append p db.live.manifests (manifest_row fs t ∷ [])
    ∙ rw (self, keep_if_none p db.live.manifests rest) refl

newest-single :
    (db : Tables) (row : FrameSetManifest) → eligible db ≡ row ∷ [] → newest db ≡ some row
unfolding newest sorted
newest-single db row e = rw (newest, e) refl

-- A frame set that is added while none that waits was synchronized later is claimed next, at any
-- credit: `claim_latest` returns it, under its run, number and identifier. Conditions: no frame set
-- is in flight then, and the watermark and the reoffer mark allow the offer.
pub persist-offered :
    (db : Archive) (fs : SynchronizedFrameSet) (created_at_ms : Option ℕ) (now_ms : ℕ)
    (credit : CreditIdentity) (timestamp_ms : ℕ) {after : Archive}
    → persist_frame_set_manifest db fs created_at_ms now_ms ≡ (after, done true)
    → newer_eligible_exists db fs ≡ false
    → (ensure_state_row after.live.client_state timestamp_ms).in_flight_frame_set_uid ≡ none
    → MayOffer after.live
        (ensure_state_row after.live.client_state timestamp_ms)
        (manifest_row fs (or_now created_at_ms now_ms))
    → (tables : Tables) × (claimed : ClaimedFrameSet) × (claim_latest after.live credit timestamp_ms
        ≡ (tables, reply (some claimed)))
      × (claimed.key ≡ record {
        capture_run_id = column fs.capture_run_id;
        frame_set_id = fs.frame_set_id;
        frame_set_uid = column fs.frame_set_uid;
      })
unfolding manifest_row
persist-offered db fs created_at_ms now_ms credit timestamp_ms {after} h e idle may =
    let t = or_now created_at_ms now_ms in
    let p = persist-Persisted db fs created_at_ms now_ms h in
    let others = others_of_fresh db.live.manifests (column fs.frame_set_uid) p.fresh in
    let alone : eligible after.live ≡ manifest_row fs t ∷ [] =
      ap (λ (a : Archive). eligible a.live) p.ended ∙ inserted_eligible db fs p.runs t others e in
    claim_latest-succeeds after.live credit timestamp_ms (manifest_row fs t) idle
      (newest-single after.live (manifest_row fs t) alone) may

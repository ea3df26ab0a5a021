-- ===== src/Archive/Waiting.antt =====
-- Which frame sets wait for an offer after `persist_frame_set_manifest`.
use gc_image_stream.Prelude.{
  ℕ, String, ◌≡◌, refl, sym, ap, ◌∙◌, Bool, true, false, not, ◌&&◌, inl, inr, none, some, List, [],
  ◌∷◌, ◌++◌, any, keep_if-append, keep_if-congr, keep_if_none, any-keep_if, arith, Bool-cases,
  Option-cases, none-ne-some, ◌==◌, nat_eq, string_eq, option_eq, if◌then◌else◌, eq_iff, All,
  All-imp, All_of_In, All-In,
}
use gc_image_stream.Dict
use gc_image_stream.Dict.{Dict, get-put}
use gc_image_stream.Sync.Models.{SynchronizedFrameSet}
use gc_image_stream.Relay.LatestLive.Tables.{
  FrameSetManifest, FrameSetDeliveryProjection, manifest_of,
}
use gc_image_stream.Archive.Rows.{
  Archive, CaptureRun, column, manifest_row, new_delivery_projection,
}
use gc_image_stream.Archive.Store.{
  has_live_state, waiting_rows, superseded, supersede, newer_eligible_exists, next_projections,
  insert_frame_set,
}

abbrev pub waits : Dict FrameSetDeliveryProjection → String → Bool
waits projections uid = has_live_state "ELIGIBLE" (Dict.get projections uid)

abbrev pub names : String → FrameSetManifest → Bool
names uid row = row.frame_set_uid == uid

waits-put :
    (d : Dict FrameSetDeliveryProjection) (k j : String) (p : FrameSetDeliveryProjection)
    → waits (Dict.put d k p) j ≡ (if k == j then p.live_state == "ELIGIBLE" else waits d j)
waits-put d k j p = elim (Bool-cases (k == j)) [
  | inl e ↦ rw (get-put d k j p, e) refl
  | inr e ↦ rw (get-put d k j p, e) refl
]

waits-supersede :
    (d : Dict FrameSetDeliveryProjection) (rows : List FrameSetManifest) (t : ℕ) (j : String)
    → waits (supersede d rows t) j ≡ (waits d j && not (any (names j) rows))
unfolding supersede
waits-supersede d [] t j = ground arith
waits-supersede d (row ∷ rows) t j =
    let rest = supersede d rows t in
    let ih = waits-supersede d rows t j in
    elim (Option-cases (Dict.get rest row.frame_set_uid)) [
      | inl e ↦ elim (Bool-cases (row.frame_set_uid == j)) [
        | inl n ↦
            let missing : Dict.get rest j ≡ none =
              ap (Dict.get rest) (sym ((eq_iff row.frame_set_uid j).0 n)) ∙ e in
            rw (supersede, e, n) (rw missing (ground arith))
        | inr n ↦ rw (supersede, e, n) ih
      ]
      | inr (p, e) ↦ elim (Bool-cases (row.frame_set_uid == j)) [
        | inl n ↦
            rw (supersede, e, waits-put rest row.frame_set_uid j (superseded t p), n) (ground arith)
        | inr n ↦ rw (supersede, e, waits-put rest row.frame_set_uid j (superseded t p), n) ih
      ]
    ]

-- The rows that have another key than a missing one.
pub others_of_fresh :
    (rows : List FrameSetManifest) (uid : String)
    → manifest_of rows uid ≡ none
    → All (λ row. names uid row ≡ false) rows
unfolding manifest_of
others_of_fresh [] uid h = tt
others_of_fresh (row ∷ rows) uid h = elim (Bool-cases (names uid row)) [
  | inl e ↦ absurd (none-ne-some (sym (rw e at h)))
  | inr e ↦ (e, others_of_fresh rows uid (rw e at h))
]

other_name : (a b : String) → (a == b) ≡ false → (b == a) ≡ false
other_name a b h = ground (arith, eq_iff a b, eq_iff b a)

-- The rows that waited wait no more, where none of them is newer.
module _ (db : Archive) (fs : SynchronizedFrameSet) (t : ℕ)
    (others : All (λ row. names (column fs.frame_set_uid) row ≡ false) db.live.manifests) where
  pub waits-next_newest :
      newer_eligible_exists db fs ≡ false
      → All (λ row. waits (next_projections db fs t) row.frame_set_uid ≡ false) db.live.manifests
  unfolding next_projections
  waits-next_newest newest =
      let uid = column fs.frame_set_uid in
      let rows = db.live.manifests in
      let d = db.live.projections in
      let old = waiting_rows rows d in
      All_of_In
        (λ (row : FrameSetManifest). waits (next_projections db fs t) row.frame_set_uid ≡ false)
        rows
        (λ row i.
          let other = other_name _ _ (All-In (λ row. names uid row ≡ false) rows others i) in
          rw
            (
              next_projections,
              newest,
              waits-put (supersede d old t) uid row.frame_set_uid
                  (new_delivery_projection t "ELIGIBLE" none),
              other,
              waits-supersede d old t row.frame_set_uid,
            )
            (elim (Bool-cases (waits d row.frame_set_uid)) [
              | inr w ↦ rw w refl
              | inl w ↦
                  rw
                    (
                      w,
                      any-keep_if (λ (r : FrameSetManifest). waits d r.frame_set_uid)
                          (names row.frame_set_uid) rows i w ((eq_iff _ _).1 refl),
                    )
                    refl
            ]))

  waits-next_behind :
      newer_eligible_exists db fs ≡ true
      → All
          (λ row.
            waits (next_projections db fs t) row.frame_set_uid
            ≡ waits db.live.projections row.frame_set_uid)
          db.live.manifests
  unfolding next_projections
  waits-next_behind newer =
      let uid = column fs.frame_set_uid in
      let d = db.live.projections in
      All-imp (λ row. names uid row ≡ false)
        (λ (row : FrameSetManifest).
          waits (next_projections db fs t) row.frame_set_uid ≡ waits d row.frame_set_uid)
        db.live.manifests
        (λ row other.
          rw
            (
              next_projections,
              newer,
              waits-put d uid row.frame_set_uid (
                  new_delivery_projection t "SUPERSEDED_BEFORE_OFFER"
                    (some "NEWER_FRAME_SET_AVAILABLE")),
              other_name _ _ other,
            )
            refl)
        others

  -- Whether the new frame set itself waits.
  waits-next_self :
      waits (next_projections db fs t) (column fs.frame_set_uid) ≡ not (newer_eligible_exists db fs)
  unfolding next_projections
  waits-next_self =
      let uid = column fs.frame_set_uid in
      elim (Bool-cases (newer_eligible_exists db fs)) [
        | inl e ↦
            rw
              (
                next_projections,
                e,
                waits-put db.live.projections uid uid (
                    new_delivery_projection t "SUPERSEDED_BEFORE_OFFER"
                      (some "NEWER_FRAME_SET_AVAILABLE")),
                (eq_iff uid uid).1 refl,
              )
              refl
        | inr e ↦
            rw
              (
                next_projections,
                e,
                waits-put
                    (supersede db.live.projections
                      (waiting_rows db.live.manifests db.live.projections) t)
                    uid uid (new_delivery_projection t "ELIGIBLE" none),
                (eq_iff uid uid).1 refl,
              )
              refl
      ]

append_nil : (xs : List FrameSetManifest) → xs ++ [] ≡ xs
append_nil [] = refl
append_nil (x ∷ xs) = ap (λ ys. x ∷ ys) (append_nil xs)

pub inserted_waiting :
    (db : Archive) (fs : SynchronizedFrameSet) (runs : List CaptureRun) (t : ℕ)
    → manifest_of db.live.manifests (column fs.frame_set_uid) ≡ none
    → waiting_rows
        (insert_frame_set db fs runs t).live.manifests
        (insert_frame_set db fs runs t).live.projections
      ≡ (if newer_eligible_exists db fs
          then waiting_rows db.live.manifests db.live.projections
          else manifest_row fs t ∷ [])
unfolding insert_frame_set manifest_row
inserted_waiting db fs runs t fresh =
    let others = others_of_fresh db.live.manifests (column fs.frame_set_uid) fresh in
    let after = next_projections db fs t in
    let p : FrameSetManifest → Bool = λ row. waits after row.frame_set_uid in
    let self : p (manifest_row fs t) ≡ not (newer_eligible_exists db fs) =
      waits-next_self db fs t others in
    keep_if-append p db.live.manifests (manifest_row fs t ∷ [])
    ∙ elim (Bool-cases (newer_eligible_exists db fs)) [
      | inl e ↦
          rw
            (
              self,
              e,
              keep_if-congr p
                  (λ (row : FrameSetManifest). waits db.live.projections row.frame_set_uid)
                  db.live.manifests (waits-next_behind db fs t others e),
            )
            (append_nil (waiting_rows db.live.manifests db.live.projections))
      | inr e ↦
          rw (self, e, keep_if_none p db.live.manifests (waits-next_newest db fs t others e)) refl
    ]

-- ===== src/Relay/LatestLive/Consistency.antt =====
-- What the methods of `LatestLiveStore` keep of its tables, and that a method on consistent tables
-- raises none of the errors of a missing row.
use gc_image_stream.Prelude.{
  ℕ, String, ◌≡◌, refl, sym, subst, inl, inr, true, Option, none, some, List, arith, Bool-cases,
  Option-cases, All-In, All-keep_if, ◌==◌, string_eq, option_eq, eq_iff,
}
use gc_image_stream.Dict
use gc_image_stream.Dict.{Dict, has-put, get_of_has, has_of_get}
use gc_image_stream.Relay.LatestLive.Tables.{
  FrameSetManifest, FrameSetDeliveryProjection, RelayV2ClientState, Tables, CreditIdentity,
  ClaimedFrameSet, manifest_of, snapshot, Reply, reply,
}
use gc_image_stream.Relay.LatestLive.Claims.{
  ensure_state_row, eligible, newest, newest_eligible, keep_past, offered, take, claim_candidate,
  claim_latest,
}
use gc_image_stream.Relay.LatestLive.Newest.{newest_leads, newest_eligible_offer}
use gc_image_stream.Relay.LatestLive.Claiming.{IsKeyed, take-Taken}

-- A frame set in flight has its manifest and its projection, and the watermark its manifest.
abbrev pub Watermark : List FrameSetManifest → Option String → Type 0
Watermark manifests none = Unit
Watermark manifests (some uid) =
    (manifest : FrameSetManifest) × (manifest_of manifests uid ≡ some manifest)

abbrev pub InFlight :
    List FrameSetManifest → Dict FrameSetDeliveryProjection → Option String → Type 0
InFlight manifests projections none = Unit
InFlight manifests projections (some uid) =
    Watermark manifests (some uid) × (Dict.has projections uid ≡ true)

abbrev pub IsRow :
    List FrameSetManifest → Dict FrameSetDeliveryProjection → RelayV2ClientState → Type 0
IsRow manifests projections row =
    InFlight manifests projections row.in_flight_frame_set_uid
    × Watermark manifests row.watermark_frame_set_uid

abbrev pub HasRows :
    List FrameSetManifest → Dict FrameSetDeliveryProjection → Option RelayV2ClientState → Type 0
HasRows manifests projections none = Unit
HasRows manifests projections (some row) = IsRow manifests projections row

abbrev pub IsConsistent : Tables → Type 0
IsConsistent db = IsKeyed db.manifests × HasRows db.manifests db.projections db.client_state

-- A row that is there or made has its rows.
ensured-IsRow :
    (manifests : List FrameSetManifest) (projections : Dict FrameSetDeliveryProjection)
    (row : Option RelayV2ClientState) (timestamp_ms : ℕ)
    → HasRows manifests projections row
    → IsRow manifests projections (ensure_state_row row timestamp_ms)
unfolding ensure_state_row
ensured-IsRow manifests projections none timestamp_ms h = (tt, tt)
ensured-IsRow manifests projections (some row) timestamp_ms h = h

pub put-InFlight :
    (manifests : List FrameSetManifest) (d : Dict FrameSetDeliveryProjection) (uid : String)
    (p : FrameSetDeliveryProjection) (o : Option String)
    → InFlight manifests d o
    → InFlight manifests (Dict.put d uid p) o
put-InFlight manifests d uid p none h = tt
put-InFlight manifests d uid p (some j) h = (h.0, ground (arith, has-put d uid j p, h.1))

newest_eligible-replies :
    (db : Tables) (row : RelayV2ClientState)
    → IsRow db.manifests db.projections row
    → (r : Option FrameSetManifest) × (newest_eligible db row ≡ reply r)
unfolding newest_eligible
newest_eligible-replies db row h = elim (Option-cases (newest db)) [
  | inl e ↦ (none, rw (newest_eligible, e) refl)
  | inr (c, e) ↦ elim (Option-cases row.watermark_frame_set_uid) [
    | inl w ↦ (some c, rw (newest_eligible, e, w) refl)
    | inr (uid, w) ↦ elim (Bool-cases (some c.frame_set_uid == row.reoffer_frame_set_uid)) [
      | inl r ↦ (some c, rw (newest_eligible, e, w, r) refl)
      | inr r ↦
          let (m, found) : Watermark db.manifests (some uid) = rw w at h.1 in
          (keep_past c m, rw (newest_eligible, e, w, r, found) refl)
    ]
  ]
]

claim_candidate-replies :
    (before db : Tables) (c : FrameSetManifest) (credit : CreditIdentity) (timestamp_ms : ℕ)
    → (r : Option ClaimedFrameSet) × ((claim_candidate before db c credit timestamp_ms).1 ≡ reply r)
unfolding claim_candidate
claim_candidate-replies before db c credit timestamp_ms =
    elim (Option-cases (take db c credit timestamp_ms)) [
      | inl e ↦ (none, rw (e, claim_candidate) refl)
      | inr (after, e) ↦ (some (snapshot after c credit timestamp_ms), rw (e, claim_candidate) refl)
    ]

abbrev ensured : Tables → ℕ → RelayV2ClientState
ensured before timestamp_ms = ensure_state_row before.client_state timestamp_ms

abbrev with_row : Tables → RelayV2ClientState → Tables
with_row before row = record before { client_state = some row }

-- The three ways of a claim that raises no error.
module _ (before : Tables) (credit : CreditIdentity) (timestamp_ms : ℕ) where
  claim_busy :
      {uid : String}
      → (ensured before timestamp_ms).in_flight_frame_set_uid ≡ some uid
      → claim_latest before credit timestamp_ms
        ≡ (with_row before (ensured before timestamp_ms), reply none)
  unfolding claim_latest
  claim_busy e = simp (claim_latest, e)

  claim_nothing :
      (ensured before timestamp_ms).in_flight_frame_set_uid ≡ none
      → newest_eligible
          (with_row before (ensured before timestamp_ms))
          (ensured before timestamp_ms)
        ≡ reply none
      → claim_latest before credit timestamp_ms
        ≡ (with_row before (ensured before timestamp_ms), reply none)
  unfolding claim_latest
  claim_nothing e r = simp (claim_latest, e, r)

  claim_something :
      {c : FrameSetManifest}
      → (ensured before timestamp_ms).in_flight_frame_set_uid ≡ none
      → newest_eligible
          (with_row before (ensured before timestamp_ms))
          (ensured before timestamp_ms)
        ≡ reply (some c)
      → claim_latest before credit timestamp_ms
        ≡ claim_candidate before
            (with_row before (ensured before timestamp_ms))
            c
            credit
            timestamp_ms
  unfolding claim_latest
  claim_something e r = simp (claim_latest, e, r)

-- The tables that a claim leaves are consistent.
claim_candidate-IsConsistent :
    (before : Tables) (row : RelayV2ClientState) (c : FrameSetManifest) (credit : CreditIdentity)
    (timestamp_ms : ℕ)
    → IsConsistent before
    → IsRow before.manifests before.projections row
    → newest (record before { client_state = some row }) ≡ some c
    → IsConsistent
        (claim_candidate before (record before { client_state = some row }) c credit timestamp_ms).0
unfolding claim_candidate newest
claim_candidate-IsConsistent before row c credit timestamp_ms h k n =
    let db : Tables = record before { client_state = some row } in
    elim (Option-cases (take db c credit timestamp_ms)) [
      | inl e ↦ rw (e, claim_candidate) h
      | inr (after, e) ↦
          let t = take-Taken db row c credit timestamp_ms refl e in
          let place = (newest_leads db n).0 in
          let found : manifest_of before.manifests c.frame_set_uid ≡ some c =
            All-In _ (eligible before) (All-keep_if _ _ before.manifests h.0) place in
          rw (e, claim_candidate)
            (subst IsConsistent (sym t.ended) (
              h.0,
              (
                (
                  (c, found),
                  ground (
                    arith,
                    has-put before.projections c.frame_set_uid c.frame_set_uid
                        (offered t.projection timestamp_ms),
                    eq_iff c.frame_set_uid c.frame_set_uid,
                  ),
                ),
                (c, found),
              ),
            ))
    ]

-- A claim of consistent tables leaves consistent tables and replies: it raises no error.
pub claim_latest-IsConsistent :
    (before : Tables) (credit : CreditIdentity) (timestamp_ms : ℕ)
    → IsConsistent before
    → IsConsistent (claim_latest before credit timestamp_ms).0
      × (r : Option ClaimedFrameSet) × ((claim_latest before credit timestamp_ms).1 ≡ reply r)
claim_latest-IsConsistent before credit timestamp_ms (keyed, rows) =
    let row = ensured before timestamp_ms in
    let db = with_row before row in
    let here =
      ensured-IsRow before.manifests before.projections before.client_state timestamp_ms rows in
    let Goal : Tables × Reply (Option ClaimedFrameSet) → Type 0 =
      λ o. IsConsistent o.0 × (r : Option ClaimedFrameSet) × (o.1 ≡ reply r) in
    elim (Option-cases row.in_flight_frame_set_uid) [
      | inr (uid, e) ↦
          subst Goal (sym (claim_busy before credit timestamp_ms e)) ((keyed, here), none, refl)
      | inl idle ↦
          let (found, r) = newest_eligible-replies db row here in
          elim (Option-cases found) [
            | inl n ↦
                subst Goal (sym (claim_nothing before credit timestamp_ms idle (rw n at r)))
                  ((keyed, here), none, refl)
            | inr (c, n) ↦
                let read : newest_eligible db row ≡ reply (some c) = rw n at r in
                let (s, e) = claim_candidate-replies before db c credit timestamp_ms in
                subst Goal (sym (claim_something before credit timestamp_ms idle read)) (
                  claim_candidate-IsConsistent before row c credit timestamp_ms (keyed, rows) here
                      (newest_eligible_offer db row read).0,
                  s,
                  e,
                )
          ]
    ]

-- ===== src/Relay/LatestLive/Progress.antt =====
-- When a claim of `LatestLiveStore` returns a frame set.
use gc_image_stream.Prelude.{
  ℕ, ◌≡◌, refl, sym, ◌∙◌, true, inl, inr, Option, none, some, arith, Bool-cases, Option-cases,
  none-ne-some, some_inj, All-In, All-keep_if_self, ◌==◌, string_eq, option_eq,
}
use gc_image_stream.Dict
use gc_image_stream.Relay.LatestLive.Tables.{
  FrameSetManifest, FrameSetDeliveryProjection, RelayV2ClientState, Tables, CreditIdentity,
  ClaimedFrameSet, manifest_of, manifest_key, snapshot, reply,
}
use gc_image_stream.Relay.LatestLive.Claims.{
  ensure_state_row, is_eligible, eligible, newest, newest_eligible, claimed_row, offered, claim_row,
  offer_projection, take, claim_candidate, claim_latest,
}
use gc_image_stream.Relay.LatestLive.Newest.{MayOffer, newest_leads}

offer_of_MayOffer :
    (db : Tables) (state : RelayV2ClientState) (c : FrameSetManifest)
    → newest db ≡ some c
    → MayOffer db state c
    → newest_eligible db state ≡ reply (some c)
unfolding newest_eligible
offer_of_MayOffer db state c n may = elim (Option-cases state.watermark_frame_set_uid) [
  | inl w ↦ rw (newest_eligible, n, w) refl
  | inr (uid, w) ↦ elim (Bool-cases (some c.frame_set_uid == state.reoffer_frame_set_uid)) [
    | inl r ↦ rw (newest_eligible, n, w, r) refl
    | inr r ↦ elim may [
      | inl first ↦ absurd (none-ne-some (sym first ∙ w))
      | inr (inl again) ↦
          let b : (some c.frame_set_uid == state.reoffer_frame_set_uid) ≡ true =
            (option_eq.beq_iff _ _).1 (sym again) in
          absurd (ground (arith, r, b))
      | inr (inr (uid', watermark, e, found, past)) ↦
          let same : uid' ≡ uid = some_inj (sym e ∙ w) in
          let found' : manifest_of db.manifests uid ≡ some watermark = rw same at found in
          rw (newest_eligible, n, w, r, found', past) refl
    ]
  ]
]

is_eligible-some :
    (o : Option FrameSetDeliveryProjection)
    → is_eligible o ≡ true
    → (p : FrameSetDeliveryProjection) × (o ≡ some p)
is_eligible-some none h = ground (arith, h)
is_eligible-some (some p) h = (p, refl)

take_idle :
    (db : Tables) (row : RelayV2ClientState) (c : FrameSetManifest) (credit : CreditIdentity)
    (timestamp_ms : ℕ)
    → db.client_state ≡ some row
    → row.in_flight_frame_set_uid ≡ none
    → is_eligible (Dict.get db.projections c.frame_set_uid) ≡ true
    → (after : Tables) × (take db c credit timestamp_ms ≡ some after)
unfolding take claim_row offer_projection
take_idle db row c credit timestamp_ms there idle e =
    let (p, found) = is_eligible-some (Dict.get db.projections c.frame_set_uid) e in
    let ready : is_eligible (some p) ≡ true = rw found at e in
    (
      record db {
        client_state = some (claimed_row row c credit timestamp_ms);
        projections = Dict.put db.projections c.frame_set_uid (offered p timestamp_ms);
      },
      rw (take, there, claim_row, idle, offer_projection, found, ready) refl,
    )

-- Where nothing is in flight and the newest eligible frame set may be offered, a claim returns it.
pub claim_latest-succeeds :
    (before : Tables) (credit : CreditIdentity) (timestamp_ms : ℕ) (c : FrameSetManifest)
    → (ensure_state_row before.client_state timestamp_ms).in_flight_frame_set_uid ≡ none
    → newest before ≡ some c
    → MayOffer before (ensure_state_row before.client_state timestamp_ms) c
    → (after : Tables) × (claimed : ClaimedFrameSet) × (claim_latest before credit timestamp_ms
        ≡ (after, reply (some claimed)))
      × (claimed.key ≡ manifest_key c)
unfolding claim_latest claim_candidate newest snapshot
claim_latest-succeeds before credit timestamp_ms c idle n may =
    let row = ensure_state_row before.client_state timestamp_ms in
    let db : Tables = record before { client_state = some row } in
    let read : newest_eligible db row ≡ reply (some c) = offer_of_MayOffer db row c n may in
    let ready : is_eligible (Dict.get db.projections c.frame_set_uid) ≡ true =
      All-In
        (λ (x : FrameSetManifest). is_eligible (Dict.get before.projections x.frame_set_uid) ≡ true)
        (eligible before) (All-keep_if_self _ before.manifests) (newest_leads before n).0 in
    let (after, t) = take_idle db row c credit timestamp_ms refl idle ready in
    (
      after,
      snapshot after c credit timestamp_ms,
      simp (claim_latest, idle, read, claim_candidate, t),
      refl,
    )

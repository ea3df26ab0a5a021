-- ===== src/Relay/LatestLive/Claiming.antt =====
-- What a claim of `LatestLiveStore` does to the tables.
use gc_image_stream.Prelude.{
  ℕ, String, ◌≡◌, refl, sym, ap, subst, inl, inr, true, none, some, List, Bool-cases, Option-cases,
  none-ne-some, some_inj, All, All-In, All-keep_if, ◌==◌, string_eq, option_eq, if◌then◌else◌,
}
use gc_image_stream.Dict
use gc_image_stream.Relay.LatestLive.Tables.{
  FrameSetManifest, FrameSetDeliveryProjection, RelayV2ClientState, Tables, CreditIdentity,
  ClaimedFrameSet, manifest_of, FrameSetKey, manifest_key, snapshot, reply,
}
use gc_image_stream.Relay.LatestLive.Claims.{
  ensure_state_row, is_eligible, eligible, claimed_row, claim_row, offered, offer_projection, take,
  claim_latest, current_in_flight, offered_watermark,
}
use gc_image_stream.Relay.LatestLive.Reports.{live_state_of, live_state-put}
use gc_image_stream.Relay.LatestLive.Newest.{claim_latest-Claimed, newest_leads}

-- The primary key of the manifests: a row is what its key finds.
abbrev pub IsKeyed : List FrameSetManifest → Type 0
IsKeyed rows = All (λ (row : FrameSetManifest). manifest_of rows row.frame_set_uid ≡ some row) rows

-- What the guarded updates did.
pub record Taken (db : Tables) (row : RelayV2ClientState) (candidate : FrameSetManifest)
    (credit : CreditIdentity) (timestamp_ms : ℕ) (after : Tables) : Type 0 where
  pub projection : FrameSetDeliveryProjection
  pub found : Dict.get db.projections candidate.frame_set_uid ≡ some projection
  pub was_eligible : is_eligible (some projection) ≡ true
  pub ended : after ≡ (record db {
    client_state = some (claimed_row row candidate credit timestamp_ms);
    projections = Dict.put db.projections candidate.frame_set_uid (offered projection timestamp_ms);
  })

pub take-Taken :
    (db : Tables) (row : RelayV2ClientState) (candidate : FrameSetManifest)
    (credit : CreditIdentity) (timestamp_ms : ℕ) {after : Tables}
    → db.client_state ≡ some row
    → take db candidate credit timestamp_ms ≡ some after
    → Taken db row candidate credit timestamp_ms after
unfolding take claim_row offer_projection
take-Taken db row candidate credit timestamp_ms {after} there h =
    let uid = candidate.frame_set_uid in
    elim (Bool-cases (row.in_flight_frame_set_uid == none)) [
      | inr busy ↦ absurd (none-ne-some (rw (there, take, claim_row, busy) at h))
      | inl idle ↦ elim (Option-cases (Dict.get db.projections uid)) [
        | inl p ↦
            absurd (none-ne-some (rw (there, take, claim_row, idle, offer_projection, p) at h))
        | inr (p, found) ↦ elim (Bool-cases (is_eligible (some p))) [
          | inr e ↦
              absurd
                (none-ne-some (rw (there, take, claim_row, idle, offer_projection, found, e) at h))
          | inl e ↦ record {
            projection = p;
            found = found;
            was_eligible = e;
            ended =
                sym (some_inj (rw (there, take, claim_row, idle, offer_projection, found, e) at h));
          }
        ]
      ]
    ]

ensured_idle :
    (before : Tables) (timestamp_ms : ℕ)
    → (ensure_state_row before.client_state timestamp_ms).in_flight_frame_set_uid ≡ none
    → current_in_flight before ≡ reply none
unfolding current_in_flight ensure_state_row
ensured_idle before timestamp_ms h = elim (Option-cases before.client_state) [
  | inl e ↦ rw (current_in_flight, e) refl
  | inr (row, e) ↦
      let idle : row.in_flight_frame_set_uid ≡ none = rw (e, ensure_state_row) at h in
      rw (current_in_flight, e, idle) refl
]

-- The key is in flight and the watermark, its projection is `OFFERED`, and the projection of any
-- other frame set is as before, like the manifests.
abbrev pub IsOffered : Tables → Tables → String → FrameSetKey → Type 0
IsOffered before after other key =
    (current_in_flight after ≡ reply (some key))
    × (offered_watermark after
        ≡ some (some key.capture_run_id, some key.frame_set_id, key.frame_set_uid))
    × (live_state_of after other
        ≡ (if key.frame_set_uid == other then some "OFFERED" else live_state_of before other))
    × (after.manifests ≡ before.manifests)

offered_after :
    (before : Tables) (row : RelayV2ClientState) (candidate : FrameSetManifest)
    (credit : CreditIdentity) (timestamp_ms : ℕ) (p : FrameSetDeliveryProjection) (other : String)
    → manifest_of before.manifests candidate.frame_set_uid ≡ some candidate
    → IsOffered before
        (record before {
          client_state = some (claimed_row row candidate credit timestamp_ms);
          projections =
              Dict.put before.projections candidate.frame_set_uid (offered p timestamp_ms);
        })
        other
        (manifest_key candidate)
unfolding current_in_flight offered_watermark
offered_after before row candidate credit timestamp_ms p other found = (
  rw (current_in_flight, found) refl,
  refl,
  live_state-put before.projections candidate.frame_set_uid other (offered p timestamp_ms),
  refl,
)

-- A claim that returns a frame set found none in flight. It leaves this one in flight and as the
-- watermark, with the live state `OFFERED`; the live state of any other frame set and the manifests
-- stay. Condition: the manifests have a primary key.
pub claim_latest-takes :
    (before : Tables) (credit : CreditIdentity) (timestamp_ms : ℕ) (other : String) {after : Tables}
    {claimed : ClaimedFrameSet}
    → IsKeyed before.manifests
    → claim_latest before credit timestamp_ms ≡ (after, reply (some claimed))
    → (current_in_flight before ≡ reply none) × IsOffered before after other claimed.key
unfolding snapshot
claim_latest-takes before credit timestamp_ms other {after} {claimed} keyed h =
    let c = claim_latest-Claimed before credit timestamp_ms h in
    let t = take-Taken _ _ c.candidate credit timestamp_ms refl c.taken in
    let key : claimed.key ≡ manifest_key c.candidate = ap (λ x. x.key) c.shown in
    let place = (newest_leads before c.leads).0 in
    let found : manifest_of before.manifests c.candidate.frame_set_uid ≡ some c.candidate =
      All-In _ (eligible before) (All-keep_if _ _ before.manifests keyed) place in
    (
      ensured_idle before timestamp_ms c.idle,
      subst (IsOffered before after other) (sym key) (
          subst (λ x. IsOffered before x other (manifest_key c.candidate)) (sym t.ended)
            (offered_after before (ensure_state_row before.client_state timestamp_ms) c.candidate
              credit timestamp_ms t.projection other found)),
    )

-- Of two claims that read their candidates from the same tables, the one whose updates run second
-- updates nothing and rolls back, whatever its candidate, its credit and its time are.
pub take-exclusive :
    (db : Tables) (candidate rival : FrameSetManifest) (credit other : CreditIdentity)
    (timestamp_ms later_ms : ℕ) {after : Tables}
    → take db candidate credit timestamp_ms ≡ some after
    → take after rival other later_ms ≡ none
unfolding take claim_row
take-exclusive db candidate rival credit other timestamp_ms later_ms {after} h =
    elim (Option-cases db.client_state) [
      | inl e ↦ absurd (none-ne-some (rw (e, take, claim_row) at h))
      | inr (row, e) ↦
          let t = take-Taken db row candidate credit timestamp_ms e h in
          subst (λ x. take x rival other later_ms ≡ none) (sym t.ended) refl
    ]

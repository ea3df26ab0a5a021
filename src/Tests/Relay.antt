-- ===== src/Tests/Relay.antt =====
-- Concrete runs of `LatestLiveStore` (app/services/relay_v2/latest_live.py).
use gc_image_stream.Prelude.{
  ℕ, String, Option, none, some, [], ◌∷◌, ◌≡◌, refl, ◌⊎◌, true, false, string_eq, All, In,
}
use gc_image_stream.Prelude.Sorting
use gc_image_stream.Dict
use gc_image_stream.Relay.LatestLive.Tables
use gc_image_stream.Relay.LatestLive.Claims
use gc_image_stream.Relay.LatestLive.Tables.{
  FrameSetManifest, FrameSetDeliveryProjection, RelayV2ClientState, Tables, FrameSetKey,
  CreditIdentity, ClaimedFrameSet, manifest_key, Reply, reply, snapshot,
}
use gc_image_stream.Relay.LatestLive.Claims.{
  claim_latest, ensure_state_row, take, claim_row, eligible, current_in_flight, newest_eligible,
}
use gc_image_stream.Relay.LatestLive.Reports.{transition_current, reconcile_not_found}
use gc_image_stream.Relay.LatestLive.Newest.{IsUpTo, IsDurable, MayOffer, claim_latest-newest}
use gc_image_stream.Relay.LatestLive.Claiming.{
  IsKeyed, IsOffered, claim_latest-takes, take-exclusive,
}
use gc_image_stream.Relay.LatestLive.Consistency.{IsConsistent, claim_latest-IsConsistent}
use gc_image_stream.Relay.LatestLive.Transitions.{
  IsReported, IsReconciled, transition_current-reports, reconcile_not_found-reports,
}

abbrev manifest_row : String → ℕ → ℕ → FrameSetManifest
manifest_row uid number at_ms = record {
  frame_set_uid = uid;
  capture_session_id = "session";
  capture_run_id = "run";
  frame_set_id = number;
  anchor_timestamp_ms = at_ms;
  freshness_origin_ms = at_ms;
  synchronization_span_ms = 5;
  manifest_digest = uid;
  manifest_json = "{}";
  created_at_ms = at_ms;
  archive_state = "ARCHIVE_DURABLE";
  archive_error = none;
  sync_window_ms = 50;
  synchronized_at_ms = at_ms;
  member_count = 2;
  tenant_id = none;
  site_id = none;
  processing_job_id = none;
  profile_digest = none;
  authorized_subject = none;
  session_token_jti = none;
}

abbrev waiting : FrameSetDeliveryProjection
waiting = record {
  archive_state = "ARCHIVE_DURABLE";
  live_state = "ELIGIBLE";
  legacy_relay_state = "DISABLED";
  last_reason = none;
  updated_at_ms = 1;
}

abbrev first : FrameSetManifest
first = manifest_row "a" 1 100

abbrev second : FrameSetManifest
second = manifest_row "b" 2 200

-- Two frame sets wait, and nothing was ever offered.
abbrev tables : Tables
tables = record {
  manifests = first ∷ second ∷ [];
  members = [];
  projections = ("a", waiting) ∷ ("b", waiting) ∷ [];
  client_state = none;
}

abbrev credit : CreditIdentity
credit = record {
  processor_instance_id = "processor";
  stream_epoch = "epoch";
  credit_id = "credit";
}

abbrev claim : Tables × Reply (Option ClaimedFrameSet)
claim = claim_latest tables credit 300

abbrev claimed : ClaimedFrameSet
claimed = record {
  key = manifest_key second;
  credit = credit;
  capture_session_id = "session";
  anchor_timestamp_ms = 200;
  freshness_origin_ms = 200;
  synchronization_span_ms = 5;
  synchronized_at_ms = 200;
  manifest_digest = "b";
  manifest_json = "{}";
  offered_at_ms = 300;
  members = [];
  tenant_id = none;
  site_id = none;
  processing_job_id = none;
  profile_digest = none;
  authorized_subject = none;
  session_token_jti = none;
}

claim_lem : claim ≡ (claim.0, reply (some claimed))
unfolding claim_latest ensure_state_row newest_eligible Claims.newest Sorting.sorted Dict.get
    Claims.claim_candidate Claims.take Claims.claim_row Claims.offer_projection snapshot
claim_lem = refl

keyed : IsKeyed tables.manifests
unfolding Tables.manifest_of
keyed = (refl, (refl, tt))

claim_latest-newest_example :
    (candidate : FrameSetManifest) × (claimed.key ≡ manifest_key candidate)
    × IsDurable tables candidate
    × In candidate (eligible tables)
    × All (λ other. IsUpTo other candidate) (eligible tables)
    × MayOffer tables (ensure_state_row none 300) candidate
claim_latest-newest_example = claim_latest-newest tables credit 300 claim_lem

claim_latest-takes_example :
    (current_in_flight tables ≡ reply none) × IsOffered tables claim.0 "a" claimed.key
claim_latest-takes_example = claim_latest-takes tables credit 300 "a" keyed claim_lem

claim_latest-IsConsistent_example :
    IsConsistent claim.0 × (r : Option ClaimedFrameSet) × (claim.1 ≡ reply r)
claim_latest-IsConsistent_example = claim_latest-IsConsistent tables credit 300 (keyed, tt)

-- The consumer completes the frame set.
transition_current-reports_example :
    ((¬ (current_in_flight claim.0 ≡ reply (some claimed.key)))
      × (transition_current claim.0 claimed.key "COMPLETED" none true 400 ≡ (claim.0, reply false)))
    ⊎ ((after : Tables) × (transition_current claim.0 claimed.key "COMPLETED" none true 400
          ≡ (after, reply true))
        × (current_in_flight claim.0 ≡ reply (some claimed.key))
        × IsReported claim.0 after claimed.key "COMPLETED" true "a")
transition_current-reports_example =
    transition_current-reports claim.0 claimed.key "COMPLETED" "a" 400
      (claim_latest-IsConsistent tables credit 300 (keyed, tt)).0 none true

-- The consumer does not know the frame set, and may have it again.
reconcile_not_found-reports_example :
    ((¬ (current_in_flight claim.0 ≡ reply (some claimed.key)))
      × (reconcile_not_found claim.0 claimed.key true 400 ≡ (claim.0, reply false)))
    ⊎ ((after : Tables) × (reconcile_not_found claim.0 claimed.key true 400 ≡ (after, reply true))
        × (current_in_flight claim.0 ≡ reply (some claimed.key))
        × IsReconciled claim.0 after claimed.key true "a")
reconcile_not_found-reports_example =
    reconcile_not_found-reports claim.0 claimed.key true "a" 400
      (claim_latest-IsConsistent tables credit 300 (keyed, tt)).0

-- Two claimers read the tables while nothing is in flight.
abbrev idle_tables : Tables
idle_tables = record tables { client_state = some (Claims.new_row 1) }

abbrev tables_or : Option Tables → Tables
tables_or none = tables
tables_or (some db) = db

abbrev taken : Tables
taken = tables_or (take idle_tables second credit 300)

taken_lem : take idle_tables second credit 300 ≡ some taken
unfolding take claim_row Claims.offer_projection Dict.get
taken_lem = refl

take-exclusive_example : take taken first credit 301 ≡ none
take-exclusive_example = take-exclusive idle_tables second first credit credit 300 301 taken_lem

-- ===== src/Relay/LatestLive/Claims.antt =====
-- What `LatestLiveStore` offers: the newest eligible frame set, its claim, and the reads.
use gc_image_stream.Prelude.{
  ℕ, String, Bool, false, not, Option, none, some, List, [], ◌∷◌, keep_if, or_text, ltb, ◌==◌, ◌&&◌,
  nat_eq, string_eq, option_eq, if◌then◌else◌,
}
use gc_image_stream.Prelude.Sorting.{sorted}
use gc_image_stream.Dict
use gc_image_stream.Dict.{Dict}
use gc_image_stream.Relay.LatestLive.Tables.{
  FrameSetManifest, FrameSetDeliveryProjection, RelayV2ClientState, Tables, FrameSetKey,
  CreditIdentity, ClaimedFrameSet, manifest_of, manifest_key, key_beq, is_newer, snapshot, Reply,
  reply, runtime_error, value_error,
}

abbrev pub new_row : ℕ → RelayV2ClientState
new_row timestamp_ms = record {
  in_flight_frame_set_uid = none;
  in_flight_credit_id = none;
  in_flight_processor_instance_id = none;
  in_flight_stream_epoch = none;
  in_flight_offered_at_ms = none;
  watermark_capture_run_id = none;
  watermark_frame_set_id = none;
  watermark_frame_set_uid = none;
  reoffer_frame_set_uid = none;
  processing_job_id = none;
  processing_job_capture_run_id = none;
  updated_at_ms = timestamp_ms;
}

-- `_ensure_state_row`, and the row that is then there.
unfoldable pub ensure_state_row : Option RelayV2ClientState → ℕ → RelayV2ClientState
ensure_state_row none timestamp_ms = new_row timestamp_ms
ensure_state_row (some row) timestamp_ms = row

-- A projection of a durable frame set that waits for its offer.
abbrev pub is_eligible : Option FrameSetDeliveryProjection → Bool
is_eligible none = false
is_eligible (some p) = p.archive_state == "ARCHIVE_DURABLE" && p.live_state == "ELIGIBLE"

abbrev pub eligible : Tables → List FrameSetManifest
eligible db =
    keep_if (λ (row : FrameSetManifest). is_eligible (Dict.get db.projections row.frame_set_uid))
      db.manifests

abbrev first_of : List FrameSetManifest → Option FrameSetManifest
first_of [] = none
first_of (row ∷ rows) = some row

-- The first row of the eligible manifests, newest first: `ORDER BY ... DESC LIMIT 1`.
unfoldable pub newest : Tables → Option FrameSetManifest
newest db = first_of (sorted is_newer (eligible db))

-- Behind the watermark: a larger number in the same run, a later frame set in another one.
abbrev pub is_past : FrameSetManifest → FrameSetManifest → Bool
is_past candidate watermark =
    if candidate.capture_run_id == watermark.capture_run_id
    then ltb watermark.frame_set_id candidate.frame_set_id
    else is_newer candidate watermark

abbrev pub keep_past : FrameSetManifest → FrameSetManifest → Option FrameSetManifest
keep_past candidate watermark = if is_past candidate watermark then some candidate else none

-- `_newest_eligible`
unfoldable pub newest_eligible : Tables → RelayV2ClientState → Reply (Option FrameSetManifest)
newest_eligible db state = elim (newest db) [
  | none ↦ reply none
  | some candidate ↦ elim state.watermark_frame_set_uid [
    | none ↦ reply (some candidate)
    | some uid ↦
        if some candidate.frame_set_uid == state.reoffer_frame_set_uid
        then reply (some candidate)
        else elim (manifest_of db.manifests uid) [
          | none ↦ runtime_error "relay v2 offered watermark manifest is missing"
          | some watermark ↦ reply (keep_past candidate watermark)
        ]
  ]
]

abbrev pub claimed_row :
    RelayV2ClientState → FrameSetManifest → CreditIdentity → ℕ → RelayV2ClientState
claimed_row row candidate credit timestamp_ms = record row {
  in_flight_frame_set_uid = some candidate.frame_set_uid;
  in_flight_credit_id = some credit.credit_id;
  in_flight_processor_instance_id = some credit.processor_instance_id;
  in_flight_stream_epoch = some credit.stream_epoch;
  in_flight_offered_at_ms = some timestamp_ms;
  watermark_capture_run_id = some candidate.capture_run_id;
  watermark_frame_set_id = some candidate.frame_set_id;
  watermark_frame_set_uid = some candidate.frame_set_uid;
  reoffer_frame_set_uid = none;
  updated_at_ms = timestamp_ms;
}

-- `UPDATE relay_v2_client_state ... WHERE in_flight_frame_set_uid IS NULL`: `none` updates no row.
unfoldable pub claim_row :
    Option RelayV2ClientState → FrameSetManifest → CreditIdentity → ℕ → Option RelayV2ClientState
claim_row none candidate credit timestamp_ms = none
claim_row (some row) candidate credit timestamp_ms =
    if row.in_flight_frame_set_uid == none
    then some (claimed_row row candidate credit timestamp_ms)
    else none

abbrev pub offered : FrameSetDeliveryProjection → ℕ → FrameSetDeliveryProjection
offered p timestamp_ms = record p {
  live_state = "OFFERED";
  last_reason = none;
  updated_at_ms = timestamp_ms;
}

-- `UPDATE frame_set_delivery_projections ...` of an eligible row: `none` updates no row.
unfoldable pub offer_projection :
    Dict FrameSetDeliveryProjection → String → ℕ → Option (Dict FrameSetDeliveryProjection)
offer_projection projections uid timestamp_ms = elim (Dict.get projections uid) [
  | none ↦ none
  | some p ↦
      if is_eligible (some p)
      then some (Dict.put projections uid (offered p timestamp_ms))
      else none
]

-- The two guarded updates of `claim_latest`, on the tables as they are when they run, which another
-- transaction may have changed since the candidate was read. `none` is a rollback.
unfoldable pub take : Tables → FrameSetManifest → CreditIdentity → ℕ → Option Tables
take db candidate credit timestamp_ms =
    elim (claim_row db.client_state candidate credit timestamp_ms) [
      | none ↦ none
      | some row ↦ elim (offer_projection db.projections candidate.frame_set_uid timestamp_ms) [
        | none ↦ none
        | some projections ↦ some (record db { client_state = some row; projections = projections })
      ]
    ]

-- `claim_latest` behind its read of the candidate; `before` are the tables of a rollback.
unfoldable pub claim_candidate :
    Tables
    → Tables
    → FrameSetManifest
    → CreditIdentity
    → ℕ
    → Tables × Reply (Option ClaimedFrameSet)
claim_candidate before db candidate credit timestamp_ms =
    elim (take db candidate credit timestamp_ms) [
      | none ↦ (before, reply none)
      | some after ↦ (after, reply (some (snapshot after candidate credit timestamp_ms)))
    ]

-- `claim_latest`, with the time of the offer.
unfoldable pub claim_latest : Tables → CreditIdentity → ℕ → Tables × Reply (Option ClaimedFrameSet)
claim_latest before credit timestamp_ms =
    let state = ensure_state_row before.client_state timestamp_ms in
    let db : Tables = record before { client_state = some state } in
    elim state.in_flight_frame_set_uid [
      | some uid ↦ (db, reply none)
      | none ↦ elim (newest_eligible db state) [
        | runtime_error e ↦ (before, runtime_error e)
        | value_error e ↦ (before, value_error e)
        | reply none ↦ (db, reply none)
        | reply (some candidate) ↦ claim_candidate before db candidate credit timestamp_ms
      ]
    ]

-- `current_in_flight`
unfoldable pub current_in_flight : Tables → Reply (Option FrameSetKey)
current_in_flight db = elim db.client_state [
  | none ↦ reply none
  | some state ↦ elim state.in_flight_frame_set_uid [
    | none ↦ reply none
    | some uid ↦ elim (manifest_of db.manifests uid) [
      | none ↦ runtime_error "relay v2 in-flight manifest is missing"
      | some manifest ↦ reply (some (manifest_key manifest))
    ]
  ]
]

abbrev keys_of : Reply (Option FrameSetKey) → Reply (List FrameSetKey)
keys_of (reply none) = reply []
keys_of (reply (some key)) = reply (key ∷ [])
keys_of (runtime_error e) = runtime_error e
keys_of (value_error e) = value_error e

abbrev pub unresolved_keys : Tables → Reply (List FrameSetKey)
unresolved_keys db = keys_of (current_in_flight db)

-- `offered_watermark`: the three columns of the watermark, where it is set.
unfoldable pub offered_watermark : Tables → Option (Option String × Option ℕ × String)
offered_watermark db = elim db.client_state [
  | none ↦ none
  | some state ↦ elim state.watermark_frame_set_uid [
    | none ↦ none
    | some uid ↦ some (state.watermark_capture_run_id, state.watermark_frame_set_id, uid)
  ]
]

abbrev snapshot_newest : Tables → Reply (Option FrameSetManifest) → Reply (Option ClaimedFrameSet)
snapshot_newest db (reply none) = reply none
snapshot_newest db (reply (some manifest)) = reply (
    some (
      snapshot db manifest
        (record { processor_instance_id = ""; stream_epoch = ""; credit_id = "" }) 0))
snapshot_newest db (runtime_error e) = runtime_error e
snapshot_newest db (value_error e) = value_error e

abbrev or_zero : Option ℕ → ℕ
or_zero none = 0
or_zero (some n) = n

-- `snapshot_for_hello`
unfoldable pub snapshot_for_hello : Tables → Reply (Option ClaimedFrameSet)
snapshot_for_hello db =
    let state = ensure_state_row db.client_state 0 in
    elim state.in_flight_frame_set_uid [
      | none ↦ snapshot_newest db (newest_eligible db state)
      | some uid ↦ elim (manifest_of db.manifests uid) [
        | none ↦ runtime_error "relay v2 in-flight manifest is missing"
        | some manifest ↦
            let credit : CreditIdentity = record {
              processor_instance_id = or_text state.in_flight_processor_instance_id "";
              stream_epoch = or_text state.in_flight_stream_epoch "";
              credit_id = or_text state.in_flight_credit_id "";
            } in
            reply (some (snapshot db manifest credit (or_zero state.in_flight_offered_at_ms)))
      ]
    ]

-- `has_newer_eligible`
unfoldable pub has_newer_eligible : Tables → FrameSetKey → Bool
has_newer_eligible db key = elim (manifest_of db.manifests key.frame_set_uid) [
  | none ↦ false
  | some current ↦ if not (key_beq (manifest_key current) key) then false else elim (newest db) [
    | none ↦ false
    | some candidate ↦
        if candidate.capture_run_id == key.capture_run_id
        then ltb key.frame_set_id candidate.frame_set_id
        else is_newer candidate current
  ]
]

-- ===== src/Relay/LatestLive/Reports.antt =====
-- What a consumer reports to `LatestLiveStore`: the transitions of the frame set in flight, the
-- retirement of a frame set, and the processing job.
use gc_image_stream.Prelude.{
  ℕ, String, Bool, true, false, not, Option, none, some, List, [], ◌∷◌, any, join, ◌≡◌, refl, ap,
  ◌∙◌, strip, ◌==◌, ◌&&◌, ◌||◌, string_eq, option_eq, if◌then◌else◌,
}
use gc_image_stream.Dict
use gc_image_stream.Dict.{Dict, get-put}
use gc_image_stream.Relay.LatestLive.Tables.{
  FrameSetDeliveryProjection, RelayV2ClientState, Tables, FrameSetKey, manifest_of, manifest_key,
  key_beq, Reply, reply, runtime_error, value_error,
}
use gc_image_stream.Relay.LatestLive.Claims.{ensure_state_row}

-- `_matches_current`: the row whose frame set in flight is the key's.
unfoldable pub matches_current : Tables → FrameSetKey → Option RelayV2ClientState
matches_current db key = elim db.client_state [
  | none ↦ none
  | some state ↦
      if not (state.in_flight_frame_set_uid == some key.frame_set_uid)
      then none
      else elim (manifest_of db.manifests key.frame_set_uid) [
        | none ↦ none
        | some manifest ↦ if key_beq (manifest_key manifest) key then some state else none
      ]
]

abbrev pub released : RelayV2ClientState → RelayV2ClientState
released state = record state {
  in_flight_frame_set_uid = none;
  in_flight_credit_id = none;
  in_flight_processor_instance_id = none;
  in_flight_stream_epoch = none;
  in_flight_offered_at_ms = none;
}

-- The projection of a frame set in a new state. A missing row is an `AttributeError` of the program,
-- which leaves the transaction without a commit: `none`.
unfoldable pub set_live_state :
    Tables → String → String → Option String → ℕ → Option (Dict FrameSetDeliveryProjection)
set_live_state db uid live_state reason timestamp_ms = elim (Dict.get db.projections uid) [
  | none ↦ none
  | some p ↦ some (
      Dict.put db.projections uid
        (record p { live_state = live_state; last_reason = reason; updated_at_ms = timestamp_ms }))
]

abbrev missing_projection : String
missing_projection = "'NoneType' object has no attribute 'live_state'"

-- `_transition_current`
unfoldable pub transition_current :
    Tables → FrameSetKey → String → Option String → Bool → ℕ → Tables × Reply Bool
transition_current db key live_state reason release timestamp_ms = elim (matches_current db key) [
  | none ↦ (db, reply false)
  | some state ↦ elim (set_live_state db key.frame_set_uid live_state reason timestamp_ms) [
    | none ↦ (db, runtime_error missing_projection)
    | some projections ↦
        let state' : RelayV2ClientState = if release then released state else state in
        (
          record db {
            projections = projections;
            client_state = some (record state' { updated_at_ms = timestamp_ms });
          },
          reply true,
        )
  ]
]

unfoldable pub mark_unresolved : Tables → FrameSetKey → String → ℕ → Tables × Reply Bool
mark_unresolved db key reason timestamp_ms =
    transition_current db key "UNRESOLVED" (some reason) false timestamp_ms

abbrev pub remote_states : List String
remote_states =
    "ACCEPTED" ∷ "STARTED" ∷ "REJECTED" ∷ "COMPLETED" ∷ "FAILED" ∷ "RECOVERY_REQUIRED" ∷ []

abbrev pub final_states : List String
final_states = "REJECTED" ∷ "COMPLETED" ∷ "FAILED" ∷ "RECOVERY_REQUIRED" ∷ []

abbrev pub pre_send_states : List String
pre_send_states = "EXPIRED_BEFORE_OFFER" ∷ "REJECTED" ∷ []

-- `apply_remote_status`; `upper` is `str.upper`, a table of the interpreter.
unfoldable pub apply_remote_status :
    (String → String) → Tables → FrameSetKey → String → Option String → ℕ → Tables × Reply Bool
apply_remote_status upper db key state reason timestamp_ms =
    let normalized = upper (strip state) in
    if not (any (λ s. s == normalized) remote_states)
    then (db, value_error (join "" ("unsupported relay v2 status: " ∷ state ∷ [])))
    else transition_current db key normalized reason (any (λ s. s == normalized) final_states)
        timestamp_ms

unfoldable pub release_before_send :
    (String → String) → Tables → FrameSetKey → String → String → ℕ → Tables × Reply Bool
release_before_send upper db key state reason timestamp_ms =
    let normalized = upper (strip state) in
    if not (any (λ s. s == normalized) pre_send_states)
    then (db, value_error (join "" ("unsupported pre-send state: " ∷ state ∷ [])))
    else transition_current db key normalized (some reason) true timestamp_ms

-- The live state of the projection of a frame set, where there is one.
abbrev live_state : Option FrameSetDeliveryProjection → Option String
live_state none = none
live_state (some p) = some p.live_state

abbrev pub live_state_in : Dict FrameSetDeliveryProjection → String → Option String
live_state_in projections uid = live_state (Dict.get projections uid)

abbrev pub live_state_of : Tables → String → Option String
live_state_of db uid = live_state_in db.projections uid

pub live_state-put :
    (d : Dict FrameSetDeliveryProjection) (k j : String) (p : FrameSetDeliveryProjection)
    → live_state_in (Dict.put d k p) j ≡ (if k == j then some p.live_state else live_state_in d j)
live_state-put d k j p = ap live_state (get-put d k j p) ∙ branches (k == j)
  where
    branches :
        (b : Bool)
        → live_state (if b then some p else Dict.get d j)
          ≡ (if b then some p.live_state else live_state_in d j)
    branches true = refl
    branches false = refl

unfoldable pub retire_eligible : Tables → FrameSetKey → String → String → ℕ → Tables × Reply Bool
retire_eligible db key state reason timestamp_ms =
    elim (manifest_of db.manifests key.frame_set_uid) [
      | none ↦ (db, reply false)
      | some manifest ↦
          if not (key_beq (manifest_key manifest) key)
            || not (live_state_of db key.frame_set_uid == some "ELIGIBLE")
          then (db, reply false)
          else elim (set_live_state db key.frame_set_uid state (some reason) timestamp_ms) [
            | none ↦ (db, reply false)
            | some projections ↦ (record db { projections = projections }, reply true)
          ]
    ]

unfoldable pub reconcile_not_found : Tables → FrameSetKey → Bool → ℕ → Tables × Reply Bool
reconcile_not_found db key retry_allowed timestamp_ms = elim (matches_current db key) [
  | none ↦ (db, reply false)
  | some state ↦
      elim (set_live_state db key.frame_set_uid
        (if retry_allowed then "ELIGIBLE" else "SUPERSEDED_BEFORE_OFFER")
        (some (
          if retry_allowed
          then "RECONCILED_NOT_FOUND_RETRY"
          else "RECONCILED_NOT_FOUND_NEWER_AVAILABLE"))
        timestamp_ms) [
          | none ↦ (db, runtime_error missing_projection)
          | some projections ↦ (
            record db {
              projections = projections;
              client_state = some (record (released state) {
                reoffer_frame_set_uid = if retry_allowed then some key.frame_set_uid else none;
                updated_at_ms = timestamp_ms;
              });
            },
            reply true,
          )
        ]
]

-- `processing_job_for`
unfoldable pub processing_job_for : Tables → String → Option String
processing_job_for db capture_run_id = elim db.client_state [
  | none ↦ none
  | some state ↦
      if state.processing_job_capture_run_id == some capture_run_id
      then state.processing_job_id
      else none
]

-- `bind_processing_job`
unfoldable pub bind_processing_job : Tables → String → String → ℕ → Tables × Reply Unit
bind_processing_job db capture_run_id processing_job_id timestamp_ms =
    let state = ensure_state_row db.client_state timestamp_ms in
    if capture_run_id == "" || processing_job_id == ""
    then (db, value_error "capture run and processing job IDs are required")
    else if state.processing_job_capture_run_id == some capture_run_id
        && not (state.processing_job_id == none)
        && not (state.processing_job_id == some processing_job_id)
    then (db, runtime_error "processing job changed within one capture run")
    else (
      record db {
        client_state = some (record state {
          processing_job_capture_run_id = some capture_run_id;
          processing_job_id = some processing_job_id;
          updated_at_ms = timestamp_ms;
        });
      },
      reply tt,
    )

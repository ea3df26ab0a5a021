-- ===== src/Tests/Archive.antt =====
-- Concrete runs of app/services/sync/manifest_store.py.
use gc_image_stream.Prelude.{ℕ, String, Bool, true, false, none, some, [], ◌∷◌, ◌≡◌, refl, inl, All}
use gc_image_stream.Prelude.Sorting
use gc_image_stream.Dict
use gc_image_stream.Sync.Models.{StoredSyncFrame, SynchronizedFrameSet}
use gc_image_stream.Relay.LatestLive.Tables.{
  Tables, CreditIdentity, ClaimedFrameSet, manifest_of, reply,
}
use gc_image_stream.Relay.LatestLive.Claims.{claim_latest, ensure_state_row}
use gc_image_stream.Archive.Checks
use gc_image_stream.Archive.Rows
use gc_image_stream.Archive.Store
use gc_image_stream.Archive.Rows.{
  Archive, CaptureSession, CaptureRun, manifest_row, new_delivery_projection,
}
use gc_image_stream.Archive.Store.{
  Outcome, done, waiting_rows, newer_eligible_exists, persist_frame_set_manifest,
}
use gc_image_stream.Archive.Superseding.{IsSuperseding, persist-supersedes}
use gc_image_stream.Archive.Persisting.{persist-twice}
use gc_image_stream.Archive.Offering.{persist-offered}
use gc_image_stream.Archive.Durable.{IsOnlyOpen, persist-keeps, persist-closes}

abbrev member : String → StoredSyncFrame
member camera = record {
  frame_id = some 1;
  device_id = camera;
  timestamp_ms = 100;
  sequence = some 1;
  content_type = "image/jpeg";
  image_bytes = 1 ∷ [];
  image_size = 1;
  file_path = some "path";
  buffer_key = camera;
  source_session_id = some "s";
  camera_stream_id = some camera;
  source_frame_uid = some camera;
  content_digest = some "aa";
  identity_mode = "V2";
  archive_state = "ARCHIVE_DURABLE";
  archive_error = none;
  received_at_ms = some 100;
  capture_config_digest = none;
  capture_metadata_json = none;
  tenant_id = none;
  site_id = none;
  capture_session_id = none;
  processing_job_id = none;
  profile_digest = none;
  authorized_subject = none;
  session_token_jti = none;
  authorized_camera_id = none;
  camera_claim_id = none;
}

abbrev frame_set : String → ℕ → ℕ → SynchronizedFrameSet
frame_set uid number at_ms = record {
  frame_set_id = number;
  anchor_timestamp_ms = 100;
  max_delta_ms = 5;
  frames = (uid, record (member uid) { source_frame_uid = some uid }) ∷ [];
  span_ms = some 5;
  capture_session_id = some "session";
  capture_run_id = some "run";
  frame_set_uid = some uid;
  manifest_digest = some uid;
  manifest_json = some "{}";
  identity_mode = "V2";
  archive_state = "ARCHIVE_DURABLE";
  archive_error = none;
  sync_window_ms = 50;
  synchronized_at_ms = at_ms;
  member_count = 1;
  tenant_id = none;
  site_id = none;
  processing_job_id = none;
  profile_digest = none;
  authorized_subject = none;
  session_token_jti = none;
}

-- A frame set of an earlier session waits.
abbrev archive : Archive
archive = record {
  live = record {
    manifests = manifest_row (frame_set "a" 1 100) 100 ∷ [];
    members = [];
    projections = ("a", new_delivery_projection 100 "ELIGIBLE" none) ∷ [];
    client_state = none;
  };
  sessions =
      record {
        id = "old";
        state = "OPEN";
        source_sessions_json = "[]";
        started_at_ms = 1;
        closed_at_ms = none;
        close_reason = none;
      }
      ∷ [];
  runs = [];
}

abbrev later : SynchronizedFrameSet
later = frame_set "b" 2 200

abbrev stored : Archive × Outcome Bool
stored = persist_frame_set_manifest archive later none 210

stored_lem : stored ≡ (stored.0, done true)
unfolding persist_frame_set_manifest Checks.validate_v2_frame_set manifest_of manifest_row
    Store.persist_new Store.roll_runs Store.conflicts Dict.has Rows.member_rows Sorting.sorted
stored_lem = refl

is_newest : newer_eligible_exists archive later ≡ false
unfolding Dict.get manifest_row
is_newest = refl

persist-supersedes_example : IsSuperseding archive later 210 "a" stored.0
persist-supersedes_example = persist-supersedes archive later none 210 "a" stored_lem

persist-twice_example :
    (manifest_of stored.0.live.manifests "b" ≡ some (manifest_row later 210))
    × (persist_frame_set_manifest stored.0 later (some 5) 300 ≡ (stored.0, done false))
persist-twice_example = persist-twice archive later none (some 5) 210 300 stored_lem

persist-keeps_example :
    manifest_of stored.0.live.manifests "a" ≡ some (manifest_row (frame_set "a" 1 100) 100)
unfolding manifest_of manifest_row
persist-keeps_example = persist-keeps archive later none 210 "a" refl

persist-closes_example :
    All (λ (row : CaptureSession). IsOnlyOpen "session" row.state row.id) stored.0.sessions
    × All (λ (row : CaptureRun). IsOnlyOpen "run" row.state row.id) stored.0.runs
persist-closes_example = persist-closes archive later none 210 stored_lem

abbrev credit : CreditIdentity
credit = record {
  processor_instance_id = "processor";
  stream_epoch = "epoch";
  credit_id = "credit";
}

persist-offered_example :
    (tables : Tables) × (claimed : ClaimedFrameSet) × (claim_latest stored.0.live credit 400
      ≡ (tables, reply (some claimed)))
    × (claimed.key ≡ record { capture_run_id = "run"; frame_set_id = 2; frame_set_uid = "b" })
unfolding ensure_state_row persist_frame_set_manifest Checks.validate_v2_frame_set manifest_of
    manifest_row Store.persist_new Store.roll_runs Store.conflicts Dict.has Rows.member_rows
    Sorting.sorted Store.insert_frame_set
persist-offered_example =
    persist-offered archive later none 210 credit 400 stored_lem is_newest refl (inl refl)

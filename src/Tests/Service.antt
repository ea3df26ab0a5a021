-- ===== src/Tests/Service.antt =====
-- A run of `StreamSyncService` (app/services/sync/service.py) over the frames of two cameras.
use gc_image_stream.Prelude.{
  ℕ, String, str, join, length, none, some, List, [], ◌∷◌, ◌≡◌, refl, true, ◌+◌,
}
use gc_image_stream.External.{External}
use gc_image_stream.Identity.{identity_mode_v2}
use gc_image_stream.Sync.Models.{SyncInputFrame, archive_pending}
use gc_image_stream.Sync.Matcher.{Matcher, new_matcher}
use gc_image_stream.Sync.Service.{Service}
use gc_image_stream.Sync.Service.Runs.{Call, IsActive, IsLater, handle_all, handle_all-IsLater}

abbrev hashes : External
hashes = record {
  sha256_hexdigest = λ b. join "" ("digest-" ∷ str (length b) ∷ []);
  uuid5 = λ namespace name. join ":" (namespace ∷ name ∷ []);
  encode_utf8 = λ s. 1 ∷ 2 ∷ [];
}

abbrev received : String → ℕ → ℕ → SyncInputFrame
received camera timestamp_ms sequence = record {
  frame_id = none;
  device_id = camera;
  timestamp_ms = timestamp_ms;
  sequence = some sequence;
  content_type = "image/jpeg";
  image_bytes = 1 ∷ 2 ∷ 3 ∷ [];
  file_path = none;
  source_session_id = some (join "-" ("session" ∷ camera ∷ []));
  camera_stream_id = some camera;
  source_frame_uid = some (join ":" (camera ∷ str timestamp_ms ∷ []));
  content_digest = some "aa";
  identity_mode = identity_mode_v2;
  archive_state = archive_pending;
  archive_error = none;
  received_at_ms = some timestamp_ms;
  capture_config_digest = none;
  capture_metadata_json = none;
  tenant_id = none;
  site_id = none;
  capture_session_id = none;
  processing_job_id = none;
  profile_digest = none;
  authorized_subject = none;
  session_token_jti = none;
  authorized_camera_id = none;
  camera_claim_id = none;
}

abbrev matcher : Matcher
matcher = new_matcher ("left" ∷ "right" ∷ []) 50 20 "run-1"

abbrev service : Service
service = record {
  enabled = true;
  expected_cameras = "left" ∷ "right" ∷ [];
  window_ms = 50;
  buffer_manager = record {
    buffer_size = 4;
    buffers = [];
    frames_by_key = [];
    received_count = 0;
    duplicate_frame_count = 0;
    out_of_order_frame_count = 0;
    evicted_frame_count = 0;
  };
  matcher = some matcher;
}

abbrev called : SyncInputFrame → Call
called frame = record { frame = frame; fresh_run = "run-2"; now_ms = 1000 }

-- Two pairs of frames, all handled at one time of the clock; the fourth is a duplicate.
abbrev calls : List Call
calls =
    called (received "left" 100 1)
    ∷ called (received "right" 110 1)
    ∷ called (received "left" 200 2)
    ∷ called (received "left" 200 2)
    ∷ called (received "right" 205 2)
    ∷ []

handle_all-IsLater_example :
    (y : Matcher) × IsActive (handle_all hashes service calls).0 y
    × (y.matched_count ≡ 0 + length (handle_all hashes service calls).1)
    × IsLater 0 (handle_all hashes service calls).1
handle_all-IsLater_example = handle_all-IsLater hashes service matcher calls (refl, refl)

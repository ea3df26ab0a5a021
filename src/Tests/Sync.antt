-- ===== src/Tests/Sync.antt =====
-- Concrete runs of the program that the theorems apply to.
use gc_image_stream.Prelude.{
  ℕ, String, str, strip, join, length, Option, none, some, List, [], ◌∷◌, ◌≡◌, refl, ◌≤◌, ◌<◌, ◌+◌,
  All, inl, inr, ◌⊎◌, arith, keep_if, is_nil, true,
}
use gc_image_stream.Dict
use gc_image_stream.Dict.{Dict}
use gc_image_stream.Prelude.Sorting
use gc_image_stream.Identity
use gc_image_stream.Json
use gc_image_stream.Sync.Selection
use gc_image_stream.Sync.Buffer
use gc_image_stream.Sync.Manager
use gc_image_stream.Sync.Matcher
use gc_image_stream.Sync.CaptureIdentity.{CaptureIdentity, resolve_capture_identity}
use gc_image_stream.Sync.CaptureIdentity.Agreement.{AgreesOn, resolve-AgreesOn}
use gc_image_stream.Sync.Selection.{select_min_span_candidate}
use gc_image_stream.Sync.Manager.Available.{buffered}
use gc_image_stream.Sync.Selection.Optimal.{HasFrameIn, PicksIn, missing-select, select_complete}
use gc_image_stream.Sync.Matching.Guarantees.{
  try_match-PicksIn, try_match-shortest, try_match-consumes,
}
use gc_image_stream.Sync.Matching.Order.{try_match-ordered}
use gc_image_stream.Sync.Matching.Counts.{CountsOnce, try_match-CountsOnce}
use gc_image_stream.Sync.Manifest
use gc_image_stream.Sync.CaptureIdentity
use gc_image_stream.External.{External}
use gc_image_stream.Identity.{identity_mode_v2}
use gc_image_stream.Sync.Models.{StoredSyncFrame, SynchronizedFrameSet, archive_pending}
use gc_image_stream.Sync.Buffer.{CameraSyncBuffer, new_buffer}
use gc_image_stream.Sync.Manager.{Manager}
use gc_image_stream.Sync.Matcher.{
  Matcher, Outcome, new_matcher, try_match, result_of, manager_after, matcher_after,
}

abbrev hashes : External
hashes = record {
  sha256_hexdigest = λ b. join "" ("digest-" ∷ str (length b) ∷ []);
  uuid5 = λ namespace name. join ":" (namespace ∷ name ∷ []);
  encode_utf8 = λ s. 1 ∷ 2 ∷ [];
}

abbrev frame_at : String → ℕ → ℕ → StoredSyncFrame
frame_at camera timestamp_ms sequence = record {
  frame_id = none;
  device_id = camera;
  timestamp_ms = timestamp_ms;
  sequence = some sequence;
  content_type = "image/jpeg";
  image_bytes = 1 ∷ 2 ∷ 3 ∷ [];
  image_size = 3;
  file_path = none;
  buffer_key = join ":" (camera ∷ str timestamp_ms ∷ []);
  source_session_id = some (join "-" ("session" ∷ camera ∷ []));
  camera_stream_id = some camera;
  source_frame_uid = some (join ":" ("frame" ∷ camera ∷ str timestamp_ms ∷ []));
  content_digest = some "aa";
  identity_mode = identity_mode_v2;
  archive_state = archive_pending;
  archive_error = none;
  received_at_ms = some timestamp_ms;
  capture_config_digest = none;
  capture_metadata_json = none;
  tenant_id = none;
  site_id = none;
  capture_session_id = none;
  processing_job_id = none;
  profile_digest = none;
  authorized_subject = none;
  session_token_jti = none;
  authorized_camera_id = none;
  camera_claim_id = none;
}

abbrev left_frames : List StoredSyncFrame
left_frames = frame_at "left" 100 1 ∷ frame_at "left" 130 2 ∷ frame_at "left" 300 3 ∷ []

abbrev right_frames : List StoredSyncFrame
right_frames = frame_at "right" 70 1 ∷ frame_at "right" 135 2 ∷ []

abbrev buffer_with : List StoredSyncFrame → CameraSyncBuffer
buffer_with frames = record (new_buffer 4) { frames = frames }

abbrev buffers : Manager
buffers = record {
  buffer_size = 4;
  buffers = ("left", buffer_with left_frames) ∷ ("right", buffer_with right_frames) ∷ [];
  frames_by_key = [];
  received_count = 5;
  duplicate_frame_count = 0;
  out_of_order_frame_count = 0;
  evicted_frame_count = 0;
}

abbrev cameras : List String
cameras = "left" ∷ "right" ∷ []

abbrev matcher : Matcher
matcher = new_matcher cameras 50 20 "run-1"

abbrev trigger : StoredSyncFrame
trigger = frame_at "right" 135 2

abbrev outcome : Outcome
outcome = try_match hashes buffers matcher trigger "run-2" 1000

abbrev some_or : SynchronizedFrameSet → Option SynchronizedFrameSet → SynchronizedFrameSet
some_or d none = d
some_or d (some fs) = fs

abbrev no_set : SynchronizedFrameSet
no_set = record {
  frame_set_id = 0;
  anchor_timestamp_ms = 0;
  max_delta_ms = 0;
  frames = [];
  span_ms = none;
  capture_session_id = none;
  capture_run_id = none;
  frame_set_uid = none;
  manifest_digest = none;
  manifest_json = none;
  identity_mode = "";
  archive_state = "";
  archive_error = none;
  sync_window_ms = 0;
  synchronized_at_ms = 0;
  member_count = 0;
  tenant_id = none;
  site_id = none;
  processing_job_id = none;
  profile_digest = none;
  authorized_subject = none;
  session_token_jti = none;
}

abbrev emitted : SynchronizedFrameSet
emitted = some_or no_set (result_of outcome)

-- The frames at 130 and 135 are matched.
emitted_lem :
    outcome ≡ Matcher.returned (manager_after outcome) (matcher_after outcome) (some emitted)
unfolding try_match Matcher.match_expected Selection.select_min_span_candidate Selection.gather
    Manager.available_frames Dict.get Buffer.available_frames Sorting.sorted Selection.select_from
    Selection.start Dict.put Selection.advance Selection.item_lt Selection.total
    Matcher.match_selected CaptureIdentity.resolve_capture_identity
    Identity.build_capture_session_id Identity.build_frame_set_uid Identity.build_manifest_digest
    Identity.map_result Identity.required_text Identity.session_members Json.canonical_json
    Sorting.insert Buffer.drop_frames_older_than Buffer.last_n CaptureIdentity.authorize
    CaptureIdentity.has_full_scope CaptureIdentity.has_scope CaptureIdentity.session_for
    Manager.consume_buffer Manager.consume_through Manager.drop_device
    Manager.drop_frames_older_than Manager.latest_from Manager.latest_timestamps
    Manifest.build_manifest_payload Matcher.begin_run Matcher.build_frame_set
    Matcher.drop_stale_frames Matcher.emit Matcher.finish_match Matcher.frame_set_of
    Matcher.record_match Matcher.starts_run join str strip
emitted_lem = refl

member_lem : Dict.get emitted.frames "left" ≡ some (frame_at "left" 130 2)
unfolding try_match Matcher.match_expected Selection.select_min_span_candidate Selection.gather
    Manager.available_frames Dict.get Buffer.available_frames Sorting.sorted Selection.select_from
    Selection.start Dict.put Selection.advance Selection.item_lt Selection.total
    Matcher.match_selected CaptureIdentity.resolve_capture_identity
    Identity.build_capture_session_id Identity.build_frame_set_uid Identity.build_manifest_digest
    Identity.map_result Identity.required_text Identity.session_members Json.canonical_json
    Sorting.insert Buffer.drop_frames_older_than Buffer.last_n CaptureIdentity.authorize
    CaptureIdentity.has_full_scope CaptureIdentity.has_scope CaptureIdentity.session_for
    Manager.consume_buffer Manager.consume_through Manager.drop_device
    Manager.drop_frames_older_than Manager.latest_from Manager.latest_timestamps
    Manifest.build_manifest_payload Matcher.begin_run Matcher.build_frame_set
    Matcher.drop_stale_frames Matcher.emit Matcher.finish_match Matcher.frame_set_of
    Matcher.record_match Matcher.starts_run join str strip
member_lem = refl

try_match-PicksIn_example :
    (emitted.max_delta_ms ≤ 50)
    × (lo : ℕ) × All (PicksIn buffers cameras lo (lo + emitted.max_delta_ms) emitted.frames) cameras
try_match-PicksIn_example =
    try_match-PicksIn hashes buffers matcher trigger "run-2" 1000 emitted_lem

-- Both cameras have a frame from 100 to 135.
both_in : All (HasFrameIn buffers cameras 100 135) cameras
unfolding Dict.get
both_in = (inl (ground arith, ground arith), (inr (inl (ground arith, ground arith)), tt))

try_match-shortest_example : emitted.max_delta_ms ≤ 35
try_match-shortest_example =
    try_match-shortest hashes buffers matcher trigger "run-2" 1000 emitted_lem 100 135 both_in

try_match-consumes_example :
    All (λ f. 130 < f.timestamp_ms) (buffered (manager_after outcome) "left")
try_match-consumes_example =
    try_match-consumes hashes buffers matcher trigger "run-2" 1000 emitted_lem "left"
      (frame_at "left" 130 2) member_lem

try_match-ordered_example :
    (0 < emitted.synchronized_at_ms)
    × (1000 ≤ emitted.synchronized_at_ms)
    × ((matcher_after outcome).last_synchronized_at_ms ≡ emitted.synchronized_at_ms)
    × (emitted.capture_run_id ≡ some (matcher_after outcome).capture_run_id)
    × ((matcher_after outcome).next_frame_set_id ≡ emitted.frame_set_id + 1)
    × ((((matcher_after outcome).capture_run_id ≡ "run-1") × (emitted.frame_set_id ≡ 1))
        ⊎ (((matcher_after outcome).capture_run_id ≡ "run-2") × (emitted.frame_set_id ≡ 1)))
try_match-ordered_example =
    try_match-ordered hashes buffers matcher trigger "run-2" 1000 emitted_lem

try_match-CountsOnce_example : CountsOnce matcher outcome
try_match-CountsOnce_example = try_match-CountsOnce hashes buffers matcher trigger "run-2" 1000

select_complete_example :
    (fs : Dict StoredSyncFrame) × (span : ℕ) × (select_min_span_candidate buffers cameras 50
      ≡ (some (fs, span), []))
select_complete_example =
    select_complete buffers cameras 50 100 135 (λ e. ground (arith, e)) both_in (ground arith)

missing-select_example :
    (select_min_span_candidate buffers ("left" ∷ "door" ∷ []) 50).1
    ≡ keep_if (λ d. is_nil (buffered buffers d)) ("left" ∷ "door" ∷ [])
missing-select_example = missing-select buffers ("left" ∷ "door" ∷ []) 50

abbrev pair : List StoredSyncFrame
pair = frame_at "left" 130 2 ∷ frame_at "right" 135 2 ∷ []

abbrev no_identity : CaptureIdentity
no_identity = record {
  identity_mode = "";
  capture_session_id = none;
  capture_config_key = none;
  authorization_key = none;
}

abbrev identity_or : CaptureIdentity.Resolved CaptureIdentity → CaptureIdentity
identity_or (CaptureIdentity.ok ci) = ci
identity_or _ = no_identity

abbrev identity : CaptureIdentity
identity = identity_or (resolve_capture_identity hashes pair)

identity_lem : resolve_capture_identity hashes pair ≡ CaptureIdentity.ok identity
unfolding try_match Matcher.match_expected Selection.select_min_span_candidate Selection.gather
    Manager.available_frames Dict.get Buffer.available_frames Sorting.sorted Selection.select_from
    Selection.start Dict.put Selection.advance Selection.item_lt Selection.total
    Matcher.match_selected CaptureIdentity.resolve_capture_identity
    Identity.build_capture_session_id Identity.build_frame_set_uid Identity.build_manifest_digest
    Identity.map_result Identity.required_text Identity.session_members Json.canonical_json
    Sorting.insert Buffer.drop_frames_older_than Buffer.last_n CaptureIdentity.authorize
    CaptureIdentity.has_full_scope CaptureIdentity.has_scope CaptureIdentity.session_for
    Manager.consume_buffer Manager.consume_through Manager.drop_device
    Manager.drop_frames_older_than Manager.latest_from Manager.latest_timestamps
    Manifest.build_manifest_payload Matcher.begin_run Matcher.build_frame_set
    Matcher.drop_stale_frames Matcher.emit Matcher.finish_match Matcher.frame_set_of
    Matcher.record_match Matcher.starts_run join str strip
identity_lem = refl

identity_mode_lem : identity.identity_mode ≡ identity_mode_v2
unfolding try_match Matcher.match_expected Selection.select_min_span_candidate Selection.gather
    Manager.available_frames Dict.get Buffer.available_frames Sorting.sorted Selection.select_from
    Selection.start Dict.put Selection.advance Selection.item_lt Selection.total
    Matcher.match_selected CaptureIdentity.resolve_capture_identity
    Identity.build_capture_session_id Identity.build_frame_set_uid Identity.build_manifest_digest
    Identity.map_result Identity.required_text Identity.session_members Json.canonical_json
    Sorting.insert Buffer.drop_frames_older_than Buffer.last_n CaptureIdentity.authorize
    CaptureIdentity.has_full_scope CaptureIdentity.has_scope CaptureIdentity.session_for
    Manager.consume_buffer Manager.consume_through Manager.drop_device
    Manager.drop_frames_older_than Manager.latest_from Manager.latest_timestamps
    Manifest.build_manifest_payload Matcher.begin_run Matcher.build_frame_set
    Matcher.drop_stale_frames Matcher.emit Matcher.finish_match Matcher.frame_set_of
    Matcher.record_match Matcher.starts_run join str strip
identity_mode_lem = refl

resolve-AgreesOn_example :
    All (λ f. CaptureIdentity.has_v2_identity f ≡ true) pair × AgreesOn pair identity
resolve-AgreesOn_example = resolve-AgreesOn hashes pair identity_lem identity_mode_lem

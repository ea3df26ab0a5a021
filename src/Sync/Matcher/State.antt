-- ===== src/Sync/Matcher/State.antt =====
-- `SyncMatcher` of app/services/sync/matcher.py: the state of a matcher and its status.
use gc_image_stream.Prelude.{
  ℕ, String, Option, none, some, List, [], nat_eq, string_eq, option_eq, pair_eq,
}
use gc_image_stream.Sync.Models.{SynchronizedFrameSet}
use gc_image_stream.Sync.CaptureIdentity.{AuthorizationKey}

pub record Matcher : Type 0 where
  pub expected_cameras : List String
  pub window_ms : ℕ
  pub recent_limit : ℕ
  pub next_frame_set_id : ℕ
  pub capture_session_id : Option String
  pub capture_config_key : Option (List (String × String))
  pub authorization_key : Option AuthorizationKey
  pub capture_run_id : String
  pub last_synchronized_at_ms : ℕ
  pub recent_frame_sets : List SynchronizedFrameSet
  pub matched_count : ℕ
  pub missed_count : ℕ
  pub duplicate_count : ℕ
  pub ignored_count : ℕ
  pub last_frame_set_id : Option ℕ
  pub last_anchor_timestamp_ms : Option ℕ
  pub last_max_delta_ms : Option ℕ
  pub last_span_ms : Option ℕ
  pub last_watermark_timestamp_ms : Option ℕ
  pub dropped_stale_count : ℕ
  pub dropped_superseded_count : ℕ
  pub last_missing_cameras : List String
  pub last_reason : Option String
  pub last_identity_mode : Option String
  pub legacy_identity_count : ℕ
  pub last_archive_state : Option String
  pub last_archive_error : Option String
  pub archive_degraded_count : ℕ

-- `SyncMatcher(...)`, with the `uuid4` of its first capture run.
abbrev pub new_matcher : List String → ℕ → ℕ → String → Matcher
new_matcher expected_cameras window_ms recent_limit run = record {
  expected_cameras = expected_cameras;
  window_ms = window_ms;
  recent_limit = recent_limit;
  next_frame_set_id = 1;
  capture_session_id = none;
  capture_config_key = none;
  authorization_key = none;
  capture_run_id = run;
  last_synchronized_at_ms = 0;
  recent_frame_sets = [];
  matched_count = 0;
  missed_count = 0;
  duplicate_count = 0;
  ignored_count = 0;
  last_frame_set_id = none;
  last_anchor_timestamp_ms = none;
  last_max_delta_ms = none;
  last_span_ms = none;
  last_watermark_timestamp_ms = none;
  dropped_stale_count = 0;
  dropped_superseded_count = 0;
  last_missing_cameras = [];
  last_reason = none;
  last_identity_mode = none;
  legacy_identity_count = 0;
  last_archive_state = none;
  last_archive_error = none;
  archive_degraded_count = 0;
}

-- `status`
pub record MatcherStatus : Type 0 where
  pub matched_count : ℕ
  pub missed_count : ℕ
  pub duplicate_count : ℕ
  pub ignored_count : ℕ
  pub last_frame_set_id : Option ℕ
  pub last_anchor_timestamp_ms : Option ℕ
  pub last_max_delta_ms : Option ℕ
  pub last_span_ms : Option ℕ
  pub watermark_timestamp_ms : Option ℕ
  pub dropped_stale_count : ℕ
  pub dropped_superseded_count : ℕ
  pub last_missing_cameras : List String
  pub last_reason : Option String
  pub capture_session_id : Option String
  pub capture_run_id : Option String
  pub last_identity_mode : Option String
  pub legacy_identity_count : ℕ
  pub last_archive_state : Option String
  pub last_archive_error : Option String
  pub archive_degraded_count : ℕ

abbrev pub matcher_status : Matcher → MatcherStatus
matcher_status x = record {
  matched_count = x.matched_count;
  missed_count = x.missed_count;
  duplicate_count = x.duplicate_count;
  ignored_count = x.ignored_count;
  last_frame_set_id = x.last_frame_set_id;
  last_anchor_timestamp_ms = x.last_anchor_timestamp_ms;
  last_max_delta_ms = x.last_max_delta_ms;
  last_span_ms = x.last_span_ms;
  watermark_timestamp_ms = x.last_watermark_timestamp_ms;
  dropped_stale_count = x.dropped_stale_count;
  dropped_superseded_count = x.dropped_superseded_count;
  last_missing_cameras = x.last_missing_cameras;
  last_reason = x.last_reason;
  capture_session_id = x.capture_session_id;
  capture_run_id = some x.capture_run_id;
  last_identity_mode = x.last_identity_mode;
  legacy_identity_count = x.legacy_identity_count;
  last_archive_state = x.last_archive_state;
  last_archive_error = x.last_archive_error;
  archive_degraded_count = x.archive_degraded_count;
}

-- ===== src/Sync/Matcher/Build.antt =====
-- `SyncMatcher` of app/services/sync/matcher.py: the frame set that is built, and the counters.
use gc_image_stream.Prelude.{
  ℕ, ◌+◌, ◌-◌, String, Bool, true, false, not, ◌&&◌, ◌||◌, Option, none, some, List, [], ◌∷◌, map,
  max, length, any, keep_if, distinct, maximum, minimum, join, or_text, ◌==◌, nat_eq, string_eq,
  option_eq, pair_eq, if◌then◌else◌, str_ltb,
}
use gc_image_stream.Prelude.Sorting.{sorted}
use gc_image_stream.Dict
use gc_image_stream.Dict.{Dict}
use gc_image_stream.External.{External}
use gc_image_stream.Identity
use gc_image_stream.Identity.{
  identity_mode_v2, identity_mode_legacy, build_manifest_digest, build_frame_set_uid,
}
use gc_image_stream.Json.{Json, canonical_json}
use gc_image_stream.Sync.Models.{
  StoredSyncFrame, SynchronizedFrameSet, archive_pending, archive_degraded,
}
use gc_image_stream.Sync.Buffer.{push}
use gc_image_stream.Sync.Manager
use gc_image_stream.Sync.Manager.{Manager}
use gc_image_stream.Sync.CaptureIdentity
use gc_image_stream.Sync.CaptureIdentity.{
  AuthorizationKey, CaptureIdentity, resolve_capture_identity,
}
use gc_image_stream.Sync.Manifest.{build_manifest_payload}
use gc_image_stream.Sync.Matcher.State.{Matcher}

unfoldable pub record_miss : Matcher → StoredSyncFrame → String → List String → Matcher
record_miss x trigger reason missing = record x {
  missed_count = x.missed_count + 1;
  last_anchor_timestamp_ms = some trigger.timestamp_ms;
  last_missing_cameras = missing;
  last_reason = some reason;
}

-- `_drop_stale_frames`. Where the window is longer than the watermark, the bound stops at 0 here and
-- is negative in the program: no timestamp is below either.
unfoldable pub drop_stale_frames : Manager → Matcher → Manager × Matcher
drop_stale_frames m x =
    let latest = Manager.latest_timestamps m x.expected_cameras in
    if not (length latest == length x.expected_cameras)
    then (m, x)
    else let watermark = minimum (Dict.values latest) in
      let (m', dropped) =
        Manager.drop_frames_older_than m x.expected_cameras (watermark - x.window_ms) [] in
      (
        m',
        record x {
          last_watermark_timestamp_ms = some watermark;
          dropped_stale_count = x.dropped_stale_count + dropped;
        },
      )

abbrev pub is_degraded : StoredSyncFrame → Bool
is_degraded f = f.archive_state == archive_degraded

-- The state and the error of the archive of a frame set with these members.
abbrev pub set_archive_state : List StoredSyncFrame → String
set_archive_state frames = if any is_degraded frames then archive_degraded else archive_pending

abbrev pub set_archive_error : List StoredSyncFrame → Option String
set_archive_error frames =
    if any is_degraded frames
    then some (
        join "; " (
          sorted str_ltb (
            distinct (
              map (λ (f : StoredSyncFrame). or_text f.archive_error "member archive unavailable")
                (keep_if is_degraded frames)))))
    else none

-- `list` comparison of the configuration keys.
abbrev pub list_beq : List (String × String) → List (String × String) → Bool
list_beq [] [] = true
list_beq [] (q ∷ qs) = false
list_beq (p ∷ ps) [] = false
list_beq (p ∷ ps) (q ∷ qs) = p == q && list_beq ps qs

abbrev config_beq : Option (List (String × String)) → Option (List (String × String)) → Bool
config_beq none none = true
config_beq none (some b) = false
config_beq (some a) none = false
config_beq (some a) (some b) = list_beq a b

-- The capture session, its configuration or its authorization is another one than before.
unfoldable pub starts_run : Matcher → CaptureIdentity → Bool
starts_run x ci =
    CaptureIdentity.is_some ci.capture_session_id
    && CaptureIdentity.is_some x.capture_session_id
    && (not (ci.capture_session_id == x.capture_session_id)
        || not (config_beq ci.capture_config_key x.capture_config_key)
        || not (ci.authorization_key == x.authorization_key))

abbrev adopt_session : Matcher → CaptureIdentity → Matcher
adopt_session x ci =
    if CaptureIdentity.is_some ci.capture_session_id
    then record x {
      capture_session_id = ci.capture_session_id;
      capture_config_key = ci.capture_config_key;
      authorization_key = ci.authorization_key;
    }
    else x

unfoldable pub begin_run : Matcher → CaptureIdentity → String → Matcher
begin_run x ci fresh_run =
    adopt_session
      (if starts_run x ci
        then record x { capture_run_id = fresh_run; next_frame_set_id = 1 }
        else x)
      ci

abbrev of_group : (AuthorizationKey → Option String) → Option AuthorizationKey → Option String
of_group f none = none
of_group f (some key) = f key

abbrev some_of : Identity.Result String → Identity.Result (Option String)
some_of (Identity.ok s) = Identity.ok (some s)
some_of (Identity.value_error e) = Identity.value_error e

abbrev uid_for : External → String → String → Identity.Result (Option String)
uid_for ext mode digest =
    if mode == identity_mode_v2 then some_of (build_frame_set_uid ext digest) else Identity.ok none

-- `max(int(time.time() * 1000), self._last_synchronized_at_ms + 1)`
abbrev pub synchronized_at : Matcher → ℕ → ℕ
synchronized_at x now_ms = max now_ms (x.last_synchronized_at_ms + 1)

abbrev pub anchor_of : Dict StoredSyncFrame → ℕ
anchor_of selected = maximum (map (λ (f : StoredSyncFrame). f.timestamp_ms) (Dict.values selected))

-- The payload of the manifest of the selected frames.
abbrev pub payload_of : Matcher → CaptureIdentity → Dict StoredSyncFrame → ℕ → Json
payload_of x ci selected span_ms =
    build_manifest_payload ci.capture_session_id selected ci.identity_mode x.window_ms span_ms
      (anchor_of selected) ci.authorization_key

-- The `SynchronizedFrameSet` of the selected frames.
unfoldable pub frame_set_of :
    External
    → Matcher
    → CaptureIdentity
    → Dict StoredSyncFrame
    → ℕ
    → ℕ
    → Option String
    → SynchronizedFrameSet
frame_set_of ext x ci selected span_ms now_ms uid = record {
  frame_set_id = x.next_frame_set_id;
  anchor_timestamp_ms = anchor_of selected;
  max_delta_ms = span_ms;
  frames = selected;
  span_ms = some span_ms;
  capture_session_id = ci.capture_session_id;
  capture_run_id = some x.capture_run_id;
  frame_set_uid = uid;
  manifest_digest = some (build_manifest_digest ext (payload_of x ci selected span_ms));
  manifest_json = some (canonical_json (payload_of x ci selected span_ms));
  identity_mode = ci.identity_mode;
  archive_state = set_archive_state (Dict.values selected);
  archive_error = set_archive_error (Dict.values selected);
  sync_window_ms = x.window_ms;
  synchronized_at_ms = synchronized_at x now_ms;
  member_count = length selected;
  tenant_id = of_group (λ k. k.0.0) ci.authorization_key;
  site_id = of_group (λ k. k.0.1.0) ci.authorization_key;
  processing_job_id = of_group (λ k. k.0.1.1.1.0) ci.authorization_key;
  profile_digest = of_group (λ k. k.0.1.1.1.1) ci.authorization_key;
  authorized_subject = of_group (λ k. k.1.0) ci.authorization_key;
  session_token_jti = of_group (λ k. k.1.1) ci.authorization_key;
}

-- The frame set that a matcher in its run builds from the selected frames.
unfoldable pub build_frame_set :
    External
    → Matcher
    → CaptureIdentity
    → Dict StoredSyncFrame
    → ℕ
    → ℕ
    → Identity.Result SynchronizedFrameSet
unfolding frame_set_of
build_frame_set ext x ci selected span_ms now_ms =
    Identity.map_result (frame_set_of ext x ci selected span_ms now_ms)
      (uid_for ext ci.identity_mode (build_manifest_digest ext (payload_of x ci selected span_ms)))

-- The updates behind the construction of the frame set.
unfoldable pub record_match : Matcher → SynchronizedFrameSet → ℕ → Matcher
record_match x fs span_ms = record x {
  last_synchronized_at_ms = fs.synchronized_at_ms;
  next_frame_set_id = x.next_frame_set_id + 1;
  matched_count = x.matched_count + 1;
  last_frame_set_id = some fs.frame_set_id;
  last_anchor_timestamp_ms = some fs.anchor_timestamp_ms;
  last_max_delta_ms = some span_ms;
  last_span_ms = some span_ms;
  last_missing_cameras = [];
  last_reason = some "matched";
  last_identity_mode = some fs.identity_mode;
  legacy_identity_count =
      if fs.identity_mode == identity_mode_legacy
      then x.legacy_identity_count + 1
      else x.legacy_identity_count;
  last_archive_state = some fs.archive_state;
  last_archive_error = fs.archive_error;
  archive_degraded_count =
      if fs.archive_state == archive_degraded
      then x.archive_degraded_count + 1
      else x.archive_degraded_count;
  recent_frame_sets = push x.recent_limit x.recent_frame_sets fs;
}

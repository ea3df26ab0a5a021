-- ===== src/Sync/Matcher/Match.antt =====
-- `SyncMatcher` of app/services/sync/matcher.py: `try_match`, from the selection to the frame set.
use gc_image_stream.Prelude.{
  ℕ, ◌+◌, String, not, Option, none, some, [], ◌∷◌, any, join, ◌==◌, nat_eq, string_eq, option_eq,
  pair_eq, if◌then◌else◌, is_nil,
}
use gc_image_stream.Dict
use gc_image_stream.Dict.{Dict}
use gc_image_stream.External.{External}
use gc_image_stream.Identity
use gc_image_stream.Identity.{
  identity_mode_v2, identity_mode_legacy, build_manifest_digest, build_frame_set_uid,
}
use gc_image_stream.Sync.Models.{StoredSyncFrame, SynchronizedFrameSet}
use gc_image_stream.Sync.Manager
use gc_image_stream.Sync.Manager.{Manager}
use gc_image_stream.Sync.Selection.{select_min_span_candidate}
use gc_image_stream.Sync.CaptureIdentity
use gc_image_stream.Sync.CaptureIdentity.{
  AuthorizationKey, CaptureIdentity, resolve_capture_identity,
}
use gc_image_stream.Sync.Matcher.State.{Matcher}
use gc_image_stream.Sync.Matcher.Build.{
  record_miss, drop_stale_frames, begin_run, synchronized_at, build_frame_set, record_match,
}

-- What a call of `try_match` ends with. A raised exception leaves the objects as they stand.
pub data Outcome : Type 0 where
  returned : Manager → Matcher → Option SynchronizedFrameSet → Outcome
  raised : String → Manager → Matcher → Outcome

abbrev pub manager_after : Outcome → Manager
manager_after (returned m x r) = m
manager_after (raised e m x) = m

abbrev pub matcher_after : Outcome → Matcher
matcher_after (returned m x r) = x
matcher_after (raised e m x) = x

abbrev pub result_of : Outcome → Option SynchronizedFrameSet
result_of (returned m x r) = r
result_of (raised e m x) = none

abbrev pub miss : Manager × Matcher → Outcome
miss (m, x) = returned m x none

-- From the construction of the frame set on, over a matcher in its run.
unfoldable pub finish_match :
    External → Manager → Matcher → CaptureIdentity → Dict StoredSyncFrame → ℕ → ℕ → Outcome
finish_match ext m x ci selected span_ms now_ms =
    elim (build_frame_set ext x ci selected span_ms now_ms) [
      | Identity.value_error e ↦
          raised e m (record x { last_synchronized_at_ms = synchronized_at x now_ms })
      | Identity.ok fs ↦
          let (m', x') = drop_stale_frames m (record_match x fs span_ms) in returned m' x' (some fs)
    ]

-- From `consume_through` on. A camera with no buffer is a `KeyError`.
unfoldable pub emit :
    External → Manager → Matcher → CaptureIdentity → Dict StoredSyncFrame → ℕ → String → ℕ → Outcome
emit ext m x ci selected span_ms fresh_run now_ms = elim (Manager.consume_through m selected) [
  | none ↦ raised "KeyError" m x
  | some (m', superseded) ↦
      finish_match ext m'
        (begin_run (record x { dropped_superseded_count = x.dropped_superseded_count + superseded })
          ci fresh_run)
        ci selected span_ms now_ms
]

-- From `_resolve_capture_identity` on.
unfoldable pub match_selected :
    External → Manager → Matcher → StoredSyncFrame → Dict StoredSyncFrame → ℕ → String → ℕ → Outcome
match_selected ext m x trigger selected span_ms fresh_run now_ms =
    elim (resolve_capture_identity ext (Dict.values selected)) [
      | CaptureIdentity.ok ci ↦ emit ext m x ci selected span_ms fresh_run now_ms
      | CaptureIdentity.scope_conflict e ↦ miss (drop_stale_frames m (record_miss x trigger e []))
      | CaptureIdentity.value_error e ↦ raised e m x
    ]

-- From `_select_min_span_candidate` on.
unfoldable pub match_expected :
    External → Manager → Matcher → StoredSyncFrame → String → ℕ → Outcome
match_expected ext m x trigger fresh_run now_ms =
    let (best, missing) = select_min_span_candidate m x.expected_cameras x.window_ms in
    if not (is_nil missing)
    then miss
        (drop_stale_frames m (record_miss x trigger "missing cameras inside sync window" missing))
    else elim best [
      | none ↦
          miss (drop_stale_frames m (record_miss x trigger "no frame set inside sync window" []))
      | some (selected, span_ms) ↦ match_selected ext m x trigger selected span_ms fresh_run now_ms
    ]

unfoldable pub try_match : External → Manager → Matcher → StoredSyncFrame → String → ℕ → Outcome
try_match ext m x trigger fresh_run now_ms =
    if is_nil x.expected_cameras
    then returned m (record_miss x trigger "expected cameras are not configured" []) none
    else if not (any (λ c. c == trigger.device_id) x.expected_cameras)
    then returned m
        (record x {
          ignored_count = x.ignored_count + 1;
          last_anchor_timestamp_ms = some trigger.timestamp_ms;
          last_missing_cameras = [];
          last_reason = some (join "" ("unexpected camera: " ∷ trigger.device_id ∷ []));
        })
        none
    else match_expected ext m x trigger fresh_run now_ms

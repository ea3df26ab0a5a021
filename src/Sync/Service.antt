-- ===== src/Sync/Service.antt =====
-- `StreamSyncService` of app/services/sync/service.py: the service that owns the buffer manager
-- and the matcher. A method runs under the service's lock. The `uuid4` of a new capture run and the
-- time of the call are arguments.
pub mod Runs
use gc_image_stream.Prelude.{
  ℕ, String, Bool, true, false, not, Option, none, some, List, [], ◌∷◌, ◌++◌, map, ltb, minimum,
  all, is_nil, if◌then◌else◌, ◌==◌, string_eq,
}
use gc_image_stream.Dict
use gc_image_stream.Dict.{Dict}
use gc_image_stream.External.{External}
use gc_image_stream.Sync.Models.{SyncInputFrame, StoredSyncFrame, SynchronizedFrameSet}
use gc_image_stream.Sync.Buffer.{BufferStatus}
use gc_image_stream.Sync.Manager
use gc_image_stream.Sync.Manager.{Manager, Snapshot, new_manager, build_buffer_key}
use gc_image_stream.Sync.Matcher
use gc_image_stream.Sync.Matcher.{
  Matcher, MatcherStatus, Outcome, new_matcher, matcher_status, try_match,
}

pub record Service : Type 0 where
  pub enabled : Bool
  pub expected_cameras : List String
  pub window_ms : ℕ
  pub buffer_manager : Manager
  pub matcher : Option Matcher

-- `configure`. A buffer size below 1 raises before the manager and the matcher are replaced.
unfoldable pub configure : Service → Bool → List String → ℕ → ℕ → ℕ → String → Service × Bool
configure s enabled expected_cameras window_ms buffer_size recent_limit run =
    let s' : Service = record s {
      enabled = enabled;
      expected_cameras = expected_cameras;
      window_ms = window_ms;
    } in
    elim (new_manager buffer_size) [
      | none ↦ (s', false)
      | some m ↦ (
        record s' {
          buffer_manager = m;
          matcher =
              if enabled
              then some (new_matcher expected_cameras window_ms recent_limit run)
              else none;
        },
        true,
      )
    ]

unfoldable pub clear : Service → String → Service × Bool
clear s run = configure s false [] 50 120 20 run

-- What a call of `handle_frame` ends with.
pub data Handled : Type 0 where
  replied : Service → Option SynchronizedFrameSet → Handled
  failed : String → Service → Handled

abbrev pub service_after : Handled → Service
service_after (replied s r) = s
service_after (failed e s) = s

abbrev pub reply_of : Handled → Option SynchronizedFrameSet
reply_of (replied s r) = r
reply_of (failed e s) = none

abbrev pub with_outcome : Service → Outcome → Handled
with_outcome s (Matcher.returned m x r) =
    replied (record s { buffer_manager = m; matcher = some x }) r
with_outcome s (Matcher.raised e m x) = failed e (record s { buffer_manager = m; matcher = some x })

-- The part of `handle_frame` behind its guard.
unfoldable pub handle_with : External → Service → Matcher → SyncInputFrame → String → ℕ → Handled
handle_with ext s x frame fresh_run now_ms =
    let (m, stored) = Manager.add_frame ext s.buffer_manager frame in
    elim stored [
      | none ↦ replied (record s { buffer_manager = m }) none
      | some f ↦ with_outcome s (try_match ext m x f fresh_run now_ms)
    ]

unfoldable pub handle_frame : External → Service → SyncInputFrame → String → ℕ → Handled
handle_frame ext s frame fresh_run now_ms =
    if not s.enabled then replied s none else elim s.matcher [
      | none ↦ replied s none
      | some x ↦ handle_with ext s x frame fresh_run now_ms
    ]

abbrev pub recent_frame_sets : Service → List SynchronizedFrameSet
recent_frame_sets s = elim s.matcher [ none ↦ [] | some x ↦ x.recent_frame_sets ]

unfoldable pub finalize_archive_state :
    Service → SynchronizedFrameSet → String → Option String → Service × SynchronizedFrameSet
finalize_archive_state s frame_set state error = elim s.matcher [
  | none ↦ (s, frame_set)
  | some x ↦
      let (x', updated) = Matcher.finalize_archive_state x frame_set state error in
      (record s { matcher = some x' }, updated)
]

-- The first member, over the frame sets in order, with the key of the frame.
unfoldable pub find_member : String → List StoredSyncFrame → Option StoredSyncFrame
find_member key [] = none
find_member key (f ∷ fs) = if f.buffer_key == key then some f else find_member key fs

abbrev members_of : List SynchronizedFrameSet → List StoredSyncFrame
members_of [] = []
members_of (fs ∷ sets) = Dict.values fs.frames ++ members_of sets

abbrev candidates : Matcher → Option SynchronizedFrameSet → List SynchronizedFrameSet
candidates x none = x.recent_frame_sets
candidates x (some fs) = x.recent_frame_sets ++ fs ∷ []

-- The end of `finalize_frame_archive`: `stored` takes the place of its member.
unfoldable pub replace_stored :
    Service
    → Matcher
    → Option SynchronizedFrameSet
    → StoredSyncFrame
    → Service × Option SynchronizedFrameSet
replace_stored s x frame_set stored =
    let (x', updated) = Matcher.replace_recent_frame_member x stored in
    elim updated [
      | some fs ↦ (record s { matcher = some x' }, some fs)
      | none ↦ elim frame_set [
        | none ↦ (s, none)
        | some fs ↦
            let (x'', result) = Matcher.replace_frame_member x fs stored in
            (record s { matcher = some x'' }, some result)
      ]
    ]

unfoldable pub finalize_frame_archive :
    External
    → Service
    → SyncInputFrame
    → Option SynchronizedFrameSet
    → Option ℕ
    → Option String
    → String
    → Option String
    → Service × Option SynchronizedFrameSet
finalize_frame_archive ext s frame frame_set frame_id file_path archive_state archive_error =
    let key = build_buffer_key ext frame in
    let (m, stored) =
      Manager.finalize_archive s.buffer_manager key frame_id file_path archive_state
        archive_error in
    let s' : Service = record s { buffer_manager = m } in
    elim s.matcher [
      | none ↦ (s', frame_set)
      | some x ↦ elim stored [
        | some f ↦ replace_stored s' x frame_set f
        | none ↦ elim (find_member key (members_of (candidates x frame_set))) [
          | none ↦ (s', frame_set)
          | some member ↦ replace_stored s' x frame_set (record member {
            frame_id = frame_id;
            file_path = file_path;
            archive_state = archive_state;
            archive_error = archive_error;
          })
        ]
      ]
    ]

-- `build_sync_progress`. The ratio is the pair of its operands, `(0, 1)` for `0.0`.
pub record Progress : Type 0 where
  pub expected_frame_set_count : ℕ
  pub matched_ratio : ℕ × ℕ
  pub per_expected_camera_received_count : Dict ℕ

unfoldable pub camera_counts : Dict ℕ → List BufferStatus → Dict ℕ
camera_counts counts [] = counts
camera_counts counts (c ∷ cameras) =
    camera_counts (Dict.put counts c.device_id c.received_count) cameras

abbrev count_of : Dict ℕ → String → ℕ
count_of counts device_id = elim (Dict.get counts device_id) [ none ↦ 0 | some n ↦ n ]

unfoldable pub count_each : Dict ℕ → Dict ℕ → List String → Dict ℕ
count_each counts result [] = result
count_each counts result (c ∷ cameras) =
    count_each counts (Dict.put result c (count_of counts c)) cameras

unfoldable pub expected_count : List ℕ → ℕ
expected_count counts =
    if is_nil counts then 0 else if all (λ n. ltb 0 n) counts then minimum counts else 0

unfoldable pub build_sync_progress : Snapshot → List String → ℕ → Progress
build_sync_progress buffer_snapshot expected_cameras matched_count =
    let counts = camera_counts [] buffer_snapshot.cameras in
    let expected = expected_count (map (count_of counts) expected_cameras) in
    record {
      expected_frame_set_count = expected;
      matched_ratio = if ltb 0 expected then (matched_count, expected) else (0, 1);
      per_expected_camera_received_count = count_each counts [] expected_cameras;
    }

-- `status`. Without a matcher, its part is `none` here and a fixed dict of empty counters in the
-- program.
pub record Status : Type 0 where
  pub enabled : Bool
  pub expected_cameras : List String
  pub window_ms : ℕ
  pub buffer : Snapshot
  pub progress : Progress
  pub matcher : Option MatcherStatus

abbrev matched_of : Option Matcher → ℕ
matched_of none = 0
matched_of (some x) = x.matched_count

abbrev status_of : Option Matcher → Option MatcherStatus
status_of none = none
status_of (some x) = some (matcher_status x)

unfoldable pub status : Service → Status
status s =
    let buffer_snapshot = Manager.snapshot s.buffer_manager in
    record {
      enabled = s.enabled;
      expected_cameras = s.expected_cameras;
      window_ms = s.window_ms;
      buffer = buffer_snapshot;
      progress = build_sync_progress buffer_snapshot s.expected_cameras (matched_of s.matcher);
      matcher = status_of s.matcher;
    }

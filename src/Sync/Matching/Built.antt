-- ===== src/Sync/Matching/Built.antt =====
-- The frame set that is built, and the matcher behind it.
use gc_image_stream.Prelude.{
  ℕ, String, ◌≡◌, refl, sym, ap, inl, inr, Option, some, [], length, Bool-cases, ◌==◌, nat_eq,
  string_eq,
}
use gc_image_stream.Dict.{Dict}
use gc_image_stream.External.{External}
use gc_image_stream.Identity
use gc_image_stream.Sync.Models.{StoredSyncFrame, SynchronizedFrameSet}
use gc_image_stream.Sync.Manager
use gc_image_stream.Sync.Manager.{Manager}
use gc_image_stream.Sync.Manager.Consume.{Keeps, Keeps-drop_frames_older_than}
use gc_image_stream.Sync.CaptureIdentity.{CaptureIdentity}
use gc_image_stream.Sync.Matcher.{
  Matcher, build_frame_set, drop_stale_frames, synchronized_at, anchor_of, frame_set_of,
}

-- The fields of the frame set that come from the selection and from the matcher.
pub record IsBuilt (x : Matcher) (ci : CaptureIdentity) (selected : Dict StoredSyncFrame)
    (span_ms now_ms : ℕ) (fs : SynchronizedFrameSet) : Type 0 where
  pub frames : fs.frames ≡ selected
  pub span : fs.max_delta_ms ≡ span_ms
  pub number : fs.frame_set_id ≡ x.next_frame_set_id
  pub run : fs.capture_run_id ≡ some x.capture_run_id
  pub time : fs.synchronized_at_ms ≡ synchronized_at x now_ms
  pub anchor : fs.anchor_timestamp_ms ≡ anchor_of selected
  pub mode : fs.identity_mode ≡ ci.identity_mode

pub build-IsBuilt :
    (ext : External) (x : Matcher) (ci : CaptureIdentity) (selected : Dict StoredSyncFrame)
    (span_ms now_ms : ℕ) {fs : SynchronizedFrameSet}
    → build_frame_set ext x ci selected span_ms now_ms ≡ Identity.ok fs
    → IsBuilt x ci selected span_ms now_ms fs
unfolding build_frame_set
build-IsBuilt ext x ci selected span_ms now_ms h =
    let (uid, e) = Identity.map_result_inv (frame_set_of ext x ci selected span_ms now_ms) _ h in
    record {
      frames = sym (ap (λ (g : SynchronizedFrameSet). g.frames) e);
      span = sym (ap (λ (g : SynchronizedFrameSet). g.max_delta_ms) e);
      number = sym (ap (λ (g : SynchronizedFrameSet). g.frame_set_id) e);
      run = sym (ap (λ (g : SynchronizedFrameSet). g.capture_run_id) e);
      time = sym (ap (λ (g : SynchronizedFrameSet). g.synchronized_at_ms) e);
      anchor = sym (ap (λ (g : SynchronizedFrameSet). g.anchor_timestamp_ms) e);
      mode = sym (ap (λ (g : SynchronizedFrameSet). g.identity_mode) e);
    }

-- Dropping stale frames only takes frames away.
pub Keeps-drop_stale_frames :
    (P : StoredSyncFrame → Type 0) (c : String) (m : Manager) (x : Matcher)
    → Keeps P c m (drop_stale_frames m x).0
unfolding drop_stale_frames
Keeps-drop_stale_frames P c m x h =
    elim (Bool-cases
      (length (Manager.latest_timestamps m x.expected_cameras) == length x.expected_cameras)) [
        | inr e ↦ rw (e, drop_stale_frames) h
        | inl e ↦
            rw (e, drop_stale_frames) (Keeps-drop_frames_older_than P c m x.expected_cameras _ [] h)
      ]

-- What dropping stale frames leaves of the matcher.
pub record SameButDropped (x y : Matcher) : Type 0 where
  pub expected_cameras : y.expected_cameras ≡ x.expected_cameras
  pub window_ms : y.window_ms ≡ x.window_ms
  pub recent_limit : y.recent_limit ≡ x.recent_limit
  pub next_frame_set_id : y.next_frame_set_id ≡ x.next_frame_set_id
  pub capture_run_id : y.capture_run_id ≡ x.capture_run_id
  pub capture_session_id : y.capture_session_id ≡ x.capture_session_id
  pub last_synchronized_at_ms : y.last_synchronized_at_ms ≡ x.last_synchronized_at_ms
  pub recent_frame_sets : y.recent_frame_sets ≡ x.recent_frame_sets
  pub matched_count : y.matched_count ≡ x.matched_count
  pub missed_count : y.missed_count ≡ x.missed_count
  pub ignored_count : y.ignored_count ≡ x.ignored_count

SameButDropped-of :
    (x : Matcher) (w : Option ℕ) (n : ℕ)
    → SameButDropped x (record x { last_watermark_timestamp_ms = w; dropped_stale_count = n })
SameButDropped-of x w n = record {
  expected_cameras = refl;
  window_ms = refl;
  recent_limit = refl;
  next_frame_set_id = refl;
  capture_run_id = refl;
  capture_session_id = refl;
  last_synchronized_at_ms = refl;
  recent_frame_sets = refl;
  matched_count = refl;
  missed_count = refl;
  ignored_count = refl;
}

pub drop-SameButDropped : (m : Manager) (x : Matcher) → SameButDropped x (drop_stale_frames m x).1
unfolding drop_stale_frames
drop-SameButDropped m x =
    let complete =
      length (Manager.latest_timestamps m x.expected_cameras) == length x.expected_cameras in
    elim (Bool-cases complete) [
      | inr e ↦
          rw (e, drop_stale_frames)
            (SameButDropped-of x x.last_watermark_timestamp_ms x.dropped_stale_count)
      | inl e ↦ rw (e, drop_stale_frames) (SameButDropped-of x _ _)
    ]

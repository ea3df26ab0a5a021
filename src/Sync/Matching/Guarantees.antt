-- ===== src/Sync/Matching/Guarantees.antt =====
-- What holds of every frame set that `try_match` returns, and of the state behind it.
use gc_image_stream.Prelude.{
  ℕ, ◌+◌, ◌-◌, ◌≤◌, ◌<◌, String, ◌≡◌, sym, ◌∙◌, ap, subst, some, All, nat_eq, string_eq,
}
use mathlib.Core.Path.{ap₂}
use gc_image_stream.Dict
use gc_image_stream.Dict.{Dict}
use gc_image_stream.External.{External}
use gc_image_stream.Sync.Models.{StoredSyncFrame, SynchronizedFrameSet}
use gc_image_stream.Sync.Manager.{Manager}
use gc_image_stream.Sync.Manager.Available.{buffered}
use gc_image_stream.Sync.Manager.Consume.{consume_through-later}
use gc_image_stream.Sync.Selection
use gc_image_stream.Sync.Selection.Optimal.{HasFrameIn, PicksIn, select-PicksIn, select-shortest}
use gc_image_stream.Sync.Matcher.{Matcher, returned, try_match}
use gc_image_stream.Sync.Matching.Emission.{Emits, building, try_match-Emits}
use gc_image_stream.Sync.Matching.Built.{IsBuilt, build-IsBuilt, Keeps-drop_stale_frames}

module _ (ext : External) (m : Manager) (x : Matcher) (trigger : StoredSyncFrame)
    (fresh_run : String) (now_ms : ℕ) {m' : Manager} {x' : Matcher} {fs : SynchronizedFrameSet}
    (call : try_match ext m x trigger fresh_run now_ms ≡ returned m' x' (some fs)) where
  emits : Emits ext m x trigger fresh_run now_ms m' x' fs
  emits = try_match-Emits ext m x trigger fresh_run now_ms m' x' fs call

  built :
      IsBuilt
        (building x emits.ci fresh_run emits.superseded)
        emits.ci
        emits.selected
        emits.span_ms
        now_ms
        fs
  built = build-IsBuilt ext _ _ _ _ _ emits.construction

  selected_fs :
      (Selection.select_min_span_candidate m x.expected_cameras x.window_ms).0
      ≡ some (fs.frames, fs.max_delta_ms)
  selected_fs = emits.selection ∙ ap₂ (λ f n. some (f, n)) (sym built.frames) (sym built.span)

  -- The members of a frame set are one buffered frame of every expected camera, all within a span of
  -- `max_delta_ms`, which is at most the window.
  pub try_match-PicksIn :
      (fs.max_delta_ms ≤ x.window_ms)
      × (lo : ℕ) × All
          (PicksIn m x.expected_cameras lo (lo + fs.max_delta_ms) fs.frames)
          x.expected_cameras
  try_match-PicksIn =
      select-PicksIn m x.expected_cameras x.window_ms fs.frames fs.max_delta_ms selected_fs

  -- No interval of time that holds a buffered frame of every expected camera is shorter than the span
  -- of the frame set that is returned.
  pub try_match-shortest :
      (lo hi : ℕ)
      → All (HasFrameIn m x.expected_cameras lo hi) x.expected_cameras
      → fs.max_delta_ms ≤ hi - lo
  try_match-shortest lo hi =
      select-shortest m x.expected_cameras x.window_ms fs.frames fs.max_delta_ms lo hi selected_fs

  -- Behind a frame set every frame that is still buffered for a camera of the set is later than the
  -- camera's member, so no member is matched again and none is overtaken by an older frame.
  pub try_match-consumes :
      (camera : String) (chosen : StoredSyncFrame)
      → Dict.get fs.frames camera ≡ some chosen
      → All (λ f. chosen.timestamp_ms < f.timestamp_ms) (buffered m' camera)
  try_match-consumes camera chosen g =
      subst (λ n. All (λ f. chosen.timestamp_ms < f.timestamp_ms) (buffered n camera))
        (sym emits.manager_end)
        (Keeps-drop_stale_frames (λ f. chosen.timestamp_ms < f.timestamp_ms) camera emits.consumed _
          (consume_through-later m emits.selected emits.consumption camera chosen
            (ap (λ d. Dict.get d camera) (sym built.frames) ∙ g)))

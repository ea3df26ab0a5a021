-- ===== src/Sync/Matching/Counts.antt =====
-- Each call of `try_match` is counted once.
use gc_image_stream.Prelude.{
  ℕ, ◌+◌, ◌≤◌, String, ◌≡◌, refl, inl, inr, none, some, List, [], arith, any, is_nil, Bool-cases,
  Option-cases, ◌==◌, string_eq,
}
use gc_image_stream.Dict
use gc_image_stream.Dict.{Dict}
use gc_image_stream.External.{External}
use gc_image_stream.Sync.Models.{StoredSyncFrame}
use gc_image_stream.Sync.Manager
use gc_image_stream.Sync.Manager.{Manager}
use gc_image_stream.Sync.Selection.{select_min_span_candidate}
use gc_image_stream.Sync.CaptureIdentity.{CaptureIdentity, resolve_capture_identity}
use gc_image_stream.Sync.Matcher.{
  Matcher, Outcome, returned, raised, try_match, match_expected, match_selected, emit, finish_match,
  build_frame_set, record_match, drop_stale_frames, record_miss, miss,
}
use gc_image_stream.Sync.Matching.Emission.{building, Result-cases, Resolved-cases}
use gc_image_stream.Sync.Matching.Built.{build-IsBuilt, drop-SameButDropped}
use gc_image_stream.Sync.Matching.Order.{begin_run_counts, begin_run_time}

-- A returned frame set is one more match; a call that returns none is one more miss or one more
-- ignored frame; an exception counts nothing. The time of the last frame set never goes back.
abbrev pub CountsOnce : Matcher → Outcome → Type 0
CountsOnce x (returned m' x' (some fs)) =
    (x'.matched_count ≡ x.matched_count + 1)
    × (x'.missed_count ≡ x.missed_count)
    × (x'.ignored_count ≡ x.ignored_count)
    × (x.last_synchronized_at_ms ≤ x'.last_synchronized_at_ms)
CountsOnce x (returned m' x' none) =
    (x'.matched_count ≡ x.matched_count)
    × (x'.missed_count + x'.ignored_count ≡ x.missed_count + x.ignored_count + 1)
    × (x.last_synchronized_at_ms ≤ x'.last_synchronized_at_ms)
CountsOnce x (raised e m' x') =
    (x'.matched_count ≡ x.matched_count)
    × (x'.missed_count ≡ x.missed_count)
    × (x'.ignored_count ≡ x.ignored_count)
    × (x.last_synchronized_at_ms ≤ x'.last_synchronized_at_ms)

miss_counts :
    (m : Manager) (x : Matcher) (trigger : StoredSyncFrame) (reason : String)
    (missing : List String)
    → CountsOnce x (miss (drop_stale_frames m (record_miss x trigger reason missing)))
unfolding record_miss
miss_counts m x trigger reason missing =
    let same = drop-SameButDropped m (record_miss x trigger reason missing) in
    (
      same.matched_count,
      omega (arith, same.missed_count, same.ignored_count),
      omega (arith, same.last_synchronized_at_ms),
    )

finish_counts :
    (ext : External) (m : Manager) (x : Matcher) (ci : CaptureIdentity)
    (selected : Dict StoredSyncFrame) (span_ms now_ms : ℕ)
    → CountsOnce x (finish_match ext m x ci selected span_ms now_ms)
unfolding finish_match record_match
finish_counts ext m x ci selected span_ms now_ms =
    elim (Result-cases (build_frame_set ext x ci selected span_ms now_ms)) [
      | inr (e, built) ↦ rw (built, finish_match) (refl, refl, refl, omega arith)
      | inl (fs, built) ↦
          let same = drop-SameButDropped m (record_match x fs span_ms) in
          let time = (build-IsBuilt ext x ci selected span_ms now_ms built).time in
          rw (built, finish_match)
            (
              same.matched_count,
              same.missed_count,
              same.ignored_count,
              omega (arith, same.last_synchronized_at_ms, time),
            )
    ]

-- The counters of the matcher that builds are those of the matcher before.
CountsOnce-building :
    (x : Matcher) (ci : CaptureIdentity) (fresh : String) (n : ℕ) (o : Outcome)
    → CountsOnce (building x ci fresh n) o
    → CountsOnce x o
CountsOnce-building x ci fresh n (returned m' x' (some fs)) h = omega (
  arith,
  begin_run_counts (record x { dropped_superseded_count = x.dropped_superseded_count + n }) ci
      fresh,
  begin_run_time (record x { dropped_superseded_count = x.dropped_superseded_count + n }) ci fresh,
)
CountsOnce-building x ci fresh n (returned m' x' none) h = omega (
  arith,
  begin_run_counts (record x { dropped_superseded_count = x.dropped_superseded_count + n }) ci
      fresh,
  begin_run_time (record x { dropped_superseded_count = x.dropped_superseded_count + n }) ci fresh,
)
CountsOnce-building x ci fresh n (raised e m' x') h = omega (
  arith,
  begin_run_counts (record x { dropped_superseded_count = x.dropped_superseded_count + n }) ci
      fresh,
  begin_run_time (record x { dropped_superseded_count = x.dropped_superseded_count + n }) ci fresh,
)

module _ (ext : External) (m : Manager) (x : Matcher) (trigger : StoredSyncFrame)
    (fresh_run : String) (now_ms : ℕ) where
  emit_counts :
      (ci : CaptureIdentity) (selected : Dict StoredSyncFrame) (span_ms : ℕ)
      → CountsOnce x (emit ext m x ci selected span_ms fresh_run now_ms)
  unfolding emit
  emit_counts ci selected span_ms = elim (Option-cases (Manager.consume_through m selected)) [
    | inl e ↦ rw (e, emit) (refl, refl, refl, omega arith)
    | inr ((m1, n), e) ↦
        rw (e, emit)
          (CountsOnce-building x ci fresh_run n _
            (finish_counts ext m1 (building x ci fresh_run n) ci selected span_ms now_ms))
  ]

  selected_counts :
      (selected : Dict StoredSyncFrame) (span_ms : ℕ)
      → CountsOnce x (match_selected ext m x trigger selected span_ms fresh_run now_ms)
  unfolding match_selected
  selected_counts selected span_ms =
      elim (Resolved-cases (resolve_capture_identity ext (Dict.values selected))) [
        | inl (ci, e) ↦ rw (e, match_selected) (emit_counts ci selected span_ms)
        | inr (inl (c, e)) ↦ rw (e, match_selected) (miss_counts m x trigger c [])
        | inr (inr (c, e)) ↦ rw (e, match_selected) (refl, refl, refl, omega arith)
      ]

  expected_counts : CountsOnce x (match_expected ext m x trigger fresh_run now_ms)
  unfolding match_expected
  expected_counts =
      let best = (select_min_span_candidate m x.expected_cameras x.window_ms).0 in
      let missing = (select_min_span_candidate m x.expected_cameras x.window_ms).1 in
      elim (Bool-cases (is_nil missing)) [
        | inr e ↦
            rw (e, match_expected)
              (miss_counts m x trigger "missing cameras inside sync window" missing)
        | inl e ↦ elim (Option-cases best) [
          | inl b ↦
              rw (e, match_expected, b)
                (miss_counts m x trigger "no frame set inside sync window" [])
          | inr ((selected, span_ms), b) ↦
              rw (e, match_expected, b) (selected_counts selected span_ms)
        ]
      ]

  -- A call that returns a frame set counts one match, a call that returns none counts one miss or one
  -- ignored frame and no match, and a call that raises counts nothing. The time of the last frame set
  -- never goes back.
  pub try_match-CountsOnce : CountsOnce x (try_match ext m x trigger fresh_run now_ms)
  unfolding try_match record_miss
  try_match-CountsOnce = elim (Bool-cases (is_nil x.expected_cameras)) [
    | inl e ↦ rw (e, try_match) (refl, omega arith, omega arith)
    | inr e ↦ elim (Bool-cases (any (λ c. c == trigger.device_id) x.expected_cameras)) [
      | inr u ↦ rw (e, u, try_match) (refl, omega arith, omega arith)
      | inl u ↦ rw (e, u, try_match) expected_counts
    ]
  ]

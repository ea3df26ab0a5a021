-- ===== src/Sync/Matching/Order.antt =====
-- The order and the numbers of the frame sets, and the counters of `try_match`.
use gc_image_stream.Prelude.{
  ℕ, ◌+◌, ◌≤◌, ◌<◌, String, ◌≡◌, sym, ◌∙◌, ap, subst, ◌⊎◌, inl, inr, true, some, arith, max,
  string_eq,
}
use gc_image_stream.External.{External}
use gc_image_stream.Sync.Models.{StoredSyncFrame, SynchronizedFrameSet}
use gc_image_stream.Sync.Manager.{Manager}
use gc_image_stream.Sync.CaptureIdentity.{CaptureIdentity}
use gc_image_stream.Sync.Matcher.{Matcher, returned, try_match, begin_run, starts_run, record_match}
use gc_image_stream.Sync.Matching.Emission.{Emits, building, try_match-Emits}
use gc_image_stream.Sync.Matching.Built.{
  IsBuilt, build-IsBuilt, SameButDropped, drop-SameButDropped,
}

-- What `begin_run` does to the run: it goes on, or a fresh one begins at 1.
begin_run_cases :
    (x : Matcher) (ci : CaptureIdentity) (fresh : String)
    → (((begin_run x ci fresh).capture_run_id ≡ x.capture_run_id)
        × ((begin_run x ci fresh).next_frame_set_id ≡ x.next_frame_set_id))
      ⊎ (((begin_run x ci fresh).capture_run_id ≡ fresh)
          × ((begin_run x ci fresh).next_frame_set_id ≡ 1)
          × (starts_run x ci ≡ true))
unfolding begin_run
begin_run_cases x ci fresh = ground arith

pub begin_run_time :
    (x : Matcher) (ci : CaptureIdentity) (fresh : String)
    → (begin_run x ci fresh).last_synchronized_at_ms ≡ x.last_synchronized_at_ms
unfolding begin_run
begin_run_time x ci fresh = ground arith

pub begin_run_counts :
    (x : Matcher) (ci : CaptureIdentity) (fresh : String)
    → ((begin_run x ci fresh).matched_count ≡ x.matched_count)
      × ((begin_run x ci fresh).missed_count ≡ x.missed_count)
      × ((begin_run x ci fresh).ignored_count ≡ x.ignored_count)
unfolding begin_run
begin_run_counts x ci fresh = ground arith

module _ (ext : External) (m : Manager) (x : Matcher) (trigger : StoredSyncFrame)
    (fresh_run : String) (now_ms : ℕ) {m' : Manager} {x' : Matcher} {fs : SynchronizedFrameSet}
    (call : try_match ext m x trigger fresh_run now_ms ≡ returned m' x' (some fs)) where
  emits : Emits ext m x trigger fresh_run now_ms m' x' fs
  emits = try_match-Emits ext m x trigger fresh_run now_ms m' x' fs call

  abbrev y : Matcher
  y = building x emits.ci fresh_run emits.superseded

  built : IsBuilt y emits.ci emits.selected emits.span_ms now_ms fs
  built = build-IsBuilt ext _ _ _ _ _ emits.construction

  ended : SameButDropped (record_match y fs emits.span_ms) x'
  ended =
      subst (SameButDropped (record_match y fs emits.span_ms)) (sym emits.matcher_end)
        (drop-SameButDropped emits.consumed _)

  -- A frame set is synchronized later than every one before it, and the matcher remembers when. It
  -- goes on numbering the run that the matcher is in, or it is number 1 of the fresh run; the matcher
  -- is then in the run of the frame set, and the next number is the successor of its number.
  pub try_match-ordered :
      (x.last_synchronized_at_ms < fs.synchronized_at_ms)
      × (now_ms ≤ fs.synchronized_at_ms)
      × (x'.last_synchronized_at_ms ≡ fs.synchronized_at_ms)
      × (fs.capture_run_id ≡ some x'.capture_run_id)
      × (x'.next_frame_set_id ≡ fs.frame_set_id + 1)
      × (((x'.capture_run_id ≡ x.capture_run_id) × (fs.frame_set_id ≡ x.next_frame_set_id))
          ⊎ ((x'.capture_run_id ≡ fresh_run) × (fs.frame_set_id ≡ 1)))
  unfolding record_match
  try_match-ordered =
      let x1 : Matcher = record x {
        dropped_superseded_count = x.dropped_superseded_count + emits.superseded;
      } in
      let time : fs.synchronized_at_ms ≡ max now_ms (y.last_synchronized_at_ms + 1) = built.time in
      let before : y.last_synchronized_at_ms ≡ x.last_synchronized_at_ms =
        begin_run_time x1 emits.ci fresh_run in
      (
        omega (arith, time, before),
        omega (arith, time),
        ended.last_synchronized_at_ms,
        built.run ∙ ap some (sym ended.capture_run_id),
        omega (arith, ended.next_frame_set_id, built.number),
        elim (begin_run_cases x1 emits.ci fresh_run) [
          | inl (same, number) ↦ inl (ended.capture_run_id ∙ same, built.number ∙ number)
          | inr (fresh, number, _) ↦ inr (ended.capture_run_id ∙ fresh, built.number ∙ number)
        ],
      )

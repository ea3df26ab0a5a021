-- ===== src/Sync/Matching/Emission.antt =====
-- The steps behind a frame set that `try_match` returns.
use gc_image_stream.Prelude.{
  ℕ, ◌+◌, String, ◌≡◌, refl, sym, ◌∙◌, ap, ◌⊎◌, inl, inr, some, any, is_nil, none-ne-some, some_inj,
  Option-cases, Bool-cases, ◌==◌, string_eq,
}
use gc_image_stream.Dict
use gc_image_stream.Dict.{Dict}
use gc_image_stream.External.{External}
use gc_image_stream.Identity
use gc_image_stream.Sync.Models.{StoredSyncFrame, SynchronizedFrameSet}
use gc_image_stream.Sync.Manager
use gc_image_stream.Sync.Manager.{Manager}
use gc_image_stream.Sync.Selection.{select_min_span_candidate}
use gc_image_stream.Sync.CaptureIdentity
use gc_image_stream.Sync.CaptureIdentity.{CaptureIdentity, resolve_capture_identity}
use gc_image_stream.Sync.Matcher.{
  Matcher, returned, record_match, begin_run, build_frame_set, drop_stale_frames, finish_match,
  emit, match_selected, match_expected, try_match, manager_after, matcher_after, result_of,
}

-- The matcher that builds the frame set: the superseded frames are counted and the run is begun.
abbrev pub building : Matcher → CaptureIdentity → String → ℕ → Matcher
building x ci fresh_run superseded =
    begin_run (record x { dropped_superseded_count = x.dropped_superseded_count + superseded }) ci
      fresh_run

pub Result-cases :
    {A : Type 0} (r : Identity.Result A)
    → ((a : A) × (r ≡ Identity.ok a)) ⊎ ((e : String) × (r ≡ Identity.value_error e))
Result-cases (Identity.ok a) = inl (a, refl)
Result-cases (Identity.value_error e) = inr (e, refl)

pub Resolved-cases :
    {A : Type 0} (r : CaptureIdentity.Resolved A)
    → ((a : A) × (r ≡ CaptureIdentity.ok a))
      ⊎ (((e : String) × (r ≡ CaptureIdentity.scope_conflict e))
          ⊎ ((e : String) × (r ≡ CaptureIdentity.value_error e)))
Resolved-cases (CaptureIdentity.ok a) = inl (a, refl)
Resolved-cases (CaptureIdentity.scope_conflict e) = inr (inl (e, refl))
Resolved-cases (CaptureIdentity.value_error e) = inr (inr (e, refl))

module _ (ext : External) (m : Manager) (x : Matcher) (trigger : StoredSyncFrame)
    (fresh_run : String) (now_ms : ℕ) where
  -- The call selected frames, resolved their identity, consumed them, and built the frame set.
  pub record Emits (m' : Manager) (x' : Matcher) (fs : SynchronizedFrameSet) : Type 0 where
    pub selected : Dict StoredSyncFrame
    pub span_ms : ℕ
    pub ci : CaptureIdentity
    pub consumed : Manager
    pub superseded : ℕ
    pub selection :
        (select_min_span_candidate m x.expected_cameras x.window_ms).0 ≡ some (selected, span_ms)
    pub resolution : resolve_capture_identity ext (Dict.values selected) ≡ CaptureIdentity.ok ci
    pub consumption : Manager.consume_through m selected ≡ some (consumed, superseded)
    pub construction :
        build_frame_set ext (building x ci fresh_run superseded) ci selected span_ms now_ms
        ≡ Identity.ok fs
    pub manager_end :
        m'
        ≡ (drop_stale_frames consumed
            (record_match (building x ci fresh_run superseded) fs span_ms)).0
    pub matcher_end :
        x'
        ≡ (drop_stale_frames consumed
            (record_match (building x ci fresh_run superseded) fs span_ms)).1

  module _ (m' : Manager) (x' : Matcher) (fs : SynchronizedFrameSet) where
    finish_inv :
        (consumed : Manager) (y : Matcher) (ci : CaptureIdentity) (selected : Dict StoredSyncFrame)
        (span_ms : ℕ)
        → finish_match ext consumed y ci selected span_ms now_ms ≡ returned m' x' (some fs)
        → (build_frame_set ext y ci selected span_ms now_ms ≡ Identity.ok fs)
          × (m' ≡ (drop_stale_frames consumed (record_match y fs span_ms)).0)
          × (x' ≡ (drop_stale_frames consumed (record_match y fs span_ms)).1)
    unfolding finish_match
    finish_inv consumed y ci selected span_ms h =
        elim (Result-cases (build_frame_set ext y ci selected span_ms now_ms)) [
          | inr (e, built) ↦ absurd (none-ne-some (ap result_of (rw (built, finish_match) at h)))
          | inl (gs, built) ↦
              let h' = rw (built, finish_match) at h in
              let same : gs ≡ fs = some_inj (ap result_of h') in
              (
                built ∙ ap Identity.ok same,
                sym (ap manager_after h')
                    ∙ ap (λ g. (drop_stale_frames consumed (record_match y g span_ms)).0) same,
                sym (ap matcher_after h')
                    ∙ ap (λ g. (drop_stale_frames consumed (record_match y g span_ms)).1) same,
              )
        ]

    emit_inv :
        (selected : Dict StoredSyncFrame) (span_ms : ℕ) (ci : CaptureIdentity)
        → (select_min_span_candidate m x.expected_cameras x.window_ms).0 ≡ some (selected, span_ms)
        → resolve_capture_identity ext (Dict.values selected) ≡ CaptureIdentity.ok ci
        → emit ext m x ci selected span_ms fresh_run now_ms ≡ returned m' x' (some fs)
        → Emits m' x' fs
    unfolding emit
    emit_inv selected span_ms ci sel res h =
        elim (Option-cases (Manager.consume_through m selected)) [
          | inl e ↦ absurd (none-ne-some (ap result_of (rw (e, emit) at h)))
          | inr ((consumed, superseded), e) ↦
              let (built, m_end, x_end) =
                finish_inv consumed (building x ci fresh_run superseded) ci selected span_ms
                  (rw (e, emit) at h) in
              record {
                selected = selected;
                span_ms = span_ms;
                ci = ci;
                consumed = consumed;
                superseded = superseded;
                selection = sel;
                resolution = res;
                consumption = e;
                construction = built;
                manager_end = m_end;
                matcher_end = x_end;
              }
        ]

    selected_inv :
        (selected : Dict StoredSyncFrame) (span_ms : ℕ)
        → (select_min_span_candidate m x.expected_cameras x.window_ms).0 ≡ some (selected, span_ms)
        → match_selected ext m x trigger selected span_ms fresh_run now_ms
          ≡ returned m' x' (some fs)
        → Emits m' x' fs
    unfolding match_selected
    selected_inv selected span_ms sel h =
        elim (Resolved-cases (resolve_capture_identity ext (Dict.values selected))) [
          | inl (ci, e) ↦ emit_inv selected span_ms ci sel e (rw (e, match_selected) at h)
          | inr (inl (c, e)) ↦ absurd (none-ne-some (ap result_of (rw (e, match_selected) at h)))
          | inr (inr (c, e)) ↦ absurd (none-ne-some (ap result_of (rw (e, match_selected) at h)))
        ]

    expected_inv :
        match_expected ext m x trigger fresh_run now_ms ≡ returned m' x' (some fs) → Emits m' x' fs
    unfolding match_expected
    expected_inv h =
        let best = (select_min_span_candidate m x.expected_cameras x.window_ms).0 in
        let missing = (select_min_span_candidate m x.expected_cameras x.window_ms).1 in
        elim (Bool-cases (is_nil missing)) [
          | inr e ↦ absurd (none-ne-some (ap result_of (rw (e, match_expected) at h)))
          | inl e ↦ elim (Option-cases best) [
            | inl b ↦ absurd (none-ne-some (ap result_of (rw (e, match_expected, b) at h)))
            | inr ((selected, span_ms), b) ↦
                selected_inv selected span_ms b (rw (e, match_expected, b) at h)
          ]
        ]

    -- A frame set that `try_match` returns has gone through every step.
    pub try_match-Emits :
        try_match ext m x trigger fresh_run now_ms ≡ returned m' x' (some fs) → Emits m' x' fs
    unfolding try_match
    try_match-Emits h = elim (Bool-cases (is_nil x.expected_cameras)) [
      | inl e ↦ absurd (none-ne-some (ap result_of (rw (e, try_match) at h)))
      | inr e ↦ elim (Bool-cases (any (λ c. c == trigger.device_id) x.expected_cameras)) [
        | inr u ↦ absurd (none-ne-some (ap result_of (rw (e, u, try_match) at h)))
        | inl u ↦ expected_inv (rw (e, u, try_match) at h)
      ]
    ]

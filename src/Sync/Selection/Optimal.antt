-- ===== src/Sync/Selection/Optimal.antt =====
-- The selection is one frame from each expected camera, in the least span of time; it is found
-- whenever there is one inside the window.
use mathlib.Core.Path.{fun_ext, subst₂}
use mathlib.Core.Bool.{false≢true}
use gc_image_stream.Prelude.{
  ℕ, ◌+◌, ◌-◌, ◌≤◌, String, ◌≡◌, ◌≢◌, refl, sym, ◌∙◌, ap, subst, inl, inr, Bool, true, false, none,
  some, List, [], ◌∷◌, arith, All, Any, In, All-imp, All-In, All_of_In, keep_if, is_nil,
  is_nil_of_Any, keep_if_none, false_of_keep_if-nil, none-ne-some, Option-cases, List-cases,
}
use gc_image_stream.Prelude.Sorting.{IsSortedBy, is_nil-sorted}
use gc_image_stream.Dict
use gc_image_stream.Dict.{Dict, IsDict, get_of_entry, All-get}
use gc_image_stream.Sync.Buffer.{frame_lt}
use gc_image_stream.Sync.Models.{StoredSyncFrame}
use gc_image_stream.Sync.Manager.{Manager}
use gc_image_stream.Sync.Manager.Available.{
  buffered, available-IsSortedBy, available-eq-sorted, Any-available, Any-of_available,
}
use gc_image_stream.Sync.Selection.{
  Candidates, Best, frames_of, gather, start, within, select_from, select_min_span_candidate,
}
use gc_image_stream.Sync.Selection.Order.{time_of, Hits}
use gc_image_stream.Sync.Selection.Loop.{Selects}
use gc_image_stream.Sync.Selection.Search.{Searched, search_lem}
use gc_image_stream.Sync.Selection.Gather.{
  available, missing_lem, gather-IsDict, All-gather, gather_found,
}

module _ (m : Manager) (cameras : List String) where
  candidates : Candidates
  candidates = (gather m [] [] cameras).0

  -- The candidates of a camera are its available frames, of which there are some.
  abbrev IsCandidate : String × List StoredSyncFrame → Type 0
  IsCandidate e = (e.1 ≡ available m e.0) × (e.1 ≢ []) × In e.0 cameras

  candidates_lem : All IsCandidate candidates
  unfolding candidates
  candidates_lem = All-gather m IsCandidate [] [] cameras (λ d i n. (refl, n, i)) tt

  candidates-IsDict : IsDict candidates
  unfolding candidates
  candidates-IsDict = gather-IsDict m [] [] cameras tt

  times : (d : String) → IsSortedBy time_of (frames_of candidates d)
  times d = elim (Option-cases (Dict.get candidates d)) [
    | inl e ↦ rw (e, frames_of) tt
    | inr (fs, e) ↦
        rw (e, frames_of)
          (rw ((All-get IsCandidate candidates d candidates_lem e).0) (available-IsSortedBy m d))
  ]

  select_none_missing :
      (window : ℕ)
      → (gather m [] [] cameras).1 ≡ []
      → select_min_span_candidate m cameras window ≡ (select_from candidates window, [])
  unfolding candidates select_min_span_candidate
  select_none_missing window e = rw (e, select_min_span_candidate)

  select_some_missing :
      (window : ℕ) {d : String} {ds : List String}
      → (gather m [] [] cameras).1 ≡ d ∷ ds
      → select_min_span_candidate m cameras window ≡ (none, d ∷ ds)
  unfolding select_min_span_candidate
  select_some_missing window e = rw (e, select_min_span_candidate)

  gathered_missing : (gather m [] [] cameras).1 ≡ keep_if (λ d. is_nil (buffered m d)) cameras
  gathered_missing =
      missing_lem m [] [] cameras
      ∙ ap (λ (p : String → Bool). keep_if p cameras)
          (fun_ext λ d. ap is_nil (available-eq-sorted m d) ∙ is_nil-sorted frame_lt (buffered m d))

  -- With no camera missing, each expected camera has candidates.
  found :
      (gather m [] [] cameras).1 ≡ [] → (d : String) → In d cameras → Dict.has candidates d ≡ true
  unfolding candidates
  found e d i = gather_found m [] [] cameras d i (λ h. false≢true (
      sym (false_of_keep_if-nil (λ c. is_nil (buffered m c)) cameras (sym gathered_missing ∙ e) i)
      ∙ sym (is_nil-sorted frame_lt (buffered m d))
      ∙ ap is_nil (sym (available-eq-sorted m d) ∙ h)))

  some_candidate : cameras ≢ [] → (gather m [] [] cameras).1 ≡ [] → candidates ≢ []
  some_candidate n e h = elim (List-cases cameras) [
    | inl none_expected ↦ n none_expected
    | inr (d, ds, expected) ↦ false≢true (
        sym (Dict.has-nil (List StoredSyncFrame) d)
        ∙ subst (λ c. Dict.has c d ≡ true) h (found e d (subst (In d) (sym expected) (inl refl))))
  ]

  -- The cameras reported missing are the expected cameras whose buffer is empty.
  pub missing-select :
      (window : ℕ)
      → (select_min_span_candidate m cameras window).1
        ≡ keep_if (λ d. is_nil (buffered m d)) cameras
  missing-select window = elim (List-cases (gather m [] [] cameras).1) [
    | inl e ↦ rw (select_none_missing window e) (sym e ∙ gathered_missing)
    | inr (d, ds, e) ↦ rw (select_some_missing window e) (sym e ∙ gathered_missing)
  ]

  -- A frame of the camera's buffer lies in the interval.
  abbrev pub HasFrameIn : ℕ → ℕ → String → Type 0
  HasFrameIn lo hi d = Any (λ f. (lo ≤ f.timestamp_ms) × (f.timestamp_ms ≤ hi)) (buffered m d)

  -- The dict holds for the camera a frame of its buffer that lies in the interval.
  abbrev pub PicksIn : ℕ → ℕ → Dict StoredSyncFrame → String → Type 0
  PicksIn lo hi fs d =
      (f : StoredSyncFrame) × (Dict.get fs d ≡ some f)
      × In f (buffered m d)
      × (lo ≤ f.timestamp_ms)
      × (f.timestamp_ms ≤ hi)

  search-select :
      (window : ℕ) → cameras ≢ [] → (gather m [] [] cameras).1 ≡ [] → Searched candidates window
  search-select window n e =
      search_lem candidates window times candidates-IsDict
        (All-imp IsCandidate (λ c. c.1 ≢ []) candidates (λ c p. p.1) candidates_lem)
        (some_candidate n e)

  candidate_frames :
      (d : String) {fs : List StoredSyncFrame}
      → Dict.get candidates d ≡ some fs
      → fs ≡ available m d
  candidate_frames d e = (All-get IsCandidate candidates d candidates_lem e).0

  frames_of-candidates :
      (d : String) {fs : List StoredSyncFrame}
      → Dict.get candidates d ≡ some fs
      → frames_of candidates d ≡ available m d
  frames_of-candidates d e = rw (e, frames_of) (candidate_frames d e)

  picks_of :
      (lo hi : ℕ) (fs : Dict StoredSyncFrame) (d : String)
      → Selects candidates fs lo hi
      → Dict.has candidates d ≡ true
      → PicksIn lo hi fs d
  picks_of lo hi fs d s h =
      let (gs, e) = Dict.get_of_has candidates d h in
      let (f, g) = Dict.get_of_has fs d (s.covered d h) in
      let (i, above, below) = s.chosen d f g in
      (
        f,
        g,
        Any-of_available m d (λ y. y ≡ f) (subst (In f) (frames_of-candidates d e) i),
        above,
        below,
      )

  Hits-of :
      (lo hi : ℕ)
      → All (HasFrameIn lo hi) cameras
      → (d : String) → Dict.has candidates d ≡ true
      → Hits lo hi (frames_of candidates d)
  Hits-of lo hi h d c =
      let (gs, e) = Dict.get_of_has candidates d c in
      let (same, _, expected) = All-get IsCandidate candidates d candidates_lem e in
      rw (e, frames_of)
        (rw same (
          Any-available m d (λ f. (lo ≤ f.timestamp_ms) × (f.timestamp_ms ≤ hi))
            (All-In (HasFrameIn lo hi) cameras h expected)))

  no_camera : (window : ℕ) → cameras ≡ [] → (select_min_span_candidate m cameras window).0 ≡ none
  unfolding select_min_span_candidate select_from gather start
  no_camera window e = subst (λ cs. (select_min_span_candidate m cs window).0 ≡ none) (sym e) refl

  -- What is selected lies within the window: the window did not turn it away.
  within_lem :
      (window : ℕ) (gs fs : Dict StoredSyncFrame) (k span : ℕ)
      → within window (some (gs, k)) ≡ some (fs, span)
      → (gs ≡ fs) × (k ≡ span) × (k ≤ window)
  within_lem window gs fs k span h = ground arith

  least_of_search :
      (window : ℕ) (fs : Dict StoredSyncFrame) (span : ℕ)
      → (gather m [] [] cameras).1 ≡ []
      → Searched candidates window
      → select_from candidates window ≡ some (fs, span)
      → (span ≤ window)
        × (lo : ℕ) × All (PicksIn lo (lo + span) fs) cameras
        × ((lo' hi' : ℕ) → All (HasFrameIn lo' hi') cameras → span ≤ hi' - lo')
  least_of_search window fs span e (gs, k, result, (lo, sound), least) h =
      let (same, k_eq, fits) = within_lem window gs fs k span (sym result ∙ h) in
      (
        subst (λ n. n ≤ window) k_eq fits,
        lo,
        subst₂ (λ g n. All (PicksIn lo (lo + n) g) cameras) same k_eq
            (All_of_In (PicksIn lo (lo + k) gs) cameras
              (λ d i. picks_of lo (lo + k) gs d sound (found e d i))),
        λ lo' hi' c. subst (λ n. n ≤ hi' - lo') k_eq (least lo' hi' (Hits-of lo' hi' c)),
      )

  select-least :
      (window : ℕ) (fs : Dict StoredSyncFrame) (span : ℕ)
      → (select_min_span_candidate m cameras window).0 ≡ some (fs, span)
      → (span ≤ window)
        × (lo : ℕ) × All (PicksIn lo (lo + span) fs) cameras
        × ((lo' hi' : ℕ) → All (HasFrameIn lo' hi') cameras → span ≤ hi' - lo')
  select-least window fs span h = elim (List-cases cameras) [
    | inl empty ↦ absurd (none-ne-some (sym (no_camera window empty) ∙ h))
    | inr (c, cs, expected) ↦ elim (List-cases (gather m [] [] cameras).1) [
      | inr (d, ds, e) ↦
          absurd (none-ne-some (sym (ap (λ r. r.0) (select_some_missing window e)) ∙ h))
      | inl e ↦
          least_of_search window fs span e (search-select window (λ n. ground arith) e)
            (sym (ap (λ r. r.0) (select_none_missing window e)) ∙ h)
    ]
  ]

  -- A selection picks a buffered frame of every expected camera, all of them within `span` of each
  -- other, and `span` is at most the window.
  pub select-PicksIn :
      (window : ℕ) (fs : Dict StoredSyncFrame) (span : ℕ)
      → (select_min_span_candidate m cameras window).0 ≡ some (fs, span)
      → (span ≤ window) × (lo : ℕ) × All (PicksIn lo (lo + span) fs) cameras
  select-PicksIn window fs span h =
      let (fits, lo, picks, least) = select-least window fs span h in (fits, lo, picks)

  -- No interval of time that holds a buffered frame of every expected camera is shorter than the
  -- span of a selection.
  pub select-shortest :
      (window : ℕ) (fs : Dict StoredSyncFrame) (span lo hi : ℕ)
      → (select_min_span_candidate m cameras window).0 ≡ some (fs, span)
      → All (HasFrameIn lo hi) cameras
      → span ≤ hi - lo
  select-shortest window fs span lo hi h c =
      let (fits, start, picks, least) = select-least window fs span h in least lo hi c

  complete_of_search :
      (window lo hi : ℕ)
      → Searched candidates window
      → All (HasFrameIn lo hi) cameras
      → hi - lo ≤ window
      → (fs : Dict StoredSyncFrame) × (span : ℕ) × (select_from candidates window ≡ some (fs, span))
  complete_of_search window lo hi (fs, span, result, _, least) c fits =
      let short = least lo hi (Hits-of lo hi c) in (fs, span, result ∙ ground arith)

  -- Where an interval no longer than the window holds a buffered frame of every expected camera, no
  -- camera is reported missing and a selection is found.
  pub select_complete :
      (window lo hi : ℕ)
      → cameras ≢ []
      → All (HasFrameIn lo hi) cameras
      → hi - lo ≤ window
      → (fs : Dict StoredSyncFrame) × (span : ℕ) × (select_min_span_candidate m cameras window
          ≡ (some (fs, span), []))
  select_complete window lo hi some_camera c fits =
      let e : (gather m [] [] cameras).1 ≡ [] =
        gathered_missing
        ∙ keep_if_none (λ d. is_nil (buffered m d)) cameras
            (All-imp (HasFrameIn lo hi) (λ d. is_nil (buffered m d) ≡ false) cameras
              (λ d h.
                is_nil_of_Any
                  (λ (f : StoredSyncFrame). (lo ≤ f.timestamp_ms) × (f.timestamp_ms ≤ hi))
                  (buffered m d) h)
              c) in
      let (fs, span, result) =
        complete_of_search window lo hi (search-select window some_camera e) c fits in
      (fs, span, select_none_missing window e ∙ ap (λ (b : Best). (b, [])) result)

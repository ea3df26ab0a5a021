-- ===== src/Sync/Selection/Search.antt =====
-- What the loop returns, from the candidates of some camera on.
use gc_image_stream.Prelude.{
  ℕ, suc, ◌-◌, ◌≤◌, String, ◌≡◌, ◌≢◌, refl, sym, subst, true, none, some, List, [], ◌∷◌, arith,
  drop, All, All-imp, All-In, All_of_In,
}
use gc_image_stream.Prelude.Sorting.{IsSortedBy}
use gc_image_stream.Dict
use gc_image_stream.Dict.{Dict, IsDict, get_of_entry, All-get}
use gc_image_stream.Sync.Models.{StoredSyncFrame}
use gc_image_stream.Sync.Selection.{
  Candidates, HeapItem, Best, frames_of, start, no_frontier, advance, total, within, select_from,
}
use gc_image_stream.Sync.Selection.Order.{time_of, Hits}
use gc_image_stream.Sync.Selection.Loop.{IsSound, Covers, advance_lem}
use gc_image_stream.Sync.Selection.Start.{IsFirst, frontier, start_lem}

Covers-of_first :
    (lists : Candidates) (times : (d : String) → IsSortedBy time_of (frames_of lists d)) (lo hi : ℕ)
    (heap : List HeapItem)
    → ((d : String) → Dict.has lists d ≡ true → Hits lo hi (frames_of lists d))
    → All (IsFirst lists times) heap
    → Covers lists times lo hi heap
Covers-of_first lists times lo hi heap h =
    All-imp (IsFirst lists times) (λ i. Hits lo hi (drop i.index (frames_of lists i.device_id)))
      heap
      (λ i p.
        subst (λ n. Hits lo hi (drop n (frames_of lists i.device_id))) (sym p.0)
          (h i.device_id p.1))

-- The frames that the search ends with, before they are held against the window.
abbrev pub Searched : Candidates → ℕ → Type 0
Searched lists window =
    (fs : Dict StoredSyncFrame) × (span : ℕ) × (select_from lists window
      ≡ within window (some (fs, span)))
    × IsSound lists (some (fs, span))
    × ((lo hi : ℕ)
        → ((d : String) → Dict.has lists d ≡ true → Hits lo hi (frames_of lists d))
        → span ≤ hi - lo)

select_from-frontier :
    (lists : Candidates) (window : ℕ) (heap : List HeapItem) (current : Dict StoredSyncFrame)
    (latest : ℕ) {result : Best}
    → start no_frontier lists ≡ frontier heap current latest
    → advance lists (suc (total lists)) heap current latest none ≡ result
    → select_from lists window ≡ within window result
unfolding select_from
select_from-frontier lists window heap current latest e r = rw (e, select_from) (rw (e, r))

pub search_lem :
    (lists : Candidates) (window : ℕ)
    → ((d : String) → IsSortedBy time_of (frames_of lists d))
    → IsDict lists
    → All (λ e. e.1 ≢ []) lists
    → lists ≢ []
    → Searched lists window
search_lem [] window times dict full some_camera = absurd (some_camera refl)
search_lem ((d, fs) ∷ rest) window times dict full some_camera =
    let lists : Candidates = (d, fs) ∷ rest in
    let (heap, current, latest, started, v, first, size) = start_lem lists times d fs rest refl (
      All_of_In (λ e. (Dict.get lists e.0 ≡ some e.1) × (e.1 ≢ [])) lists
        (λ e i. (
          All-In (λ e'. Dict.get lists e'.0 ≡ some e'.1) lists (get_of_entry lists dict) i,
          All-In (λ e'. e'.1 ≢ []) lists full i,
        ))) in
    let (gs, span, result, sound, _, least) =
      advance_lem lists times (suc (total lists)) heap current latest none (omega arith) v tt
        (λ _ _ e. cc) in
    (
      gs,
      span,
      select_from-frontier lists window heap current latest started result,
      sound,
      λ lo hi h. least lo hi (Covers-of_first lists times lo hi heap h first),
    )

-- ===== src/Sync/Selection/Start.antt =====
-- The frontier that the search starts from satisfies the invariant of its loop.
use gc_image_stream.Prelude.{
  ℕ, suc, ◌+◌, ◌≤◌, String, ◌≡◌, ◌≢◌, refl, ◌⊎◌, inl, inr, true, some, List, [], ◌∷◌, ◌==◌,
  string_eq, eq_iff, arith, max, length, All, Any, All-imp, Any-imp, subst, ap, Bool-cases,
}
use native.Mathlib.Decide.{dec_le}
use gc_image_stream.Prelude.Sorting.{IsSortedBy, insert, All-insert, Any-insert, insert-IsSortedBy}
use gc_image_stream.Dict
use gc_image_stream.Dict.{Dict, get-put, has-put, has-cons, get-nil, has-nil}
use gc_image_stream.Sync.Models.{StoredSyncFrame}
use gc_image_stream.Sync.Selection.{
  Candidates, HeapItem, Frontier, frames_of, heap_item, item_lt, heappush, start, no_frontier,
  total,
}
use gc_image_stream.Sync.Selection.Order.{
  time_of, item_time, item_lt_le, not_item_lt_le, IsItem, next-IsItem, measure, measure-heappush,
}
use gc_image_stream.Sync.Selection.Loop.{PointsAt, IsFrontier}

abbrev pub frontier : List HeapItem → Dict StoredSyncFrame → ℕ → Frontier
frontier heap current latest = record { heap = heap; current = current; latest = some latest }

module _ (lists : Candidates) (times : (d : String) → IsSortedBy time_of (frames_of lists d)) where
  -- The item is the first candidate of a camera.
  abbrev pub IsFirst : HeapItem → Type 0
  IsFirst i = (i.index ≡ 0) × (Dict.has lists i.device_id ≡ true)

  -- The invariant while the cameras of `rest` are still to come.
  record IsPartial (rest : Candidates) (heap : List HeapItem) (current : Dict StoredSyncFrame)
      (latest : ℕ) : Type 0 where
    items : All (IsItem lists times) heap
    first : All IsFirst heap
    ordered : IsSortedBy item_time heap
    below : All (λ i. i.timestamp_ms ≤ latest) heap
    attained : Any (λ i. i.timestamp_ms ≡ latest) heap
    agrees :
        (d : String) (f : StoredSyncFrame) → Dict.get current d ≡ some f → Any (PointsAt d f) heap
    covered :
        (d : String)
        → Dict.has lists d ≡ true
        → (Dict.has current d ≡ true) ⊎ (Dict.has rest d ≡ true)
    size : measure lists times heap + total rest ≤ total lists

  -- An entry of the candidates: the key finds the list, which is not empty.
  abbrev IsEntry : String × List StoredSyncFrame → Type 0
  IsEntry e = (Dict.get lists e.0 ≡ some e.1) × (e.1 ≢ [])

  abbrev Started : Frontier → Type 0
  Started s =
      (heap : List HeapItem) × (current : Dict StoredSyncFrame) × (latest : ℕ) × (s
        ≡ frontier heap current latest)
      × IsFrontier lists times heap current latest
      × All IsFirst heap
      × (measure lists times heap ≤ total lists)

  module _ (d : String) (f : StoredSyncFrame) (fs : List StoredSyncFrame) (rest : Candidates)
      (entry : Dict.get lists d ≡ some (f ∷ fs)) where
    first_IsItem : IsItem lists times (heap_item d 0 f)
    first_IsItem = next-IsItem lists times d 0 f (ground (arith, entry))

    abbrev item : HeapItem
    item = heap_item d 0 f

    IsPartial-first :
        measure lists times (item ∷ []) + total rest ≤ total lists
        → ((d' : String) → Dict.has lists d' ≡ true → Dict.has ((d, f ∷ fs) ∷ rest) d' ≡ true)
        → IsPartial rest (item ∷ []) (Dict.put [] d f) f.timestamp_ms
    IsPartial-first size all = record {
      items = (first_IsItem, tt);
      first = ((refl, Dict.has_of_get lists d entry), tt);
      ordered = (tt, tt);
      below = (omega arith, tt);
      attained = inl refl;
      agrees = λ d' f' g. inl (
        ground (arith, get-put [] d d' f, eq_iff d d', get-nil StoredSyncFrame d'),
        ground (arith, get-put [] d d' f, get-nil StoredSyncFrame d'),
      );
      covered = λ d' h. ground (arith, all d' h, has-cons rest d d' (f ∷ fs), has-put [] d d' f);
      size = size;
    }

    module _ (heap : List HeapItem) (current : Dict StoredSyncFrame) (latest : ℕ)
        (v : IsPartial ((d, f ∷ fs) ∷ rest) heap current latest) where
      abbrev latest' : ℕ
      latest' = max latest f.timestamp_ms

      partial_attained : Any (λ k. k.timestamp_ms ≡ latest') (heappush heap item)
      partial_attained =
          Any-insert item_lt (λ k. k.timestamp_ms ≡ latest') item heap
            (elim (dec_le f.timestamp_ms latest) [
              | yes p ↦ inr (
                  Any-imp (λ k. k.timestamp_ms ≡ latest) (λ k. k.timestamp_ms ≡ latest') heap
                    (λ k q. omega arith) v.attained)
              | no p ↦ inl (omega arith)
            ])

      partial_agrees :
          (d' : String) (f' : StoredSyncFrame)
          → Dict.get (Dict.put current d f) d' ≡ some f'
          → Any (PointsAt d' f') (heappush heap item)
      partial_agrees d' f' g =
          Any-insert item_lt (PointsAt d' f') item heap (elim (Bool-cases (d == d')) [
            | inl e ↦ inl ((eq_iff d d').0 e, ground (arith, get-put current d d' f))
            | inr e ↦ inr (v.agrees d' f' (ground (arith, get-put current d d' f)))
          ])

      IsPartial-next : IsPartial rest (heappush heap item) (Dict.put current d f) latest'
      unfolding total
      IsPartial-next = record {
        items = All-insert item_lt (IsItem lists times) item heap first_IsItem v.items;
        first = All-insert item_lt IsFirst item heap (refl, Dict.has_of_get lists d entry) v.first;
        ordered = insert-IsSortedBy item_lt item_time item_lt_le not_item_lt_le item heap v.ordered;
        below =
            All-insert item_lt (λ k. k.timestamp_ms ≤ latest') item heap (omega arith)
              (All-imp (λ k. k.timestamp_ms ≤ latest) (λ k. k.timestamp_ms ≤ latest') heap
                (λ k p. omega arith) v.below);
        attained = partial_attained;
        agrees = partial_agrees;
        covered = λ d' h.
            ground (arith, v.covered d' h, has-cons rest d d' (f ∷ fs), has-put current d d' f);
        size = omega (arith, measure-heappush lists times item heap, v.size, ground_length);
      }
        where
          ground_length : length (frames_of lists d) ≡ suc (length fs)
          ground_length = ground (arith, entry)

  start-frontier :
      (rest : Candidates) (heap : List HeapItem) (current : Dict StoredSyncFrame) (latest : ℕ)
      → All IsEntry rest
      → IsPartial rest heap current latest
      → Started (start (frontier heap current latest) rest)
  unfolding start total
  start-frontier [] heap current latest es v = (
    heap,
    current,
    latest,
    refl,
    record {
      items = v.items;
      ordered = v.ordered;
      below = v.below;
      attained = v.attained;
      agrees = v.agrees;
      covered = λ d h. ground (arith, v.covered d h, has-nil (List StoredSyncFrame) d);
    },
    v.first,
    omega (arith, v.size),
  )
  start-frontier ((d, []) ∷ rest) heap current latest es v = absurd (es.0.1 refl)
  start-frontier ((d, f ∷ fs) ∷ rest) heap current latest es v =
      start-frontier rest (heappush heap (heap_item d 0 f)) (Dict.put current d f)
        (max latest f.timestamp_ms) es.1 (IsPartial-next d f fs rest es.0.0 heap current latest v)

  -- From candidates there is a frontier, with each camera at its first frame.
  pub start_lem :
      (d : String) (fs : List StoredSyncFrame) (rest : Candidates)
      → lists ≡ (d, fs) ∷ rest
      → All IsEntry ((d, fs) ∷ rest)
      → Started (start no_frontier ((d, fs) ∷ rest))
  unfolding start insert total
  start_lem d [] rest e es = absurd (es.0.1 refl)
  start_lem d (f ∷ fs) rest e es =
      start-frontier rest (heap_item d 0 f ∷ []) (Dict.put [] d f) f.timestamp_ms es.1 (
        IsPartial-first d f fs rest es.0.0
          (let first_length : length (frames_of lists d) ≡ suc (length fs) =
              ground (arith, es.0.0) in
            omega (arith, ap total e, first_length))
          (λ d' h. subst (λ l. Dict.has l d' ≡ true) e h))

-- ===== src/Sync/Selection/Loop.antt =====
-- The invariant of the selection loop, and what the loop returns.
use native.Mathlib.Nat.{le_refl, le_trans}
use mathlib.Core.Path.{subst₂}
use native.Mathlib.Decide.{dec_le, dec_lt}
use gc_image_stream.Prelude.{
  ℕ, zero, suc, ◌+◌, ◌-◌, ◌≤◌, ◌<◌, String, ◌≡◌, refl, sym, subst, ap, ◌∙◌, ◌≢◌, ◌⊎◌, inl, inr,
  Bool, true, false, none, some, List, [], ◌∷◌, ◌==◌, string_eq, eq_iff, ◌&&◌, nat_eq, arith, max,
  length, get_elem?, All, Any, All-imp, Any-imp, In, drop-get_elem?-none, Bool-cases, Option-cases,
}
use gc_image_stream.Prelude.Sorting.{IsSortedBy, All-insert, Any-insert, insert-IsSortedBy}
use gc_image_stream.Dict
use gc_image_stream.Dict.{Dict, get-put, has-put}
use gc_image_stream.Sync.Models.{StoredSyncFrame}
use gc_image_stream.Sync.Selection.{
  Candidates, HeapItem, Best, frames_of, heap_item, item_lt, heappush, improves, improve, advance,
}
use gc_image_stream.Sync.Selection.Order.{
  time_of, item_time, Hits, item_lt_le, not_item_lt_le, IsItem, rest_of, item-le-end, Hits-behind,
  next-IsItem, In-frames_of, measure, measure-heappush, rest_of-IsItem,
}

-- The item points at the frame of the camera.
abbrev pub PointsAt : String → StoredSyncFrame → HeapItem → Type 0
PointsAt d f i = (i.device_id ≡ d) × (i.frame ≡ f)

-- One frame of each camera that has candidates, all of them within the interval.
pub record Selects (lists : Candidates) (fs : Dict StoredSyncFrame) (lo hi : ℕ) : Type 0 where
  pub covered : (d : String) → Dict.has lists d ≡ true → Dict.has fs d ≡ true
  pub chosen :
      (d : String) (f : StoredSyncFrame)
      → Dict.get fs d ≡ some f
      → In f (frames_of lists d) × (lo ≤ f.timestamp_ms) × (f.timestamp_ms ≤ hi)

-- The best so far selects frames within its span.
abbrev pub IsSound : Candidates → Best → Type 0
IsSound lists none = Unit
IsSound lists (some (fs, span)) = (lo : ℕ) × Selects lists fs lo (lo + span)

module _ (lists : Candidates) (times : (d : String) → IsSortedBy time_of (frames_of lists d)) where
  -- `current` holds the frame of each item, and `latest` is the time of the latest.
  pub record IsFrontier (heap : List HeapItem) (current : Dict StoredSyncFrame) (latest : ℕ)
      : Type 0 where
    pub items : All (IsItem lists times) heap
    pub ordered : IsSortedBy item_time heap
    pub below : All (λ i. i.timestamp_ms ≤ latest) heap
    pub attained : Any (λ i. i.timestamp_ms ≡ latest) heap
    pub agrees :
        (d : String) (f : StoredSyncFrame) → Dict.get current d ≡ some f → Any (PointsAt d f) heap
    pub covered : (d : String) → Dict.has lists d ≡ true → Dict.has current d ≡ true

  -- The interval holds a candidate of each camera of the heap, from its item on.
  abbrev pub Covers : ℕ → ℕ → List HeapItem → Type 0
  Covers lo hi = All (λ i. Hits lo hi (rest_of lists times i))

  latest-le :
      (lo hi latest : ℕ) (heap : List HeapItem)
      → All (IsItem lists times) heap
      → Any (λ i. i.timestamp_ms ≡ latest) heap
      → Covers lo hi heap
      → latest ≤ hi
  latest-le lo hi latest [] v a c = absurd a
  latest-le lo hi latest (i ∷ heap) v (inl e) c =
      omega (arith, item-le-end lists times lo hi v.0 c.0)
  latest-le lo hi latest (i ∷ heap) v (inr a) c = latest-le lo hi latest heap v.1 a c.1

  chosen_of :
      (lo hi : ℕ) (d : String) (f : StoredSyncFrame) (heap : List HeapItem)
      → All (IsItem lists times) heap
      → All (λ i. lo ≤ i.timestamp_ms) heap
      → All (λ i. i.timestamp_ms ≤ hi) heap
      → Any (PointsAt d f) heap
      → In f (frames_of lists d) × (lo ≤ f.timestamp_ms) × (f.timestamp_ms ≤ hi)
  chosen_of lo hi d f [] v l u a = absurd a
  chosen_of lo hi d f (i ∷ heap) v l u (inr a) = chosen_of lo hi d f heap v.1 l.1 u.1 a
  chosen_of lo hi d f (i ∷ heap) v l u (inl (same, here)) =
      let t : i.timestamp_ms ≡ f.timestamp_ms = v.0.time ∙ ap time_of here in
      (
        subst₂ (λ g e. In g (frames_of lists e)) here same (In-frames_of lists times v.0),
        omega arith,
        omega arith,
      )

  -- The current frames lie between the first item and the latest.
  current-Selects :
      (i : HeapItem) (heap : List HeapItem) (current : Dict StoredSyncFrame) (latest : ℕ)
      → IsFrontier (i ∷ heap) current latest
      → Selects lists current i.timestamp_ms (i.timestamp_ms + (latest - i.timestamp_ms))
  current-Selects i heap current latest v =
      let e : i.timestamp_ms + (latest - i.timestamp_ms) ≡ latest = omega (arith, v.below.0) in
      rw e (record {
        covered = v.covered;
        chosen = λ d f g.
            chosen_of i.timestamp_ms latest d f (i ∷ heap) v.items (le_refl _, v.ordered.0) v.below
              (v.agrees d f g);
      })

  module _ (i : HeapItem) (heap : List HeapItem) (current : Dict StoredSyncFrame) (latest : ℕ)
      (next : StoredSyncFrame) (v : IsFrontier (i ∷ heap) current latest)
      (moves : i.timestamp_ms ≢ latest) where
    abbrev pushed : HeapItem
    pushed = heap_item i.device_id (suc i.index) next

    abbrev latest' : ℕ
    latest' = max latest next.timestamp_ms

    next_attained : Any (λ k. k.timestamp_ms ≡ latest') (heappush heap pushed)
    next_attained =
        Any-insert item_lt (λ k. k.timestamp_ms ≡ latest') pushed heap
          (elim v.attained [
            | inl e ↦ absurd (moves e)
            | inr a ↦ elim (dec_le next.timestamp_ms latest) [
              | yes p ↦ inr (
                  Any-imp (λ k. k.timestamp_ms ≡ latest) (λ k. k.timestamp_ms ≡ latest') heap
                    (λ k q. omega arith) a)
              | no p ↦ inl (omega arith)
            ]
          ])

    next_agrees :
        (d : String) (f : StoredSyncFrame)
        → Dict.get (Dict.put current i.device_id next) d ≡ some f
        → Any (PointsAt d f) (heappush heap pushed)
    next_agrees d f g =
        Any-insert item_lt (PointsAt d f) pushed heap (elim (Bool-cases (i.device_id == d)) [
          | inl e ↦
              inl ((eq_iff i.device_id d).0 e, ground (arith, get-put current i.device_id d next))
          | inr e ↦ elim (v.agrees d f (ground (arith, get-put current i.device_id d next))) [
            | inl (same, _) ↦ absurd (ground (arith, eq_iff i.device_id d))
            | inr a ↦ inr a
          ]
        ])

    -- A round that goes on keeps the invariant.
    next-IsFrontier :
        get_elem? (frames_of lists i.device_id) (suc i.index) ≡ some next
        → IsFrontier (heappush heap pushed) (Dict.put current i.device_id next) latest'
    next-IsFrontier e = record {
      items =
          All-insert item_lt (IsItem lists times) pushed heap
            (next-IsItem lists times i.device_id (suc i.index) next e) v.items.1;
      ordered =
          insert-IsSortedBy item_lt item_time item_lt_le not_item_lt_le pushed heap v.ordered.1;
      below =
          All-insert item_lt (λ k. k.timestamp_ms ≤ latest') pushed heap (omega arith)
            (All-imp (λ k. k.timestamp_ms ≤ latest) (λ k. k.timestamp_ms ≤ latest') heap
              (λ k p. omega arith) v.below.1);
      attained = next_attained;
      agrees = next_agrees;
      covered = λ d h. ground (arith, has-put current i.device_id d next, v.covered d h);
    }

  -- The loop returns frames within a span that is at most the best before, and at most the length of
  -- any interval that the candidates left cover.
  abbrev pub Ends : Best → List HeapItem → Best → Type 0
  Ends best heap result =
      (fs : Dict StoredSyncFrame) × (span : ℕ) × (result ≡ some (fs, span))
      × IsSound lists (some (fs, span))
      × ((fs' : Dict StoredSyncFrame) (span' : ℕ) → best ≡ some (fs', span') → span ≤ span')
      × ((lo hi : ℕ) → Covers lo hi heap → span ≤ hi - lo)

  improve_lem :
      (best : Best) (current : Dict StoredSyncFrame) (span : ℕ)
      → IsSound lists best
      → IsSound lists (some (current, span))
      → (fs : Dict StoredSyncFrame) × (span' : ℕ) × (improve best current span ≡ some (fs, span'))
        × IsSound lists (some (fs, span'))
        × (span' ≤ span)
        × ((gs : Dict StoredSyncFrame) (n : ℕ) → best ≡ some (gs, n) → span' ≤ n)
  improve_lem none current span s t = (current, span, refl, t, le_refl _, λ gs n e. cc)
  improve_lem (some (fs, n)) current span s t = elim (Bool-cases (improves (some (fs, n)) span)) [
    | inl e ↦ (current, span, rw e, t, le_refl _, λ gs m e'. ground arith)
    | inr e ↦ (fs, n, rw e, s, ground arith, λ gs m e'. ground arith)
  ]

  improve_pos :
      (best : Best) (current : Dict StoredSyncFrame) (span : ℕ)
      → (improves best span && span == 0) ≡ false
      → ((fs : Dict StoredSyncFrame) (n : ℕ) → best ≡ some (fs, n) → 0 < n)
      → (fs : Dict StoredSyncFrame) (n : ℕ) → improve best current span ≡ some (fs, n)
      → 0 < n
  improve_pos none current span h p fs n e = ground arith
  improve_pos (some (gs, m)) current span h p fs n e = ground (arith, p gs m refl)

  -- A round that moves on has not yet reached the least span 0.
  moves_of :
      (best : Best) (i : HeapItem) (latest : ℕ)
      → (improves best (latest - i.timestamp_ms) && latest - i.timestamp_ms == 0) ≡ false
      → ((fs : Dict StoredSyncFrame) (n : ℕ) → best ≡ some (fs, n) → 0 < n)
      → i.timestamp_ms ≢ latest
  moves_of none i latest h p e = ground arith
  moves_of (some (gs, m)) i latest h p e = ground (arith, p gs m refl)

  -- An interval that begins no later than the first item is at least as long as the current span.
  span-le :
      (i : HeapItem) (heap : List HeapItem) (current : Dict StoredSyncFrame) (latest : ℕ)
      (lo hi : ℕ)
      → IsFrontier (i ∷ heap) current latest
      → lo ≤ i.timestamp_ms
      → Covers lo hi (i ∷ heap)
      → latest - i.timestamp_ms ≤ hi - lo
  span-le i heap current latest lo hi v h c =
      omega (arith, latest-le lo hi latest (i ∷ heap) v.items v.attained c)

  stop_zero : (a : Bool) (n : ℕ) → (a && n == 0) ≡ true → n ≡ 0
  stop_zero a n h = ground arith

  -- At the end of a camera's candidates no later interval is covered.
  last-le :
      (i : HeapItem) (heap : List HeapItem) (current : Dict StoredSyncFrame) (latest : ℕ)
      (lo hi : ℕ)
      → IsFrontier (i ∷ heap) current latest
      → get_elem? (frames_of lists i.device_id) (suc i.index) ≡ none
      → Covers lo hi (i ∷ heap)
      → latest - i.timestamp_ms ≤ hi - lo
  last-le i heap current latest lo hi v end c = elim (dec_lt i.timestamp_ms lo) [
    | yes late ↦ absurd (
        subst (Hits lo hi) (drop-get_elem?-none (suc i.index) (frames_of lists i.device_id) end)
          (Hits-behind lists times lo hi v.items.0 late c.0))
    | no early ↦ span-le i heap current latest lo hi v (omega arith) c
  ]

  -- An interval over the heap is at least as long as the current span, or it covers the next heap.
  next-Covers :
      (i : HeapItem) (heap : List HeapItem) (current : Dict StoredSyncFrame) (latest : ℕ)
      (next : StoredSyncFrame) (lo hi : ℕ)
      → IsFrontier (i ∷ heap) current latest
      → Covers lo hi (i ∷ heap)
      → (latest - i.timestamp_ms ≤ hi - lo)
        ⊎ Covers lo hi (heappush heap (heap_item i.device_id (suc i.index) next))
  next-Covers i heap current latest next lo hi v c = elim (dec_lt i.timestamp_ms lo) [
    | yes late ↦ inr (
        All-insert item_lt (λ j. Hits lo hi (rest_of lists times j))
          (heap_item i.device_id (suc i.index) next) heap
          (Hits-behind lists times lo hi v.items.0 late c.0) c.1)
    | no early ↦ inl (span-le i heap current latest lo hi v (omega arith) c)
  ]

  measure-next :
      (i : HeapItem) (heap : List HeapItem) (next : StoredSyncFrame)
      → IsItem lists times i
      → measure lists times (heappush heap (heap_item i.device_id (suc i.index) next))
        < measure lists times (i ∷ heap)
  measure-next i heap next v = omega (
    arith,
    measure-heappush lists times (heap_item i.device_id (suc i.index) next) heap,
    ap length (rest_of-IsItem lists times v),
  )

  -- With more rounds than candidates left, the loop ends with the least span.
  pub advance_lem :
      (fuel : ℕ) (heap : List HeapItem) (current : Dict StoredSyncFrame) (latest : ℕ) (best : Best)
      → measure lists times heap < fuel
      → IsFrontier heap current latest
      → IsSound lists best
      → ((fs : Dict StoredSyncFrame) (n : ℕ) → best ≡ some (fs, n) → 0 < n)
      → Ends best heap (advance lists fuel heap current latest best)
  unfolding advance
  advance_lem zero heap current latest best m v s p = absurd (omega arith)
  advance_lem (suc fuel) [] current latest best m v s p = absurd v.attained
  advance_lem (suc fuel) (i ∷ heap) current latest best m v s p =
      let span = latest - i.timestamp_ms in
      let (fs, n, improved, sound, n_le, n_best) =
        improve_lem best current span s (i.timestamp_ms, current-Selects i heap current latest v) in
      elim (Bool-cases (improves best span && span == 0)) [
        | inl stop ↦ (
          fs,
          n,
          rw (stop, advance) improved,
          sound,
          n_best,
          λ lo hi c. omega (arith, stop_zero (improves best span) span stop),
        )
        | inr on ↦ elim (Option-cases (get_elem? (frames_of lists i.device_id) (suc i.index))) [
          | inl end ↦ (
            fs,
            n,
            rw (on, end, advance) improved,
            sound,
            n_best,
            λ lo hi c. le_trans n_le (last-le i heap current latest lo hi v end c),
          )
          | inr (next, got) ↦
              let moves = moves_of best i latest on p in
              let (gs, k, result, sound', k_le, k_covers) =
                advance_lem fuel (heappush heap (heap_item i.device_id (suc i.index) next))
                  (Dict.put current i.device_id next) (max latest next.timestamp_ms)
                  (improve best current span) (omega (arith, measure-next i heap next v.items.0))
                  (next-IsFrontier i heap current latest next v moves got)
                  (subst (IsSound lists) (sym improved) sound)
                  (improve_pos best current span on p) in
              (
                gs,
                k,
                rw (on, got, advance) result,
                sound',
                λ fs' n' e. le_trans (k_le fs n improved) (n_best fs' n' e),
                λ lo hi c. elim (next-Covers i heap current latest next lo hi v c) [
                  | inl q ↦ le_trans (k_le fs n improved) (le_trans n_le q)
                  | inr q ↦ k_covers lo hi q
                ],
              )
        ]
      ]

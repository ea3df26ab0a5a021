-- ===== src/Sync/Selection.antt =====
-- `SyncMatcher._select_min_span_candidate` of app/services/sync/matcher.py: one frame from each
-- expected camera, in the smallest span of time. The heap of `heapq` is the list of its tuples in
-- ascending order: the devices of two tuples differ, so the order of the first three components is
-- total, and the frame behind them is never compared.
mod Order
mod Loop
mod Start
mod Gather
mod Search
pub mod Optimal
use gc_image_stream.Prelude.{
  ℕ, zero, suc, ◌+◌, ◌-◌, String, Bool, true, false, ◌&&◌, Option, none, some, List, [], ◌∷◌, ◌++◌,
  max, ltb, leb, ◌==◌, nat_eq, string_eq, if◌then◌else◌, length, get_elem?, str_ltb,
}
use gc_image_stream.Prelude.Sorting.{insert}
use gc_image_stream.Dict
use gc_image_stream.Dict.{Dict}
use gc_image_stream.Sync.Models.{StoredSyncFrame}
use gc_image_stream.Sync.Manager
use gc_image_stream.Sync.Manager.{Manager}

abbrev pub Candidates : Type 0
Candidates = Dict (List StoredSyncFrame)

abbrev pub frames_of : Candidates → String → List StoredSyncFrame
frames_of lists d = elim (Dict.get lists d) [ none ↦ [] | some fs ↦ fs ]

-- The first loop: the frames of each camera that has any, and the cameras that have none.
unfoldable pub gather : Manager → Candidates → List String → List String → Candidates × List String
gather m lists missing [] = (lists, missing)
gather m lists missing (d ∷ ds) = elim (Manager.available_frames m d []) [
  | [] ↦ gather m lists (missing ++ d ∷ []) ds
  | f ∷ fs ↦ gather m (Dict.put lists d (f ∷ fs)) missing ds
]

-- An entry of the heap.
pub record HeapItem : Type 0 where
  pub timestamp_ms : ℕ
  pub buffer_key : String
  pub device_id : String
  pub index : ℕ
  pub frame : StoredSyncFrame

abbrev pub heap_item : String → ℕ → StoredSyncFrame → HeapItem
heap_item d index f = record {
  timestamp_ms = f.timestamp_ms;
  buffer_key = f.buffer_key;
  device_id = d;
  index = index;
  frame = f;
}

-- The order of the tuples.
unfoldable pub item_lt : HeapItem → HeapItem → Bool
item_lt a b =
    if ltb a.timestamp_ms b.timestamp_ms
    then true
    else if ltb b.timestamp_ms a.timestamp_ms
    then false
    else if str_ltb a.buffer_key b.buffer_key
    then true
    else if str_ltb b.buffer_key a.buffer_key
    then false
    else str_ltb a.device_id b.device_id

abbrev pub heappush : List HeapItem → HeapItem → List HeapItem
heappush heap item = insert item_lt item heap

-- What the second loop builds: the heap, the current frame of each camera, the latest timestamp.
pub record Frontier : Type 0 where
  pub heap : List HeapItem
  pub current : Dict StoredSyncFrame
  pub latest : Option ℕ

abbrev pub later_of : Option ℕ → ℕ → ℕ
later_of none t = t
later_of (some u) t = max u t

-- The second loop; `gather` leaves no empty list.
unfoldable pub start : Frontier → Candidates → Frontier
start s [] = s
start s ((d, []) ∷ lists) = start s lists
start s ((d, f ∷ fs) ∷ lists) =
    start
      (record {
        heap = heappush s.heap (heap_item d 0 f);
        current = Dict.put s.current d f;
        latest = some (later_of s.latest f.timestamp_ms);
      })
      lists

abbrev pub no_frontier : Frontier
no_frontier = record { heap = []; current = []; latest = none }

-- The best frames so far, with their span.
abbrev pub Best : Type 0
Best = Option (Dict StoredSyncFrame × ℕ)

abbrev pub improves : Best → ℕ → Bool
improves none span = true
improves (some (_, best)) span = ltb span best

abbrev pub improve : Best → Dict StoredSyncFrame → ℕ → Best
improve best current span = if improves best span then some (current, span) else best

-- The `while` loop, with fuel. Each round moves one camera on, so more rounds than there are
-- candidates are never made.
unfoldable pub advance : Candidates → ℕ → List HeapItem → Dict StoredSyncFrame → ℕ → Best → Best
advance lists zero heap current latest best = best
advance lists (suc fuel) [] current latest best = best
advance lists (suc fuel) (item ∷ heap) current latest best =
    let span = latest - item.timestamp_ms in
    let best' = improve best current span in
    elim (improves best span && span == 0) [
      | true ↦ best'
      | false ↦ elim (get_elem? (frames_of lists item.device_id) (suc item.index)) [
        | none ↦ best'
        | some next ↦
            advance lists fuel (heappush heap (heap_item item.device_id (suc item.index) next))
              (Dict.put current item.device_id next) (max latest next.timestamp_ms) best'
      ]
    ]

-- The number of candidates.
unfoldable pub total : Candidates → ℕ
total [] = 0
total ((_, fs) ∷ lists) = length fs + total lists

abbrev pub within : ℕ → Best → Best
within window none = none
within window (some (fs, span)) = if ltb window span then none else some (fs, span)

unfoldable pub select_from : Candidates → ℕ → Best
select_from lists window =
    let s = start no_frontier lists in
    elim s.latest [
      | none ↦ none
      | some latest ↦ within window (advance lists (suc (total lists)) s.heap s.current latest none)
    ]

-- The selected frames with their span, and the missing cameras.
unfoldable pub select_min_span_candidate : Manager → List String → ℕ → Best × List String
select_min_span_candidate m expected_cameras window_ms =
    let (lists, missing) = gather m [] [] expected_cameras in
    elim missing [ [] ↦ (select_from lists window_ms, []) | d ∷ ds ↦ (none, d ∷ ds) ]

-- ===== src/Sync/Selection/Order.antt =====
-- Intervals of time that hold a frame of each camera.
use native.Mathlib.Nat.{le_refl}
use gc_image_stream.Prelude.{
  ℕ, zero, suc, ◌+◌, ◌≤◌, ◌<◌, String, ◌≡◌, refl, sym, subst, Bool-cases, inl, inr, true, false,
  some, List, [], ◌∷◌, arith, length, get_elem?, drop, All, Any, In, In-get_elem?, drop-get_elem?,
}
use gc_image_stream.Prelude.Sorting.{IsSortedBy, insert}
use gc_image_stream.Sync.Models.{StoredSyncFrame}
use gc_image_stream.Sync.Selection.{Candidates, HeapItem, frames_of, heap_item, item_lt, heappush}

abbrev pub time_of : StoredSyncFrame → ℕ
time_of f = f.timestamp_ms

abbrev pub item_time : HeapItem → ℕ
item_time i = i.timestamp_ms

-- A frame of the list lies in the interval.
abbrev pub Hits : ℕ → ℕ → List StoredSyncFrame → Type 0
Hits lo hi = Any (λ f. (lo ≤ f.timestamp_ms) × (f.timestamp_ms ≤ hi))

pub item_lt_le : (a b : HeapItem) → item_lt a b ≡ true → a.timestamp_ms ≤ b.timestamp_ms
unfolding item_lt
item_lt_le a b h = ground arith

pub not_item_lt_le : (a b : HeapItem) → item_lt a b ≡ false → b.timestamp_ms ≤ a.timestamp_ms
unfolding item_lt
not_item_lt_le a b h = ground arith

IsSortedBy-drop :
    (n : ℕ) (fs : List StoredSyncFrame) → IsSortedBy time_of fs → IsSortedBy time_of (drop n fs)
IsSortedBy-drop zero fs h = h
IsSortedBy-drop (suc n) [] h = h
IsSortedBy-drop (suc n) (f ∷ fs) h = IsSortedBy-drop n fs h.1

pub le_of_Hits :
    (t lo hi : ℕ) (fs : List StoredSyncFrame)
    → All (λ f. t ≤ f.timestamp_ms) fs
    → Hits lo hi fs
    → t ≤ hi
le_of_Hits t lo hi [] h i = absurd i
le_of_Hits t lo hi (f ∷ fs) h (inl p) = omega arith
le_of_Hits t lo hi (f ∷ fs) h (inr i) = le_of_Hits t lo hi fs h.1 i

module _ (lists : Candidates) (times : (d : String) → IsSortedBy time_of (frames_of lists d)) where
  -- The item points at its frame among the candidates of its camera.
  pub record IsItem (i : HeapItem) : Type 0 where
    pub time : i.timestamp_ms ≡ i.frame.timestamp_ms
    pub place : get_elem? (frames_of lists i.device_id) i.index ≡ some i.frame

  -- The candidates from the item on.
  abbrev pub rest_of : HeapItem → List StoredSyncFrame
  rest_of i = drop i.index (frames_of lists i.device_id)

  pub rest_of-IsItem :
      {i : HeapItem}
      → IsItem i
      → rest_of i ≡ i.frame ∷ drop (suc i.index) (frames_of lists i.device_id)
  rest_of-IsItem {i} v = drop-get_elem? i.index (frames_of lists i.device_id) v.place

  -- Candidates come in the order of time.
  pub le_rest_of :
      {i : HeapItem} → IsItem i → All (λ f. i.timestamp_ms ≤ f.timestamp_ms) (rest_of i)
  le_rest_of {i} v =
      let later : IsSortedBy time_of (i.frame ∷ drop (suc i.index) (frames_of lists i.device_id)) =
        rw (rest_of-IsItem v) at
          (IsSortedBy-drop i.index (frames_of lists i.device_id) (times i.device_id)) in
      let from_frame : All (λ f. i.frame.timestamp_ms ≤ f.timestamp_ms) (rest_of i) =
        rw (rest_of-IsItem v) (le_refl _, later.0) in
      subst (λ t. All (λ f. t ≤ f.timestamp_ms) (rest_of i)) (sym v.time) from_frame

  -- An interval that holds a candidate of the camera from the item on ends at the item or later.
  pub item-le-end :
      {i : HeapItem} (lo hi : ℕ) → IsItem i → Hits lo hi (rest_of i) → i.timestamp_ms ≤ hi
  item-le-end {i} lo hi v h = le_of_Hits i.timestamp_ms lo hi (rest_of i) (le_rest_of v) h

  -- If the interval begins after the item, then it holds a candidate behind the item.
  pub Hits-behind :
      {i : HeapItem} (lo hi : ℕ)
      → IsItem i
      → i.timestamp_ms < lo
      → Hits lo hi (rest_of i)
      → Hits lo hi (drop (suc i.index) (frames_of lists i.device_id))
  Hits-behind {i} lo hi v late h =
      let h' : Hits lo hi (i.frame ∷ drop (suc i.index) (frames_of lists i.device_id)) =
        rw (rest_of-IsItem v) at h in
      elim h' [ inl p ↦ absurd (omega (arith, v.time)) | inr r ↦ r ]

  pub next-IsItem :
      (d : String) (n : ℕ) (f : StoredSyncFrame)
      → get_elem? (frames_of lists d) n ≡ some f
      → IsItem (heap_item d n f)
  next-IsItem d n f e = record { time = refl; place = e }

  pub In-frames_of : {i : HeapItem} → IsItem i → In i.frame (frames_of lists i.device_id)
  In-frames_of {i} v = In-get_elem? i.index (frames_of lists i.device_id) v.place

  -- The work that is left: the candidates from each item on.
  abbrev pub measure : List HeapItem → ℕ
  measure [] = 0
  measure (i ∷ heap) = length (rest_of i) + measure heap

  pub measure-heappush :
      (i : HeapItem) (heap : List HeapItem)
      → measure (heappush heap i) ≡ length (rest_of i) + measure heap
  unfolding insert
  measure-heappush i [] = refl
  measure-heappush i (j ∷ heap) = elim (Bool-cases (item_lt j i)) [
    | inl e ↦ rw e (omega (arith, measure-heappush i heap))
    | inr e ↦ rw e refl
  ]

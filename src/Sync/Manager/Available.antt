-- ===== src/Sync/Manager/Available.antt =====
-- The frames that `available_frames` lists are those of the camera's buffer, in the order of time.
use gc_image_stream.Prelude.{
  ◌≤◌, String, ◌≡◌, refl, inl, inr, not, false, true, none, some, List, [], ◌∷◌, arith, All, Any,
  keep_if, keep_if_all, Option-cases,
}
use gc_image_stream.Prelude.Sorting.{
  IsSortedBy, sorted, sorted-IsSortedBy, Any-sorted, Any-of_sorted,
}
use gc_image_stream.Dict
use gc_image_stream.Sync.Models.{StoredSyncFrame}
use gc_image_stream.Sync.Buffer
use gc_image_stream.Sync.Buffer.{frame_lt, is_excluded}
use gc_image_stream.Sync.Manager.{Manager, available_frames}

-- The frames in the camera's buffer, as they arrived.
abbrev pub buffered : Manager → String → List StoredSyncFrame
buffered m d = elim (Dict.get m.buffers d) [ none ↦ [] | some b ↦ b.frames ]

frame_lt_le : (a b : StoredSyncFrame) → frame_lt a b ≡ true → a.timestamp_ms ≤ b.timestamp_ms
frame_lt_le a b h = ground arith

not_frame_lt_le : (a b : StoredSyncFrame) → frame_lt a b ≡ false → b.timestamp_ms ≤ a.timestamp_ms
not_frame_lt_le a b h = ground arith

none_excluded : (fs : List StoredSyncFrame) → keep_if (λ f. not (is_excluded [] f)) fs ≡ fs
none_excluded fs = keep_if_all (λ f. not (is_excluded [] f)) fs (always fs)
  where
    always : (gs : List StoredSyncFrame) → All (λ f. not (is_excluded [] f) ≡ true) gs
    always [] = tt
    always (g ∷ gs) = (refl, always gs)

pub available-eq-sorted :
    (m : Manager) (d : String) → available_frames m d [] ≡ sorted frame_lt (buffered m d)
unfolding available_frames Buffer.available_frames
available-eq-sorted m d = elim (Option-cases (Dict.get m.buffers d)) [
  | inl e ↦ rw (e, available_frames, buffered) (unfold sorted in refl)
  | inr (b, e) ↦ rw (e, available_frames, buffered) (rw (none_excluded b.frames))
]

pub available-IsSortedBy :
    (m : Manager) (d : String)
    → IsSortedBy (λ (f : StoredSyncFrame). f.timestamp_ms) (available_frames m d [])
available-IsSortedBy m d =
    rw (available-eq-sorted m d)
      (sorted-IsSortedBy frame_lt (λ f. f.timestamp_ms) frame_lt_le not_frame_lt_le (buffered m d))

module _ (m : Manager) (d : String) (P : StoredSyncFrame → Type 0) where
  pub Any-available : Any P (buffered m d) → Any P (available_frames m d [])
  Any-available h = rw (available-eq-sorted m d) (Any-sorted frame_lt P (buffered m d) h)

  pub Any-of_available : Any P (available_frames m d []) → Any P (buffered m d)
  Any-of_available h = Any-of_sorted frame_lt P (buffered m d) (rw (available-eq-sorted m d) at h)

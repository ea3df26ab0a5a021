-- ===== src/Sync/Matcher/Archive.antt =====
-- `SyncMatcher` of app/services/sync/matcher.py: the updates of the archive state of emitted frame sets.
use gc_image_stream.Prelude.{
  ◌+◌, String, Bool, not, ◌&&◌, Option, none, some, List, [], ◌∷◌, map, any, ◌==◌, nat_eq,
  string_eq, option_eq, pair_eq, if◌then◌else◌,
}
use mathlib.Core.List.{reverse}
use gc_image_stream.Dict
use gc_image_stream.Dict.{Dict}
use gc_image_stream.Sync.Models.{StoredSyncFrame, SynchronizedFrameSet, archive_degraded}
use gc_image_stream.Sync.Buffer.{last_n}
use gc_image_stream.Sync.Matcher.State.{Matcher}
use gc_image_stream.Sync.Matcher.Build.{set_archive_state, set_archive_error}

-- `_replace_recent_frame_set`
unfoldable pub replace_recent_frame_set : Matcher → SynchronizedFrameSet → Matcher
replace_recent_frame_set x updated = record x {
  recent_frame_sets = last_n x.recent_limit (
      map
        (λ (item : SynchronizedFrameSet).
          if item.capture_run_id == updated.capture_run_id
            && item.frame_set_id == updated.frame_set_id
          then updated
          else item)
        x.recent_frame_sets);
}

-- The end that `finalize_archive_state` and `replace_frame_member` share: the frame set was `before`.
unfoldable pub note_archive : Matcher → SynchronizedFrameSet → SynchronizedFrameSet → Matcher
note_archive x before updated =
    replace_recent_frame_set
      (record x {
        archive_degraded_count =
            if not (before.archive_state == archive_degraded)
              && updated.archive_state == archive_degraded
            then x.archive_degraded_count + 1
            else x.archive_degraded_count;
        last_archive_state = some updated.archive_state;
        last_archive_error = updated.archive_error;
      })
      updated

unfoldable pub finalize_archive_state :
    Matcher → SynchronizedFrameSet → String → Option String → Matcher × SynchronizedFrameSet
finalize_archive_state x frame_set state error =
    let updated : SynchronizedFrameSet = record frame_set {
      archive_state = state;
      archive_error = error;
    } in
    (note_archive x frame_set updated, updated)

-- The loop of `replace_frame_member`: the first member with the key of the frame.
unfoldable pub replace_member : StoredSyncFrame → Dict StoredSyncFrame → Dict StoredSyncFrame
replace_member frame [] = []
replace_member frame ((device_id, member) ∷ frames) =
    let rest = replace_member frame frames in
    if member.buffer_key == frame.buffer_key
    then (device_id, frame) ∷ frames
    else (device_id, member) ∷ rest

unfoldable pub replace_frame_member :
    Matcher → SynchronizedFrameSet → StoredSyncFrame → Matcher × SynchronizedFrameSet
replace_frame_member x frame_set frame =
    let frames = replace_member frame frame_set.frames in
    let updated : SynchronizedFrameSet = record frame_set {
      frames = frames;
      archive_state = set_archive_state (Dict.values frames);
      archive_error = set_archive_error (Dict.values frames);
    } in
    (note_archive x frame_set updated, updated)

abbrev pub has_member : StoredSyncFrame → SynchronizedFrameSet → Bool
has_member frame fs =
    any (λ (member : StoredSyncFrame). member.buffer_key == frame.buffer_key)
      (Dict.values fs.frames)

unfoldable pub find_recent :
    StoredSyncFrame → List SynchronizedFrameSet → Option SynchronizedFrameSet
find_recent frame [] = none
find_recent frame (fs ∷ sets) = if has_member frame fs then some fs else find_recent frame sets

unfoldable pub replace_recent_frame_member :
    Matcher → StoredSyncFrame → Matcher × Option SynchronizedFrameSet
replace_recent_frame_member x frame = elim (find_recent frame (reverse x.recent_frame_sets)) [
  | none ↦ (x, none)
  | some fs ↦ let (x', updated) = replace_frame_member x fs frame in (x', some updated)
]

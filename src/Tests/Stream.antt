-- ===== src/Tests/Stream.antt =====
-- Concrete runs of app/services/stream/state.py.
use gc_image_stream.Prelude.{ℕ, String, none, some, List, [], ◌∷◌, ◌≡◌, refl, inl, inr, arith}
use gc_image_stream.Dict
use gc_image_stream.Stream.State.{
  StreamFrameState, CameraStreamState, StreamState, new_camera, update_frames,
}
use gc_image_stream.Stream.Counts.{
  IsBounded, Accounts, update_frames-IsBounded, update_frames-Accounts,
}

abbrev frame : String → ℕ → StreamFrameState
frame device_id sequence = record {
  frame_id = none;
  device_id = device_id;
  timestamp = sequence;
  sequence = some sequence;
  file_path = none;
  content_type = "image/jpeg";
  image_bytes_size = 1;
  received_at_ms = sequence;
  archive_state = "ARCHIVE_PENDING";
  archive_error = none;
}

abbrev left : CameraStreamState
left = record (new_camera "left") { frame_count = 1; last_sequence = some 4 }

abbrev state : StreamState
state = ("left", left) ∷ []

abbrev frames : List StreamFrameState
frames = frame "left" 5 ∷ frame "right" 1 ∷ frame "left" 9 ∷ []

update_frames-IsBounded_example : IsBounded (update_frames state frames)
update_frames-IsBounded_example =
    update_frames-IsBounded state frames ((omega arith, omega arith), tt)

update_frames-Accounts_example :
    (after : CameraStreamState) × (now : ℕ) × (Dict.get (update_frames state frames) "left"
      ≡ some after)
    × Accounts left 4 after now
unfolding Dict.get
update_frames-Accounts_example =
    update_frames-Accounts state "left" frames 4 refl refl
      (inr (5, refl, refl, omega arith, inl (refl, inr (9, refl, refl, omega arith, tt))))

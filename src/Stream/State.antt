-- ===== src/Stream/State.antt =====
-- `StreamState`: the cameras by device. A method takes the dict and returns it with its result; a copy
-- of a camera's state is a value.
use gc_image_stream.Prelude.{
  ℕ, ◌+◌, ◌-◌, String, Option, none, some, List, [], ◌∷◌, ltb, if◌then◌else◌,
}
use gc_image_stream.Dict
use gc_image_stream.Dict.{Dict}
use gc_image_stream.Sync.Buffer.{push}

pub record StreamFrameState : Type 0 where
  pub frame_id : Option ℕ
  pub device_id : String
  pub timestamp : ℕ
  pub sequence : Option ℕ
  pub file_path : Option String
  pub content_type : String
  pub image_bytes_size : ℕ
  pub received_at_ms : ℕ
  pub archive_state : String
  pub archive_error : Option String

pub record CameraStreamState : Type 0 where
  pub device_id : String
  pub latest_frame : Option StreamFrameState
  pub frame_count : ℕ
  pub sequence_gap_count : ℕ
  pub last_sequence : Option ℕ
  pub recent_timestamps_ms : List ℕ
  pub recent_received_at_ms : List ℕ

abbrev pub StreamState : Type 0
StreamState = Dict CameraStreamState

-- The length of the deques of recent times.
abbrev pub recent_limit : ℕ
recent_limit = 300

abbrev pub new_camera : String → CameraStreamState
new_camera device_id = record {
  device_id = device_id;
  latest_frame = none;
  frame_count = 0;
  sequence_gap_count = 0;
  last_sequence = none;
  recent_timestamps_ms = [];
  recent_received_at_ms = [];
}

-- The sequences that are missing between the last frame and this one.
abbrev pub gap : Option ℕ → Option ℕ → ℕ
gap none last = 0
gap (some n) none = 0
gap (some n) (some last) = if ltb (last + 1) n then n - last - 1 else 0

abbrev pub latest_of : Option ℕ → Option ℕ → Option ℕ
latest_of none last = last
latest_of (some n) last = some n

-- A `deque` with `maxlen=300`.
abbrev pub remember : List ℕ → ℕ → List ℕ
remember times t = push recent_limit times t

-- The frame's effect on its camera.
unfoldable pub next_camera : CameraStreamState → StreamFrameState → CameraStreamState
next_camera camera frame = record {
  device_id = camera.device_id;
  latest_frame = some frame;
  frame_count = camera.frame_count + 1;
  sequence_gap_count = camera.sequence_gap_count + gap frame.sequence camera.last_sequence;
  last_sequence = latest_of frame.sequence camera.last_sequence;
  recent_timestamps_ms = remember camera.recent_timestamps_ms frame.timestamp;
  recent_received_at_ms = remember camera.recent_received_at_ms frame.received_at_ms;
}

abbrev pub camera_or_new : Option CameraStreamState → String → CameraStreamState
camera_or_new none device_id = new_camera device_id
camera_or_new (some camera) device_id = camera

-- `update_frame`; the frame carries the arguments, and the time of its receipt or else of the call.
unfoldable pub update_frame : StreamState → StreamFrameState → StreamState × CameraStreamState
unfolding next_camera
update_frame state frame =
    let camera =
      next_camera (camera_or_new (Dict.get state frame.device_id) frame.device_id) frame in
    (Dict.put state frame.device_id camera, camera)

abbrev pub get_camera : StreamState → String → Option CameraStreamState
get_camera state device_id = Dict.get state device_id

abbrev pub list_cameras : StreamState → List CameraStreamState
list_cameras state = Dict.values state

abbrev pub clear : StreamState → StreamState
clear state = []

-- Frames of any cameras, one after the other.
unfoldable pub update_frames : StreamState → List StreamFrameState → StreamState
unfolding update_frame
update_frames state [] = state
update_frames state (frame ∷ frames) = update_frames (update_frame state frame).0 frames

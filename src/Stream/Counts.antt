-- ===== src/Stream/Counts.antt =====
-- What `update_frame` of the stream state counts and keeps.
use gc_image_stream.Prelude.{
  ℕ, ◌+◌, ◌-◌, ◌≤◌, ◌<◌, String, ◌≡◌, ◌⊎◌, refl, ap, ◌∙◌, false, some, List, [], ◌∷◌, ◌++◌, length,
  length-drop, arith, ◌==◌, string_eq, eq_iff, if◌then◌else◌, All, inl, inr,
}
use gc_image_stream.Dict
use gc_image_stream.Dict.{Dict, get-put, All-put, All-get}
use gc_image_stream.Sync.Buffer.{last_n}
use gc_image_stream.Stream.State.{
  StreamFrameState, CameraStreamState, StreamState, recent_limit, remember, next_camera,
  camera_or_new, update_frame, update_frames,
}

-- The recent times of a camera are at most 300 of each kind.
abbrev pub IsRecent : CameraStreamState → Type 0
IsRecent camera =
    (length camera.recent_timestamps_ms ≤ recent_limit)
    × (length camera.recent_received_at_ms ≤ recent_limit)

abbrev pub IsBounded : StreamState → Type 0
IsBounded state = All (λ (e : String × CameraStreamState). IsRecent e.1) state

length-remember : (times : List ℕ) (t : ℕ) → length (remember times t) ≤ recent_limit
unfolding last_n
length-remember times t =
    let longer = times ++ t ∷ [] in omega (arith, length-drop (length longer - recent_limit) longer)

-- An update of a bounded stream state leaves a bounded one.
update_frame-IsBounded :
    (state : StreamState) (frame : StreamFrameState)
    → IsBounded state
    → IsBounded (update_frame state frame).0
unfolding update_frame next_camera
update_frame-IsBounded state frame h =
    let camera = camera_or_new (Dict.get state frame.device_id) frame.device_id in
    All-put (λ (e : String × CameraStreamState). IsRecent e.1) state frame.device_id
      (next_camera camera frame)
      (
        length-remember camera.recent_timestamps_ms frame.timestamp,
        length-remember camera.recent_received_at_ms frame.received_at_ms,
      )
      h

-- However many frames of whatever cameras arrive, each camera keeps at most 300 recent times of each
-- kind.
pub update_frames-IsBounded :
    (state : StreamState) (frames : List StreamFrameState)
    → IsBounded state
    → IsBounded (update_frames state frames)
unfolding update_frames
update_frames-IsBounded state [] h = h
update_frames-IsBounded state (frame ∷ frames) h =
    update_frames-IsBounded (update_frame state frame).0 frames
      (update_frame-IsBounded state frame h)

-- The frames of the camera have sequences, each larger than the one before.
abbrev pub Ascends : String → ℕ → List StreamFrameState → Type 0
Ascends device_id last [] = Unit
Ascends device_id last (frame ∷ frames) =
    ((frame.device_id == device_id) ≡ false) × Ascends device_id last frames
    ⊎ ((n : ℕ) × (frame.device_id ≡ device_id)
        × (frame.sequence ≡ some n)
        × (last < n)
        × Ascends device_id n frames)

-- A camera that counted from another one on.
abbrev pub Accounts : CameraStreamState → ℕ → CameraStreamState → ℕ → Type 0
Accounts before first after last =
    (after.last_sequence ≡ some last)
    × (after.frame_count + after.sequence_gap_count + first
        ≡ before.frame_count + before.sequence_gap_count + last)

get-update_frame :
    (state : StreamState) (frame : StreamFrameState) (device_id : String)
    → Dict.get (update_frame state frame).0 device_id ≡ (
        if frame.device_id == device_id
        then some
            (next_camera (camera_or_new (Dict.get state frame.device_id) frame.device_id) frame)
        else Dict.get state device_id)
unfolding update_frame
get-update_frame state frame device_id = get-put state frame.device_id device_id _

next-Accounts :
    (camera : CameraStreamState) (frame : StreamFrameState) (last n : ℕ)
    → camera.last_sequence ≡ some last
    → frame.sequence ≡ some n
    → last < n
    → Accounts camera last (next_camera camera frame) n
unfolding next_camera
next-Accounts camera frame last n h k l = (rw k refl, rw (h, k) (ground (arith, l)))

-- For a camera whose frames arrive with increasing sequences, among those of other cameras, the frames
-- that are counted and the sequences that are counted as missing are together the sequences from the
-- last one before to the last one now.
pub update_frames-Accounts :
    (state : StreamState) (device_id : String) (frames : List StreamFrameState) (last : ℕ)
    {camera : CameraStreamState}
    → Dict.get state device_id ≡ some camera
    → camera.last_sequence ≡ some last
    → Ascends device_id last frames
    → (after : CameraStreamState) × (now : ℕ) × (Dict.get (update_frames state frames) device_id
        ≡ some after)
      × Accounts camera last after now
unfolding update_frames
update_frames-Accounts state device_id [] last {camera} g h a = (camera, last, g, (h, refl))
update_frames-Accounts state device_id (frame ∷ frames) last {camera} g h (inl (other, a)) =
    update_frames-Accounts (update_frame state frame).0 device_id frames last {camera = camera}
      (get-update_frame state frame device_id ∙ rw other g) h a
update_frames-Accounts state device_id (frame ∷ frames) last {camera} g h (inr (n, same, k, l, a)) =
    let next = next_camera camera frame in
    let step = next-Accounts camera frame last n h k l in
    let own : Dict.get state frame.device_id ≡ some camera = ap (Dict.get state) same ∙ g in
    let found : Dict.get (update_frame state frame).0 device_id ≡ some next =
      get-update_frame state frame device_id
      ∙ rw ((eq_iff frame.device_id device_id).1 same, own) refl in
    let (after, now, there, accounts) =
      update_frames-Accounts (update_frame state frame).0 device_id frames n found step.0 a in
    (after, now, there, (accounts.0, omega (arith, accounts.1, step.1)))

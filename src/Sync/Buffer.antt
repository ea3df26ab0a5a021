-- ===== src/Sync/Buffer.antt =====
-- `CameraSyncBuffer` of app/services/sync/frame_buffer.py: the frames of one camera.
use gc_image_stream.Prelude.{
  ℕ, ◌+◌, ◌-◌, String, Bool, true, false, ◌&&◌, ◌||◌, not, Option, none, some, List, [], ◌∷◌, ◌++◌,
  ltb, leb, dist, ◌==◌, nat_eq, string_eq, option_eq, pair_eq, if◌then◌else◌, length, drop, keep_if,
  any, str_ltb,
}
use gc_image_stream.Prelude.Sorting.{sorted}
use gc_image_stream.Identity.{identity_mode_v2}
use gc_image_stream.Sync.Models.{StoredSyncFrame}

-- `deque(xs, maxlen=n)`: the last `n` elements.
unfoldable pub last_n {ℓ} : {A : Type ℓ} → ℕ → List A → List A
last_n n xs = drop (length xs - n) xs

-- `deque.append` on a deque with `maxlen=n`.
abbrev pub push {ℓ} : {A : Type ℓ} → ℕ → List A → A → List A
push n xs x = last_n n (xs ++ x ∷ [])

abbrev pub SourceIdentity : Type 0
SourceIdentity = Option String × Option String

pub record CameraSyncBuffer : Type 0 where
  pub max_frames : ℕ
  pub frames : List StoredSyncFrame
  pub received_count : ℕ
  pub last_sequence : Option ℕ
  pub last_timestamp_ms : Option ℕ
  pub sequence_gap_count : ℕ
  pub source_identity : Option SourceIdentity
  pub retained_keys : List String

abbrev pub new_buffer : ℕ → CameraSyncBuffer
new_buffer max_frames = record {
  max_frames = max_frames;
  frames = [];
  received_count = 0;
  last_sequence = none;
  last_timestamp_ms = none;
  sequence_gap_count = 0;
  source_identity = none;
  retained_keys = [];
}

abbrev pub identity_of : StoredSyncFrame → SourceIdentity
identity_of frame = (frame.source_session_id, frame.camera_stream_id)

-- Both are set, and the first is at most, or below, the second.
abbrev pub both_le : Option ℕ → Option ℕ → Bool
both_le (some a) (some b) = leb a b
both_le _ _ = false

abbrev pub below_last : ℕ → Option ℕ → Bool
below_last t none = false
below_last t (some last) = ltb t last

unfoldable pub is_out_of_order : CameraSyncBuffer → StoredSyncFrame → Bool
is_out_of_order b frame =
    frame.identity_mode == identity_mode_v2
    && some (identity_of frame) == b.source_identity
    && (both_le frame.sequence b.last_sequence || below_last frame.timestamp_ms b.last_timestamp_ms)

-- The sequences missing between the last one and a later one.
abbrev pub gap_after : Option ℕ → Option ℕ → ℕ
gap_after (some last) (some sequence) = if ltb (last + 1) sequence then sequence - last - 1 else 0
gap_after _ _ = 0

-- `if frame.sequence is not None: self.last_sequence = frame.sequence`
abbrev pub or_last : Option ℕ → Option ℕ → Option ℕ
or_last none last = last
or_last (some sequence) last = some sequence

-- The reset at the head of `append`, when the frame comes from another source.
unfoldable pub adopt_source : CameraSyncBuffer → StoredSyncFrame → CameraSyncBuffer
adopt_source b frame = if some (identity_of frame) == b.source_identity then b else record b {
  frames = [];
  last_sequence = none;
  last_timestamp_ms = none;
  source_identity = some (identity_of frame);
}

unfoldable pub append_adopted : CameraSyncBuffer → StoredSyncFrame → CameraSyncBuffer
append_adopted b frame = record b {
  sequence_gap_count = b.sequence_gap_count + gap_after b.last_sequence frame.sequence;
  frames = push b.max_frames b.frames frame;
  received_count = b.received_count + 1;
  last_sequence = or_last frame.sequence b.last_sequence;
  last_timestamp_ms = some frame.timestamp_ms;
}

unfoldable pub append : CameraSyncBuffer → StoredSyncFrame → CameraSyncBuffer
append b frame = append_adopted (adopt_source b frame) frame

-- `frame.buffer_key in excluded`
abbrev pub is_excluded : List String → StoredSyncFrame → Bool
is_excluded excluded frame = any (λ k. k == frame.buffer_key) excluded

-- The loop of `nearest_frame`, over the nearest frame so far and its distance.
unfoldable pub nearest_from :
    ℕ
    → ℕ
    → List String
    → Option (StoredSyncFrame × ℕ)
    → List StoredSyncFrame
    → Option StoredSyncFrame
nearest_from anchor window excluded none [] = none
nearest_from anchor window excluded (some (f, _)) [] = some f
nearest_from anchor window excluded none (frame ∷ frames) =
    let delta = dist frame.timestamp_ms anchor in
    nearest_from anchor window excluded
      (if not (is_excluded excluded frame) && leb delta window then some (frame, delta) else none)
      frames
nearest_from anchor window excluded (some (f, best)) (frame ∷ frames) =
    let delta = dist frame.timestamp_ms anchor in
    nearest_from anchor window excluded
      (if not (is_excluded excluded frame) && leb delta window && ltb delta best
        then some (frame, delta)
        else some (f, best))
      frames

unfoldable pub nearest_frame : CameraSyncBuffer → ℕ → ℕ → List String → Option StoredSyncFrame
nearest_frame b anchor_timestamp_ms window_ms excluded =
    nearest_from anchor_timestamp_ms window_ms excluded none b.frames

-- The sort key of `available_frames`: by timestamp, then by buffer key.
abbrev pub frame_lt : StoredSyncFrame → StoredSyncFrame → Bool
frame_lt a b =
    if ltb a.timestamp_ms b.timestamp_ms
    then true
    else if ltb b.timestamp_ms a.timestamp_ms
    then false
    else str_ltb a.buffer_key b.buffer_key

unfoldable pub available_frames : CameraSyncBuffer → List String → List StoredSyncFrame
available_frames b excluded = sorted frame_lt (keep_if (λ f. not (is_excluded excluded f)) b.frames)

unfoldable pub drop_frames_older_than : CameraSyncBuffer → ℕ → List String → CameraSyncBuffer × ℕ
drop_frames_older_than b timestamp_ms counted_excluded = (
  record b {
    frames = last_n b.max_frames (keep_if (λ f. not (ltb f.timestamp_ms timestamp_ms)) b.frames);
  },
  length (
      keep_if (λ f. ltb f.timestamp_ms timestamp_ms && not (is_excluded counted_excluded f))
        b.frames),
)

-- `CameraSyncBuffer.status`
pub record BufferStatus : Type 0 where
  pub device_id : String
  pub buffered_count : ℕ
  pub received_count : ℕ
  pub sequence_gap_count : ℕ
  pub last_sequence : Option ℕ
  pub last_timestamp_ms : Option ℕ

abbrev pub buffer_status : CameraSyncBuffer → String → BufferStatus
buffer_status b device_id = record {
  device_id = device_id;
  buffered_count = length b.frames;
  received_count = b.received_count;
  sequence_gap_count = b.sequence_gap_count;
  last_sequence = b.last_sequence;
  last_timestamp_ms = b.last_timestamp_ms;
}

-- ===== src/Sync/Manager.antt =====
-- `SyncFrameBufferManager` of app/services/sync/frame_buffer.py: a buffer for each camera, and the
-- bounded index of the retained frames by key. A method runs under the manager's lock: it takes
-- the manager and returns the new one with its result.
pub mod Available
pub mod Consume
use gc_image_stream.Prelude.{
  ℕ, suc, ◌+◌, ◌≤◌, String, str, Bool, true, false, not, truthy, Option, none, some, List, [], ◌∷◌,
  ◌++◌, map, ltb, leb, ◌==◌, nat_eq, string_eq, if◌then◌else◌, length, keep_if, or_text, str_ltb,
  join,
}
use gc_image_stream.Prelude.Sorting.{sorted}
use gc_image_stream.Dict
use gc_image_stream.Dict.{Dict}
use gc_image_stream.External.{External}
use gc_image_stream.Sync.Models.{SyncInputFrame, StoredSyncFrame}
use gc_image_stream.Sync.Buffer
use gc_image_stream.Sync.Buffer.{
  CameraSyncBuffer, BufferStatus, new_buffer, last_n, push, buffer_status,
}

pub record Manager : Type 0 where
  pub buffer_size : ℕ
  pub buffers : Dict CameraSyncBuffer
  pub frames_by_key : Dict StoredSyncFrame
  pub received_count : ℕ
  pub duplicate_frame_count : ℕ
  pub out_of_order_frame_count : ℕ
  pub evicted_frame_count : ℕ

-- `SyncFrameBufferManager(buffer_size)`: `none` is the `ValueError` of a size below 1.
unfoldable pub new_manager : ℕ → Option Manager
new_manager buffer_size =
    if ltb buffer_size 1
    then none
    else some (record {
      buffer_size = buffer_size;
      buffers = [];
      frames_by_key = [];
      received_count = 0;
      duplicate_frame_count = 0;
      out_of_order_frame_count = 0;
      evicted_frame_count = 0;
    })

abbrev sequence_text : Option ℕ → String
sequence_text none = "-"
sequence_text (some n) = str n

-- `frame.content_digest or sha256_bytes(frame.image_bytes)`
abbrev digest_or : Option String → String → String
digest_or = or_text

abbrev frame_id_key : Option ℕ → String → String
frame_id_key none legacy = legacy
frame_id_key (some n) legacy = join "" ("db:" ∷ str n ∷ [])

unfoldable pub build_buffer_key : External → SyncInputFrame → String
build_buffer_key ext frame =
    let digest = digest_or frame.content_digest (ext.sha256_hexdigest frame.image_bytes) in
    let legacy = join ":" (
      "legacy"
      ∷ frame.device_id
      ∷ str frame.timestamp_ms
      ∷ sequence_text frame.sequence
      ∷ digest
      ∷ []) in
    if truthy frame.source_frame_uid
    then join "" ("source:" ∷ or_text frame.source_frame_uid "" ∷ [])
    else frame_id_key frame.frame_id legacy

-- The `StoredSyncFrame` that `add_frame` builds.
unfoldable pub store : External → SyncInputFrame → StoredSyncFrame
store ext frame = record {
  frame_id = frame.frame_id;
  device_id = frame.device_id;
  timestamp_ms = frame.timestamp_ms;
  sequence = frame.sequence;
  content_type = frame.content_type;
  image_bytes = frame.image_bytes;
  image_size = length frame.image_bytes;
  file_path = frame.file_path;
  buffer_key = build_buffer_key ext frame;
  source_session_id = frame.source_session_id;
  camera_stream_id = frame.camera_stream_id;
  source_frame_uid = frame.source_frame_uid;
  content_digest = frame.content_digest;
  identity_mode = frame.identity_mode;
  archive_state = frame.archive_state;
  archive_error = frame.archive_error;
  received_at_ms = frame.received_at_ms;
  capture_config_digest = frame.capture_config_digest;
  capture_metadata_json = frame.capture_metadata_json;
  tenant_id = frame.tenant_id;
  site_id = frame.site_id;
  capture_session_id = frame.capture_session_id;
  processing_job_id = frame.processing_job_id;
  profile_digest = frame.profile_digest;
  authorized_subject = frame.authorized_subject;
  session_token_jti = frame.session_token_jti;
  authorized_camera_id = frame.authorized_camera_id;
  camera_claim_id = frame.camera_claim_id;
}

-- `self._buffers.setdefault(device_id, CameraSyncBuffer(max_frames=self.buffer_size))`: the buffer,
-- which the callers put back.
abbrev pub buffer_of : Manager → String → CameraSyncBuffer
buffer_of m device_id = elim (Dict.get m.buffers device_id) [
  | none ↦ new_buffer m.buffer_size
  | some b ↦ b
]

-- `while len(retained_keys) > size: frames_by_key.pop(retained_keys.popleft(), None)`
unfoldable pub forget_excess :
    ℕ → List String → Dict StoredSyncFrame → List String × Dict StoredSyncFrame
forget_excess size [] index = ([], index)
forget_excess size (k ∷ ks) index =
    let rest = forget_excess size ks (Dict.pop index k) in
    if ltb size (length (k ∷ ks)) then rest else (k ∷ ks, index)

-- The branch of `add_frame` that takes the frame in.
unfoldable pub admit : Manager → CameraSyncBuffer → StoredSyncFrame → Manager
admit m buffer stored =
    let appended = Buffer.append buffer stored in
    let (retained, index) =
      forget_excess m.buffer_size (appended.retained_keys ++ stored.buffer_key ∷ [])
        (Dict.put m.frames_by_key stored.buffer_key stored) in
    record m {
      evicted_frame_count =
          if length buffer.frames == m.buffer_size
          then m.evicted_frame_count + 1
          else m.evicted_frame_count;
      buffers = Dict.put m.buffers stored.device_id (record appended { retained_keys = retained });
      frames_by_key = index;
      received_count = m.received_count + 1;
    }

unfoldable pub add_stored : Manager → StoredSyncFrame → Manager × Option StoredSyncFrame
add_stored m stored =
    let buffer = buffer_of m stored.device_id in
    if Dict.has m.frames_by_key stored.buffer_key
    then (record m { duplicate_frame_count = m.duplicate_frame_count + 1 }, none)
    else if Buffer.is_out_of_order buffer stored
    then (
      record m {
        buffers = Dict.put m.buffers stored.device_id buffer;
        out_of_order_frame_count = m.out_of_order_frame_count + 1;
      },
      none,
    )
    else (admit m buffer stored, some stored)

unfoldable pub add_frame : External → Manager → SyncInputFrame → Manager × Option StoredSyncFrame
add_frame ext m frame = add_stored m (store ext frame)

unfoldable pub nearest_frame : Manager → String → ℕ → ℕ → List String → Option StoredSyncFrame
nearest_frame m device_id anchor_timestamp_ms window_ms excluded =
    elim (Dict.get m.buffers device_id) [
      | none ↦ none
      | some b ↦ Buffer.nearest_frame b anchor_timestamp_ms window_ms excluded
    ]

unfoldable pub available_frames : Manager → String → List String → List StoredSyncFrame
available_frames m device_id excluded = elim (Dict.get m.buffers device_id) [
  | none ↦ []
  | some b ↦ Buffer.available_frames b excluded
]

abbrev last_timestamp_of : Option CameraSyncBuffer → Option ℕ
last_timestamp_of none = none
last_timestamp_of (some b) = b.last_timestamp_ms

-- The loop of `latest_timestamps`, over the dict that it fills.
unfoldable pub latest_from : Manager → Dict ℕ → List String → Dict ℕ
latest_from m latest [] = latest
latest_from m latest (device_id ∷ device_ids) =
    latest_from m
      (elim (last_timestamp_of (Dict.get m.buffers device_id)) [
        | none ↦ latest
        | some t ↦ Dict.put latest device_id t
      ])
      device_ids

unfoldable pub latest_timestamps : Manager → List String → Dict ℕ
latest_timestamps m device_ids = latest_from m [] device_ids

-- One camera of the loop of `drop_frames_older_than`.
unfoldable pub drop_device : Manager → String → ℕ → List String → Manager × ℕ
drop_device m device_id timestamp_ms counted_excluded = elim (Dict.get m.buffers device_id) [
  | none ↦ (m, 0)
  | some b ↦
      let (b', dropped) = Buffer.drop_frames_older_than b timestamp_ms counted_excluded in
      (record m { buffers = Dict.put m.buffers device_id b' }, dropped)
]

unfoldable pub drop_frames_older_than : Manager → List String → ℕ → List String → Manager × ℕ
drop_frames_older_than m [] timestamp_ms counted_excluded = (m, 0)
drop_frames_older_than m (device_id ∷ device_ids) timestamp_ms counted_excluded =
    let (m', dropped) = drop_device m device_id timestamp_ms counted_excluded in
    let (m'', more) = drop_frames_older_than m' device_ids timestamp_ms counted_excluded in
    (m'', dropped + more)

-- `snapshot`
pub record Snapshot : Type 0 where
  pub camera_count : ℕ
  pub received_count : ℕ
  pub duplicate_frame_count : ℕ
  pub out_of_order_frame_count : ℕ
  pub evicted_frame_count : ℕ
  pub retained_frame_count : ℕ
  pub buffer_size : ℕ
  pub cameras : List BufferStatus

abbrev entry_lt : String × CameraSyncBuffer → String × CameraSyncBuffer → Bool
entry_lt a b = str_ltb a.0 b.0

unfoldable pub snapshot : Manager → Snapshot
snapshot m = record {
  camera_count = length m.buffers;
  received_count = m.received_count;
  duplicate_frame_count = m.duplicate_frame_count;
  out_of_order_frame_count = m.out_of_order_frame_count;
  evicted_frame_count = m.evicted_frame_count;
  retained_frame_count = length m.frames_by_key;
  buffer_size = m.buffer_size;
  cameras = map (λ e. buffer_status e.1 e.0) (sorted entry_lt m.buffers);
}

unfoldable pub clear : Manager → Manager
clear m = record m {
  buffers = [];
  frames_by_key = [];
  received_count = 0;
  duplicate_frame_count = 0;
  out_of_order_frame_count = 0;
  evicted_frame_count = 0;
}

-- `consume_through` for one camera: what is not later than the chosen frame goes, and what goes
-- besides the chosen frame is counted.
unfoldable pub consume_buffer : CameraSyncBuffer → StoredSyncFrame → CameraSyncBuffer × ℕ
consume_buffer b chosen = (
  record b {
    frames =
        last_n b.max_frames (keep_if (λ f. not (leb f.timestamp_ms chosen.timestamp_ms)) b.frames);
  },
  length (
      keep_if
        (λ f.
          if leb f.timestamp_ms chosen.timestamp_ms
          then not (f.buffer_key == chosen.buffer_key)
          else false)
        b.frames),
)

-- `buffer = self._buffers[device_id]`: `none` is the `KeyError` of a camera with no buffer.
unfoldable pub consume_through : Manager → Dict StoredSyncFrame → Option (Manager × ℕ)
consume_through m [] = some (m, 0)
consume_through m ((device_id, chosen) ∷ selected) = elim (Dict.get m.buffers device_id) [
  | none ↦ none
  | some b ↦
      let (b', superseded) = consume_buffer b chosen in
      elim (consume_through (record m { buffers = Dict.put m.buffers device_id b' }) selected) [
        | none ↦ none
        | some (m', more) ↦ some (m', superseded + more)
      ]
]

unfoldable pub finalize_archive :
    Manager
    → String
    → Option ℕ
    → Option String
    → String
    → Option String
    → Manager × Option StoredSyncFrame
finalize_archive m frame_key frame_id file_path archive_state archive_error =
    elim (Dict.get m.frames_by_key frame_key) [
      | none ↦ (m, none)
      | some stored ↦
          let updated : StoredSyncFrame = record stored {
            frame_id = frame_id;
            file_path = file_path;
            archive_state = archive_state;
            archive_error = archive_error;
          } in
          let m' : Manager = record m {
            frames_by_key = Dict.put m.frames_by_key frame_key updated;
          } in
          (
            elim (Dict.get m.buffers stored.device_id) [
              | none ↦ m'
              | some b ↦ record m' {
                buffers = Dict.put m.buffers stored.device_id (record b {
                  frames = last_n b.max_frames (
                      map (λ item. if item.buffer_key == frame_key then updated else item)
                        b.frames);
                });
              }
            ],
            some updated,
          )
    ]

-- ===== src/Archive/Rows.antt =====
-- The rows that app/services/sync/manifest_store.py writes beside those that the live scheduler reads,
-- and the rows of a frame set.
use gc_image_stream.Prelude.{
  ℕ, String, Bool, Option, none, some, List, [], ◌∷◌, map, or_text, str_ltb, join, minimum, ◌==◌,
  nat_eq, if◌then◌else◌,
}
use gc_image_stream.Prelude.Sorting.{sorted}
use gc_image_stream.Dict
use gc_image_stream.Json.{quote_ascii}
use gc_image_stream.Sync.Models.{StoredSyncFrame, SynchronizedFrameSet}
use gc_image_stream.Relay.LatestLive.Tables.{
  FrameSetManifest, FrameSetMember, FrameSetDeliveryProjection, Tables,
}

pub record CaptureSession : Type 0 where
  pub id : String
  pub state : String
  pub source_sessions_json : String
  pub started_at_ms : ℕ
  pub closed_at_ms : Option ℕ
  pub close_reason : Option String

pub record CaptureRun : Type 0 where
  pub id : String
  pub capture_session_id : String
  pub identity_mode : String
  pub state : String
  pub started_at_ms : ℕ
  pub closed_at_ms : Option ℕ
  pub close_reason : Option String

-- The tables of the archive: those of the live scheduler, the capture sessions and the runs.
pub record Archive : Type 0 where
  pub live : Tables
  pub sessions : List CaptureSession
  pub runs : List CaptureRun

-- A text column of a frame set or frame that was validated.
abbrev pub column : Option String → String
column o = or_text o ""

abbrev pub members_of : SynchronizedFrameSet → List StoredSyncFrame
members_of fs = Dict.values fs.frames

abbrev pub by_camera : StoredSyncFrame → StoredSyncFrame → Bool
by_camera a b = str_ltb (column a.camera_stream_id) (column b.camera_stream_id)

-- `_source_sessions_json`
abbrev session_json : StoredSyncFrame → String
session_json f = join "" (
    "{\"camera_stream_id\":"
    ∷ quote_ascii (column f.camera_stream_id)
    ∷ ",\"source_session_id\":"
    ∷ quote_ascii (column f.source_session_id)
    ∷ "}"
    ∷ [])

unfoldable pub source_sessions_json : SynchronizedFrameSet → String
source_sessions_json fs =
    join "" ("[" ∷ join "," (map session_json (sorted by_camera (members_of fs))) ∷ "]" ∷ [])

-- `frame_set.span_ms or frame_set.max_delta_ms`
abbrev span_or : Option ℕ → ℕ → ℕ
span_or none d = d
span_or (some n) d = if n == 0 then d else n

unfoldable pub manifest_row : SynchronizedFrameSet → ℕ → FrameSetManifest
manifest_row fs timestamp_ms = record {
  frame_set_uid = column fs.frame_set_uid;
  capture_session_id = column fs.capture_session_id;
  capture_run_id = column fs.capture_run_id;
  frame_set_id = fs.frame_set_id;
  anchor_timestamp_ms = fs.anchor_timestamp_ms;
  freshness_origin_ms = minimum (map (λ (f : StoredSyncFrame). f.timestamp_ms) (members_of fs));
  synchronization_span_ms = span_or fs.span_ms fs.max_delta_ms;
  manifest_digest = column fs.manifest_digest;
  manifest_json = column fs.manifest_json;
  created_at_ms = timestamp_ms;
  archive_state = "ARCHIVE_DURABLE";
  archive_error = none;
  sync_window_ms = fs.sync_window_ms;
  synchronized_at_ms = fs.synchronized_at_ms;
  member_count = fs.member_count;
  tenant_id = fs.tenant_id;
  site_id = fs.site_id;
  processing_job_id = fs.processing_job_id;
  profile_digest = fs.profile_digest;
  authorized_subject = fs.authorized_subject;
  session_token_jti = fs.session_token_jti;
}

abbrev number : Option ℕ → ℕ
number none = 0
number (some n) = n

unfoldable pub member_row : String → StoredSyncFrame → FrameSetMember
member_row uid f = record {
  frame_set_uid = uid;
  frame_id = f.frame_id;
  source_frame_uid = column f.source_frame_uid;
  source_session_id = column f.source_session_id;
  camera_stream_id = column f.camera_stream_id;
  frame_sequence = number f.sequence;
  capture_timestamp_ms = f.timestamp_ms;
  content_type = f.content_type;
  image_size = f.image_size;
  content_digest = column f.content_digest;
  file_path = column f.file_path;
  authorized_camera_id = f.authorized_camera_id;
  camera_claim_id = f.camera_claim_id;
  authorized_subject = f.authorized_subject;
  session_token_jti = f.session_token_jti;
}

unfoldable pub member_rows : SynchronizedFrameSet → List FrameSetMember
member_rows fs = map (member_row (column fs.frame_set_uid)) (sorted by_camera (members_of fs))

-- `_new_delivery_projection`
abbrev pub new_delivery_projection : ℕ → String → Option String → FrameSetDeliveryProjection
new_delivery_projection updated_at_ms live_state reason = record {
  archive_state = "ARCHIVE_DURABLE";
  live_state = live_state;
  legacy_relay_state = "NOT_ENQUEUED";
  last_reason = reason;
  updated_at_ms = updated_at_ms;
}

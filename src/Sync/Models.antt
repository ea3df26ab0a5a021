-- ===== src/Sync/Models.antt =====
-- app/services/sync/models.py: the frames that enter synchronization, the frames that are
-- buffered, and the frame sets that are emitted. Timestamps are milliseconds since the epoch, which
-- the gRPC ingest accepts only above 0, and sequences are counters: both are natural numbers.
-- An image is the list of its bytes.
use gc_image_stream.Prelude.{ℕ, String, Option}
use gc_image_stream.External.{Bytes}
use gc_image_stream.Dict.{Dict}

abbrev pub archive_pending : String
archive_pending = "ARCHIVE_PENDING"

abbrev pub archive_degraded : String
archive_degraded = "ARCHIVE_DEGRADED_LIVE_ONLY"

pub record SyncInputFrame : Type 0 where
  pub frame_id : Option ℕ
  pub device_id : String
  pub timestamp_ms : ℕ
  pub sequence : Option ℕ
  pub content_type : String
  pub image_bytes : Bytes
  pub file_path : Option String
  pub source_session_id : Option String
  pub camera_stream_id : Option String
  pub source_frame_uid : Option String
  pub content_digest : Option String
  pub identity_mode : String
  pub archive_state : String
  pub archive_error : Option String
  pub received_at_ms : Option ℕ
  pub capture_config_digest : Option String
  pub capture_metadata_json : Option String
  pub tenant_id : Option String
  pub site_id : Option String
  pub capture_session_id : Option String
  pub processing_job_id : Option String
  pub profile_digest : Option String
  pub authorized_subject : Option String
  pub session_token_jti : Option String
  pub authorized_camera_id : Option String
  pub camera_claim_id : Option String

pub record StoredSyncFrame : Type 0 where
  pub frame_id : Option ℕ
  pub device_id : String
  pub timestamp_ms : ℕ
  pub sequence : Option ℕ
  pub content_type : String
  pub image_bytes : Bytes
  pub image_size : ℕ
  pub file_path : Option String
  pub buffer_key : String
  pub source_session_id : Option String
  pub camera_stream_id : Option String
  pub source_frame_uid : Option String
  pub content_digest : Option String
  pub identity_mode : String
  pub archive_state : String
  pub archive_error : Option String
  pub received_at_ms : Option ℕ
  pub capture_config_digest : Option String
  pub capture_metadata_json : Option String
  pub tenant_id : Option String
  pub site_id : Option String
  pub capture_session_id : Option String
  pub processing_job_id : Option String
  pub profile_digest : Option String
  pub authorized_subject : Option String
  pub session_token_jti : Option String
  pub authorized_camera_id : Option String
  pub camera_claim_id : Option String

pub record SynchronizedFrameSet : Type 0 where
  pub frame_set_id : ℕ
  pub anchor_timestamp_ms : ℕ
  pub max_delta_ms : ℕ
  pub frames : Dict StoredSyncFrame
  pub span_ms : Option ℕ
  pub capture_session_id : Option String
  pub capture_run_id : Option String
  pub frame_set_uid : Option String
  pub manifest_digest : Option String
  pub manifest_json : Option String
  pub identity_mode : String
  pub archive_state : String
  pub archive_error : Option String
  pub sync_window_ms : ℕ
  pub synchronized_at_ms : ℕ
  pub member_count : ℕ
  pub tenant_id : Option String
  pub site_id : Option String
  pub processing_job_id : Option String
  pub profile_digest : Option String
  pub authorized_subject : Option String
  pub session_token_jti : Option String

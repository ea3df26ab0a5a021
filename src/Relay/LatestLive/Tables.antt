-- ===== src/Relay/LatestLive/Tables.antt =====
-- The rows of app/models/frame_set_manifest.py and the values of
-- app/services/relay_v2/latest_live.py.
use gc_image_stream.Prelude.{
  ℕ, String, Bool, Option, none, some, List, [], ◌∷◌, map, keep_if, or_text, truthy, str_ltb, ltb,
  ◌==◌, ◌&&◌, ◌||◌, nat_eq, string_eq, if◌then◌else◌,
}
use gc_image_stream.Prelude.Sorting.{sorted}
use gc_image_stream.Dict.{Dict}

pub record FrameSetManifest : Type 0 where
  pub frame_set_uid : String
  pub capture_session_id : String
  pub capture_run_id : String
  pub frame_set_id : ℕ
  pub anchor_timestamp_ms : ℕ
  pub freshness_origin_ms : ℕ
  pub synchronization_span_ms : ℕ
  pub manifest_digest : String
  pub manifest_json : String
  pub created_at_ms : ℕ
  pub archive_state : String
  pub archive_error : Option String
  pub sync_window_ms : ℕ
  pub synchronized_at_ms : ℕ
  pub member_count : ℕ
  pub tenant_id : Option String
  pub site_id : Option String
  pub processing_job_id : Option String
  pub profile_digest : Option String
  pub authorized_subject : Option String
  pub session_token_jti : Option String

pub record FrameSetMember : Type 0 where
  pub frame_set_uid : String
  pub frame_id : Option ℕ
  pub source_frame_uid : String
  pub source_session_id : String
  pub camera_stream_id : String
  pub frame_sequence : ℕ
  pub capture_timestamp_ms : ℕ
  pub content_type : String
  pub image_size : ℕ
  pub content_digest : String
  pub file_path : String
  pub authorized_camera_id : Option String
  pub camera_claim_id : Option String
  pub authorized_subject : Option String
  pub session_token_jti : Option String

-- A row of `frame_set_delivery_projections`; its primary key is the key of the table's dict.
pub record FrameSetDeliveryProjection : Type 0 where
  pub archive_state : String
  pub live_state : String
  pub legacy_relay_state : String
  pub last_reason : Option String
  pub updated_at_ms : ℕ

pub record RelayV2ClientState : Type 0 where
  pub in_flight_frame_set_uid : Option String
  pub in_flight_credit_id : Option String
  pub in_flight_processor_instance_id : Option String
  pub in_flight_stream_epoch : Option String
  pub in_flight_offered_at_ms : Option ℕ
  pub watermark_capture_run_id : Option String
  pub watermark_frame_set_id : Option ℕ
  pub watermark_frame_set_uid : Option String
  pub reoffer_frame_set_uid : Option String
  pub processing_job_id : Option String
  pub processing_job_capture_run_id : Option String
  pub updated_at_ms : ℕ

-- The tables that a method reads and writes. `client_state` is the singleton row.
pub record Tables : Type 0 where
  pub manifests : List FrameSetManifest
  pub members : List FrameSetMember
  pub projections : Dict FrameSetDeliveryProjection
  pub client_state : Option RelayV2ClientState

pub record FrameSetKey : Type 0 where
  pub capture_run_id : String
  pub frame_set_id : ℕ
  pub frame_set_uid : String

pub record CreditIdentity : Type 0 where
  pub processor_instance_id : String
  pub stream_epoch : String
  pub credit_id : String

pub record LiveFrameMember : Type 0 where
  pub source_frame_uid : String
  pub source_session_id : String
  pub camera_stream_id : String
  pub frame_sequence : ℕ
  pub capture_timestamp_ms : ℕ
  pub content_type : String
  pub image_size : ℕ
  pub content_digest : String
  pub file_path : String
  pub authorized_camera_id : Option String
  pub camera_claim_id : Option String
  pub authorized_subject : Option String
  pub session_token_jti : Option String

pub record ClaimedFrameSet : Type 0 where
  pub key : FrameSetKey
  pub credit : CreditIdentity
  pub capture_session_id : String
  pub anchor_timestamp_ms : ℕ
  pub freshness_origin_ms : ℕ
  pub synchronization_span_ms : ℕ
  pub synchronized_at_ms : ℕ
  pub manifest_digest : String
  pub manifest_json : String
  pub offered_at_ms : ℕ
  pub members : List LiveFrameMember
  pub tenant_id : Option String
  pub site_id : Option String
  pub processing_job_id : Option String
  pub profile_digest : Option String
  pub authorized_subject : Option String
  pub session_token_jti : Option String

-- `ClaimedFrameSet.authorized_camera_ids`
abbrev pub authorized_camera_ids : ClaimedFrameSet → List String
authorized_camera_ids claimed = sorted str_ltb (
    map (λ (member : LiveFrameMember). or_text member.authorized_camera_id "")
      (keep_if (λ (member : LiveFrameMember). truthy member.authorized_camera_id) claimed.members))

-- `db.get(FrameSetManifest, uid)`
unfoldable pub manifest_of : List FrameSetManifest → String → Option FrameSetManifest
manifest_of [] uid = none
manifest_of (row ∷ rows) uid =
    let rest = manifest_of rows uid in if row.frame_set_uid == uid then some row else rest

abbrev pub manifest_key : FrameSetManifest → FrameSetKey
manifest_key manifest = record {
  capture_run_id = manifest.capture_run_id;
  frame_set_id = manifest.frame_set_id;
  frame_set_uid = manifest.frame_set_uid;
}

abbrev pub key_beq : FrameSetKey → FrameSetKey → Bool
key_beq a b =
    a.capture_run_id == b.capture_run_id
    && a.frame_set_id == b.frame_set_id
    && a.frame_set_uid == b.frame_set_uid

-- The order of the tuples `(synchronized_at_ms, created_at_ms, frame_set_uid)`: `a > b`.
abbrev pub is_newer : FrameSetManifest → FrameSetManifest → Bool
is_newer a b =
    ltb b.synchronized_at_ms a.synchronized_at_ms
    || (a.synchronized_at_ms == b.synchronized_at_ms
        && (ltb b.created_at_ms a.created_at_ms
            || (a.created_at_ms == b.created_at_ms && str_ltb b.frame_set_uid a.frame_set_uid)))

-- `_snapshot`
unfoldable pub snapshot : Tables → FrameSetManifest → CreditIdentity → ℕ → ClaimedFrameSet
snapshot db manifest credit offered_at_ms =
    let members =
      sorted (λ (a : FrameSetMember) b. str_ltb a.camera_stream_id b.camera_stream_id)
        (keep_if (λ (member : FrameSetMember). member.frame_set_uid == manifest.frame_set_uid)
          db.members) in
    record {
      key = manifest_key manifest;
      credit = credit;
      capture_session_id = manifest.capture_session_id;
      anchor_timestamp_ms = manifest.anchor_timestamp_ms;
      freshness_origin_ms = manifest.freshness_origin_ms;
      synchronization_span_ms = manifest.synchronization_span_ms;
      synchronized_at_ms = manifest.synchronized_at_ms;
      manifest_digest = manifest.manifest_digest;
      manifest_json = manifest.manifest_json;
      offered_at_ms = offered_at_ms;
      members =
          map
            (λ (member : FrameSetMember). record {
              source_frame_uid = member.source_frame_uid;
              source_session_id = member.source_session_id;
              camera_stream_id = member.camera_stream_id;
              frame_sequence = member.frame_sequence;
              capture_timestamp_ms = member.capture_timestamp_ms;
              content_type = member.content_type;
              image_size = member.image_size;
              content_digest = member.content_digest;
              file_path = member.file_path;
              authorized_camera_id = member.authorized_camera_id;
              camera_claim_id = member.camera_claim_id;
              authorized_subject = member.authorized_subject;
              session_token_jti = member.session_token_jti;
            })
            members;
      tenant_id = manifest.tenant_id;
      site_id = manifest.site_id;
      processing_job_id = manifest.processing_job_id;
      profile_digest = manifest.profile_digest;
      authorized_subject = manifest.authorized_subject;
      session_token_jti = manifest.session_token_jti;
    }

-- The result of a method: an exception leaves the tables as the transaction found them.
pub data Reply (A : Type 0) : Type 0 where
  reply : A → Reply A
  runtime_error : String → Reply A
  value_error : String → Reply A

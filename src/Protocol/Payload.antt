-- ===== src/Protocol/Payload.antt =====
-- `build_producer_hello` and `build_credited_frame_set`. Monotonic times are in milliseconds. The files
-- of the archive and the length of a serialized message are parameters.
use gc_image_stream.Prelude.{
  ℕ, ◌+◌, ◌-◌, min, String, false, Option, List, [], ◌∷◌, map, length, truthy, or_text, join, ltb,
  leb, ◌==◌, nat_eq, string_eq, if◌then◌else◌,
}
use gc_image_stream.External.{External, Bytes}
use gc_image_stream.Dict
use gc_image_stream.Dict.{Dict}
use gc_image_stream.Json as Json
use gc_image_stream.Json.{Json, Items, canonical_json}
use gc_image_stream.Session.Values.{get_field, integer, pos, boolean, truth}
use gc_image_stream.Relay.LatestLive.Tables.{FrameSetKey, LiveFrameMember, ClaimedFrameSet}
use gc_image_stream.Protocol.Messages.{
  ProtocolConfig, NegotiatedSession, ProcessorCredit, CaptureConfigSnapshot, FramePayload,
  CreditedFrameSet, ProducerEnvelope, hello, frame_set, credit_rejected, frame_set_expired,
  archive_integrity, payload_limit, python_error, Sent, sent, ◌>>=◌, ◌>>◌, check, value_or,
}
use gc_image_stream.Protocol.Members.{
  Python, Metadata, wrong_value, get_or, nonnegative_int, text_or, manifest_members,
}
use gc_image_stream.Protocol.Hello.{set_text}

abbrev pub text_field : Option String → String
text_field t = or_text t ""

unfoldable pub build_producer_hello :
    Python
    → ProtocolConfig
    → ClaimedFrameSet
    → Option FrameSetKey
    → List FrameSetKey
    → Option String
    → ℕ
    → Sent ProducerEnvelope
unfolding manifest_members
build_producer_hello py config claim watermark unresolved proposed measured_utc_ms = do
  read ← manifest_members py claim
  let scoped : Option String → String = λ t. if truthy claim.tenant_id then text_field t else ""
  sent (
      hello (record {
        protocol_version = config.protocol_version;
        schema_version = config.schema_version;
        producer_session_id = config.producer_session_id;
        capture_session_id = claim.capture_session_id;
        capture_run_id = claim.key.capture_run_id;
        processing_profile_digest = text_field config.processing_profile_digest;
        expected_camera_stream_ids =
            map (λ (item : CaptureConfigSnapshot). item.camera_stream_id) read.0;
        capture_configs = read.0;
        maximum_uncertainty_ms = config.maximum_clock_uncertainty_ms;
        measured_utc_ms = measured_utc_ms;
        clock_source = config.clock_source;
        unresolved_frame_sets = unresolved;
        tenant_id = scoped claim.tenant_id;
        site_id = scoped claim.site_id;
        authorized_subject = scoped claim.authorized_subject;
        session_token_jti = scoped claim.session_token_jti;
        last_offered_watermark = watermark;
        proposed_processing_job_id = set_text proposed;
      }))

-- The outside of a call: Python's conversions, hashes, the archive, and the length of a message.
pub record Outside : Type 0 where
  pub python : Python
  pub hashes : External
  pub read_bytes : String → Option Bytes
  pub serialized_length : ProducerEnvelope → ℕ

-- The clocks: monotonic at the receipt of the credit, at the call and at its end, and UTC.
pub record Clocks : Type 0 where
  pub received : ℕ
  pub started : ℕ
  pub finished : ℕ
  pub utc_ms : ℕ

abbrev pub lease_deadline : ProcessorCredit → Clocks → ℕ
lease_deadline credit clocks = clocks.received + credit.credit_lease_duration_ms

-- Where the sum is below 0 the source's deadline is negative, and as late as this one for any time.
abbrev pub effective_deadline : ClaimedFrameSet → ProcessorCredit → ProtocolConfig → ℕ
effective_deadline claim credit config =
    min (claim.freshness_origin_ms + config.producer_freshness_budget_ms)
      (claim.freshness_origin_ms + credit.maximum_frame_age_ms)
    - config.maximum_clock_uncertainty_ms

-- The payload of one member, from the archive.
unfoldable pub frame_payload :
    Outside
    → ProtocolConfig
    → ClaimedFrameSet
    → ℕ
    → Dict Metadata
    → LiveFrameMember
    → Sent FramePayload
unfolding nonnegative_int
frame_payload o config claim utc_ms by_camera member = do
  payload ← value_or (o.read_bytes member.file_path) (python_error "the file cannot be read")
  check (length payload == member.image_size)
      (archive_integrity (join "" ("archive size mismatch for " ∷ member.source_frame_uid ∷ [])))
  check (o.hashes.sha256_hexdigest payload == member.content_digest)
      (archive_integrity (join "" ("archive digest mismatch for " ∷ member.source_frame_uid ∷ [])))
  metadata ← value_or (Dict.get by_camera member.camera_stream_id) wrong_value
  width ← nonnegative_int o.python (get_field metadata.fields "width")
  height ← nonnegative_int o.python (get_field metadata.fields "height")
  orientation ←
      value_or (o.python.int_of (get_or metadata.fields "orientation_deg" (integer (pos 0))))
        wrong_value
  sent (record {
    source_frame_uid = member.source_frame_uid;
    source_session_id = member.source_session_id;
    camera_stream_id = member.camera_stream_id;
    frame_sequence = member.frame_sequence;
    capture_timestamp_device_ms = member.capture_timestamp_ms;
    capture_timestamp_corrected_utc_ms = member.capture_timestamp_ms;
    uncertainty_ms = config.maximum_clock_uncertainty_ms;
    measured_utc_ms = utc_ms;
    stream_received_utc_ms = claim.synchronized_at_ms;
    width = width;
    height = height;
    orientation_deg = orientation;
    mirrored = truth (get_or metadata.fields "mirrored" (boolean false));
    encoding = text_or o.python (get_field metadata.fields "encoding") member.content_type;
    color_space = text_or o.python (get_field metadata.fields "color_space") "UNKNOWN";
    capture_config_digest = metadata.capture_config_digest;
    content_size_bytes = length payload;
    content_digest = member.content_digest;
    image_bytes = payload;
  })

unfoldable pub frame_payloads :
    Outside
    → ProtocolConfig
    → ClaimedFrameSet
    → ℕ
    → Dict Metadata
    → List LiveFrameMember
    → Sent (List FramePayload)
unfolding frame_payload
frame_payloads o config claim utc_ms by_camera [] = sent []
frame_payloads o config claim utc_ms by_camera (member ∷ members) = do
  frame ← frame_payload o config claim utc_ms by_camera member
  frames ← frame_payloads o config claim utc_ms by_camera members
  sent (frame ∷ frames)

abbrev content_record : FramePayload → Json
content_record f = Json.object (
    Json.member "camera_stream_id" (Json.text f.camera_stream_id) (
      Json.member "content_digest" (Json.text f.content_digest) (
        Json.member "content_size_bytes" (Json.num f.content_size_bytes)
          (Json.member "source_frame_uid" (Json.text f.source_frame_uid) Json.end))))

abbrev content_records : List FramePayload → Items
content_records [] = Json.nil
content_records (f ∷ fs) = Json.item (content_record f) (content_records fs)

unfoldable pub content_digest_of : Outside → List FramePayload → String
unfolding canonical_json
content_digest_of o frames =
    o.hashes.sha256_hexdigest
      (o.hashes.encode_utf8 (canonical_json (Json.array (content_records frames))))

unfoldable pub credited :
    Outside
    → ClaimedFrameSet
    → ProcessorCredit
    → NegotiatedSession
    → ProtocolConfig
    → ℕ
    → List CaptureConfigSnapshot
    → List FramePayload
    → CreditedFrameSet
unfolding content_digest_of
credited o claim credit session config utc_ms configs frames = record {
  credit_scope = credit.scope;
  processing_job_id = session.processing_job_id;
  producer_session_id = config.producer_session_id;
  capture_session_id = claim.capture_session_id;
  key = claim.key;
  manifest_digest = claim.manifest_digest;
  content_digest = content_digest_of o frames;
  ordering_anchor_utc_ms = claim.anchor_timestamp_ms;
  freshness_origin_utc_ms = claim.freshness_origin_ms;
  synchronized_utc_ms = claim.synchronized_at_ms;
  offered_utc_ms = utc_ms;
  producer_freshness_budget_ms = config.producer_freshness_budget_ms;
  effective_deadline_utc_ms = effective_deadline claim credit config;
  synchronization_span_ms = claim.synchronization_span_ms;
  clock_uncertainty_ms = config.maximum_clock_uncertainty_ms;
  capture_configs = configs;
  frames = frames;
  alert_deadline_utc_ms = effective_deadline claim credit config;
  reserved_delivery_bound_ms = 0;
  processing_profile_digest = text_field config.processing_profile_digest;
  tenant_id = text_field claim.tenant_id;
  site_id = text_field claim.site_id;
  authorized_subject = text_field claim.authorized_subject;
  session_token_jti = text_field claim.session_token_jti;
}

-- `serialize_with_limit` of app/infrastructure/grpc/relay_v2_contract.py, without its result.
unfoldable pub check_size : Outside → ProducerEnvelope → ℕ → Sent (Unit {0})
check_size o envelope maximum = do
  check (ltb 0 maximum) (python_error "maximum_payload_bytes must be greater than zero")
  check (leb (o.serialized_length envelope) maximum) (payload_limit "the payload is too long")

unfoldable pub build_credited_frame_set :
    Outside
    → ClaimedFrameSet
    → ProcessorCredit
    → NegotiatedSession
    → ProtocolConfig
    → Clocks
    → Sent ProducerEnvelope
unfolding manifest_members frame_payloads credited check_size
build_credited_frame_set o claim credit session config clocks = do
  check (ltb clocks.started (lease_deadline credit clocks))
      (credit_rejected "credit lease expired before payload send")
  check (leb credit.earliest_acceptable_freshness_origin_utc_ms claim.freshness_origin_ms)
      (frame_set_expired "frame set predates the credit freshness watermark")
  check (ltb (clocks.utc_ms + credit.ingress_reserve_ms) (effective_deadline claim credit config))
      (frame_set_expired "frame set cannot reach admission before its deadline")
  read ← manifest_members o.python claim
  frames ← frame_payloads o config claim clocks.utc_ms read.1 claim.members
  let message = credited o claim credit session config clocks.utc_ms read.0 frames
  check_size o (frame_set message) (min session.maximum_payload_bytes credit.maximum_payload_bytes)
  check (ltb clocks.finished (lease_deadline credit clocks))
      (credit_rejected "credit lease expired while assembling payload")
  sent (frame_set message)

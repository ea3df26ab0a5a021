-- ===== src/Protocol/Messages.antt =====
-- The messages of proto/live_frame_relay_v2.proto that the protocol reads and writes, its values and
-- its errors. A text field that is not set is the empty text; a 64-bit time below 0 is not modelled.
use gc_image_stream.Prelude.{ℕ, String, Bool, true, false, Option, none, some, List, ◌≡◌, refl, ap}
use gc_image_stream.External.{Bytes}
use gc_image_stream.Session.Values.{ℤ}
use gc_image_stream.Relay.LatestLive.Tables.{FrameSetKey}

pub record ProtocolConfig : Type 0 where
  pub producer_session_id : String
  pub processing_profile_digest : Option String
  pub producer_freshness_budget_ms : ℕ
  pub maximum_clock_uncertainty_ms : ℕ
  pub protocol_version : ℕ
  pub schema_version : ℕ
  pub clock_source : String

pub record NegotiatedSession : Type 0 where
  pub processing_job_id : String
  pub processor_instance_id : String
  pub stream_epoch : String
  pub maximum_payload_bytes : ℕ
  pub processing_profile_digest : String

pub record HelloAccepted : Type 0 where
  pub protocol_version : ℕ
  pub schema_version : ℕ
  pub processing_job_id : String
  pub processor_instance_id : String
  pub stream_epoch : String
  pub maximum_payload_bytes : ℕ
  pub processing_profile_digest : String

-- A `ProcessorEnvelope`, by its body. A rejection has the name of its reason and its detail.
pub data ProcessorEnvelope : Type 0 where
  hello_accepted : HelloAccepted → ProcessorEnvelope
  hello_rejected : String → String → ProcessorEnvelope
  other_body : ProcessorEnvelope

pub record CreditScope : Type 0 where
  pub processor_instance_id : String
  pub stream_epoch : String
  pub credit_id : String

pub record ProcessorCredit : Type 0 where
  pub scope : CreditScope
  pub credit_lease_duration_ms : ℕ
  pub earliest_acceptable_freshness_origin_utc_ms : ℕ
  pub ingress_reserve_ms : ℕ
  pub maximum_payload_bytes : ℕ
  pub schema_version : ℕ
  pub maximum_frame_age_ms : ℕ

pub record CaptureConfigSnapshot : Type 0 where
  pub camera_stream_id : String
  pub capture_config_digest : String
  pub width : ℕ
  pub height : ℕ
  pub orientation_deg : ℤ
  pub mirrored : Bool
  pub encoding : String
  pub color_space : String
  pub authorized_camera_id : String

pub record ProducerHello : Type 0 where
  pub protocol_version : ℕ
  pub schema_version : ℕ
  pub producer_session_id : String
  pub capture_session_id : String
  pub capture_run_id : String
  pub processing_profile_digest : String
  pub expected_camera_stream_ids : List String
  pub capture_configs : List CaptureConfigSnapshot
  pub maximum_uncertainty_ms : ℕ
  pub measured_utc_ms : ℕ
  pub clock_source : String
  pub unresolved_frame_sets : List FrameSetKey
  pub tenant_id : String
  pub site_id : String
  pub authorized_subject : String
  pub session_token_jti : String
  pub last_offered_watermark : Option FrameSetKey
  pub proposed_processing_job_id : Option String

pub record FramePayload : Type 0 where
  pub source_frame_uid : String
  pub source_session_id : String
  pub camera_stream_id : String
  pub frame_sequence : ℕ
  pub capture_timestamp_device_ms : ℕ
  pub capture_timestamp_corrected_utc_ms : ℕ
  pub uncertainty_ms : ℕ
  pub measured_utc_ms : ℕ
  pub stream_received_utc_ms : ℕ
  pub width : ℕ
  pub height : ℕ
  pub orientation_deg : ℤ
  pub mirrored : Bool
  pub encoding : String
  pub color_space : String
  pub capture_config_digest : String
  pub content_size_bytes : ℕ
  pub content_digest : String
  pub image_bytes : Bytes

pub record CreditedFrameSet : Type 0 where
  pub credit_scope : CreditScope
  pub processing_job_id : String
  pub producer_session_id : String
  pub capture_session_id : String
  pub key : FrameSetKey
  pub manifest_digest : String
  pub content_digest : String
  pub ordering_anchor_utc_ms : ℕ
  pub freshness_origin_utc_ms : ℕ
  pub synchronized_utc_ms : ℕ
  pub offered_utc_ms : ℕ
  pub producer_freshness_budget_ms : ℕ
  pub effective_deadline_utc_ms : ℕ
  pub synchronization_span_ms : ℕ
  pub clock_uncertainty_ms : ℕ
  pub capture_configs : List CaptureConfigSnapshot
  pub frames : List FramePayload
  pub alert_deadline_utc_ms : ℕ
  pub reserved_delivery_bound_ms : ℕ
  pub processing_profile_digest : String
  pub tenant_id : String
  pub site_id : String
  pub authorized_subject : String
  pub session_token_jti : String

pub record NoData : Type 0 where
  pub scope : CreditScope
  pub reason : ℕ
  pub newest_known_frame_set : Option FrameSetKey

pub record ReconciliationRequest : Type 0 where
  pub processing_job_id : String
  pub producer_session_id : String
  pub unresolved_frame_sets : List FrameSetKey
  pub reconciliation_resume_token : Option String

pub data ProducerEnvelope : Type 0 where
  hello : ProducerHello → ProducerEnvelope
  frame_set : CreditedFrameSet → ProducerEnvelope
  no_data : NoData → ProducerEnvelope
  reconciliation : ReconciliationRequest → ProducerEnvelope

-- The exceptions: three of the module, that of `serialize_with_limit`, and those of Python.
pub data Failure : Type 0 where
  credit_rejected : String → Failure
  frame_set_expired : String → Failure
  archive_integrity : String → Failure
  payload_limit : String → Failure
  python_error : String → Failure

pub data Sent (A : Type 0) : Type 0 where
  sent : A → Sent A
  failure : Failure → Sent A

infixl 5 ◌>>=◌ ◌>>◌
unfoldable pub ◌>>=◌ : {A B : Type 0} → Sent A → (A → Sent B) → Sent B
sent a >>= f = f a
failure e >>= f = failure e

abbrev pub ◌>>◌ : {B : Type 0} → Sent (Unit {0}) → Sent B → Sent B
m >> k = m >>= λ _. k

abbrev pub check : Bool → Failure → Sent (Unit {0})
check true e = sent tt
check false e = failure e

abbrev pub value_or : {A : Type 0} → Option A → Failure → Sent A
value_or none e = failure e
value_or (some a) e = sent a

pub sent_inj : {A : Type 0} {a b : A} → sent a ≡ sent b → a ≡ b
sent_inj h = cc

pub failure-ne-sent : {A : Type 0} {f : Failure} {a : A} → ¬ (◌≡◌ {A = Sent A} (failure f) (sent a))
failure-ne-sent h = cc

-- The parts of a chain that succeeds, for a goal that they give.
pub from_sent {ι} :
    {A B : Type 0} {G : Type ι} (m : Sent A) (f : A → Sent B) {b : B}
    → (m >>= f) ≡ sent b
    → ((a : A) → m ≡ sent a → f a ≡ sent b → G)
    → G
unfolding ◌>>=◌
from_sent (sent a) f h k = k a refl h
from_sent (failure e) f h k = absurd (failure-ne-sent h)

pub check-sent : (b : Bool) (e : Failure) → check b e ≡ sent tt → b ≡ true
check-sent true e h = refl
check-sent false e h = absurd (failure-ne-sent h)

pub value_or-sent :
    {A : Type 0} (o : Option A) (e : Failure) {a : A} → value_or o e ≡ sent a → o ≡ some a
value_or-sent none e h = absurd (failure-ne-sent h)
value_or-sent (some b) e h = ap some (sent_inj h)

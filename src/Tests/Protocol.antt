-- ===== src/Tests/Protocol.antt =====
-- Concrete runs of app/services/relay_v2/protocol.py.
use gc_image_stream.Prelude
use gc_image_stream.Prelude.{
  ℕ, String, Bool, true, Option, none, some, List, [], ◌∷◌, ◌≡◌, refl, length, str, join, arith,
}
use gc_image_stream.Dict
use gc_image_stream.Session.Values
use gc_image_stream.Session.Values.{ℤ, pos, Value, text, array, object, nil, item, end, field}
use gc_image_stream.Relay.LatestLive.Tables.{ClaimedFrameSet}
use gc_image_stream.Protocol.Hello
use gc_image_stream.Protocol.Messages
use gc_image_stream.Protocol.Messages.{
  ProtocolConfig, NegotiatedSession, HelloAccepted, hello_accepted, ProcessorCredit,
  ProducerEnvelope, Sent, sent,
}
use gc_image_stream.Protocol.Hello.{IsSession, negotiated, accept_hello, accept_hello-IsSession}
use gc_image_stream.Protocol.Payload.{Outside, Clocks, build_credited_frame_set}
use gc_image_stream.Protocol.Admissible.{IsAdmissible, build_credited_frame_set-IsAdmissible}

abbrev config : ProtocolConfig
config = record {
  producer_session_id = "producer";
  processing_profile_digest = some "profile";
  producer_freshness_budget_ms = 500;
  maximum_clock_uncertainty_ms = 10;
  protocol_version = 2;
  schema_version = 1;
  clock_source = "STREAM_SERVER_UTC";
}

abbrev accepted : HelloAccepted
accepted = record {
  protocol_version = 2;
  schema_version = 1;
  processing_job_id = "job";
  processor_instance_id = "processor";
  stream_epoch = "epoch";
  maximum_payload_bytes = 1000;
  processing_profile_digest = "profile";
}

accept_hello-IsSession_example : IsSession (hello_accepted accepted) config (negotiated accepted)
unfolding accept_hello
accept_hello-IsSession_example = accept_hello-IsSession (hello_accepted accepted) config refl

abbrev credit : ProcessorCredit
credit = record {
  scope = record {
    processor_instance_id = "processor";
    stream_epoch = "epoch";
    credit_id = "credit";
  };
  credit_lease_duration_ms = 100;
  earliest_acceptable_freshness_origin_utc_ms = 50;
  ingress_reserve_ms = 20;
  maximum_payload_bytes = 900;
  schema_version = 1;
  maximum_frame_age_ms = 400;
}

-- A manifest whose JSON is already read, and files of two bytes.
abbrev outside : Outside
outside = record {
  python = record {
    loads = λ s. some (
        object (
          field "members"
            (array (
              item
                (object (
                  field "camera_stream_id" (text "left")
                    (field "capture_config_digest" (text "config") end)))
                nil))
            end));
    int_of = λ v. some (pos 0);
    str_of = λ v. Prelude.or_text (Values.as_text v) "";
  };
  hashes = record {
    sha256_hexdigest = λ b. "digest";
    uuid5 = λ namespace name. name;
    encode_utf8 = λ s. [];
  };
  read_bytes = λ path. some (1 ∷ 2 ∷ []);
  serialized_length = λ envelope. 800;
}

abbrev claim : ClaimedFrameSet
claim = record {
  key = record { capture_run_id = "run"; frame_set_id = 1; frame_set_uid = "a" };
  credit = record {
    processor_instance_id = "processor";
    stream_epoch = "epoch";
    credit_id = "credit";
  };
  capture_session_id = "session";
  anchor_timestamp_ms = 100;
  freshness_origin_ms = 100;
  synchronization_span_ms = 0;
  synchronized_at_ms = 110;
  manifest_digest = "manifest";
  manifest_json = "{}";
  offered_at_ms = 120;
  members =
      record {
        source_frame_uid = "frame";
        source_session_id = "s";
        camera_stream_id = "left";
        frame_sequence = 1;
        capture_timestamp_ms = 100;
        content_type = "image/jpeg";
        image_size = 2;
        content_digest = "digest";
        file_path = "path";
        authorized_camera_id = none;
        camera_claim_id = none;
        authorized_subject = none;
        session_token_jti = none;
      }
      ∷ [];
  tenant_id = none;
  site_id = none;
  processing_job_id = none;
  profile_digest = some "profile";
  authorized_subject = none;
  session_token_jti = none;
}

abbrev clocks : Clocks
clocks = record { received = 10; started = 20; finished = 30; utc_ms = 200 }

abbrev built : Sent ProducerEnvelope
built = build_credited_frame_set outside claim credit (negotiated accepted) config clocks

abbrev envelope_or : ProducerEnvelope → Sent ProducerEnvelope → ProducerEnvelope
envelope_or e (sent a) = a
envelope_or e (Messages.failure f) = e

abbrev envelope : ProducerEnvelope
envelope = envelope_or (Hello.build_no_data credit 0 none) built

built_lem : built ≡ sent envelope
unfolding build_credited_frame_set Messages.◌>>=◌ Dict.put Dict.has
built_lem = refl

build_credited_frame_set-IsAdmissible_example :
    IsAdmissible outside claim credit (negotiated accepted) config clocks envelope
build_credited_frame_set-IsAdmissible_example =
    build_credited_frame_set-IsAdmissible outside claim credit (negotiated accepted) config clocks
      built_lem

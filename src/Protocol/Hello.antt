-- ===== src/Protocol/Hello.antt =====
-- `bind_authorized_claim`, `accept_hello`, `credit_identity`, `build_no_data` and
-- `build_reconciliation_request`.
use gc_image_stream.Prelude.{
  ℕ, String, Bool, false, not, ◌&&◌, Option, none, some, List, [], ◌∷◌, truthy, join, ltb, ◌==◌,
  nat_eq, string_eq, option_eq, if◌then◌else◌, ◌≡◌, refl, sym, ◌<◌, subst, eq_iff, Bool-cases, inl,
  inr, arith,
}
use gc_image_stream.Relay.LatestLive.Tables.{FrameSetKey, CreditIdentity, ClaimedFrameSet}
use gc_image_stream.Protocol.Messages.{
  ProtocolConfig, NegotiatedSession, HelloAccepted, ProcessorEnvelope, hello_accepted,
  hello_rejected, other_body, CreditScope, ProcessorCredit, ProducerEnvelope, no_data,
  reconciliation, credit_rejected, Sent, sent, failure, sent_inj, failure-ne-sent,
}

abbrev pub rejected : {A : Type 0} → String → Sent A
rejected message = failure (credit_rejected message)

unfoldable pub bind_authorized_claim : ProtocolConfig → ClaimedFrameSet → Sent ProtocolConfig
bind_authorized_claim config claim =
    if truthy claim.profile_digest
    then (if truthy config.processing_profile_digest
          && not (config.processing_profile_digest == claim.profile_digest)
        then rejected "configured profile digest conflicts with authorized manifest"
        else sent (record config { processing_profile_digest = claim.profile_digest }))
    else if not (truthy config.processing_profile_digest)
    then rejected "frame set is missing a processing profile digest"
    else sent config

abbrev has_identity : HelloAccepted → Bool
has_identity a =
    not (a.processing_job_id == "")
    && not (a.processor_instance_id == "")
    && not (a.stream_epoch == "")
    && ltb 0 a.maximum_payload_bytes

abbrev pub negotiated : HelloAccepted → NegotiatedSession
negotiated a = record {
  processing_job_id = a.processing_job_id;
  processor_instance_id = a.processor_instance_id;
  stream_epoch = a.stream_epoch;
  maximum_payload_bytes = a.maximum_payload_bytes;
  processing_profile_digest = a.processing_profile_digest;
}

unfoldable pub accept_hello : ProcessorEnvelope → ProtocolConfig → Sent NegotiatedSession
accept_hello (hello_rejected reason detail_code) config =
    rejected (join "" ("hello rejected: " ∷ reason ∷ " (" ∷ detail_code ∷ ")" ∷ []))
accept_hello other_body config = rejected "first processor envelope must accept or reject hello"
accept_hello (hello_accepted a) config =
    if not (a.protocol_version == config.protocol_version)
    then rejected "processor negotiated an unsupported protocol version"
    else if not (a.schema_version == config.schema_version)
    then rejected "processor negotiated an unsupported schema version"
    else if not (some a.processing_profile_digest == config.processing_profile_digest)
    then rejected "processor profile digest does not match producer"
    else if not (has_identity a)
    then rejected "hello acceptance is missing required identity or bounds"
    else sent (negotiated a)

abbrev pub identity_of : CreditScope → CreditIdentity
identity_of scope = record {
  processor_instance_id = scope.processor_instance_id;
  stream_epoch = scope.stream_epoch;
  credit_id = scope.credit_id;
}

abbrev pub in_session : CreditScope → NegotiatedSession → Bool
in_session scope session =
    scope.processor_instance_id == session.processor_instance_id
    && scope.stream_epoch == session.stream_epoch
    && not (scope.credit_id == "")

unfoldable pub credit_identity : ProcessorCredit → NegotiatedSession → Sent CreditIdentity
credit_identity credit session =
    if not (credit.schema_version == 1)
    then rejected "credit schema version is unsupported"
    else if not (in_session credit.scope session)
    then rejected "credit scope is fenced or incomplete"
    else if credit.credit_lease_duration_ms == 0
    then rejected "credit lease must be positive"
    else sent (identity_of credit.scope)

abbrev pub build_no_data : ProcessorCredit → ℕ → Option FrameSetKey → ProducerEnvelope
build_no_data credit reason newest_known =
    no_data
      (record { scope = credit.scope; reason = reason; newest_known_frame_set = newest_known })

-- A text that is set if it is not empty.
abbrev pub set_text : Option String → Option String
set_text t = if truthy t then t else none

abbrev pub build_reconciliation_request :
    NegotiatedSession → ProtocolConfig → List FrameSetKey → Option String → ProducerEnvelope
build_reconciliation_request session config unresolved resume_token = reconciliation (record {
  processing_job_id = session.processing_job_id;
  producer_session_id = config.producer_session_id;
  unresolved_frame_sets = unresolved;
  reconciliation_resume_token = set_text resume_token;
})

-- The processor's hello has the versions and the profile of the configuration, names the job, the
-- processor and the epoch, and has a limit; the session is the one that the hello describes.
pub record IsSession (envelope : ProcessorEnvelope) (config : ProtocolConfig)
    (session : NegotiatedSession) : Type 0 where
  pub hello : HelloAccepted
  pub first : envelope ≡ hello_accepted hello
  pub protocol : hello.protocol_version ≡ config.protocol_version
  pub schema : hello.schema_version ≡ config.schema_version
  pub profile : config.processing_profile_digest ≡ some hello.processing_profile_digest
  pub job : ¬ (hello.processing_job_id ≡ "")
  pub processor : ¬ (hello.processor_instance_id ≡ "")
  pub epoch : ¬ (hello.stream_epoch ≡ "")
  pub limit : 0 < hello.maximum_payload_bytes
  pub same_job : session.processing_job_id ≡ hello.processing_job_id
  pub same_processor : session.processor_instance_id ≡ hello.processor_instance_id
  pub same_epoch : session.stream_epoch ≡ hello.stream_epoch
  pub same_limit : session.maximum_payload_bytes ≡ hello.maximum_payload_bytes
  pub same_profile : session.processing_profile_digest ≡ hello.processing_profile_digest

not_empty : (s : String) → (s == "") ≡ false → ¬ (s ≡ "")
not_empty s h e = ground (arith, eq_iff s "")

accepted-IsSession :
    (a : HelloAccepted) (config : ProtocolConfig) {session : NegotiatedSession}
    → accept_hello (hello_accepted a) config ≡ sent session
    → IsSession (hello_accepted a) config session
unfolding accept_hello
accepted-IsSession a config h = elim (Bool-cases (a.protocol_version == config.protocol_version)) [
  | inr p ↦ absurd (failure-ne-sent (rw (accept_hello, p) at h))
  | inl p ↦ elim (Bool-cases (a.schema_version == config.schema_version)) [
    | inr s ↦ absurd (failure-ne-sent (rw (accept_hello, p, s) at h))
    | inl s ↦
        elim (Bool-cases (some a.processing_profile_digest == config.processing_profile_digest)) [
          | inr d ↦ absurd (failure-ne-sent (rw (accept_hello, p, s, d) at h))
          | inl d ↦ elim (Bool-cases (has_identity a)) [
            | inr i ↦ absurd (failure-ne-sent (rw (accept_hello, p, s, d, i) at h))
            | inl i ↦
                subst (IsSession (hello_accepted a) config)
                  (sent_inj (rw (accept_hello, p, s, d, i) at h))
                  (record {
                    hello = a;
                    first = refl;
                    protocol = ground arith;
                    schema = ground arith;
                    profile = sym ((option_eq.beq_iff _ _).0 d);
                    job = not_empty _ (ground (arith, i));
                    processor = not_empty _ (ground (arith, i));
                    epoch = not_empty _ (ground (arith, i));
                    limit = ground (arith, i);
                    same_job = refl;
                    same_processor = refl;
                    same_epoch = refl;
                    same_limit = refl;
                    same_profile = refl;
                  })
          ]
        ]
  ]
]

-- A session that is returned comes of a first envelope that accepts the hello with the protocol version,
-- the schema version and the profile of the configuration, with a job, a processor and an epoch that are
-- not empty and a positive limit of the payload; the session has these of the hello, each in its place.
pub accept_hello-IsSession :
    (envelope : ProcessorEnvelope) (config : ProtocolConfig) {session : NegotiatedSession}
    → accept_hello envelope config ≡ sent session
    → IsSession envelope config session
unfolding accept_hello
accept_hello-IsSession (hello_rejected r d) config h = absurd (failure-ne-sent h)
accept_hello-IsSession other_body config h = absurd (failure-ne-sent h)
accept_hello-IsSession (hello_accepted a) config h = accepted-IsSession a config h

-- ===== src/Protocol/Admissible.antt =====
-- What a frame set is that `build_credited_frame_set` returns.
use gc_image_stream.Prelude.{
  ℕ, ◌+◌, ◌-◌, ◌≤◌, ◌<◌, min, ◌≡◌, refl, subst, some, List, [], ◌∷◌, length, ltb→lt, leb→le, nat_eq,
  string_eq, eq_iff, nat_beq_iff, arith,
}
use gc_image_stream.Relay.LatestLive.Tables.{LiveFrameMember, ClaimedFrameSet}
use gc_image_stream.Protocol.Messages.{
  ProtocolConfig, NegotiatedSession, ProcessorCredit, FramePayload, CreditedFrameSet,
  ProducerEnvelope, frame_set, sent, sent_inj, from_sent, check-sent, value_or-sent,
}
use gc_image_stream.Protocol.Members.{Metadata}
use gc_image_stream.Protocol.Payload.{
  Outside, Clocks, frame_payload, frame_payloads, credited, check_size, build_credited_frame_set,
}
use gc_image_stream.Dict.{Dict}

-- The payload of the member has the bytes of its file, with the size and the digest of the archive.
pub record IsPayload (o : Outside) (member : LiveFrameMember) (f : FramePayload) : Type 0 where
  pub from_file : o.read_bytes member.file_path ≡ some f.image_bytes
  pub size : length f.image_bytes ≡ member.image_size
  pub digest : o.hashes.sha256_hexdigest f.image_bytes ≡ f.content_digest
  pub archived : f.content_digest ≡ member.content_digest
  pub camera : f.camera_stream_id ≡ member.camera_stream_id
  pub source : f.source_frame_uid ≡ member.source_frame_uid

-- A payload for each member, in their order.
abbrev pub ArePayloads : Outside → List LiveFrameMember → List FramePayload → Type 0
ArePayloads o [] [] = Unit
ArePayloads o [] (f ∷ fs) = ⊥
ArePayloads o (m ∷ ms) [] = ⊥
ArePayloads o (m ∷ ms) (f ∷ fs) = IsPayload o m f × ArePayloads o ms fs

module _ (o : Outside) (config : ProtocolConfig) (claim : ClaimedFrameSet) (utc_ms : ℕ)
    (by_camera : Dict Metadata) where
  frame_payload-IsPayload :
      (member : LiveFrameMember) {f : FramePayload}
      → frame_payload o config claim utc_ms by_camera member ≡ sent f
      → IsPayload o member f
  unfolding frame_payload
  frame_payload-IsPayload member h = from_sent _ _ h (λ payload e1 h1. from_sent _ _ h1 (λ u e2 h2.
      from_sent _ _ h2 (λ v e3 h3. from_sent _ _ h3 (λ metadata e4 h4.
        from_sent _ _ h4 (λ width e5 h5. from_sent _ _ h5 (λ height e6 h6.
          from_sent _ _ h6 (λ orientation e7 h7. subst (IsPayload o member) (sent_inj h7) (record {
            from_file = value_or-sent _ _ e1;
            size = (nat_beq_iff _ _).0 (check-sent _ _ e2);
            digest = (eq_iff _ _).0 (check-sent _ _ e3);
            archived = refl;
            camera = refl;
            source = refl;
          }))))))))

  frame_payloads-ArePayloads :
      (members : List LiveFrameMember) {frames : List FramePayload}
      → frame_payloads o config claim utc_ms by_camera members ≡ sent frames
      → ArePayloads o members frames
  unfolding frame_payloads
  frame_payloads-ArePayloads [] h = subst (ArePayloads o []) (sent_inj h) tt
  frame_payloads-ArePayloads (member ∷ members) h = from_sent _ _ h (λ frame e1 h1.
      from_sent _ _ h1 (λ frames e2 h2.
        subst (ArePayloads o (member ∷ members)) (sent_inj h2)
          (frame_payload-IsPayload member e1, frame_payloads-ArePayloads members e2)))

-- What a credited frame set is, for its claim, its credit and the clocks.
pub record IsAdmissible (o : Outside) (claim : ClaimedFrameSet) (credit : ProcessorCredit)
    (session : NegotiatedSession) (config : ProtocolConfig) (clocks : Clocks)
    (envelope : ProducerEnvelope) : Type 0 where
  pub message : CreditedFrameSet
  pub is_frame_set : envelope ≡ frame_set message
  pub started_in_lease : clocks.started < clocks.received + credit.credit_lease_duration_ms
  pub ended_in_lease : clocks.finished < clocks.received + credit.credit_lease_duration_ms
  pub fresh : credit.earliest_acceptable_freshness_origin_utc_ms ≤ claim.freshness_origin_ms
  pub in_time :
      clocks.utc_ms + credit.ingress_reserve_ms + config.maximum_clock_uncertainty_ms
      < claim.freshness_origin_ms
        + min config.producer_freshness_budget_ms credit.maximum_frame_age_ms
  pub within_limits :
      o.serialized_length envelope ≤ min session.maximum_payload_bytes credit.maximum_payload_bytes
  pub in_scope : message.credit_scope ≡ credit.scope
  pub of_claim : message.key ≡ claim.key
  pub payloads : ArePayloads o claim.members message.frames

in_time_of :
    (now reserve origin budget age uncertainty : ℕ)
    → now + reserve < min (origin + budget) (origin + age) - uncertainty
    → now + reserve + uncertainty < origin + min budget age
in_time_of now reserve origin budget age uncertainty h = omega (arith, h)

check_size-within :
    (o : Outside) (envelope : ProducerEnvelope) (maximum : ℕ)
    → check_size o envelope maximum ≡ sent tt
    → o.serialized_length envelope ≤ maximum
unfolding check_size
check_size-within o envelope maximum h = from_sent _ _ h (λ u e1 h1. leb→le _ _ (check-sent _ _ h1))

-- A frame set that is returned was assembled within the lease of its credit; its freshness origin is one
-- that the credit accepts, and with the reserve and the clock uncertainty added, the call is before the
-- end of both the producer's budget and the credit's maximum age. It has the scope of the credit and
-- the key of the claim, it fits both payload limits, and it carries for each member, in order, the bytes of its
-- file, which have the size and the digest of the archive.
pub build_credited_frame_set-IsAdmissible :
    (o : Outside) (claim : ClaimedFrameSet) (credit : ProcessorCredit) (session : NegotiatedSession)
    (config : ProtocolConfig) (clocks : Clocks) {envelope : ProducerEnvelope}
    → build_credited_frame_set o claim credit session config clocks ≡ sent envelope
    → IsAdmissible o claim credit session config clocks envelope
unfolding build_credited_frame_set credited
build_credited_frame_set-IsAdmissible o claim credit session config clocks h =
    from_sent _ _ h (λ a e1 h1. from_sent _ _ h1 (λ b e2 h2. from_sent _ _ h2 (λ c e3 h3.
      from_sent _ _ h3 (λ read e4 h4. from_sent _ _ h4 (λ frames e5 h5. from_sent _ _ h5 (λ d e6 h6.
        from_sent _ _ h6 (λ f e7 h7.
          subst (IsAdmissible o claim credit session config clocks) (sent_inj h7) (record {
            message = credited o claim credit session config clocks.utc_ms read.0 frames;
            is_frame_set = refl;
            started_in_lease = ltb→lt _ _ (check-sent _ _ e1);
            ended_in_lease = ltb→lt _ _ (check-sent _ _ e7);
            fresh = leb→le _ _ (check-sent _ _ e2);
            in_time =
                in_time_of clocks.utc_ms credit.ingress_reserve_ms claim.freshness_origin_ms
                  config.producer_freshness_budget_ms credit.maximum_frame_age_ms
                  config.maximum_clock_uncertainty_ms (ltb→lt _ _ (check-sent _ _ e3));
            within_limits = check_size-within o _ _ e6;
            in_scope = refl;
            of_claim = refl;
            payloads =
                frame_payloads-ArePayloads o config claim clocks.utc_ms read.1 claim.members e5;
          }))))))))

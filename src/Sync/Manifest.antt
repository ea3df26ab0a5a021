-- ===== src/Sync/Manifest.antt =====
-- `_build_manifest_payload` of app/services/sync/matcher.py: the provenance manifest of a frame set.
use gc_image_stream.Prelude.{
  ℕ, String, Bool, Option, none, some, List, [], ◌∷◌, map, minimum, or_text, str_ltb,
}
use gc_image_stream.Prelude.Sorting.{sorted}
use gc_image_stream.Dict
use gc_image_stream.Dict.{Dict}
use gc_image_stream.Json.{Json, Items, null, num, text, array, object, nil, item, end, member}
use gc_image_stream.Sync.Models.{StoredSyncFrame}
use gc_image_stream.Sync.CaptureIdentity.{AuthorizationKey}

abbrev pub text_or_null : Option String → Json
text_or_null none = null
text_or_null (some s) = text s

abbrev pub num_or_null : Option ℕ → Json
num_or_null none = null
num_or_null (some n) = num n

-- `capture_metadata_json if it is not None else "{}"`
abbrev metadata_text : Option String → String
metadata_text none = "{}"
metadata_text (some s) = s

abbrev authorization_json : Option AuthorizationKey → Json
authorization_json none = null
authorization_json (some ((tenant, (site, (session, (job, profile)))), (subject, jti))) = object (
    member "tenant_id" (text_or_null tenant) (
      member "site_id" (text_or_null site) (
        member "capture_session_id" (text_or_null session) (
          member "processing_job_id" (text_or_null job) (
            member "profile_digest" (text_or_null profile) (
              member "authorized_subject" (text_or_null subject)
                (member "session_token_jti" (text_or_null jti) end)))))))

abbrev member_json : StoredSyncFrame → Json
member_json f = object (
    member "device_id" (text f.device_id) (
      member "source_session_id" (text_or_null f.source_session_id) (
        member "camera_stream_id" (text_or_null f.camera_stream_id) (
          member "frame_sequence" (num_or_null f.sequence) (
            member "source_frame_uid" (text_or_null f.source_frame_uid) (
              member "capture_timestamp_ms" (num f.timestamp_ms) (
                member "content_type" (text f.content_type) (
                  member "image_size" (num f.image_size) (
                    member "content_digest" (text_or_null f.content_digest) (
                      member "capture_config_digest" (text_or_null f.capture_config_digest) (
                        member "authorized_camera_id" (text_or_null f.authorized_camera_id) (
                          member "camera_claim_id" (text_or_null f.camera_claim_id) (
                            member "authorized_subject" (text_or_null f.authorized_subject) (
                              member "session_token_jti" (text_or_null f.session_token_jti) (
                                member "capture_metadata_json"
                                  (text (metadata_text f.capture_metadata_json)) end)))))))))))))))

-- `item.camera_stream_id or item.device_id`
abbrev pub member_lt : StoredSyncFrame → StoredSyncFrame → Bool
member_lt a b =
    str_ltb (or_text a.camera_stream_id a.device_id) (or_text b.camera_stream_id b.device_id)

abbrev items_of : List StoredSyncFrame → Items
items_of [] = nil
items_of (f ∷ fs) = item (member_json f) (items_of fs)

unfoldable pub build_manifest_payload :
    Option String → Dict StoredSyncFrame → String → ℕ → ℕ → ℕ → Option AuthorizationKey → Json
build_manifest_payload session frames mode window_ms span_ms anchor authorization = object (
    member "schema_version" (num 2) (
      member "identity_mode" (text mode) (
        member "capture_session_id" (text_or_null session) (
          member "authorization" (authorization_json authorization) (
            member "synchronization"
              (object (
                member "algorithm" (text "minimum-span-v1") (
                  member "window_ms" (num window_ms) (
                    member "span_ms" (num span_ms) (
                      member "anchor_timestamp_ms" (num anchor) (
                        member "freshness_origin_ms"
                          (num (
                            minimum
                              (map (λ (f : StoredSyncFrame). f.timestamp_ms) (Dict.values frames))))
                          end))))))
              (member "members" (array (items_of (sorted member_lt (Dict.values frames)))) end))))))

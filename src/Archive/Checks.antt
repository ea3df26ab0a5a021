-- ===== src/Archive/Checks.antt =====
-- `_validate_v2_frame_set` and `_verify_existing_manifest` of app/services/sync/manifest_store.py.
-- A check returns the message of its `ManifestIntegrityError`, or nothing.
use gc_image_stream.Prelude.{
  String, Bool, true, false, not, ◌&&◌, ◌||◌, Option, none, some, List, [], ◌∷◌, map, any, all,
  keep_if, is_nil, truthy, join, str_ltb, ◌==◌, string_eq, option_eq, bool_eq, if◌then◌else◌,
}
use gc_image_stream.Prelude.Sorting.{sorted}
use gc_image_stream.Sync.Models.{StoredSyncFrame, SynchronizedFrameSet}
use gc_image_stream.Relay.LatestLive.Tables.{FrameSetManifest}
use gc_image_stream.Archive.Rows.{members_of}

abbrev pub is_set {ℓ} : {A : Type ℓ} → Option A → Bool
is_set none = false
is_set (some a) = true

-- The names of the required fields with their values.
abbrev pub required : SynchronizedFrameSet → List (String × Option String)
required fs =
    ("capture_session_id", fs.capture_session_id)
    ∷ ("capture_run_id", fs.capture_run_id)
    ∷ ("frame_set_uid", fs.frame_set_uid)
    ∷ ("manifest_digest", fs.manifest_digest)
    ∷ ("manifest_json", fs.manifest_json)
    ∷ []

abbrev pub missing : SynchronizedFrameSet → List String
missing fs = map (λ e. e.0) (keep_if (λ e. not (truthy e.1)) (required fs))

abbrev pub is_complete_member : StoredSyncFrame → Bool
is_complete_member f =
    truthy f.source_frame_uid
    && truthy f.source_session_id
    && truthy f.camera_stream_id
    && is_set f.sequence
    && truthy f.content_digest
    && f.archive_state == "ARCHIVE_DURABLE"
    && truthy f.file_path

abbrev pub group_values : SynchronizedFrameSet → List (Option String)
group_values fs = fs.tenant_id ∷ fs.site_id ∷ fs.processing_job_id ∷ fs.profile_digest ∷ []

-- The member has the scope of the frame set, and a participant and a camera.
abbrev pub has_scope_of : SynchronizedFrameSet → StoredSyncFrame → Bool
has_scope_of fs f =
    f.tenant_id == fs.tenant_id
    && f.site_id == fs.site_id
    && f.capture_session_id == fs.capture_session_id
    && f.processing_job_id == fs.processing_job_id
    && f.profile_digest == fs.profile_digest
    && truthy f.authorized_subject
    && truthy f.session_token_jti
    && truthy f.authorized_camera_id

-- A participant of the frame set is that of the member.
abbrev pub has_participant_of : SynchronizedFrameSet → StoredSyncFrame → Bool
has_participant_of fs f =
    not (is_set fs.authorized_subject)
    || (f.authorized_subject == fs.authorized_subject
        && f.session_token_jti == fs.session_token_jti)

unfoldable pub check_members : SynchronizedFrameSet → List StoredSyncFrame → Option String
check_members fs [] = none
check_members fs (f ∷ frames) =
    let rest = check_members fs frames in
    if not (has_scope_of fs f)
    then some "manifest member authorization scope does not match frame set"
    else if not (has_participant_of fs f)
    then some "manifest member participant does not match frame set"
    else rest

unfoldable pub check_scope : SynchronizedFrameSet → Option String
unfolding check_members
check_scope fs =
    if not (any truthy (group_values fs))
    then none
    else if not (all truthy (group_values fs))
    then some "authorized v2 frame set has an incomplete session scope"
    else if not (is_set fs.authorized_subject == is_set fs.session_token_jti)
    then some "frame-set participant identity must be complete or member-scoped"
    else check_members fs (members_of fs)

unfoldable pub validate_v2_frame_set : SynchronizedFrameSet → Option String
unfolding check_scope
validate_v2_frame_set fs =
    if not (is_nil (missing fs))
    then some (join "" ("v2 frame set is missing " ∷ join ", " (sorted str_ltb (missing fs)) ∷ []))
    else if not (all is_complete_member (members_of fs))
    then some "v2 manifest member is not identity-complete and archive-durable"
    else check_scope fs

-- `_verify_existing_manifest`: the row has the content of the frame set.
unfoldable pub is_same_manifest : FrameSetManifest → SynchronizedFrameSet → Bool
is_same_manifest existing fs =
    some existing.manifest_digest == fs.manifest_digest
    && some existing.manifest_json == fs.manifest_json
    && existing.tenant_id == fs.tenant_id
    && existing.site_id == fs.site_id
    && existing.processing_job_id == fs.processing_job_id
    && existing.profile_digest == fs.profile_digest
    && existing.authorized_subject == fs.authorized_subject
    && existing.session_token_jti == fs.session_token_jti

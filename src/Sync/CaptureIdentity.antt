-- ===== src/Sync/CaptureIdentity.antt =====
-- `_resolve_capture_identity` of app/services/sync/matcher.py: what the selected frames agree on.
pub mod Agreement
use gc_image_stream.Prelude.{
  ℕ, suc, String, Bool, true, false, not, ◌&&◌, ◌||◌, truthy, or_text, Option, none, some, List, [],
  ◌∷◌, map, length, any, all, keep_if, distinct, ◌==◌, nat_eq, string_eq, option_eq, pair_eq, Eq,
  ltb, if◌then◌else◌, is_nil,
}
use gc_image_stream.Prelude.Sorting.{sorted}
use gc_image_stream.External.{External}
use gc_image_stream.Identity.{
  identity_mode_v2, identity_mode_legacy, pair_lt, build_capture_session_id,
}
use gc_image_stream.Identity
use gc_image_stream.Sync.Models.{StoredSyncFrame}

-- A result, `FrameScopeConflict`, or another `ValueError`.
pub data Resolved {ℓ} (A : Type ℓ) : Type ℓ where
  ok : A → Resolved A
  scope_conflict : String → Resolved A
  value_error : String → Resolved A

-- The five texts of an authorization group: tenant, site, capture session, job, profile.
abbrev pub GroupKey : Type 0
GroupKey = Option String × (Option String × (Option String × (Option String × Option String)))

-- Who took part: the subject and its token.
abbrev pub Participant : Type 0
Participant = Option String × Option String

abbrev pub AuthorizationKey : Type 0
AuthorizationKey = GroupKey × Participant

pub record CaptureIdentity : Type 0 where
  pub identity_mode : String
  pub capture_session_id : Option String
  pub capture_config_key : Option (List (String × String))
  pub authorization_key : Option AuthorizationKey

abbrev pub is_some {ℓ} : {A : Type ℓ} → Option A → Bool
is_some none = false
is_some (some a) = true

-- The frame carries a complete v2 identity.
abbrev pub has_v2_identity : StoredSyncFrame → Bool
has_v2_identity f =
    f.identity_mode == identity_mode_v2
    && truthy f.source_session_id
    && truthy f.camera_stream_id
    && is_some f.sequence
    && truthy f.source_frame_uid
    && truthy f.content_digest

abbrev pub group_key : StoredSyncFrame → GroupKey
group_key f =
    (f.tenant_id, (f.site_id, (f.capture_session_id, (f.processing_job_id, f.profile_digest))))

abbrev pub participant : StoredSyncFrame → Participant
participant f = (f.authorized_subject, f.session_token_jti)

abbrev pub scope_texts : StoredSyncFrame → List (Option String)
scope_texts f =
    f.tenant_id ∷ f.site_id ∷ f.capture_session_id ∷ f.processing_job_id ∷ f.profile_digest
    ∷ f.authorized_subject ∷ f.session_token_jti ∷ f.authorized_camera_id ∷ []

unfoldable pub has_scope : StoredSyncFrame → Bool
has_scope f = any truthy (scope_texts f)

unfoldable pub has_full_scope : StoredSyncFrame → Bool
has_full_scope f = all truthy (scope_texts f)

abbrev pub group_keys : List StoredSyncFrame → List GroupKey
group_keys frames = distinct (map group_key (keep_if has_scope frames))

-- `next(iter(participant_keys))` where all frames have one participant and no frame its own claim.
abbrev pub common_participant : List Participant → Bool → Participant
common_participant (p ∷ []) false = p
common_participant _ _ = (none, none)

-- The branch with an authorization, for its first group key.
unfoldable pub authorize : List StoredSyncFrame → List GroupKey → Resolved (Option AuthorizationKey)
authorize frames [] = ok none
authorize frames (k ∷ ks) =
    let cameras = map (λ (f : StoredSyncFrame). f.authorized_camera_id) frames in
    let member_scoped = any (λ (f : StoredSyncFrame). truthy f.camera_claim_id) frames in
    if not (length (k ∷ ks) == 1) || any (λ f. not (has_full_scope f)) frames
    then scope_conflict "authorization scope conflict across frame set"
    else if not (length (distinct cameras) == length cameras)
    then scope_conflict "authorized camera was reused across frame set"
    else if member_scoped && any (λ (f : StoredSyncFrame). not (truthy f.camera_claim_id)) frames
    then scope_conflict "camera credential scope conflict across frame set"
    else ok (some (k, common_participant (distinct (map participant frames)) member_scoped))

-- The camera and the session of a frame, which are texts where the frame has a v2 identity.
abbrev source_of : StoredSyncFrame → String × String
source_of f = (or_text f.camera_stream_id "", or_text f.source_session_id "")

abbrev config_of : StoredSyncFrame → String × String
config_of f = (or_text f.camera_stream_id "", or_text f.capture_config_digest "")

abbrev lift_session : Identity.Result String → Resolved (Option String)
lift_session (Identity.ok s) = ok (some s)
lift_session (Identity.value_error e) = value_error e

-- The capture session: the group's, or one built from the sources.
unfoldable pub session_for :
    External → List StoredSyncFrame → Option AuthorizationKey → Resolved (Option String)
session_for ext frames none = lift_session (build_capture_session_id ext (map source_of frames))
session_for ext frames (some (group, _)) = ok group.1.1.0

infixl 5 ◌>>=◌
abbrev pub ◌>>=◌ {ℓ κ} : {A : Type ℓ} {B : Type κ} → Resolved A → (A → Resolved B) → Resolved B
ok a >>= f = f a
scope_conflict e >>= f = scope_conflict e
value_error e >>= f = value_error e

abbrev pub legacy_identity : CaptureIdentity
legacy_identity = record {
  identity_mode = identity_mode_legacy;
  capture_session_id = none;
  capture_config_key = none;
  authorization_key = none;
}

unfoldable pub resolve_capture_identity : External → List StoredSyncFrame → Resolved CaptureIdentity
unfolding authorize session_for
resolve_capture_identity ext frames =
    if not (all has_v2_identity frames) then ok legacy_identity else do
      authorization ← authorize frames (group_keys frames)
      session ← session_for ext frames authorization
      ok (record {
        identity_mode = identity_mode_v2;
        capture_session_id = session;
        capture_config_key = some (sorted pair_lt (map config_of frames));
        authorization_key = authorization;
      })

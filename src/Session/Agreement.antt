-- ===== src/Session/Agreement.antt =====
-- When a credential agrees with a claimed frame set, in terms of equal texts and equal sets of cameras.
use gc_image_stream.Prelude.{
  String, ◌≡◌, sym, option_eq, true, some, Option, List, [], ◌∷◌, all, arith, Bool-cases, All, In,
  any-In, inl, inr, ◌==◌, string_eq,
}
use gc_image_stream.Session.Scopes.{AuthorizedSessionScope, has_camera, same_cameras}
use gc_image_stream.Session.Credentials.{Claim, matches_claim}
use gc_image_stream.Session.RelayScopes.{ProcessingRelayScope, relay_matches}

-- The lists have the same elements.
abbrev pub IsSameSet : List String → List String → Type 0
IsSameSet a b = All (λ c. In c b) a × All (λ c. In c a) b

all-In : (a b : List String) → all (has_camera b) a ≡ true → All (λ c. In c b) a
all-In [] b h = tt
all-In (x ∷ a) b h = elim (Bool-cases (has_camera b x)) [
  | inl e ↦ (any-In b x e, all-In a b (rw e at h))
  | inr e ↦ absurd (ground (arith, h, e))
]

same_cameras-IsSameSet : (a b : List String) → same_cameras a b ≡ true → IsSameSet a b
same_cameras-IsSameSet a b h = (all-In a b (ground (arith, h)), all-In b a (ground (arith, h)))

-- The claimed frame set has this tenant, site, capture session, processing job, profile and cameras.
pub record Agrees (claim : Claim) (tenant site session job profile : String) (cameras : List String)
    : Type 0 where
  pub tenant_id : claim.tenant_id ≡ some tenant
  pub site_id : claim.site_id ≡ some site
  pub capture_session_id : claim.capture_session_id ≡ some session
  pub processing_job_id : claim.processing_job_id ≡ some job
  pub profile_digest : claim.profile_digest ≡ some profile
  pub camera_ids : IsSameSet claim.authorized_camera_ids cameras

-- The claim has what the scope grants, with its subject and its token.
abbrev pub IsClaimOf : AuthorizedSessionScope → Claim → Type 0
IsClaimOf s claim =
    Agrees claim s.tenant_id s.site_id s.capture_session_id s.processing_job_id s.profile_digest
      s.camera_ids
    × (claim.authorized_subject ≡ some s.authorized_subject)
    × (claim.session_token_jti ≡ some s.token_jti)

own : (t : String) (u : Option String) → (some t == u) ≡ true → u ≡ some t
own t u h = sym ((option_eq.beq_iff _ _).0 h)

pub matches_claim-IsClaimOf :
    (s : AuthorizedSessionScope) (claim : Claim) → matches_claim s claim ≡ true → IsClaimOf s claim
matches_claim-IsClaimOf s claim h = (
  record {
    tenant_id = own _ _ (ground (arith, h));
    site_id = own _ _ (ground (arith, h));
    capture_session_id = own _ _ (ground (arith, h));
    processing_job_id = own _ _ (ground (arith, h));
    profile_digest = own _ _ (ground (arith, h));
    camera_ids =
        let same =
          same_cameras-IsSameSet s.camera_ids claim.authorized_camera_ids (ground (arith, h)) in
        (same.1, same.0);
  },
  own _ _ (ground (arith, h)),
  own _ _ (ground (arith, h)),
)

-- The claim has what the scope grants.
abbrev pub IsRelayClaimOf : ProcessingRelayScope → Claim → Type 0
IsRelayClaimOf s claim =
    Agrees claim s.tenant_id s.site_id s.capture_session_id s.processing_job_id s.profile_digest
      s.camera_ids

pub relay_matches-IsRelayClaimOf :
    (s : ProcessingRelayScope) (claim : Claim)
    → relay_matches s claim ≡ true
    → IsRelayClaimOf s claim
relay_matches-IsRelayClaimOf s claim h = record {
  tenant_id = (option_eq.beq_iff _ _).0 (ground (arith, h));
  site_id = (option_eq.beq_iff _ _).0 (ground (arith, h));
  capture_session_id = (option_eq.beq_iff _ _).0 (ground (arith, h));
  processing_job_id = (option_eq.beq_iff _ _).0 (ground (arith, h));
  profile_digest = (option_eq.beq_iff _ _).0 (ground (arith, h));
  camera_ids = same_cameras-IsSameSet claim.authorized_camera_ids s.camera_ids (ground (arith, h));
}

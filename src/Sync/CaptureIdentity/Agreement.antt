-- ===== src/Sync/CaptureIdentity/Agreement.antt =====
-- What the frames of a set agree on when their capture identity is resolved.
use mathlib.Core.Path.{ap₂}
use mathlib.Core.Bool.{false≢true}
use gc_image_stream.Prelude.{
  eq_iff, String, ◌≡◌, refl, sym, ◌∙◌, ap, ◌⊎◌, inl, inr, Bool, true, false, not, truthy, Option,
  none, some, List, [], ◌∷◌, map, arith, length, any, all, keep_if, distinct, All, All_of_In,
  false_of_keep_if-nil, Bool-cases, nat_eq, string_eq, option_eq, pair_eq,
}
use gc_image_stream.Prelude.Distinct.{IsDistinct, distinct_nil, IsDistinct_of_length, all_of_single}
use gc_image_stream.External.{External}
use gc_image_stream.Identity.{identity_mode_v2, identity_mode_legacy}
use gc_image_stream.Sync.Models.{StoredSyncFrame}
use gc_image_stream.Sync.CaptureIdentity.{
  Resolved, ok, scope_conflict, value_error, ◌>>=◌, GroupKey, Participant, AuthorizationKey,
  CaptureIdentity, group_key, group_keys, participant, has_scope, has_full_scope, authorize,
  session_for, resolve_capture_identity, common_participant, has_v2_identity,
}

not-any :
    {A : Type 0} (p : A → Bool) (xs : List A)
    → any (λ x. not (p x)) xs ≡ false
    → All (λ x. p x ≡ true) xs
not-any p [] h = tt
not-any p (x ∷ xs) h = (ground arith, not-any p xs (ground arith))

none_of_any :
    {A : Type 0} (p : A → Bool) (xs : List A) → any p xs ≡ false → All (λ x. p x ≡ false) xs
none_of_any p [] h = tt
none_of_any p (x ∷ xs) h = (ground arith, none_of_any p xs (ground arith))

-- A complete scope is a scope.
scope_of_full : (f : StoredSyncFrame) → has_full_scope f ≡ true → has_scope f ≡ true
unfolding has_scope has_full_scope
scope_of_full f h = ground arith

keep_all :
    (frames : List StoredSyncFrame)
    → All (λ f. has_full_scope f ≡ true) frames
    → keep_if has_scope frames ≡ frames
keep_all [] h = refl
keep_all (f ∷ fs) h = rw (scope_of_full f h.0, keep_all fs h.1)

All_of_map :
    {A B : Type 0} (g : A → B) (k : B) (xs : List A)
    → All (λ y. y ≡ k) (map g xs)
    → All (λ x. g x ≡ k) xs
All_of_map g k [] h = tt
All_of_map g k (x ∷ xs) h = (h.0, All_of_map g k xs h.1)

-- The frames of an authorized set: each has a complete scope, all have the one group key, no camera
-- stands twice, and frames with claims of their own all have one.
pub record IsAuthorized (frames : List StoredSyncFrame) (key : AuthorizationKey) : Type 0 where
  pub full : All (λ f. has_full_scope f ≡ true) frames
  pub group : All (λ f. group_key f ≡ key.0) frames
  pub cameras : IsDistinct (map (λ (f : StoredSyncFrame). f.authorized_camera_id) frames)
  pub claims :
      any (λ (f : StoredSyncFrame). truthy f.camera_claim_id) frames ≡ true
      → All (λ (f : StoredSyncFrame). truthy f.camera_claim_id ≡ true) frames
  pub participant_of :
      any (λ (f : StoredSyncFrame). truthy f.camera_claim_id) frames ≡ true → key.1 ≡ (none, none)

map_nil : {A B : Type 0} (g : A → B) (xs : List A) → map g xs ≡ [] → xs ≡ []
map_nil g [] h = refl
map_nil g (x ∷ xs) h = cc

no_scope :
    (frames : List StoredSyncFrame) → group_keys frames ≡ [] → All (λ f. has_scope f ≡ false) frames
no_scope frames h =
    All_of_In (λ f. has_scope f ≡ false) frames
      (λ f i.
        false_of_keep_if-nil has_scope frames
          (map_nil group_key (keep_if has_scope frames)
            (distinct_nil (map group_key (keep_if has_scope frames)) h))
          i)

scoped_participant : (ps : List Participant) → common_participant ps true ≡ (none, none)
scoped_participant [] = refl
scoped_participant (p ∷ []) = refl
scoped_participant (p ∷ q ∷ ps) = refl

module _ (frames : List StoredSyncFrame) (k : GroupKey) (ks : List GroupKey)
    {key : AuthorizationKey} (e : group_keys frames ≡ k ∷ ks)
    (h : authorize frames (k ∷ ks) ≡ ok (some key)) where
  abbrev cameras_of : List (Option String)
  cameras_of = map (λ (f : StoredSyncFrame). f.authorized_camera_id) frames

  authorized_full : All (λ f. has_full_scope f ≡ true) frames
  unfolding authorize
  authorized_full = not-any has_full_scope frames (ground arith)

  authorized_single : ks ≡ []
  unfolding authorize
  authorized_single = ground arith

  authorized_key : key.0 ≡ k
  unfolding authorize
  authorized_key = ground arith

  authorized_group : All (λ f. group_key f ≡ key.0) frames
  authorized_group = All_of_map group_key key.0 frames (
      all_of_single (map group_key frames) key.0 (
        ap (λ l. distinct (map group_key l)) (sym (keep_all frames authorized_full))
        ∙ e
        ∙ ap₂ (λ a l. a ∷ l) (sym authorized_key) authorized_single))

  authorized_cameras : length (distinct cameras_of) ≡ length cameras_of
  unfolding authorize
  authorized_cameras = ground arith

  authorize-IsAuthorized : IsAuthorized frames key
  unfolding authorize
  authorize-IsAuthorized = record {
    full = authorized_full;
    group = authorized_group;
    cameras = IsDistinct_of_length cameras_of authorized_cameras;
    claims = λ c. not-any (λ (f : StoredSyncFrame). truthy f.camera_claim_id) frames (ground arith);
    participant_of = λ c. ground (arith, scoped_participant (distinct (map participant frames)));
  }

bind_ok :
    {A B : Type 0} (r : Resolved A) (f : A → Resolved B) {b : B}
    → (r >>= f) ≡ ok b
    → (a : A) × (r ≡ ok a) × (f a ≡ ok b)
bind_ok (ok a) f h = (a, refl, h)
bind_ok (scope_conflict e) f h = cc
bind_ok (value_error e) f h = cc

-- A v2 identity: with no authorization no frame has any scope; with one the frames are authorized
-- by it, and the capture session is that of the group.
abbrev pub AgreesOn : List StoredSyncFrame → CaptureIdentity → Type 0
AgreesOn frames ci =
    ((ci.authorization_key ≡ none) × All (λ f. has_scope f ≡ false) frames)
    ⊎ ((key : AuthorizationKey) × (ci.authorization_key ≡ some key)
        × IsAuthorized frames key
        × (ci.capture_session_id ≡ key.0.1.1.0))

authorize_cases :
    (frames : List StoredSyncFrame) (keys : List GroupKey) (a : Option AuthorizationKey)
    → group_keys frames ≡ keys
    → authorize frames keys ≡ ok a
    → ((a ≡ none) × All (λ f. has_scope f ≡ false) frames)
      ⊎ ((key : AuthorizationKey) × (a ≡ some key) × IsAuthorized frames key)
unfolding authorize
authorize_cases frames [] a e h = inl (ground arith, no_scope frames e)
authorize_cases frames (k ∷ ks) none e h = absurd (ground arith)
authorize_cases frames (k ∷ ks) (some key) e h =
    inr (key, refl, authorize-IsAuthorized frames k ks e h)

all-true : {A : Type 0} (p : A → Bool) (xs : List A) → all p xs ≡ true → All (λ x. p x ≡ true) xs
all-true p [] h = tt
all-true p (x ∷ xs) h = (ground arith, all-true p xs (ground arith))

legacy_ne_v2 : ¬ (identity_mode_legacy ≡ identity_mode_v2)
legacy_ne_v2 e = false≢true ((eq_iff identity_mode_legacy identity_mode_v2).1 e)

-- Frames whose capture identity is resolved in mode v2 each have a v2 identity, and agree on it.
pub resolve-AgreesOn :
    (ext : External) (frames : List StoredSyncFrame) {ci : CaptureIdentity}
    → resolve_capture_identity ext frames ≡ ok ci
    → ci.identity_mode ≡ identity_mode_v2
    → All (λ f. has_v2_identity f ≡ true) frames × AgreesOn frames ci
unfolding resolve_capture_identity session_for
resolve-AgreesOn ext frames {ci} h v2 = elim (Bool-cases (all has_v2_identity frames)) [
  | inr partial ↦ absurd (legacy_ne_v2 (ground (arith, h, v2)))
  | inl v2_frames ↦
      let h' = rw (v2_frames, resolve_capture_identity) at h in
      let (a, authorized, h'') = bind_ok (authorize frames (group_keys frames)) _ h' in
      let (session, found, done) = bind_ok (session_for ext frames a) _ h'' in
      (
        all-true has_v2_identity frames v2_frames,
        elim (authorize_cases frames (group_keys frames) a refl authorized) [
          | inl (e, unscoped) ↦ inl (ground arith, unscoped)
          | inr (key, e, auth) ↦ inr (key, ground arith, auth, ground arith)
        ],
      )
]

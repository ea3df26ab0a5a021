-- ===== src/Relay/LatestLive/Flying.antt =====
-- Which report `_matches_current` takes: that of the frame set in flight.
use gc_image_stream.Prelude.{
  String, ◌≡◌, refl, sym, ap, ◌∙◌, List, [], ◌∷◌, subst, inl, inr, true, none, some, arith,
  Bool-cases, Option-cases, none-ne-some, some_inj, ◌==◌, string_eq, nat_eq, option_eq, eq_iff,
}
use gc_image_stream.Relay.LatestLive.Tables.{
  FrameSetManifest, RelayV2ClientState, Tables, FrameSetKey, manifest_of, manifest_key, key_beq,
  reply,
}
use gc_image_stream.Relay.LatestLive.Claims.{current_in_flight}
use gc_image_stream.Relay.LatestLive.Reports.{matches_current}
use gc_image_stream.Relay.LatestLive.Newest.{reply_inj, error_ne}

pub key_eq : (a b : FrameSetKey) → key_beq a b ≡ true → a ≡ b
key_eq a b h =
    ground (arith, eq_iff a.capture_run_id b.capture_run_id, eq_iff a.frame_set_uid b.frame_set_uid)

abbrev pub Matches : Tables → FrameSetKey → RelayV2ClientState → Type 0
Matches db key row =
    (db.client_state ≡ some row)
    × (row.in_flight_frame_set_uid ≡ some key.frame_set_uid)
    × (manifest : FrameSetManifest) × (manifest_of db.manifests key.frame_set_uid ≡ some manifest)
    × (key_beq (manifest_key manifest) key ≡ true)

pub matches_current-Matches :
    (db : Tables) (key : FrameSetKey) {row : RelayV2ClientState}
    → matches_current db key ≡ some row
    → Matches db key row
unfolding matches_current
matches_current-Matches db key {row} h = elim (Option-cases db.client_state) [
  | inl e ↦ absurd (none-ne-some (rw (e, matches_current) at h))
  | inr (s, e) ↦ elim (Bool-cases (s.in_flight_frame_set_uid == some key.frame_set_uid)) [
    | inr u ↦ absurd (none-ne-some (rw (e, matches_current, u) at h))
    | inl u ↦ elim (Option-cases (manifest_of db.manifests key.frame_set_uid)) [
      | inl m ↦ absurd (none-ne-some (rw (e, matches_current, u, m) at h))
      | inr (manifest, m) ↦ elim (Bool-cases (key_beq (manifest_key manifest) key)) [
        | inr k ↦ absurd (none-ne-some (rw (e, matches_current, u, m, k) at h))
        | inl k ↦
            let same : s ≡ row = some_inj (rw (e, matches_current, u, m, k) at h) in
            subst (Matches db key) same (e, (option_eq.beq_iff _ _).0 u, manifest, m, k)
      ]
    ]
  ]
]

-- The frame set in flight is the one that a report of its key matches.
manifest_of_name :
    (rows : List FrameSetManifest) (uid : String) {manifest : FrameSetManifest}
    → manifest_of rows uid ≡ some manifest
    → manifest.frame_set_uid ≡ uid
unfolding manifest_of
manifest_of_name [] uid h = absurd (none-ne-some h)
manifest_of_name (row ∷ rows) uid h = elim (Bool-cases (row.frame_set_uid == uid)) [
  | inl e ↦
      ap (λ (m : FrameSetManifest). m.frame_set_uid) (sym (some_inj (rw e at h)))
      ∙ (eq_iff row.frame_set_uid uid).0 e
  | inr e ↦ manifest_of_name rows uid (rw e at h)
]

nothing-ne-key : {key : FrameSetKey} → ¬ (reply none ≡ reply (some key))
nothing-ne-key h = none-ne-some (reply_inj h)

key_beq_self : (key : FrameSetKey) → key_beq key key ≡ true
key_beq_self key = ground (
  arith,
  eq_iff key.capture_run_id key.capture_run_id,
  eq_iff key.frame_set_uid key.frame_set_uid,
)

flying_matches :
    (db : Tables) (key : FrameSetKey)
    → current_in_flight db ≡ reply (some key)
    → (row : RelayV2ClientState) × (matches_current db key ≡ some row)
unfolding matches_current current_in_flight
flying_matches db key h = elim (Option-cases db.client_state) [
  | inl e ↦ absurd (nothing-ne-key (rw (current_in_flight, e) at h))
  | inr (s, e) ↦ elim (Option-cases s.in_flight_frame_set_uid) [
    | inl f ↦ absurd (nothing-ne-key (rw (current_in_flight, e, f) at h))
    | inr (uid, f) ↦ elim (Option-cases (manifest_of db.manifests uid)) [
      | inl m ↦ absurd (error_ne (rw (current_in_flight, e, f, m) at h))
      | inr (manifest, m) ↦
          let same : manifest_key manifest ≡ key =
            some_inj (reply_inj (rw (current_in_flight, e, f, m) at h)) in
          let named : key.frame_set_uid ≡ uid =
            ap (λ (k : FrameSetKey). k.frame_set_uid) (sym same)
            ∙ manifest_of_name db.manifests uid m in
          let matching : key_beq (manifest_key manifest) key ≡ true =
            ap (λ k. key_beq k key) same ∙ key_beq_self key in
          let own : (s.in_flight_frame_set_uid == some key.frame_set_uid) ≡ true =
            (option_eq.beq_iff _ _).1 (f ∙ ap some (sym named)) in
          let found : manifest_of db.manifests key.frame_set_uid ≡ some manifest =
            ap (manifest_of db.manifests) named ∙ m in
          (s, rw (matches_current, e, own, found, matching) refl)
    ]
  ]
]

pub unmatched-not_flying :
    (db : Tables) (key : FrameSetKey)
    → matches_current db key ≡ none
    → ¬ (current_in_flight db ≡ reply (some key))
unmatched-not_flying db key e h = none-ne-some (sym e ∙ (flying_matches db key h).1)

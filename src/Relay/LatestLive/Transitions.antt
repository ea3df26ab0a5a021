-- ===== src/Relay/LatestLive/Transitions.antt =====
-- What the reports of a consumer do to the tables of `LatestLiveStore`.
use gc_image_stream.Prelude.{
  ℕ, String, ◌≡◌, refl, ap, ◌∙◌, ◌⊎◌, inl, inr, Bool, true, false, Option, none, some, Option-cases,
  ◌==◌, string_eq, nat_eq, option_eq, if◌then◌else◌,
}
use gc_image_stream.Dict
use gc_image_stream.Dict.{Dict, get_of_has}
use gc_image_stream.Relay.LatestLive.Tables.{
  FrameSetDeliveryProjection, RelayV2ClientState, Tables, FrameSetKey, reply,
}
use gc_image_stream.Relay.LatestLive.Claims.{current_in_flight}
use gc_image_stream.Relay.LatestLive.Reports.{
  matches_current, set_live_state, transition_current, released, reconcile_not_found, live_state_in,
  live_state_of, live_state-put,
}
use gc_image_stream.Relay.LatestLive.Consistency.{
  IsConsistent, IsRow, HasRows, InFlight, put-InFlight,
}
use gc_image_stream.Relay.LatestLive.Flying.{
  Matches, key_eq, matches_current-Matches, unmatched-not_flying,
}

-- The projection of the frame set in flight is there to be changed.
set_live_state_there :
    (db : Tables) (uid live_state : String) (reason : Option String) (timestamp_ms : ℕ)
    → Dict.has db.projections uid ≡ true
    → (p : FrameSetDeliveryProjection) × (p.live_state ≡ live_state)
      × (set_live_state db uid live_state reason timestamp_ms
          ≡ some (Dict.put db.projections uid p))
unfolding set_live_state
set_live_state_there db uid live_state reason timestamp_ms h =
    let (p, found) = get_of_has db.projections uid h in
    (
      record p { live_state = live_state; last_reason = reason; updated_at_ms = timestamp_ms },
      refl,
      rw (set_live_state, found) refl,
    )

module _ (db : Tables) (key : FrameSetKey) (consistent : IsConsistent db) {row : RelayV2ClientState}
    (matches : matches_current db key ≡ some row) where
  pub matched : Matches db key row
  matched = matches_current-Matches db key matches

  pub matched-IsRow : IsRow db.manifests db.projections row
  matched-IsRow =
      let h : HasRows db.manifests db.projections (some row) = rw matched.0 at consistent.1 in h

  pub matched-has : Dict.has db.projections key.frame_set_uid ≡ true
  matched-has =
      let h : InFlight db.manifests db.projections (some key.frame_set_uid) =
        rw matched.1 at matched-IsRow.0 in
      h.1

abbrev after_release : Bool → RelayV2ClientState → ℕ → RelayV2ClientState
after_release release row timestamp_ms =
    let row' : RelayV2ClientState = if release then released row else row in
    record row' { updated_at_ms = timestamp_ms }

-- A report of the frame set in flight: its projection has the new live state, every other one
-- stays, and the frame set stays in flight unless the report releases it.
abbrev pub IsReported : Tables → Tables → FrameSetKey → String → Bool → String → Type 0
IsReported before after key live_state release other =
    IsConsistent after
    × (current_in_flight after ≡ (if release then reply none else current_in_flight before))
    × (live_state_of after other
        ≡ (if key.frame_set_uid == other then some live_state else live_state_of before other))

module _ (db : Tables) (key : FrameSetKey) (live_state : String) (other : String) (timestamp_ms : ℕ)
    (consistent : IsConsistent db) where
  live_after :
      (p : FrameSetDeliveryProjection)
      → p.live_state ≡ live_state
      → live_state_in (Dict.put db.projections key.frame_set_uid p) other
        ≡ (if key.frame_set_uid == other then some live_state else live_state_of db other)
  live_after p state =
      live_state-put db.projections key.frame_set_uid other p
      ∙ ap (λ s. if key.frame_set_uid == other then some s else live_state_of db other) state

  reported :
      (release : Bool) (row : RelayV2ClientState) (p : FrameSetDeliveryProjection)
      → IsRow db.manifests db.projections row
      → db.client_state ≡ some row
      → p.live_state ≡ live_state
      → IsReported db
          (record db {
            projections = Dict.put db.projections key.frame_set_uid p;
            client_state = some (after_release release row timestamp_ms);
          })
          key
          live_state
          release
          other
  unfolding current_in_flight
  reported true row p rows there state = ((consistent.0, (tt, rows.1)), refl, live_after p state)
  reported false row p rows there state = (
    (
      consistent.0,
      (
        put-InFlight db.manifests db.projections key.frame_set_uid p row.in_flight_frame_set_uid
            rows.0,
        rows.1,
      ),
    ),
    rw (current_in_flight, there) refl,
    live_after p state,
  )

  -- A report of a key whose frame set is not in flight changes nothing. One of the frame set in
  -- flight sets its live state, leaves the live state of every other one, leaves it in flight or
  -- releases it, and leaves consistent tables. Neither raises an error. Condition: the tables are
  -- consistent.
  pub transition_current-reports :
      (reason : Option String) (release : Bool)
      → ((¬ (current_in_flight db ≡ reply (some key)))
          × (transition_current db key live_state reason release timestamp_ms ≡ (db, reply false)))
        ⊎ ((after : Tables) × (transition_current db key live_state reason release timestamp_ms
              ≡ (after, reply true))
            × (current_in_flight db ≡ reply (some key))
            × IsReported db after key live_state release other)
  unfolding transition_current current_in_flight
  transition_current-reports reason release = elim (Option-cases (matches_current db key)) [
    | inl e ↦ inl (unmatched-not_flying db key e, rw (transition_current, e) refl)
    | inr (row, e) ↦
        let (there, flying, manifest, found, same) = matched db key consistent e in
        let (p, state, set) =
          set_live_state_there db key.frame_set_uid live_state reason timestamp_ms
            (matched-has db key consistent e) in
        inr (
          record db {
            projections = Dict.put db.projections key.frame_set_uid p;
            client_state = some (after_release release row timestamp_ms);
          },
          rw (transition_current, e, set) refl,
          rw (current_in_flight, there, flying, found)
              (ap (λ k. reply (some k)) (key_eq _ key same)),
          reported release row p (matched-IsRow db key consistent e) there state,
        )
  ]

abbrev reoffer_of : Option RelayV2ClientState → Option String
reoffer_of none = none
reoffer_of (some row) = row.reoffer_frame_set_uid

abbrev not_found_state : Bool → String
not_found_state retry = if retry then "ELIGIBLE" else "SUPERSEDED_BEFORE_OFFER"

-- A reconciliation of the frame set in flight: nothing is in flight, its projection waits for
-- another offer, which the watermark does not hold up, or it is superseded.
abbrev pub IsReconciled : Tables → Tables → FrameSetKey → Bool → String → Type 0
IsReconciled before after key retry other =
    IsReported before after key (not_found_state retry) true other
    × (reoffer_of after.client_state ≡ (if retry then some key.frame_set_uid else none))

-- A reconciliation of a key whose frame set is not in flight changes nothing. One of the frame set
-- in flight releases it and makes it eligible and to be offered again, or superseded, and leaves the
-- live state of every other one, and consistent tables. Neither raises an error. Condition: the tables
-- are consistent.
pub reconcile_not_found-reports :
    (db : Tables) (key : FrameSetKey) (retry : Bool) (other : String) (timestamp_ms : ℕ)
    → IsConsistent db
    → ((¬ (current_in_flight db ≡ reply (some key)))
        × (reconcile_not_found db key retry timestamp_ms ≡ (db, reply false)))
      ⊎ ((after : Tables) × (reconcile_not_found db key retry timestamp_ms ≡ (after, reply true))
          × (current_in_flight db ≡ reply (some key))
          × IsReconciled db after key retry other)
unfolding reconcile_not_found current_in_flight
reconcile_not_found-reports db key retry other timestamp_ms consistent =
    elim (Option-cases (matches_current db key)) [
      | inl e ↦ inl (unmatched-not_flying db key e, rw (reconcile_not_found, e) refl)
      | inr (row, e) ↦
          let (there, flying, manifest, found, same) = matched db key consistent e in
          let rows = matched-IsRow db key consistent e in
          let reason : Option String = some (
            if retry
            then "RECONCILED_NOT_FOUND_RETRY"
            else "RECONCILED_NOT_FOUND_NEWER_AVAILABLE") in
          let (p, state, set) =
            set_live_state_there db key.frame_set_uid (not_found_state retry) reason timestamp_ms
              (matched-has db key consistent e) in
          inr (
            record db {
              projections = Dict.put db.projections key.frame_set_uid p;
              client_state = some (record (released row) {
                reoffer_frame_set_uid = if retry then some key.frame_set_uid else none;
                updated_at_ms = timestamp_ms;
              });
            },
            rw (reconcile_not_found, e, set) refl,
            rw (current_in_flight, there, flying, found)
                (ap (λ k. reply (some k)) (key_eq _ key same)),
            (
              (
                (consistent.0, (tt, rows.1)),
                refl,
                live_after db key (not_found_state retry) other timestamp_ms consistent p state,
              ),
              refl,
            ),
          )
    ]

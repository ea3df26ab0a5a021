-- ===== src/Alerts/Meant.antt =====
-- Which subscriptions an alert is meant for.
use gc_image_stream.Prelude.{
  String, ◌≡◌, ◌⊎◌, refl, true, some, List, [], ◌∷◌, any, Any, In, any-In, In-any, truthy,
  Option-cases, option_eq, eq_iff, ◌==◌, nat_eq, string_eq, arith, Bool-cases, inl, inr,
}
use gc_image_stream.Alerts.Store.{ProcessingAlertRecord}
use gc_image_stream.Alerts.Hub.{PhoneAlertSubscription, matches}

-- The subscription is meant: it names the session of the alert, or a camera of the alert.
abbrev pub IsMeant : ProcessingAlertRecord → PhoneAlertSubscription → Type 0
IsMeant r s =
    ((session : String) × (¬ (session ≡ ""))
      × (s.session_id ≡ some session)
      × (r.routing.session_id ≡ some session))
    ⊎ Any (λ camera. In camera s.camera_device_ids) r.alert.camera_devices

named-Any :
    (devices cameras : List String)
    → any (λ d. any (λ c. c == d) cameras) devices ≡ true
    → Any (λ d. In d cameras) devices
named-Any [] cameras h = ground (arith, h)
named-Any (d ∷ devices) cameras h = elim (Bool-cases (any (λ c. c == d) cameras)) [
  | inl e ↦ inl (any-In cameras d e)
  | inr e ↦ inr (named-Any devices cameras (rw e at h))
]

Any-named :
    (devices cameras : List String)
    → Any (λ d. In d cameras) devices
    → any (λ d. any (λ c. c == d) cameras) devices ≡ true
Any-named [] cameras a = absurd a
Any-named (d ∷ devices) cameras (inl i) = rw (In-any cameras d i) refl
Any-named (d ∷ devices) cameras (inr i) = ground (arith, Any-named devices cameras i)

pub matches-IsMeant :
    (r : ProcessingAlertRecord) (s : PhoneAlertSubscription) → matches r s ≡ true → IsMeant r s
unfolding matches
matches-IsMeant r s h =
    elim (Bool-cases (any (λ d. any (λ c. c == d) s.camera_device_ids) r.alert.camera_devices)) [
      | inl a ↦ inr (named-Any r.alert.camera_devices s.camera_device_ids a)
      | inr a ↦ elim (Option-cases s.session_id) [
        | inl e ↦ absurd (ground (arith, h, a, e))
        | inr (session, e) ↦
            let set : truthy (some session) ≡ true = ground (arith, h, a, e) in
            let same : (r.routing.session_id == some session) ≡ true = ground (arith, h, a, e) in
            inl (
              session,
              λ empty. ground (arith, set, (eq_iff session "").1 empty),
              e,
              (option_eq.beq_iff _ _).0 same,
            )
      ]
    ]

pub IsMeant-matches :
    (r : ProcessingAlertRecord) (s : PhoneAlertSubscription) → IsMeant r s → matches r s ≡ true
unfolding matches
IsMeant-matches r s (inr a) = ground (arith, Any-named r.alert.camera_devices s.camera_device_ids a)
IsMeant-matches r s (inl (session, set, e, same)) = elim (Bool-cases (session == "")) [
  | inl empty ↦ absurd (set ((eq_iff session "").0 empty))
  | inr full ↦
      let own : (session == session) ≡ true = (eq_iff session session).1 refl in
      rw (matches, e, same, full, own) refl
]

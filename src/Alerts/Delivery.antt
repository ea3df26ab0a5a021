-- ===== src/Alerts/Delivery.antt =====
-- What `publish` of the delivery hub delivers, and the bound of the queues.
use gc_image_stream.Prelude.{
  ℕ, ◌+◌, ◌-◌, ◌≤◌, ◌<◌, String, ◌≡◌, ◌⊎◌, refl, ap, true, Option, none, some, [], ◌∷◌, ◌++◌, drop,
  option_eq, length, length-append, leb, ◌==◌, nat_eq, string_eq, arith, Bool-cases, List-cases,
  All, inl, inr,
}
use gc_image_stream.Dict
use gc_image_stream.Dict.{Dict}
use gc_image_stream.Alerts.Store.{ProcessingAlertRecord, is_expired}
use gc_image_stream.Alerts.Hub.{
  PhoneAlertSubscription, PhoneAlertDeliveryHub, enqueue, matches, deliver, matched, publish,
}
use gc_image_stream.Alerts.Meant.{IsMeant, matches-IsMeant, IsMeant-matches}

-- The queue is within its size, and what waits or was dropped was counted as delivered.
abbrev pub IsQueue : PhoneAlertSubscription → Type 0
IsQueue s = (length s.queue ≤ 50) × (length s.queue + s.dropped_count ≤ s.delivered_count)

abbrev pub IsHub : Dict PhoneAlertSubscription → Type 0
IsHub d = All (λ (e : String × PhoneAlertSubscription). IsQueue e.1) d

enqueue-IsQueue :
    (s : PhoneAlertSubscription) (r : ProcessingAlertRecord) → IsQueue s → IsQueue (enqueue s r)
unfolding enqueue
enqueue-IsQueue s r h = elim (List-cases s.queue) [
  | inl e ↦ rw (enqueue, e) (omega arith, omega (arith, h.1))
  | inr (x, xs, e) ↦
      let (small, counted) : (length (x ∷ xs) ≤ 50)
          × (length (x ∷ xs) + s.dropped_count ≤ s.delivered_count) =
        rw e at h in
      elim (Bool-cases (leb 50 (length (x ∷ xs)))) [
        | inl f ↦
            rw (enqueue, e, f)
              (
                omega (arith, length-append xs (r ∷ []), small),
                omega (arith, length-append xs (r ∷ []), counted),
              )
        | inr f ↦
            rw (enqueue, e, f)
              (
                ground (arith, length-append xs (r ∷ []), small, f),
                omega (arith, length-append xs (r ∷ []), counted),
              )
      ]
]

deliver-IsHub :
    (r : ProcessingAlertRecord) (d : Dict PhoneAlertSubscription) → IsHub d → IsHub (deliver r d)
unfolding deliver
deliver-IsHub r [] h = tt
deliver-IsHub r ((id, s) ∷ d) h = elim (Bool-cases (matches r s)) [
  | inl m ↦ rw (deliver, m) (enqueue-IsQueue s r h.0, deliver-IsHub r d h.1)
  | inr m ↦ rw (deliver, m) (h.0, deliver-IsHub r d h.1)
]

-- The subscription after the alert: the alert stands at the end of its queue, of which the last
-- 50 alerts are left; the alert is counted, and one that is dropped is counted too.
abbrev pub with_alert : PhoneAlertSubscription → ProcessingAlertRecord → PhoneAlertSubscription
with_alert s r =
    let excess = (length s.queue + 1) - 50 in
    record s {
      queue = drop excess (s.queue ++ r ∷ []);
      dropped_count = s.dropped_count + excess;
      delivered_count = s.delivered_count + 1;
      last_sent_event_id = some r.alert.event_id;
    }

enqueue-with_alert :
    (s : PhoneAlertSubscription) (r : ProcessingAlertRecord)
    → IsQueue s
    → enqueue s r ≡ with_alert s r
unfolding enqueue
enqueue-with_alert s r h = elim (Bool-cases (leb 50 (length s.queue))) [
  | inr f ↦
      let none_over : (length s.queue + 1) - 50 ≡ 0 = ground (arith, f) in
      let kept : s.dropped_count + 0 ≡ s.dropped_count = omega arith in
      rw (enqueue, f, none_over, kept) refl
  | inl f ↦ elim (List-cases s.queue) [
    | inl e ↦ let empty : leb 50 0 ≡ true = rw e at f in absurd (ground (arith, empty))
    | inr (x, xs, e) ↦
        let one_over : (length s.queue + 1) - 50 ≡ 1 = ground (arith, f, h.0) in
        rw (enqueue, f, one_over, e) refl
  ]
]

-- What is found under an identifier after an alert was delivered.
abbrev pub IsDelivered :
    ProcessingAlertRecord → Option PhoneAlertSubscription → Option PhoneAlertSubscription → Type 0
IsDelivered r none after = after ≡ none
IsDelivered r (some s) after =
    (IsMeant r s × (after ≡ some (with_alert s r))) ⊎ ((¬ (IsMeant r s)) × (after ≡ some s))

get-deliver :
    (r : ProcessingAlertRecord) (d : Dict PhoneAlertSubscription) (id : String)
    → IsHub d
    → IsDelivered r (Dict.get d id) (Dict.get (deliver r d) id)
unfolding deliver Dict.get
get-deliver r [] id h = refl
get-deliver r ((j, s) ∷ d) id h = elim (Bool-cases (j == id)) [
  | inl e ↦ elim (Bool-cases (matches r s)) [
    | inl m ↦
        let meant = matches-IsMeant r s m in
        let same = ap some (enqueue-with_alert s r h.0) in
        rw (Dict.get, e, deliver, m) (inl (meant, same))
    | inr m ↦
        let not_meant : ¬ (IsMeant r s) =
          λ meant. (let again = IsMeant-matches r s meant in ground (arith, m, again)) in
        rw (Dict.get, e, deliver, m) (inr (not_meant, refl))
  ]
  | inr e ↦ rw (Dict.get, e, deliver) (get-deliver r d id h.1)
]

-- The alerts that were delivered to the subscriptions, together.
abbrev pub total_delivered : Dict PhoneAlertSubscription → ℕ
total_delivered [] = 0
total_delivered ((id, s) ∷ d) = s.delivered_count + total_delivered d

total-deliver :
    (r : ProcessingAlertRecord) (d : Dict PhoneAlertSubscription)
    → total_delivered (deliver r d) ≡ total_delivered d + matched r d
unfolding deliver enqueue
total-deliver r [] = refl
total-deliver r ((id, s) ∷ d) = elim (Bool-cases (matches r s)) [
  | inl m ↦ rw (deliver, m, enqueue) (omega (arith, total-deliver r d))
  | inr m ↦ rw (deliver, m) (omega (arith, total-deliver r d))
]

-- An alert that is published by its time of expiry is put at the end of the queue of every subscription
-- that names its session or one of its cameras, which drops its oldest alert where it is full, and
-- counts it; the other subscriptions are as before. A later one reaches none. The number that is returned
-- is what the subscriptions, and the hub, count as delivered. Every queue stays within its size, and what
-- waits in it or was dropped from it was counted as delivered. Condition: the queues are such.
pub publish-delivers :
    (h : PhoneAlertDeliveryHub) (r : ProcessingAlertRecord) (now_ms : ℕ) (id : String)
    → IsHub h.subscriptions
    → IsHub (publish h r now_ms).0.subscriptions
      × ((publish h r now_ms).0.delivered_count ≡ h.delivered_count + (publish h r now_ms).1)
      × (total_delivered (publish h r now_ms).0.subscriptions
          ≡ total_delivered h.subscriptions + (publish h r now_ms).1)
      × (((r.expires_at_ms < now_ms) × ((publish h r now_ms).0.subscriptions ≡ h.subscriptions))
          ⊎ ((now_ms ≤ r.expires_at_ms)
              × IsDelivered r
                  (Dict.get h.subscriptions id)
                  (Dict.get (publish h r now_ms).0.subscriptions id)))
unfolding publish
publish-delivers h r now_ms id q = elim (Bool-cases (is_expired r now_ms)) [
  | inl e ↦
      let late : r.expires_at_ms < now_ms = ground (arith, e) in
      rw (publish, e) (q, omega arith, omega arith, inl (late, refl))
  | inr e ↦
      let timely : now_ms ≤ r.expires_at_ms = ground (arith, e) in
      rw (publish, e)
        (
          deliver-IsHub r h.subscriptions q,
          refl,
          total-deliver r h.subscriptions,
          inr (timely, get-deliver r h.subscriptions id q),
        )
]

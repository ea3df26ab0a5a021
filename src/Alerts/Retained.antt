-- ===== src/Alerts/Retained.antt =====
-- The set of event identifiers of `ProcessingAlertStore` is that of its records: the store is one that
-- looks for duplicates among the records that it retains.
use gc_image_stream.Prelude.{
  ℕ, suc, ◌+◌, ◌-◌, ◌≤◌, ◌<◌, String, ◌≡◌, refl, sym, ap, ◌∙◌, subst, Bool, true, false, not, ◌||◌,
  ◌&&◌, List, [], ◌∷◌, ◌++◌, any, length, length-append, drop, ltb, ◌==◌, nat_eq, nat_beq_iff,
  string_eq, eq_iff, if◌then◌else◌, arith, Bool-cases, inl, inr,
}
use gc_image_stream.Sync.Buffer.{last_n, push}
use gc_image_stream.Alerts.Store.{
  ProcessingAlertEvent, ProcessingAlertRecord, ProcessingAlertStore, Added, duplicate, expired,
  accepted, record_of, has_id, discard, without_oldest, add_alert,
}

-- The specification has no identifiers: it looks for the event among its records.
pub record Spec : Type 0 where
  pub max_alerts : ℕ
  pub records : List ProcessingAlertRecord
  pub received_count : ℕ
  pub duplicate_count : ℕ
  pub expired_count : ℕ

abbrev pub retains : List ProcessingAlertRecord → String → Bool
retains records id = any (λ (r : ProcessingAlertRecord). r.alert.event_id == id) records

abbrev pub spec_add : Spec → ProcessingAlertEvent → ℕ → Spec × Added
spec_add s alert now_ms =
    if retains s.records alert.event_id
    then (
      record s { received_count = s.received_count + 1; duplicate_count = s.duplicate_count + 1 },
      duplicate,
    )
    else if ltb (alert.timestamp_ms + alert.ttl_ms) now_ms
    then (
      record s { received_count = s.received_count + 1; expired_count = s.expired_count + 1 },
      expired,
    )
    else (
      record s {
        received_count = s.received_count + 1;
        records = push s.max_alerts s.records (record_of alert now_ms);
      },
      accepted,
    )

abbrev pub abstract : ProcessingAlertStore → Spec
abstract s = record {
  max_alerts = s.max_alerts;
  records = s.records;
  received_count = s.received_count;
  duplicate_count = s.duplicate_count;
  expired_count = s.expired_count;
}

-- No event is retained twice.
abbrev pub IsOnce : List ProcessingAlertRecord → Type 0
IsOnce [] = Unit
IsOnce (r ∷ records) = (retains records r.alert.event_id ≡ false) × IsOnce records

-- The identifiers are those of the records, which are at most `maximum` and of different events.
pub record IsKept (maximum : ℕ) (event_ids : List String) (records : List ProcessingAlertRecord)
    : Type 0 where
  pub ids : (id : String) → has_id event_ids id ≡ retains records id
  pub once : IsOnce records
  pub bound : length records ≤ maximum
  pub positive : 0 < maximum

abbrev pub IsStore : ProcessingAlertStore → Type 0
IsStore s = IsKept s.max_alerts s.event_ids s.records

retains-append :
    (xs ys : List ProcessingAlertRecord) (id : String)
    → retains (xs ++ ys) id ≡ (retains xs id || retains ys id)
retains-append [] ys id = refl
retains-append (r ∷ xs) ys id = ground (arith, retains-append xs ys id)

IsOnce-append :
    (xs : List ProcessingAlertRecord) (r : ProcessingAlertRecord)
    → IsOnce xs
    → retains xs r.alert.event_id ≡ false
    → IsOnce (xs ++ r ∷ [])
IsOnce-append [] r h f = (refl, tt)
IsOnce-append (x ∷ xs) r h f = (
  ground (
    arith,
    retains-append xs (r ∷ []) x.alert.event_id,
    h.0,
    f,
    eq_iff x.alert.event_id r.alert.event_id,
    eq_iff r.alert.event_id x.alert.event_id,
  ),
  IsOnce-append xs r h.1 (ground (arith, f)),
)

has_id-discard :
    (ids : List String) (own id : String)
    → has_id (discard ids own) id ≡ (has_id ids id && not (own == id))
has_id-discard [] own id = refl
has_id-discard (i ∷ ids) own id =
    ground (arith, has_id-discard ids own id, eq_iff i own, eq_iff i id, eq_iff own id)

-- A deque that is full drops its oldest element, another one drops none.
push_full :
    (x : ProcessingAlertRecord) (xs : List ProcessingAlertRecord) (r : ProcessingAlertRecord)
    (n : ℕ)
    → suc (length xs) ≡ n
    → push n (x ∷ xs) r ≡ xs ++ r ∷ []
unfolding last_n
push_full x xs r n h =
    let e : suc (length (xs ++ r ∷ [])) - n ≡ 1 = omega (arith, length-append xs (r ∷ []), h) in
    ap (λ k. drop k (x ∷ (xs ++ r ∷ []))) e

push_room :
    (xs : List ProcessingAlertRecord) (r : ProcessingAlertRecord) (n : ℕ)
    → length xs < n
    → push n xs r ≡ xs ++ r ∷ []
unfolding last_n
push_room xs r n h =
    let e : length (xs ++ r ∷ []) - n ≡ 0 = omega (arith, length-append xs (r ∷ []), h) in
    ap (λ k. drop k (xs ++ r ∷ [])) e

same_event :
    (rows : List ProcessingAlertRecord) (a b : String)
    → (a == b) ≡ true
    → retains rows a ≡ retains rows b
same_event rows a b h = ap (retains rows) ((eq_iff a b).0 h)

full-IsKept :
    (maximum : ℕ) (ids : List String) (x : ProcessingAlertRecord) (xs : List ProcessingAlertRecord)
    (r : ProcessingAlertRecord)
    → IsKept maximum ids (x ∷ xs)
    → retains (x ∷ xs) r.alert.event_id ≡ false
    → suc (length xs) ≡ maximum
    → IsKept maximum (r.alert.event_id ∷ discard ids x.alert.event_id) (push maximum (x ∷ xs) r)
full-IsKept maximum ids x xs r v f full =
    subst (IsKept maximum (r.alert.event_id ∷ discard ids x.alert.event_id))
      (sym (push_full x xs r maximum full))
      (record {
        ids = λ id. ground (
          arith,
          has_id-discard ids x.alert.event_id id,
          retains-append xs (r ∷ []) id,
          v.ids id,
          v.once.0,
          same_event xs x.alert.event_id id,
        );
        once = IsOnce-append xs r v.once.1 (ground (arith, f));
        bound = omega (arith, length-append xs (r ∷ []), full);
        positive = v.positive;
      })

room-IsKept :
    (maximum : ℕ) (ids : List String) (rows : List ProcessingAlertRecord)
    (r : ProcessingAlertRecord)
    → IsKept maximum ids rows
    → retains rows r.alert.event_id ≡ false
    → length rows < maximum
    → IsKept maximum (r.alert.event_id ∷ ids) (push maximum rows r)
room-IsKept maximum ids rows r v f room =
    subst (IsKept maximum (r.alert.event_id ∷ ids)) (sym (push_room rows r maximum room)) (record {
      ids = λ id. ground (arith, retains-append rows (r ∷ []) id, v.ids id);
      once = IsOnce-append rows r v.once f;
      bound = omega (arith, length-append rows (r ∷ []), room);
      positive = v.positive;
    })

-- The set and the deque that an accepted record leaves.
accepted-IsKept :
    (maximum : ℕ) (ids : List String) (rows : List ProcessingAlertRecord)
    (r : ProcessingAlertRecord)
    → IsKept maximum ids rows
    → retains rows r.alert.event_id ≡ false
    → IsKept maximum
        (r.alert.event_id ∷ (if length rows == maximum then without_oldest ids rows else ids))
        (push maximum rows r)
accepted-IsKept maximum ids [] r v f = elim (Bool-cases (0 == maximum)) [
  | inl e ↦ rw e (room-IsKept maximum ids [] r v f v.positive)
  | inr e ↦ rw e (room-IsKept maximum ids [] r v f v.positive)
]
accepted-IsKept maximum ids (x ∷ xs) r v f = elim (Bool-cases (length (x ∷ xs) == maximum)) [
  | inl e ↦ rw e (full-IsKept maximum ids x xs r v f ((nat_beq_iff _ _).0 e))
  | inr e ↦ rw e (room-IsKept maximum ids (x ∷ xs) r v f (ground (arith, v.bound, e)))
]

-- The store of alerts implements its specification: an alert is a duplicate if its event is retained,
-- else it is expired or retained in place of the oldest one, with the counters. The identifiers stay
-- those of the retained records, of which there are at most `max_alerts`, each of its own event.
pub add_alert-abstract :
    (s : ProcessingAlertStore) (alert : ProcessingAlertEvent) (now_ms : ℕ)
    → IsStore s
    → IsStore (add_alert s alert now_ms).0
      × ((abstract (add_alert s alert now_ms).0, (add_alert s alert now_ms).1.1)
          ≡ spec_add (abstract s) alert now_ms)
unfolding add_alert
add_alert-abstract s alert now_ms v = elim (Bool-cases (has_id s.event_ids alert.event_id)) [
  | inl d ↦
      let k : retains s.records alert.event_id ≡ true = sym (v.ids alert.event_id) ∙ d in
      (rw (add_alert, d) v, rw (add_alert, d, k) refl)
  | inr d ↦
      let k : retains s.records alert.event_id ≡ false = sym (v.ids alert.event_id) ∙ d in
      elim (Bool-cases (ltb (alert.timestamp_ms + alert.ttl_ms) now_ms)) [
        | inl e ↦ (rw (add_alert, d, e) v, rw (add_alert, d, k, e) refl)
        | inr e ↦ (
          rw (add_alert, d, e)
              (accepted-IsKept s.max_alerts s.event_ids s.records (record_of alert now_ms) v k),
          rw (add_alert, d, k, e) refl,
        )
      ]
]

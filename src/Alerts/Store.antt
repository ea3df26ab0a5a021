-- ===== src/Alerts/Store.antt =====
-- `ProcessingAlertStore`. Of an alert event the fields that the store reads are modelled; the others
-- are passed on unread. Every alert has the same routing but for its cameras.
use gc_image_stream.Prelude.{
  ℕ, ◌+◌, String, Bool, not, Option, none, List, [], ◌∷◌, any, keep_if, length, ltb, ◌==◌, nat_eq,
  string_eq, if◌then◌else◌,
}
use mathlib.Core.List.{reverse}
use gc_image_stream.Sync.Buffer.{last_n, push}

pub record ProcessingAlertEvent : Type 0 where
  pub event_id : String
  pub timestamp_ms : ℕ
  pub ttl_ms : ℕ
  pub camera_devices : List String

pub record Routing : Type 0 where
  pub camera_devices : List String
  pub session_id : Option String
  pub delivery_status : String

pub record ProcessingAlertRecord : Type 0 where
  pub alert : ProcessingAlertEvent
  pub received_at_ms : ℕ
  pub expires_at_ms : ℕ
  pub routing : Routing

abbrev pub is_expired : ProcessingAlertRecord → ℕ → Bool
is_expired r now_ms = ltb r.expires_at_ms now_ms

-- `build_alert_routing`
abbrev pub build_alert_routing : ProcessingAlertEvent → Routing
build_alert_routing alert = record {
  camera_devices = alert.camera_devices;
  session_id = none;
  delivery_status = "not_delivered";
}

abbrev pub record_of : ProcessingAlertEvent → ℕ → ProcessingAlertRecord
record_of alert received_at_ms = record {
  alert = alert;
  received_at_ms = received_at_ms;
  expires_at_ms = alert.timestamp_ms + alert.ttl_ms;
  routing = build_alert_routing alert;
}

-- The set of event identifiers is a list of its elements.
pub record ProcessingAlertStore : Type 0 where
  pub max_alerts : ℕ
  pub records : List ProcessingAlertRecord
  pub event_ids : List String
  pub received_count : ℕ
  pub duplicate_count : ℕ
  pub expired_count : ℕ

abbrev pub new_store : ℕ → ProcessingAlertStore
new_store max_alerts = record {
  max_alerts = max_alerts;
  records = [];
  event_ids = [];
  received_count = 0;
  duplicate_count = 0;
  expired_count = 0;
}

abbrev pub has_id : List String → String → Bool
has_id ids id = any (λ i. i == id) ids

abbrev pub discard : List String → String → List String
discard ids id = keep_if (λ i. not (i == id)) ids

-- The identifiers without that of the oldest record, which a full deque drops.
abbrev pub without_oldest : List String → List ProcessingAlertRecord → List String
without_oldest ids [] = ids
without_oldest ids (r ∷ records) = discard ids r.alert.event_id

pub data Added : Type 0 where
  duplicate expired accepted : Added

unfoldable pub add_alert :
    ProcessingAlertStore
    → ProcessingAlertEvent
    → ℕ
    → ProcessingAlertStore × (ProcessingAlertRecord × Added)
add_alert s alert now_ms =
    let r = record_of alert now_ms in
    let received : ProcessingAlertStore = record s { received_count = s.received_count + 1 } in
    if has_id s.event_ids alert.event_id
    then (record received { duplicate_count = s.duplicate_count + 1 }, (r, duplicate))
    else if is_expired r now_ms
    then (record received { expired_count = s.expired_count + 1 }, (r, expired))
    else (
      record received {
        records = push s.max_alerts s.records r;
        event_ids =
            alert.event_id
            ∷ (if length s.records == s.max_alerts
                then without_oldest s.event_ids s.records
                else s.event_ids);
      },
      (r, accepted),
    )

-- `active[-limit:]`, where the limit is at least 1.
unfoldable pub recent : ProcessingAlertStore → ℕ → ℕ → List ProcessingAlertRecord
unfolding last_n
recent s limit now_ms =
    reverse
      (last_n limit (keep_if (λ (r : ProcessingAlertRecord). not (is_expired r now_ms)) s.records))

pub record AlertStatus : Type 0 where
  pub received_count : ℕ
  pub duplicate_count : ℕ
  pub expired_count : ℕ
  pub active_count : ℕ
  pub retained_count : ℕ

unfoldable pub alert_status : ProcessingAlertStore → ℕ → AlertStatus
unfolding recent
alert_status s now_ms = record {
  received_count = s.received_count;
  duplicate_count = s.duplicate_count;
  expired_count = s.expired_count;
  active_count = length (recent s s.max_alerts now_ms);
  retained_count = length s.records;
}

abbrev pub clear : ProcessingAlertStore → ProcessingAlertStore
clear s = new_store s.max_alerts

-- ===== src/Alerts/Hub.antt =====
-- `PhoneAlertSubscription` and `PhoneAlertDeliveryHub`. The queue holds records in place of their dicts.
-- The clock and the fresh `uuid4` of a subscription are arguments.
use gc_image_stream.Prelude.{
  ℕ, ◌+◌, String, Bool, ◌&&◌, ◌||◌, Option, none, some, List, [], ◌∷◌, ◌++◌, any, keep_if, length,
  is_nil, leb, truthy, ◌==◌, nat_eq, string_eq, option_eq, if◌then◌else◌,
}
use gc_image_stream.Dict
use gc_image_stream.Dict.{Dict}
use gc_image_stream.Alerts.Store.{ProcessingAlertRecord, is_expired}

pub record PhoneAlertSubscription : Type 0 where
  pub subscription_id : String
  pub device_ids : List String
  pub camera_device_ids : List String
  pub session_id : Option String
  pub connected_at_ms : ℕ
  pub queue : List ProcessingAlertRecord
  pub delivered_count : ℕ
  pub dropped_count : ℕ
  pub last_sent_event_id : Option String

-- The size of the queue of a subscription.
abbrev pub queue_size : ℕ
queue_size = 50

abbrev tail_of : List ProcessingAlertRecord → List ProcessingAlertRecord
tail_of [] = []
tail_of (r ∷ queue) = queue

-- A full queue drops its oldest alert.
unfoldable pub enqueue : PhoneAlertSubscription → ProcessingAlertRecord → PhoneAlertSubscription
enqueue s r =
    let full = leb queue_size (length s.queue) in
    record s {
      queue = (if full then tail_of s.queue else s.queue) ++ r ∷ [];
      dropped_count = if full then s.dropped_count + 1 else s.dropped_count;
      delivered_count = s.delivered_count + 1;
      last_sent_event_id = some r.alert.event_id;
    }

-- `next_event`; `none` where the wait times out.
unfoldable pub next_event :
    PhoneAlertSubscription → PhoneAlertSubscription × Option ProcessingAlertRecord
next_event s = elim s.queue [ [] ↦ (s, none) | r ∷ queue ↦ (record s { queue = queue }, some r) ]

pub record PhoneAlertDeliveryHub : Type 0 where
  pub subscriptions : Dict PhoneAlertSubscription
  pub published_count : ℕ
  pub delivered_count : ℕ
  pub skipped_expired_count : ℕ
  pub skipped_unmatched_count : ℕ

-- `dict.fromkeys(ids)`: the first of each.
unfoldable pub from_keys : List String → List String → List String
from_keys [] seen = []
from_keys (id ∷ ids) seen =
    let again = from_keys ids seen in
    let rest = from_keys ids (id ∷ seen) in if any (λ x. x == id) seen then again else id ∷ rest

abbrev or_devices : Option (List String) → List String → List String
or_devices none device_ids = device_ids
or_devices (some cameras) device_ids = if is_nil cameras then device_ids else cameras

unfoldable pub subscribe :
    PhoneAlertDeliveryHub
    → String
    → List String
    → Option (List String)
    → Option String
    → ℕ
    → PhoneAlertDeliveryHub × PhoneAlertSubscription
unfolding from_keys
subscribe h id device_ids camera_device_ids session_id now_ms =
    let s : PhoneAlertSubscription = record {
      subscription_id = id;
      device_ids = from_keys device_ids [];
      camera_device_ids = from_keys (or_devices camera_device_ids device_ids) [];
      session_id = session_id;
      connected_at_ms = now_ms;
      queue = [];
      delivered_count = 0;
      dropped_count = 0;
      last_sent_event_id = none;
    } in
    (record h { subscriptions = Dict.put h.subscriptions id s }, s)

unfoldable pub unsubscribe : PhoneAlertDeliveryHub → String → PhoneAlertDeliveryHub
unsubscribe h id = record h { subscriptions = Dict.pop h.subscriptions id }

unfoldable pub matches : ProcessingAlertRecord → PhoneAlertSubscription → Bool
matches r s =
    (truthy s.session_id && r.routing.session_id == s.session_id)
    || any (λ d. any (λ c. c == d) s.camera_device_ids) r.alert.camera_devices

-- The loop of `publish`, over the subscriptions.
unfoldable pub deliver :
    ProcessingAlertRecord → Dict PhoneAlertSubscription → Dict PhoneAlertSubscription
unfolding matches enqueue
deliver r [] = []
deliver r ((id, s) ∷ subscriptions) =
    (id, if matches r s then enqueue s r else s) ∷ deliver r subscriptions

abbrev pub matched : ProcessingAlertRecord → Dict PhoneAlertSubscription → ℕ
matched r subscriptions =
    length (keep_if (λ (e : String × PhoneAlertSubscription). matches r e.1) subscriptions)

unfoldable pub publish :
    PhoneAlertDeliveryHub → ProcessingAlertRecord → ℕ → PhoneAlertDeliveryHub × ℕ
unfolding deliver
publish h r now_ms =
    if is_expired r now_ms
    then (record h { skipped_expired_count = h.skipped_expired_count + 1 }, 0)
    else let n = matched r h.subscriptions in
      (
        record h {
          subscriptions = deliver r h.subscriptions;
          published_count = h.published_count + 1;
          delivered_count = h.delivered_count + n;
          skipped_unmatched_count =
              if n == 0 then h.skipped_unmatched_count + 1 else h.skipped_unmatched_count;
        },
        n,
      )

abbrev pub clear_hub : PhoneAlertDeliveryHub → PhoneAlertDeliveryHub
clear_hub h = record {
  subscriptions = [];
  published_count = 0;
  delivered_count = 0;
  skipped_expired_count = 0;
  skipped_unmatched_count = 0;
}

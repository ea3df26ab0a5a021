-- ===== src/Tests/Alerts.antt =====
-- Concrete runs of app/services/alerts.
use gc_image_stream.Prelude.{◌+◌, ◌≤◌, ◌<◌, ◌⊎◌, String, none, [], ◌∷◌, ◌≡◌, refl, arith, string_eq}
use gc_image_stream.Dict
use gc_image_stream.Alerts.Store.{ProcessingAlertEvent, ProcessingAlertStore, record_of, add_alert}
use gc_image_stream.Alerts.Retained.{IsStore, abstract, spec_add, add_alert-abstract}
use gc_image_stream.Alerts.Hub.{PhoneAlertSubscription, PhoneAlertDeliveryHub, publish}
use gc_image_stream.Alerts.Delivery.{IsHub, IsDelivered, total_delivered, publish-delivers}

abbrev alert : String → ProcessingAlertEvent
alert id = record { event_id = id; timestamp_ms = 100; ttl_ms = 50; camera_devices = "left" ∷ [] }

-- A store of one alert, which is full.
abbrev store : ProcessingAlertStore
store = record {
  max_alerts = 1;
  records = record_of (alert "a") 110 ∷ [];
  event_ids = "a" ∷ [];
  received_count = 1;
  duplicate_count = 0;
  expired_count = 0;
}

store-IsStore : IsStore store
store-IsStore = record {
  ids = λ id. refl;
  once = (refl, tt);
  bound = omega arith;
  positive = omega arith;
}

add_alert-abstract_example :
    IsStore (add_alert store (alert "b") 120).0
    × ((abstract (add_alert store (alert "b") 120).0, (add_alert store (alert "b") 120).1.1)
        ≡ spec_add (abstract store) (alert "b") 120)
add_alert-abstract_example = add_alert-abstract store (alert "b") 120 store-IsStore

abbrev phone : PhoneAlertSubscription
phone = record {
  subscription_id = "phone";
  device_ids = "left" ∷ [];
  camera_device_ids = "left" ∷ [];
  session_id = none;
  connected_at_ms = 1;
  queue = [];
  delivered_count = 0;
  dropped_count = 0;
  last_sent_event_id = none;
}

abbrev hub : PhoneAlertDeliveryHub
hub = record {
  subscriptions = ("phone", phone) ∷ [];
  published_count = 0;
  delivered_count = 0;
  skipped_expired_count = 0;
  skipped_unmatched_count = 0;
}

publish-delivers_example :
    IsHub (publish hub (record_of (alert "a") 110) 120).0.subscriptions
    × ((publish hub (record_of (alert "a") 110) 120).0.delivered_count
        ≡ 0 + (publish hub (record_of (alert "a") 110) 120).1)
    × (total_delivered (publish hub (record_of (alert "a") 110) 120).0.subscriptions
        ≡ total_delivered hub.subscriptions + (publish hub (record_of (alert "a") 110) 120).1)
    × (((150 < 120)
          × ((publish hub (record_of (alert "a") 110) 120).0.subscriptions ≡ hub.subscriptions))
        ⊎ ((120 ≤ 150)
            × IsDelivered
                (record_of (alert "a") 110)
                (Dict.get hub.subscriptions "phone")
                (Dict.get (publish hub (record_of (alert "a") 110) 120).0.subscriptions "phone")))
publish-delivers_example =
    publish-delivers hub (record_of (alert "a") 110) 120 "phone" ((omega arith, omega arith), tt)

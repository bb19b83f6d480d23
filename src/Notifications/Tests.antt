-- ===== src/Notifications/Tests.antt =====
-- The theorems at a channel with two subscriptions, and runs of a delivery that always fails.
use scam2marke.Prelude.{
  ℕ, ◌≡◌, refl, String, true, false, List, [], ◌∷◌, none, some, arith, map, sorted, All,
}
use scam2marke.Prelude.Dict.{Dict, string_eq, lookup, contains}
use scam2marke.Notifications.Service.{
  DeliveryStatus, NotificationChannel, NotificationSubscription, AlertEvent, NotificationDelivery,
  is_for, is_match, severity_order, enqueue, due_ids, claim, claim_due, response, error,
  finalize_row, finalize, finalize_all, deliver_due,
}
use scam2marke.Notifications.Refinement.{AllFollow, deliver_due-AllFollow}
use scam2marke.Notifications.Once.{IsServed, enqueue-again}
use scam2marke.Notifications.Settled.{AllOver, deliver_due-AllOver}

abbrev same : String → String
same s = s

abbrev id_of : ℕ → String
id_of n = "delivery"

abbrev channels : Dict String NotificationChannel
channels =
    (
      "desk",
      record {
        channel_id = "desk";
        tenant_id = "default";
        channel_type = "SLACK";
        endpoint = "https://desk";
        enabled = true;
      },
    )
    ∷ []

abbrev subscription : String → NotificationSubscription
subscription severity = record {
  tenant_id = "default";
  channel_id = "desk";
  minimum_severity = severity;
  asset_ids = [];
  alert_types = [];
  enabled = true;
}

abbrev alert : AlertEvent
alert = record {
  event_id = "e1";
  severity = some "HIGH";
  payload_asset_id = none;
  asset_id = some "acme";
  alert_type = some "PUMP";
}

abbrev subscriptions : List NotificationSubscription
subscriptions = subscription "WATCH" ∷ subscription "HIGH" ∷ subscription "CRITICAL" ∷ []

abbrev row : DeliveryStatus → ℕ → NotificationDelivery
row status attempts = record {
  delivery_id = "delivery";
  tenant_id = "default";
  channel_id = "desk";
  event_id = "e1";
  payload = alert;
  status = status;
  attempts = attempts;
  next_attempt_at = 7;
  delivered_at = none;
  last_error = none;
  response_code = none;
}

two_subscriptions_one_delivery :
    enqueue same id_of 7 channels alert "default" subscriptions []
    ≡ row DeliveryStatus.pending 0 ∷ []
unfolding enqueue is_for is_match severity_order lookup contains
two_subscriptions_one_delivery = refl

-- The fifth failure ends a delivery.
fifth_failure :
    map
      (λ (d : NotificationDelivery). d.status)
      (deliver_due
        (λ i. false)
        (λ i. 9)
        (λ i. error "timeout")
        8
        50
        (row DeliveryStatus.retry 4 ∷ [])).1
    ≡ DeliveryStatus.failed ∷ []
unfolding deliver_due claim_due due_ids claim sorted finalize_all finalize finalize_row contains
fifth_failure = refl

deliver_due-AllFollow_example :
    AllFollow
      (row DeliveryStatus.retry 4 ∷ [])
      (deliver_due
        (λ i. false)
        (λ i. 9)
        (λ i. error "timeout")
        8
        50
        (row DeliveryStatus.retry 4 ∷ [])).1
deliver_due-AllFollow_example =
    deliver_due-AllFollow (λ i. false) (λ i. 9) (λ i. error "timeout") 8 50
      (row DeliveryStatus.retry 4 ∷ []) (omega arith)

deliver_due-AllOver_example :
    All
      (AllOver (claim_due (λ i. false) 8 50 (row DeliveryStatus.retry 4 ∷ [])).0)
      (deliver_due
        (λ i. false)
        (λ i. 9)
        (λ i. response 200)
        8
        50
        (row DeliveryStatus.retry 4 ∷ [])).1
deliver_due-AllOver_example =
    deliver_due-AllOver (λ i. false) (λ i. 9) (λ i. response 200) 8 50
      (row DeliveryStatus.retry 4 ∷ [])

enqueue-again_example :
    All
      (IsServed same id_of channels alert "default"
        (enqueue same id_of 7 channels alert "default" subscriptions []))
      subscriptions
    × (enqueue same id_of 9 channels alert "default" subscriptions
          (enqueue same id_of 7 channels alert "default" subscriptions [])
        ≡ enqueue same id_of 7 channels alert "default" subscriptions [])
enqueue-again_example = enqueue-again same id_of channels alert "default" 7 9 subscriptions []

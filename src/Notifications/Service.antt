-- ===== src/Notifications/Service.antt =====
-- src/scam2market/notifications/service.py, `NotificationService` on the rows of its tables
-- (src/scam2market/db/models.py). The transports, `upper`, the generator of identifiers and the
-- clock are parameters; times are microseconds.
use scam2marke.Prelude.{
  ℕ, ◌+◌, ◌*◌, ◌^◌, String, ◌<>◌, str_eq, Bool, true, false, ◌&&◌, ◌||◌, not, List, [], ◌∷◌, ◌++◌,
  map, Option, none, some, ltb, leb, min, or_else, length, nonempty, keep, any_of, sorted, take,
  if◌then◌else◌,
}
use scam2marke.Prelude.Dict.{Dict, string_eq, lookup, contains}
use scam2marke.Prelude.Text.{first_chars, is_blank}

pub data DeliveryStatus : Type 0 where
  pending processing retry delivered failed : DeliveryStatus

pub record NotificationChannel : Type 0 where
  pub channel_id : String
  pub tenant_id : String
  pub channel_type : String
  pub endpoint : String
  pub enabled : Bool

pub record NotificationSubscription : Type 0 where
  pub tenant_id : String
  pub channel_id : String
  pub minimum_severity : String
  pub asset_ids : List String
  pub alert_types : List String
  pub enabled : Bool

-- What is read of the event of an alert.
pub record AlertEvent : Type 0 where
  pub event_id : String
  pub severity : Option String
  pub payload_asset_id : Option String
  pub asset_id : Option String
  pub alert_type : Option String

pub record NotificationDelivery : Type 0 where
  pub delivery_id : String
  pub tenant_id : String
  pub channel_id : String
  pub event_id : String
  pub payload : AlertEvent
  pub status : DeliveryStatus
  pub attempts : ℕ
  pub next_attempt_at : ℕ
  pub delivered_at : Option ℕ
  pub last_error : Option String
  pub response_code : Option ℕ

-- `SEVERITY_ORDER.get(severity, default)`
unfoldable pub severity_order : String → ℕ → ℕ
severity_order s default =
    if str_eq s "INFO" || str_eq s "NORMAL"
    then 0
    else if str_eq s "WATCH"
    then 1
    else if str_eq s "HIGH"
    then 2
    else if str_eq s "CRITICAL"
    then 3
    else default

-- `_matches`
unfoldable pub is_match : NotificationSubscription → String → String → String → Bool
unfolding severity_order
is_match s severity asset_id alert_type =
    if ltb (severity_order severity 0) (severity_order s.minimum_severity 2)
    then false
    else if nonempty s.asset_ids && not (contains s.asset_ids asset_id)
    then false
    else not (nonempty s.alert_types) || contains s.alert_types alert_type

abbrev or_blank : Option String → String → String
or_blank none d = d
or_blank (some s) d = if is_blank s then d else s

abbrev pub same_delivery : String → String → NotificationDelivery → Bool
same_delivery channel_id event_id d = str_eq d.channel_id channel_id && str_eq d.event_id event_id

-- A subscription of the tenant with a channel that is enabled, and the alert is one for it.
unfoldable pub is_for :
    (String → String)
    → Dict String NotificationChannel
    → AlertEvent
    → String
    → NotificationSubscription
    → Bool
unfolding lookup is_match
is_for upper channels event tenant_id s =
    str_eq s.tenant_id tenant_id
    && s.enabled
    && elim (lookup s.channel_id channels) [ none ↦ false | some c ↦ c.enabled ]
    && is_match s (upper (or_else event.severity "INFO"))
        (or_blank event.payload_asset_id (or_blank event.asset_id "")) (or_else event.alert_type "")

abbrev pub new_delivery :
    (ℕ → String)
    → ℕ
    → String
    → AlertEvent
    → String
    → List NotificationDelivery
    → NotificationDelivery
new_delivery uuid4 now tenant_id event channel_id rows = record {
  delivery_id = uuid4 (length rows);
  tenant_id = tenant_id;
  channel_id = channel_id;
  event_id = event.event_id;
  payload = event;
  status = DeliveryStatus.pending;
  attempts = 0;
  next_attempt_at = now;
  delivered_at = none;
  last_error = none;
  response_code = none;
}

module _ (upper : String → String) (uuid4 : ℕ → String) (now : ℕ) where
  -- The loop of `enqueue` over the subscriptions; what it added is seen by the next query.
  unfoldable pub enqueue :
      Dict String NotificationChannel
      → AlertEvent
      → String
      → List NotificationSubscription
      → List NotificationDelivery
      → List NotificationDelivery
  enqueue channels event tenant_id [] rows = rows
  enqueue channels event tenant_id (s ∷ subscriptions) rows =
      enqueue channels event tenant_id subscriptions (
        if is_for upper channels event tenant_id s
          && not (any_of (same_delivery s.channel_id event.event_id) rows)
        then rows ++ new_delivery uuid4 now tenant_id event s.channel_id rows ∷ []
        else rows)

abbrev pub is_waiting : DeliveryStatus → Bool
is_waiting DeliveryStatus.pending = true
is_waiting DeliveryStatus.retry = true
is_waiting _ = false

abbrev pub is_processing : DeliveryStatus → Bool
is_processing DeliveryStatus.processing = true
is_processing _ = false

abbrev pub is_due : ℕ → NotificationDelivery → Bool
is_due now d = is_waiting d.status && leb d.next_attempt_at now

abbrev attempt_leb : NotificationDelivery → NotificationDelivery → Bool
attempt_leb a b = leb a.next_attempt_at b.next_attempt_at

-- The rows that `_claim_due` locks; `locked` are those of other workers.
unfoldable pub due_ids : (String → Bool) → ℕ → ℕ → List NotificationDelivery → List String
unfolding sorted
due_ids locked now limit rows =
    map (λ (d : NotificationDelivery). d.delivery_id)
      (take limit (
        sorted attempt_leb
          (keep (λ (d : NotificationDelivery). is_due now d && not (locked d.delivery_id)) rows)))

unfoldable pub claim : List String → ℕ → NotificationDelivery → NotificationDelivery
claim ids now d =
    if is_due now d && contains ids d.delivery_id
    then record d { attempts = d.attempts + 1; status = DeliveryStatus.processing }
    else d

-- `_claim_due`
unfoldable pub claim_due :
    (String → Bool) → ℕ → ℕ → List NotificationDelivery → List String × List NotificationDelivery
claim_due locked now limit rows =
    let ids = due_ids locked now limit rows in (ids, map (claim ids now) rows)

pub data Sent : Type 0 where
  response : ℕ → Sent
  error : String → Sent

abbrev pub backoff : ℕ → ℕ
backoff attempts = min 900 (2 ^ attempts * 5) * 1_000_000

-- `_finalize`, on the row with the identifier
unfoldable pub finalize_row : ℕ → Sent → NotificationDelivery → NotificationDelivery
finalize_row now (response code) d =
    if is_processing d.status
    then record d {
      status = DeliveryStatus.delivered;
      delivered_at = some now;
      response_code = some code;
      last_error = none;
    }
    else d
finalize_row now (error text) d =
    if is_processing d.status
    then record d {
      last_error = some (first_chars 2000 text);
      status = if leb 5 d.attempts then DeliveryStatus.failed else DeliveryStatus.retry;
      next_attempt_at = now + backoff d.attempts;
    }
    else d

unfoldable pub finalize : ℕ → String → Sent → List NotificationDelivery → List NotificationDelivery
unfolding finalize_row
finalize now id sent rows =
    map
      (λ (d : NotificationDelivery). if str_eq d.delivery_id id then finalize_row now sent d else d)
      rows

-- The two ways out: HTTP and mail.
pub record Transport : Type 0 where
  pub post : NotificationChannel → AlertEvent → Sent
  pub email : NotificationChannel → AlertEvent → Option String

-- `_send`
unfoldable pub send : Transport → NotificationChannel → AlertEvent → Sent
send t channel event =
    if contains ("SLACK" ∷ "TEAMS" ∷ "WEBHOOK" ∷ []) channel.channel_type
    then t.post channel event
    else if str_eq channel.channel_type "EMAIL"
    then elim (t.email channel event) [ none ↦ response 250 | some text ↦ error text ]
    else error ("unsupported notification channel: " <> channel.channel_type)

-- The loop of `deliver_due`; `sends` gives what `_send` comes to for a claimed delivery, and
-- `clock` the time at which it is finalized.
unfoldable pub finalize_all :
    (String → ℕ)
    → (String → Sent)
    → List String
    → List NotificationDelivery
    → List NotificationDelivery
unfolding finalize
finalize_all clock sends [] rows = rows
finalize_all clock sends (id ∷ ids) rows =
    finalize_all clock sends ids (finalize (clock id) id (sends id) rows)

-- `deliver_due`
unfoldable pub deliver_due :
    (String → Bool)
    → (String → ℕ)
    → (String → Sent)
    → ℕ
    → ℕ
    → List NotificationDelivery
    → ℕ × List NotificationDelivery
deliver_due locked clock sends now limit rows =
    let (ids, claimed) = claim_due locked now limit rows in
    (length ids, finalize_all clock sends ids claimed)

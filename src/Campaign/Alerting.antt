-- ===== src/Campaign/Alerting.antt =====
-- src/scam2market/campaigns/repository.py: how a trigger creates or refreshes an alert. The two
-- stores do this alike; `_upsert_alert` is the database's.
use scam2marke.Prelude.{
  ℕ, ◌+◌, ◌≤◌, ◌<◌, ◌≡◌, ◌↔◌, String, ◌<>◌, Bool, true, false, not, ◌&&◌, ◌||◌, Option, none, some,
  ltb, max, ◌==◌, arith, if◌then◌else◌,
}
use scam2marke.Events.{EventType}
use scam2marke.Campaign.Types.{AlertRecord, AlertStatus, AlertTrigger, CampaignEvidence}
use scam2marke.Campaign.Policy.{max_risk, risk_rank}
use scam2marke.Campaign.Common.{alert_type_name}

abbrev pub is_active : AlertStatus → Bool
is_active AlertStatus.active = true
is_active AlertStatus.resolved = false

-- The alert after the trigger, whether its notification is suppressed, and the event to send if not.
pub record AlertChange : Type 0 where
  pub alert : AlertRecord
  pub suppressed : Bool
  pub event_type : EventType

-- `alert.last_notified_at is not None and evidence.event_time - alert.last_notified_at < suppression`
abbrev pub within_cooldown : ℕ → ℕ → Option ℕ → Bool
within_cooldown suppression event_time none = false
within_cooldown suppression event_time (some notified) = ltb event_time (notified + suppression)

refresh_alert : ℕ → CampaignEvidence → AlertTrigger → AlertRecord → AlertChange
unfolding max_risk
refresh_alert suppression e t a =
    let severity = max_risk a.severity t.severity in
    let changed = not (risk_rank severity == risk_rank a.severity) || not (is_active a.status) in
    let suppressed = not changed && within_cooldown suppression e.event_time a.last_notified_at in
    record {
      alert = record a {
        severity = severity;
        status = AlertStatus.active;
        last_triggered_at = max a.last_triggered_at e.event_time;
        last_notified_at = if suppressed then a.last_notified_at else some e.event_time;
        occurrence_count = a.occurrence_count + 1;
        version = a.version + 1;
      };
      suppressed = suppressed;
      event_type = if changed then EventType.alert_severity_changed else EventType.alert_refreshed;
    }

create_alert : (String → String) → CampaignEvidence → String → AlertTrigger → AlertChange
create_alert uuid5 e campaign_id t = record {
  alert = record {
    alert_id = uuid5 ("alert:" <> campaign_id <> ":" <> alert_type_name t.alert_type);
    campaign_id = campaign_id;
    alert_type = t.alert_type;
    severity = t.severity;
    status = AlertStatus.active;
    first_triggered_at = e.event_time;
    last_triggered_at = e.event_time;
    last_notified_at = some e.event_time;
    occurrence_count = 1;
    version = 1;
  };
  suppressed = false;
  event_type = EventType.alert_created;
}

unfoldable pub change_alert :
    (String → String)
    → ℕ
    → CampaignEvidence
    → String
    → AlertTrigger
    → Option AlertRecord
    → AlertChange
unfolding refresh_alert create_alert
change_alert uuid5 suppression e campaign_id t none = create_alert uuid5 e campaign_id t
change_alert uuid5 suppression e campaign_id t (some a) = refresh_alert suppression e t a

-- A notification is held back exactly when the alert was active, its severity does not rise, and
-- the last notification is less than the cooldown ago; what is held back leaves the time of the last
-- notification alone, and what is not sets it.
pub change_alert-suppressed :
    (uuid5 : String → String) (suppression : ℕ) (e : CampaignEvidence) (id : String)
    (t : AlertTrigger) (a : AlertRecord) (notified : ℕ)
    → a.last_notified_at ≡ some notified
    → let c = change_alert uuid5 suppression e id t (some a) in
      ((c.suppressed ≡ true) ↔ (
        (a.status ≡ AlertStatus.active)
        × (risk_rank t.severity ≤ risk_rank a.severity)
        × (e.event_time < notified + suppression)))
      × (c.alert.last_notified_at ≡ (if c.suppressed then some notified else some e.event_time))
unfolding change_alert max_risk
change_alert-suppressed uuid5 suppression e id t a notified h = ground arith

-- Refreshing an alert never lowers its severity, never moves its last trigger back, counts one more
-- occurrence and makes it active, and keeps its identity.
pub change_alert-grows :
    (uuid5 : String → String) (suppression : ℕ) (e : CampaignEvidence) (id : String)
    (t : AlertTrigger) (a : AlertRecord)
    → let b = (change_alert uuid5 suppression e id t (some a)).alert in
      (risk_rank a.severity ≤ risk_rank b.severity)
      × (risk_rank t.severity ≤ risk_rank b.severity)
      × (a.last_triggered_at ≤ b.last_triggered_at)
      × (b.occurrence_count ≡ a.occurrence_count + 1)
      × (b.status ≡ AlertStatus.active)
      × (b.alert_id ≡ a.alert_id)
      × (b.first_triggered_at ≡ a.first_triggered_at)
unfolding change_alert max_risk
change_alert-grows uuid5 suppression e id t a = ground arith

-- ===== src/Campaign/Memory.antt =====
-- src/scam2market/campaigns/repository.py, `InMemoryCampaignRepository`. `apply` holds the lock from
-- its first line to its last, so it is one step. What it has written before it raises stays.
pub mod Laws
pub mod Outbox
pub mod Order
pub mod Invariant
use scam2marke.Prelude.{
  ℕ, String, Bool, true, false, List, [], ◌∷◌, ◌++◌, Option, none, some, or_else, not, ◌==◌, ◌||◌,
  if◌then◌else◌, Bool-cases, inl, inr, arith, ◌≡◌, ◌↔◌, is_some,
}
use scam2marke.Prelude.Dict.{Eq, Dict, string_eq, pair_eq, lookup, insert, contains}
use scam2marke.Fusion.Types.{RiskLevel}
use scam2marke.Events.{EventType, Payload, campaign_payload, alert_payload, CanonicalEvent}
use scam2marke.Campaign.Types.{
  CampaignEvidence, CampaignRecord, CampaignStage, CampaignUpdate, CampaignAssessment, AlertRecord,
  AlertTrigger, AlertType,
}
use scam2marke.Campaign.Policy.{PolicyError, Assessed, ok, err, assess}
use scam2marke.Campaign.Policy.Stages.{progress}
use scam2marke.Campaign.Policy.Alerts.{alert_rank}
use scam2marke.Campaign.Common.{domain_event, new_campaign, updated_campaign, is_stale, gap_elapsed}
use scam2marke.Campaign.Alerting.{change_alert}

pub alert_rank_iff : (a b : AlertType) → ((alert_rank a == alert_rank b) ≡ true) ↔ (a ≡ b)
alert_rank_iff a b = ground arith

instance abbrev pub alert_type_eq : Eq AlertType
alert_type_eq = record { beq = λ a b. alert_rank a == alert_rank b; beq_iff = alert_rank_iff }

-- `a != b` on stages
abbrev pub stage_differs : CampaignStage → CampaignStage → Bool
stage_differs a b = not (progress a == progress b)

pub record Store : Type 0 where
  pub merge_gap : ℕ
  pub suppression : ℕ
  pub campaigns : Dict (String × String) CampaignRecord
  pub alerts : Dict (String × AlertType) AlertRecord
  pub evidence_ids : List String
  pub stage_history : List (String × CampaignStage × CampaignStage)
  pub alert_history : List (String × RiskLevel × Bool)
  pub outbox : List (String × CanonicalEvent)

pub data Failure : Type 0 where
  no_campaign : Failure
  policy : PolicyError → Failure

pub data Applied : Type 0 where
  done : CampaignUpdate → Applied
  raised : Failure → Applied

abbrev pub key_of : CampaignEvidence → String × String
key_of e = (e.fusion.scope_id, e.fusion.asset_id)

-- `existing`, after the test of the merge gap.
unfoldable pub open_campaign : CampaignEvidence → Store → Option CampaignRecord
open_campaign e s = elim (lookup (key_of e) s.campaigns) [
  | none ↦ none
  | some c ↦ if gap_elapsed s.merge_gap c e then none else some c
]

abbrev pub stage_of : Option CampaignRecord → CampaignStage
stage_of none = CampaignStage.normal
stage_of (some c) = c.stage

-- `existing is None or campaign.stage != existing.stage`
abbrev pub stage_moved : Option CampaignRecord → CampaignRecord → Bool
stage_moved none c = true
stage_moved (some old) c = stage_differs c.stage old.stage

abbrev pub campaign_event_type : Option CampaignRecord → EventType
campaign_event_type none = EventType.campaign_created
campaign_event_type (some _) = EventType.campaign_stage_changed

abbrev pub History : Type 0
History = List (String × CampaignStage × CampaignStage)

abbrev pub history_after : Option CampaignRecord → CampaignRecord → History → History
history_after none c h = h
history_after (some old) c h =
    if stage_differs c.stage old.stage then h ++ (c.campaign_id, old.stage, c.stage) ∷ [] else h

-- A message is queued, and its identifier noted among those that `apply` reports, if the test holds.
unfoldable pub send_if : Bool → String → CanonicalEvent → Store → List String → Store × List String
send_if false topic event s ids = (s, ids)
send_if true topic event s ids =
    (record s { outbox = s.outbox ++ (topic, event) ∷ [] }, ids ++ event.event_id ∷ [])

abbrev pub quiet_update : CampaignRecord → Bool → Bool → CampaignUpdate
quiet_update c duplicate stale = record {
  campaign = c;
  alerts = [];
  duplicate_evidence = duplicate;
  stale_evidence = stale;
  emitted_event_ids = [];
}

-- The answer to evidence that was applied before.
unfoldable pub answer_duplicate : Option CampaignRecord → Store → Applied × Store
answer_duplicate none s = (raised no_campaign, s)
answer_duplicate (some c) s = (done (quiet_update c true false), s)

module _ (uuid5 : String → String) where
  unfoldable pub next_campaign :
      CampaignEvidence → CampaignAssessment → Option CampaignRecord → CampaignRecord
  unfolding new_campaign updated_campaign
  next_campaign e a none = new_campaign uuid5 e a
  next_campaign e a (some c) = updated_campaign c e a

  -- The campaign's record, its stage history and its event.
  unfoldable pub write_campaign :
      CampaignEvidence → Option CampaignRecord → CampaignRecord → Store → Store × List String
  unfolding domain_event send_if
  write_campaign e existing c s =
      let moved = record s {
        campaigns = insert (key_of e) c s.campaigns;
        stage_history = history_after existing c s.stage_history;
      } in
      send_if (stage_moved existing c) "campaign.events.v1"
        (domain_event uuid5 e (campaign_event_type existing) "campaign.events.v1" c.campaign_id
          (campaign_payload c))
        moved []

  -- One round of the loop over the triggers.
  unfoldable pub apply_alert :
      CampaignEvidence
      → CampaignRecord
      → AlertTrigger
      → Store × List AlertRecord × List String
      → Store × List AlertRecord × List String
  unfolding change_alert domain_event send_if
  apply_alert e c t (s, records, ids) =
      let alert_key : String × AlertType = (c.campaign_id, t.alert_type) in
      let change = change_alert uuid5 s.suppression e c.campaign_id t (lookup alert_key s.alerts) in
      let alert = change.alert in
      let written = record s {
        alerts = insert alert_key alert s.alerts;
        alert_history = s.alert_history ++ (alert.alert_id, alert.severity, change.suppressed) ∷ [];
      } in
      let event =
        domain_event uuid5 e change.event_type "alerts.events.v1" alert.alert_id
          (alert_payload alert t.reason) in
      let (sent, ids') = send_if (not change.suppressed) "alerts.events.v1" event written ids in
      (sent, records ++ alert ∷ [], ids')

  unfoldable pub apply_alerts :
      CampaignEvidence
      → CampaignRecord
      → List AlertTrigger
      → Store × List AlertRecord × List String
      → Store × List AlertRecord × List String
  unfolding apply_alert
  apply_alerts e c [] acc = acc
  apply_alerts e c (t ∷ ts) acc = apply_alerts e c ts (apply_alert e c t acc)

  -- From the assessment on.
  unfoldable pub apply_assessed :
      CampaignEvidence → Option CampaignRecord → CampaignAssessment → Store → Applied × Store
  unfolding next_campaign write_campaign apply_alerts
  apply_assessed e existing a s =
      let c = next_campaign e a existing in
      let (written, emitted) = write_campaign e existing c s in
      let (final, records, ids) = apply_alerts e c a.alerts (written, [], emitted) in
      (
        done (record {
          campaign = c;
          alerts = records;
          duplicate_evidence = false;
          stale_evidence = false;
          emitted_event_ids = ids;
        }),
        final,
      )

  -- What follows the assessment: `s` has the evidence among its `evidence_ids` already.
  unfoldable pub apply_new :
      CampaignEvidence → Option CampaignRecord → Assessed → Store → Applied × Store
  unfolding is_stale apply_assessed
  apply_new e existing (err failure) s = (raised (policy failure), s)
  apply_new e none (ok a) s = apply_assessed e none a s
  apply_new e (some c) (ok a) s =
      if is_stale c e then (done (quiet_update c false true), s) else apply_assessed e (some c) a s

  -- `apply`
  unfoldable pub apply : CampaignEvidence → Store → Applied × Store
  unfolding answer_duplicate apply_new open_campaign assess
  apply e s =
      if contains s.evidence_ids e.event_id
      then answer_duplicate (lookup (key_of e) s.campaigns) s
      else let existing = open_campaign e s in
        apply_new e existing (assess (stage_of existing) e.fusion)
          (record s { evidence_ids = e.event_id ∷ s.evidence_ids })

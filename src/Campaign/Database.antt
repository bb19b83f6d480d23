-- ===== src/Campaign/Database.antt =====
-- src/scam2market/campaigns/repository.py, `SqlCampaignRepository`. One call of `apply` is one
-- transaction under an advisory lock, so one step; SQLAlchemy rolls it back where it raises.
-- The answers of the database to the lock attempts are an argument. A row of `campaigns` that
-- `session.scalar` selects and the code changes is replaced where it stands. The fingerprints of the
-- evidence are left out. That an identifier of the outbox or of a history row does not come twice
-- rests on the evidence's own and on `uuid5`, and is not tested again here.
pub mod Lock
pub mod Actives
pub mod Alike
pub mod Agreement
use scam2marke.Prelude.{
  ℕ, zero, suc, ◌+◌, String, Bool, true, false, List, [], ◌∷◌, ◌++◌, Option, none, some, or_else,
  not, ◌==◌, ◌||◌, ◌&&◌, if◌then◌else◌, is_some, str_eq,
}
use scam2marke.Prelude.Dict.{Dict, string_eq, pair_eq, lookup, insert}
use scam2marke.Fusion.Types.{RiskLevel, FusionResult}
use scam2marke.Events.{
  EventType, Payload, campaign_payload, stage_payload, closed_payload, alert_row_payload,
  CanonicalEvent,
}
use scam2marke.Campaign.Types.{
  CampaignEvidence, CampaignRecord, CampaignStage, CampaignStatus, CampaignUpdate,
  CampaignAssessment, AlertRecord, AlertStatus, AlertTrigger, AlertType, StageReason,
}
use scam2marke.Campaign.Policy.{PolicyError, Assessed, ok, err, assess}
use scam2marke.Campaign.Common.{domain_event, new_campaign, updated_campaign, is_stale, gap_elapsed}
use scam2marke.Campaign.Alerting.{change_alert}
use scam2marke.Campaign.Memory.{alert_type_eq, stage_differs, stage_of, quiet_update}

-- A row of `campaigns`.
pub record CampaignRow : Type 0 where
  pub campaign : CampaignRecord
  pub closed_reason : Option String

-- A row of `campaign_evidence`.
pub record EvidenceRow : Type 0 where
  pub campaign_id : String
  pub scope_id : String
  pub event_time : ℕ
  pub evidence : FusionResult

-- A row of `campaign_stage_history`.
pub record StageRow : Type 0 where
  pub campaign_id : String
  pub from_stage : Option CampaignStage
  pub to_stage : CampaignStage
  pub evidence_event_id : String
  pub reason : StageReason
  pub confidence : ℕ
  pub changed_at_event_time : ℕ

-- A row of `alert_state_history`.
pub record AlertStateRow : Type 0 where
  pub alert_id : String
  pub evidence_event_id : String
  pub from_severity : Option RiskLevel
  pub to_severity : RiskLevel
  pub from_status : Option AlertStatus
  pub to_status : AlertStatus
  pub suppression_reason : Option String
  pub changed_at : ℕ

pub record Database : Type 0 where
  pub merge_gap : ℕ
  pub suppression : ℕ
  pub lock_retry_count : ℕ
  pub campaigns : List CampaignRow
  pub evidence : Dict String EvidenceRow
  pub alerts : Dict (String × AlertType) AlertRecord
  pub stage_history : List StageRow
  pub alert_history : List AlertStateRow
  pub outbox : List (String × CanonicalEvent)

pub data DatabaseError : Type 0 where
  lock_timeout missing_campaign integrity : DatabaseError
  refused : PolicyError → DatabaseError

pub data Outcome : Type 0 where
  committed : CampaignUpdate → Outcome
  rolled_back : DatabaseError → Outcome

-- `session.begin()`: an exception undoes what was written.
abbrev pub end_transaction : Database → Outcome × Database → Outcome × Database
end_transaction db (committed u, written) = (committed u, written)
end_transaction db (rolled_back f, written) = (rolled_back f, db)

-- The attempts at the lock: `remaining` of them, from the one numbered `attempt` on.
unfoldable pub acquire : (ℕ → Bool) → ℕ → ℕ → Bool
acquire answers zero attempt = false
acquire answers (suc remaining) attempt = answers attempt || acquire answers remaining (attempt + 1)

abbrev pub is_open : CampaignStatus → Bool
is_open CampaignStatus.active = true
is_open CampaignStatus.closed = false

-- `scope_id == ... and asset_id == ... and status == ACTIVE`
abbrev pub is_selected : String → String → CampaignRow → Bool
is_selected scope_id asset_id r =
    str_eq r.campaign.scope_id scope_id
    && str_eq r.campaign.asset_id asset_id
    && is_open r.campaign.status

-- The first row selected, and the rows with that one replaced.
unfoldable pub select_active : String → String → List CampaignRow → Option CampaignRecord
select_active scope_id asset_id [] = none
select_active scope_id asset_id (r ∷ rs) =
    if is_selected scope_id asset_id r then some r.campaign else select_active scope_id asset_id rs

unfoldable pub replace_active : String → String → CampaignRow → List CampaignRow → List CampaignRow
replace_active scope_id asset_id new [] = []
replace_active scope_id asset_id new (r ∷ rs) =
    if is_selected scope_id asset_id r
    then new ∷ rs
    else r ∷ replace_active scope_id asset_id new rs

-- `session.get(CampaignModel, campaign_id)`
unfoldable pub get_campaign : String → List CampaignRow → Option CampaignRecord
get_campaign id [] = none
get_campaign id (r ∷ rs) =
    if str_eq r.campaign.campaign_id id then some r.campaign else get_campaign id rs

abbrev pub add_evidence : CampaignEvidence → CampaignRecord → Database → Database
add_evidence e c db = record db {
  evidence =
      insert e.event_id
        (record {
          campaign_id = c.campaign_id;
          scope_id = e.fusion.scope_id;
          event_time = e.event_time;
          evidence = e.fusion;
        })
        db.evidence;
}

abbrev pub enqueue : String → CanonicalEvent → Database → Database
enqueue topic event db = record db { outbox = db.outbox ++ (topic, event) ∷ [] }

abbrev pub stage_row :
    CampaignEvidence → CampaignAssessment → CampaignRecord → Option CampaignStage → StageRow
stage_row e a c from_stage = record {
  campaign_id = c.campaign_id;
  from_stage = from_stage;
  to_stage = a.next_stage;
  evidence_event_id = e.event_id;
  reason = c.stage_reason;
  confidence = a.stage_confidence;
  changed_at_event_time = e.event_time;
}

-- The closing of a campaign after the merge gap.
abbrev pub closed_row : CampaignRecord → CampaignRow
closed_row c = record {
  campaign = record c { status = CampaignStatus.closed; version = c.version + 1 };
  closed_reason = some "INACTIVITY_TIMEOUT";
}

abbrev pub open_row : CampaignRecord → CampaignRow
open_row c = record { campaign = c; closed_reason = none }

module _ (uuid5 : String → String) where
  unfoldable pub close_campaign :
      CampaignEvidence → CampaignRecord → Database → Database × List String
  unfolding domain_event
  close_campaign e c db =
      let event =
        domain_event uuid5 e EventType.campaign_closed "campaign.events.v1" c.campaign_id
          (closed_payload c.campaign_id "merge gap elapsed") in
      (
        enqueue "campaign.events.v1" event (record db {
          campaigns =
              replace_active e.fusion.scope_id e.fusion.asset_id (closed_row c) db.campaigns;
        }),
        event.event_id ∷ [],
      )

  -- The rows of a new campaign; `c` is the one that the evidence opens.
  unfoldable pub open_new :
      CampaignEvidence
      → CampaignAssessment
      → CampaignRecord
      → Database
      → List String
      → Database × List String
  unfolding domain_event
  open_new e a c db ids =
      let event =
        domain_event uuid5 e EventType.campaign_created "campaign.events.v1" c.campaign_id
          (campaign_payload c) in
      (
        enqueue "campaign.events.v1" event (record db {
          campaigns = db.campaigns ++ open_row c ∷ [];
          stage_history = db.stage_history ++ stage_row e a c none ∷ [];
        }),
        ids ++ event.event_id ∷ [],
      )

  -- The rows of a campaign that goes on; `c` is what it becomes, and `old` what it was.
  unfoldable pub continue_old :
      CampaignEvidence
      → CampaignAssessment
      → CampaignRecord
      → CampaignRecord
      → Database
      → List String
      → Database × List String
  unfolding domain_event
  continue_old e a old c db ids =
      let written = record db {
        campaigns = replace_active e.fusion.scope_id e.fusion.asset_id (open_row c) db.campaigns;
      } in
      let event =
        domain_event uuid5 e EventType.campaign_stage_changed "campaign.events.v1" c.campaign_id
          (stage_payload c old.stage a.transition_reason) in
      if stage_differs c.stage old.stage
      then (
        enqueue "campaign.events.v1" event (record written {
          stage_history = db.stage_history ++ stage_row e a c (some old.stage) ∷ [];
        }),
        ids ++ event.event_id ∷ [],
      )
      else (written, ids)

  -- `_upsert_alert`, and the round of the loop that calls it.
  unfoldable pub upsert_alert :
      CampaignEvidence
      → CampaignRecord
      → AlertTrigger
      → Database × List AlertRecord × List String
      → Database × List AlertRecord × List String
  unfolding change_alert domain_event
  upsert_alert e c t (db, records, ids) =
      let alert_key : String × AlertType = (c.campaign_id, t.alert_type) in
      let old = lookup alert_key db.alerts in
      let change = change_alert uuid5 db.suppression e c.campaign_id t old in
      let alert = change.alert in
      let row : AlertStateRow = record {
        alert_id = alert.alert_id;
        evidence_event_id = e.event_id;
        from_severity = elim old [ none ↦ none | some a ↦ some a.severity ];
        to_severity = alert.severity;
        from_status = elim old [ none ↦ none | some a ↦ some a.status ];
        to_status = alert.status;
        suppression_reason = if change.suppressed then some "COOLDOWN" else none;
        changed_at = e.event_time;
      } in
      let written = record db {
        alerts = insert alert_key alert db.alerts;
        alert_history = db.alert_history ++ row ∷ [];
      } in
      let event =
        domain_event uuid5 e change.event_type "alerts.events.v1" alert.alert_id
          (alert_row_payload alert c t.reason e.event_id) in
      if change.suppressed then (written, records ++ alert ∷ [], ids) else (
        enqueue "alerts.events.v1" event written,
        records ++ alert ∷ [],
        ids ++ event.event_id ∷ [],
      )

  unfoldable pub upsert_alerts :
      CampaignEvidence
      → CampaignRecord
      → List AlertTrigger
      → Database × List AlertRecord × List String
      → Database × List AlertRecord × List String
  unfolding upsert_alert
  upsert_alerts e c [] acc = acc
  upsert_alerts e c (t ∷ ts) acc = upsert_alerts e c ts (upsert_alert e c t acc)

  -- After the campaign is written: its evidence, its alerts and the answer.
  unfoldable pub finish :
      CampaignEvidence
      → CampaignAssessment
      → CampaignRecord
      → Database × List String
      → Outcome × Database
  unfolding upsert_alerts
  finish e a c (written, emitted) =
      let (final, records, ids) =
        upsert_alerts e c a.alerts (add_evidence e c written, [], emitted) in
      (
        committed (record {
          campaign = c;
          alerts = records;
          duplicate_evidence = false;
          stale_evidence = false;
          emitted_event_ids = ids;
        }),
        final,
      )

  -- From the assessment on; the pair is what the transaction has written and emitted so far.
  unfoldable pub write_assessed :
      CampaignEvidence
      → Option CampaignRecord
      → Assessed
      → Database × List String
      → Outcome × Database
  unfolding new_campaign updated_campaign open_new continue_old finish
  write_assessed e existing (err failure) (now, ids) = (rolled_back (refused failure), now)
  write_assessed e none (ok a) (now, ids) =
      let c = new_campaign uuid5 e a in
      if is_some (get_campaign c.campaign_id now.campaigns)
      then (rolled_back integrity, now)
      else finish e a c (open_new e a c now ids)
  write_assessed e (some old) (ok a) (now, ids) =
      let c = updated_campaign old e a in finish e a c (continue_old e a old c now ids)

  unfoldable pub apply_fresh :
      CampaignEvidence → Option CampaignRecord → Database → Outcome × Database
  unfolding is_stale close_campaign write_assessed
  apply_fresh e none db = write_assessed e none (assess CampaignStage.normal e.fusion) (db, [])
  apply_fresh e (some c) db =
      if is_stale c e
      then (committed (quiet_update c false true), add_evidence e c db)
      else if gap_elapsed db.merge_gap c e
      then write_assessed e none (assess CampaignStage.normal e.fusion) (close_campaign e c db)
      else write_assessed e (some c) (assess c.stage e.fusion) (db, [])

  abbrev pub answer_prior : Option CampaignRecord → Database → Outcome × Database
  answer_prior none db = (rolled_back missing_campaign, db)
  answer_prior (some c) db = (committed (quiet_update c true false), db)

  -- What `apply` does within its transaction, and what is written when it returns or raises.
  unfoldable pub apply_within : (ℕ → Bool) → CampaignEvidence → Database → Outcome × Database
  unfolding acquire apply_fresh get_campaign select_active
  apply_within answers e db =
      if acquire answers (db.lock_retry_count + 1) 0
      then elim (lookup e.event_id db.evidence) [
        | some prior ↦ answer_prior (get_campaign prior.campaign_id db.campaigns) db
        | none ↦ apply_fresh e (select_active e.fusion.scope_id e.fusion.asset_id db.campaigns) db
      ]
      else (rolled_back lock_timeout, db)

  -- `apply`
  unfoldable pub apply_sql : (ℕ → Bool) → CampaignEvidence → Database → Outcome × Database
  unfolding apply_within
  apply_sql answers e db = end_transaction db (apply_within answers e db)

-- ===== src/Campaign/Common.antt =====
-- src/scam2market/campaigns/repository.py: what the two stores of campaigns share.
use scam2marke.Prelude.{
  ℕ, ◌+◌, String, ◌<>◌, Bool, true, false, not, none, some, ltb, leb, max, str_eq, or_else, ◌==◌,
  if◌then◌else◌,
}
use scam2marke.Fusion.Types.{EnrichmentProfile}
use scam2marke.Events.{EventType, event_name, Payload, CanonicalEvent}
use scam2marke.Campaign.Types.{
  CampaignEvidence, CampaignRecord, CampaignStatus, AlertType, StageReason, CampaignAssessment,
}
use scam2marke.Campaign.Policy.{max_risk}

-- The texts of the `StrEnum` members.
abbrev pub profile_name : EnrichmentProfile → String
profile_name EnrichmentProfile.base = "BASE"
profile_name EnrichmentProfile.graph = "GRAPH"
profile_name EnrichmentProfile.verification = "VERIFICATION"
profile_name EnrichmentProfile.graph_and_verification = "GRAPH_AND_VERIFICATION"

abbrev pub alert_type_name : AlertType → String
alert_type_name AlertType.social_hype_surge = "SOCIAL_HYPE_SURGE"
alert_type_name AlertType.coordinated_promotion = "COORDINATED_PROMOTION"
alert_type_name AlertType.unverified_narrative = "UNVERIFIED_NARRATIVE"
alert_type_name AlertType.market_volume_anomaly = "MARKET_VOLUME_ANOMALY"
alert_type_name AlertType.market_price_anomaly = "MARKET_PRICE_ANOMALY"
alert_type_name AlertType.market_microstructure_anomaly = "MARKET_MICROSTRUCTURE_ANOMALY"
alert_type_name AlertType.cross_domain_manipulation_risk = "CROSS_DOMAIN_MANIPULATION_RISK"
alert_type_name AlertType.possible_dump_phase = "POSSIBLE_DUMP_PHASE"

-- `_PROFILE_PRIORITY.get(name, 0)`
unfoldable pub profile_priority : String → ℕ
profile_priority name =
    if str_eq name "GRAPH"
    then 1
    else if str_eq name "VERIFICATION"
    then 2
    else if str_eq name "GRAPH_AND_VERIFICATION"
    then 3
    else 0

-- The tuples by which evaluations are ordered: cutoff, feature revision, fusion revision, profile.
pub record EvaluationOrder : Type 0 where
  pub cutoff : ℕ
  pub feature_revision : ℕ
  pub fusion_revision : ℕ
  pub profile : ℕ

-- Python's `<=` on such tuples.
unfoldable pub order_leb : EvaluationOrder → EvaluationOrder → Bool
order_leb a b =
    if ltb a.cutoff b.cutoff
    then true
    else if not (a.cutoff == b.cutoff)
    then false
    else if ltb a.feature_revision b.feature_revision
    then true
    else if not (a.feature_revision == b.feature_revision)
    then false
    else if ltb a.fusion_revision b.fusion_revision
    then true
    else if not (a.fusion_revision == b.fusion_revision)
    then false
    else leb a.profile b.profile

-- `fusion.evidence_cutoff or evidence.event_time`; a `datetime` is always true.
abbrev pub cutoff_of : CampaignEvidence → ℕ
cutoff_of e = or_else e.fusion.evidence_cutoff e.event_time

-- `_evaluation_order`
unfoldable pub evaluation_order : CampaignEvidence → EvaluationOrder
unfolding profile_priority
evaluation_order e = record {
  cutoff = cutoff_of e;
  feature_revision = e.fusion.feature_revision;
  fusion_revision = e.fusion.fusion_revision;
  profile = profile_priority (profile_name e.fusion.enrichment_profile);
}

-- The tuple that the record keeps of the last evaluation applied to it.
unfoldable pub applied_order : ℕ → CampaignRecord → EvaluationOrder
unfolding profile_priority
applied_order cutoff c = record {
  cutoff = cutoff;
  feature_revision = c.last_applied_feature_revision;
  fusion_revision = c.last_applied_fusion_revision;
  profile = profile_priority c.last_applied_enrichment_profile;
}

-- `_is_stale_campaign_record` and, on a row, `_is_stale_campaign_evidence`.
unfoldable pub is_stale : CampaignRecord → CampaignEvidence → Bool
unfolding order_leb evaluation_order applied_order
is_stale c e = elim c.last_applied_evidence_cutoff [
  | none ↦ false
  | some cutoff ↦ order_leb (evaluation_order e) (applied_order cutoff c)
]

-- The fields that both stores set from an assessment.
abbrev pub stage_reason : CampaignAssessment → StageReason
stage_reason a = record {
  reason = a.transition_reason;
  reason_codes = a.reason_codes;
  evidence_ids = a.stage_evidence_ids;
}

-- `evidence.event_time - campaign.last_evidence_at > self._merge_gap`
abbrev pub gap_elapsed : ℕ → CampaignRecord → CampaignEvidence → Bool
gap_elapsed merge_gap c e = ltb (c.last_evidence_at + merge_gap) e.event_time

-- The record after further evidence for it.
unfoldable pub updated_campaign :
    CampaignRecord → CampaignEvidence → CampaignAssessment → CampaignRecord
unfolding max_risk
updated_campaign c e a = record c {
  stage = a.next_stage;
  stage_confidence = a.stage_confidence;
  stage_reason = stage_reason a;
  max_severity = max_risk c.max_severity e.fusion.severity;
  last_evidence_at = max c.last_evidence_at e.event_time;
  last_applied_evidence_cutoff = some (cutoff_of e);
  last_applied_feature_revision = e.fusion.feature_revision;
  last_applied_fusion_revision = e.fusion.fusion_revision;
  last_applied_enrichment_profile = profile_name e.fusion.enrichment_profile;
  version = c.version + 1;
}

-- `uuid5(NAMESPACE_URL, ·)` is the argument `uuid5` throughout.
module _ (uuid5 : String → String) where
  -- `_domain_event`. Its validators ask for an asset and a scope that are not blank.
  unfoldable pub domain_event :
      CampaignEvidence → EventType → String → String → Payload → CanonicalEvent
  domain_event e event_type topic entity_id payload =
      let source_event_id = entity_id <> ":" <> event_name event_type <> ":" <> e.event_id in
      let live = str_eq e.fusion.scope_id "LIVE" in
      record {
        event_id = uuid5 (topic <> ":" <> source_event_id);
        event_type = event_type;
        schema_version = 1;
        source = "campaign-engine-v1";
        source_event_id = source_event_id;
        asset_id = some e.fusion.asset_id;
        event_time = e.event_time;
        partition_key = e.fusion.asset_id;
        replay = record {
          is_replay = not live;
          replay_session_id = if live then none else some e.fusion.scope_id;
        };
        trace = record { correlation_id = e.correlation_id; causation_id = some e.event_id };
        payload = payload;
      }

  -- The record of a campaign that evidence opens.
  unfoldable pub new_campaign : CampaignEvidence → CampaignAssessment → CampaignRecord
  new_campaign e a = record {
    campaign_id =
        uuid5 ("campaign:" <> e.fusion.scope_id <> ":" <> e.fusion.asset_id <> ":" <> e.event_id);
    scope_id = e.fusion.scope_id;
    asset_id = e.fusion.asset_id;
    stage = a.next_stage;
    stage_confidence = a.stage_confidence;
    stage_reason = stage_reason a;
    status = CampaignStatus.active;
    max_severity = e.fusion.severity;
    first_evidence_at = e.event_time;
    last_evidence_at = e.event_time;
    last_applied_evidence_cutoff = some (cutoff_of e);
    last_applied_feature_revision = e.fusion.feature_revision;
    last_applied_fusion_revision = e.fusion.fusion_revision;
    last_applied_enrichment_profile = profile_name e.fusion.enrichment_profile;
    version = 1;
  }

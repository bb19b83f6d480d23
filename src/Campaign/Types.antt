-- ===== src/Campaign/Types.antt =====
-- src/scam2market/campaigns/schemas.py
use scam2marke.Prelude.{ℕ, String, Option, List, Bool}
use scam2marke.Fusion.Types.{FusionResult, RiskLevel}

pub data CampaignStage : Type 0 where
  normal early_social_seeding coordinated_amplification market_pump : CampaignStage
  possible_distribution dump post_event : CampaignStage

pub data CampaignStatus : Type 0 where
  active closed : CampaignStatus

pub data AlertStatus : Type 0 where
  active resolved : AlertStatus

pub data AlertType : Type 0 where
  social_hype_surge coordinated_promotion unverified_narrative : AlertType
  market_volume_anomaly market_price_anomaly market_microstructure_anomaly : AlertType
  cross_domain_manipulation_risk possible_dump_phase : AlertType

-- `scope_id` and `asset_id` are the fusion's.
pub record CampaignEvidence : Type 0 where
  pub event_id : String
  pub correlation_id : String
  pub causation_id : Option String
  pub event_time : ℕ
  pub fusion : FusionResult

pub record AlertTrigger : Type 0 where
  pub alert_type : AlertType
  pub severity : RiskLevel
  pub reason : String

-- The reason codes of `_reason_codes`, in the alphabetical order of their names.
pub data ReasonCode : Type 0 where
  abnormal_return public_data_proxy_only relative_volume : ReasonCode
  sell_pressure_proxy social_coordination : ReasonCode

pub record CampaignAssessment : Type 0 where
  pub next_stage : CampaignStage
  pub transition_reason : String
  pub stage_confidence : ℕ
  pub reason_codes : List ReasonCode
  pub stage_evidence_ids : List String
  pub rule_version : String
  pub alerts : List AlertTrigger

pub record StageReason : Type 0 where
  pub reason : String
  pub reason_codes : List ReasonCode
  pub evidence_ids : List String

pub record CampaignRecord : Type 0 where
  pub campaign_id : String
  pub scope_id : String
  pub asset_id : String
  pub stage : CampaignStage
  pub stage_confidence : ℕ
  pub stage_reason : StageReason
  pub status : CampaignStatus
  pub max_severity : RiskLevel
  pub first_evidence_at : ℕ
  pub last_evidence_at : ℕ
  pub last_applied_evidence_cutoff : Option ℕ
  pub last_applied_feature_revision : ℕ
  pub last_applied_fusion_revision : ℕ
  pub last_applied_enrichment_profile : String
  pub version : ℕ

pub record AlertRecord : Type 0 where
  pub alert_id : String
  pub campaign_id : String
  pub alert_type : AlertType
  pub severity : RiskLevel
  pub status : AlertStatus
  pub first_triggered_at : ℕ
  pub last_triggered_at : ℕ
  pub last_notified_at : Option ℕ
  pub occurrence_count : ℕ
  pub version : ℕ

pub record CampaignUpdate : Type 0 where
  pub campaign : CampaignRecord
  pub alerts : List AlertRecord
  pub duplicate_evidence : Bool
  pub stale_evidence : Bool
  pub emitted_event_ids : List String

-- ===== src/Fusion/Types.antt =====
-- src/scam2market/intelligence/fusion.py, the models. Times are whole microseconds since the epoch,
-- which is what a `datetime` resolves; identifiers are texts.
use scam2marke.Prelude.{ℕ, String, Option, List, Bool}
use scam2marke.Prelude.Int.{ℤ}

pub data RiskLevel : Type 0 where
  normal watch high critical : RiskLevel

pub data EnrichmentProfile : Type 0 where
  base graph verification graph_and_verification : EnrichmentProfile

pub record ThresholdConfig : Type 0 where
  pub watch : ℕ
  pub high : ℕ
  pub critical : ℕ

pub record FusionWeights : Type 0 where
  pub market_score : ℕ
  pub social_score : ℕ
  pub coordination_score : ℕ
  pub temporal_score : ℕ
  pub claim_risk : ℕ
  pub graph_score : ℕ

-- src/scam2market/intelligence/detectors.py
pub data MissingReason : Type 0 where
  source_unavailable source_idle source_degraded insufficient_history : MissingReason
  no_observations not_provided invalid_orderbook insufficient_peer_data : MissingReason
  not_ready qdrant_degraded neo4j_degraded no_narrative no_claim : MissingReason
  insufficient_graph verification_unknown timeout : MissingReason

pub record MissingOutput : Type 0 where
  pub name : String
  pub reason : MissingReason

pub data ContributionDirection : Type 0 where
  risk_increasing risk_reducing neutral : ContributionDirection

pub record TraceComponent : Type 0 where
  pub name : String
  pub value : Option ℕ
  pub configured_weight : ℕ
  pub effective_normalized_weight : ℕ
  pub signed_weighted_contribution : ℕ
  pub direction : ContributionDirection
  pub missing : Bool
  pub missing_reason : Option MissingReason

pub record ScoreAdjustment : Type 0 where
  pub name : String
  pub before : ℕ
  pub factor : Option ℕ
  pub delta : ℤ
  pub after : ℕ
  pub direction : ContributionDirection

pub record PolicyDecision : Type 0 where
  pub policy : String
  pub applied : Bool
  pub before : ℕ
  pub after : ℕ
  pub reason : String

pub record DecisionTrace : Type 0 where
  pub components : List TraceComponent
  pub adjustments : List ScoreAdjustment
  pub policy_decisions : List PolicyDecision
  pub thresholds : ThresholdConfig
  pub raw_weighted_score : ℕ
  pub final_score : ℕ

pub data ThreatContextStatus : Type 0 where
  disabled unavailable stale no_match matched : ThreatContextStatus

pub record ThreatContext : Type 0 where
  pub status : ThreatContextStatus
  pub score : Option ℕ
  pub confidence : Option ℕ
  pub snapshot_id : Option String
  pub match_ids : List String
  pub cutoff : Option ℕ

-- The dictionary `stage_signals`, whose six keys `fuse` always sets.
pub record StageSignals : Type 0 where
  pub price_return : Option ℤ
  pub relative_volume : Option ℤ
  pub spread : Option ℤ
  pub orderbook_imbalance : Option ℤ
  pub buy_sell_pressure : Option ℤ
  pub mention_count : Option ℤ

pub record FusionResult : Type 0 where
  pub model_score_id : String
  pub scope_id : String
  pub asset_id : String
  pub feature_window_id : String
  pub feature_revision : ℕ
  pub enrichment_profile : EnrichmentProfile
  pub fusion_revision : ℕ
  pub evidence_cutoff : Option ℕ
  pub input_snapshot_ids : List (String × String)
  pub idempotency_key : String
  pub market_score : Option ℕ
  pub social_score : Option ℕ
  pub coordination_score : Option ℕ
  pub temporal_score : Option ℕ
  pub claim_risk : Option ℕ
  pub legitimate_event_score : Option ℕ
  pub graph_score : Option ℕ
  pub threat_context : ThreatContext
  pub market_anomaly_risk : Option ℕ
  pub market_anomaly_severity : RiskLevel
  pub social_coordination_risk : Option ℕ
  pub social_coordination_severity : RiskLevel
  pub raw_cross_domain_risk : ℕ
  pub context_adjusted_risk : ℕ
  pub fusion_score : ℕ
  pub confidence : ℕ
  pub severity : RiskLevel
  pub missing_outputs : List MissingOutput
  pub is_calibrated : Bool
  pub market_regime : String
  pub market_regime_confidence : ℕ
  pub liquidity_class : String
  pub liquidity_confidence : ℕ
  pub stage_signals : StageSignals
  pub decision_trace : DecisionTrace
  pub scored_at : ℕ

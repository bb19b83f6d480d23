-- ===== src/Campaign/Samples.antt =====
-- Scores, evidence and stores at which the tests of the campaigns run.
use scam2marke.Prelude.{String, ◌<>◌, false, [], ◌∷◌, none, some}
use scam2marke.Prelude.Int.{pos, minus}
use scam2marke.Prelude.Score.{cent}
use scam2marke.Fusion.Types.{RiskLevel, EnrichmentProfile, FusionResult, ThreatContextStatus}
use scam2marke.Campaign.Types.{
  CampaignStage, CampaignStatus, CampaignEvidence, CampaignRecord, AlertRecord, AlertStatus,
  AlertType,
}
use scam2marke.Campaign.Memory.{Store, alert_type_eq}
use scam2marke.Campaign.Database.{Database, open_row}

-- A score with strong evidence on both sides and a falling price.
abbrev pub hot_score : FusionResult
hot_score = record {
  model_score_id = "m1";
  scope_id = "LIVE";
  asset_id = "BTC";
  feature_window_id = "w1";
  feature_revision = 1;
  enrichment_profile = EnrichmentProfile.graph;
  fusion_revision = 2;
  evidence_cutoff = some 5_000;
  input_snapshot_ids = [];
  idempotency_key = "k1";
  market_score = some (cent 70);
  social_score = some (cent 50);
  coordination_score = some (cent 60);
  temporal_score = none;
  claim_risk = some (cent 65);
  legitimate_event_score = none;
  graph_score = some (cent 40);
  threat_context = record {
    status = ThreatContextStatus.disabled;
    score = none;
    confidence = none;
    snapshot_id = none;
    match_ids = [];
    cutoff = none;
  };
  market_anomaly_risk = some (cent 70);
  market_anomaly_severity = RiskLevel.high;
  social_coordination_risk = some (cent 57);
  social_coordination_severity = RiskLevel.watch;
  raw_cross_domain_risk = cent 65;
  context_adjusted_risk = cent 65;
  fusion_score = cent 65;
  confidence = cent 80;
  severity = RiskLevel.high;
  missing_outputs = [];
  is_calibrated = false;
  market_regime = "VOLATILE";
  market_regime_confidence = cent 50;
  liquidity_class = "LOW";
  liquidity_confidence = cent 50;
  stage_signals = record {
    price_return = some (minus (cent 9));
    relative_volume = some (pos (cent 300));
    spread = some (pos (cent 1));
    orderbook_imbalance = some (pos (cent 10));
    buy_sell_pressure = some (minus (cent 40));
    mention_count = some (pos (cent 2_000));
  };
  decision_trace = record {
    components = [];
    adjustments = [];
    policy_decisions = [];
    thresholds = record { watch = cent 35; high = cent 60; critical = cent 80 };
    raw_weighted_score = cent 65;
    final_score = cent 65;
  };
  scored_at = 5_010;
}

abbrev pub evidence : CampaignEvidence
evidence = record {
  event_id = "e2";
  correlation_id = "r2";
  causation_id = none;
  event_time = 5_000;
  fusion = hot_score;
}

-- A campaign in amplification, last moved by evidence of time 4000.
abbrev pub amplified : CampaignRecord
amplified = record {
  campaign_id = "c1";
  scope_id = "LIVE";
  asset_id = "BTC";
  stage = CampaignStage.coordinated_amplification;
  stage_confidence = cent 60;
  stage_reason = record { reason = "coordination"; reason_codes = []; evidence_ids = [] };
  status = CampaignStatus.active;
  max_severity = RiskLevel.watch;
  first_evidence_at = 3_000;
  last_evidence_at = 4_000;
  last_applied_evidence_cutoff = some 4_000;
  last_applied_feature_revision = 1;
  last_applied_fusion_revision = 1;
  last_applied_enrichment_profile = "BASE";
  version = 2;
}

-- The alert of its social half.
abbrev pub hype_alert : AlertRecord
hype_alert = record {
  alert_id = "a1";
  campaign_id = "c1";
  alert_type = AlertType.social_hype_surge;
  severity = RiskLevel.watch;
  status = AlertStatus.active;
  first_triggered_at = 3_000;
  last_triggered_at = 4_000;
  last_notified_at = some 4_800;
  occurrence_count = 2;
  version = 2;
}

abbrev pub store : Store
store = record {
  merge_gap = 2_000;
  suppression = 300;
  campaigns = (("LIVE", "BTC"), amplified) ∷ [];
  alerts = (("c1", AlertType.social_hype_surge), hype_alert) ∷ [];
  evidence_ids = "e1" ∷ [];
  stage_history = [];
  alert_history = [];
  outbox = [];
}

abbrev pub database : Database
database = record {
  merge_gap = 2_000;
  suppression = 300;
  lock_retry_count = 3;
  campaigns = open_row amplified ∷ [];
  evidence = [];
  alerts = (("c1", AlertType.social_hype_surge), hype_alert) ∷ [];
  stage_history = [];
  alert_history = [];
  outbox = [];
}

-- A `uuid5` that marks its argument.
abbrev pub mark : String → String
mark name = "id:" <> name

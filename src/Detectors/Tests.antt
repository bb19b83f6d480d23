-- ===== src/Detectors/Tests.antt =====
-- Tests of the scores from a snapshot on, and the theorems about them at concrete inputs.
use scam2marke.Prelude.{
  ℕ, String, ◌<>◌, ◌≡◌, ◌≤◌, ◌+◌, refl, true, [], ◌∷◌, none, some, arith, List, min,
}
use scam2marke.Prelude.Int.{pos}
use scam2marke.Prelude.Score.{one, cent}
use scam2marke.Prelude.Dict.{lookup, insert, string_eq}
use scam2marke.Fusion.Types.{FusionResult, ThreatContextStatus, ThreatContext}
use scam2marke.Fusion.Weights.{
  DetectorOutput, available_weight, raw_weighted_score, rows, score_of, by_name, missing_outputs,
  weighted_sum,
}
use scam2marke.Fusion.Engine.{
  FeatureSnapshot, FusionContext, FusionEngine, fused, feature, discounted, reaches, corroborated,
  detector_outputs, discount, scaled, calibrated, settled, final_severity, ruled, governed, degrade,
  confidence_of, calibrate, demote_critical, demote_missing_market, market_cap, severity_of,
  threat_cap, uplift, watch_floor,
}
use scam2marke.Fusion.Engine.Score.{IsOrdered}
use scam2marke.Fusion.Engine.Result.{
  IsWeighted, fused-IsScored, fused-market, fused-threat, fused-critical,
}
use scam2marke.Fusion.Engine.Trace.{Chains, legs_of, fused-Chains}
use scam2marke.Campaign.Types.{CampaignStage}
use scam2marke.Campaign.Policy.{risk_rank, assess, ok, assessment}
use scam2marke.Campaign.Policy.Stages.{IsScored}
use scam2marke.Detectors.Service.{Request, Environment, World, score}
use scam2marke.Detectors.Service.Delivery.{score-assess}

abbrev engine : FusionEngine
engine = record {
  weights = record {
    market_score = cent 40;
    social_score = cent 10;
    coordination_score = cent 18;
    temporal_score = cent 10;
    claim_risk = cent 12;
    graph_score = cent 10;
  };
  thresholds = record { watch = cent 35; high = cent 60; critical = cent 80 };
  calibrator = none;
  threat_uplift_cap = cent 10;
}

engine-IsWeighted : IsWeighted engine.weights
engine-IsWeighted = omega arith

engine-IsOrdered : IsOrdered engine.thresholds
engine-IsOrdered = omega arith

-- A market that moves by a tenth on thirty trades, with a full baseline.
abbrev moving : FeatureSnapshot
moving = record {
  feature_window_id = "w1";
  scope_id = "LIVE";
  asset_id = "BTC";
  window_end = 5_000;
  revision = 1;
  features =
      ("price_return", some (pos (cent 10)))
      ∷ ("trade_count", some (pos (cent 3_000)))
      ∷ ("relative_volume", some (pos (cent 500)))
      ∷ ("volatility", some (pos (cent 5)))
      ∷ ("volume", some (pos (cent 2_000_000)))
      ∷ ("mention_count", some (pos (cent 1_200)))
      ∷ ("baseline_confidence", some (pos (cent 100)))
      ∷ ("data_quality_score", some (pos (cent 100)))
      ∷ [];
}

-- Nothing is known but twelve mentions.
abbrev chatter : FeatureSnapshot
chatter = record moving { features = ("mention_count", some (pos (cent 1_200))) ∷ [] }

abbrev output : String → ℕ → DetectorOutput
output name value = record {
  name = name;
  score = some value;
  model_version = "v1";
  reason = "";
  missing_reason = none;
}

abbrev strong_outputs : List DetectorOutput
strong_outputs =
    output "market_score" (cent 95)
    ∷ output "social_score" (cent 90)
    ∷ output "coordination_score" (cent 90)
    ∷ output "temporal_score" (cent 90)
    ∷ []

abbrev social_outputs : List DetectorOutput
social_outputs = output "social_score" (cent 90) ∷ output "coordination_score" (cent 90) ∷ []

abbrev matched_threat : ThreatContext
matched_threat = record {
  status = ThreatContextStatus.matched;
  score = some one;
  confidence = some one;
  snapshot_id = some "t1";
  match_ids = "m" ∷ [];
  cutoff = none;
}

abbrev context : FusionContext
context = record {
  claim_risk = some (cent 90);
  legitimate_event_score = none;
  graph_score = some (cent 90);
  threat_context = none;
  market_regime = "CALM";
  market_regime_confidence = one;
  liquidity_class = "LOW";
  liquidity_confidence = one;
}

abbrev threatened : FusionContext
threatened = record context {
  claim_risk = some (cent 50);
  graph_score = none;
  threat_context = some matched_threat;
}

abbrev fair_outputs : List DetectorOutput
fair_outputs = output "market_score" (cent 58) ∷ output "social_score" (cent 58) ∷ []

fused-IsScored_example :
    let r = fused engine 5_010 moving strong_outputs context in
    IsScored r × (r.fusion_score ≤ one) × (r.raw_cross_domain_risk ≤ one)
fused-IsScored_example =
    fused-IsScored engine moving strong_outputs context 5_010 engine-IsOrdered (omega arith)

fused-market_example :
    let r = fused engine 5_010 moving social_outputs context in
    (r.fusion_score + cent 1 ≤ engine.thresholds.high) × (risk_rank r.severity ≤ 1)
unfolding score_of by_name lookup insert
fused-market_example = fused-market engine moving social_outputs context 5_010 engine-IsOrdered refl

fused-threat_example :
    let r = fused engine 5_010 moving fair_outputs threatened in
    (r.fusion_score + cent 1 ≤ engine.thresholds.high) × (risk_rank r.severity ≤ 1)
unfolding discounted discount scaled calibrated raw_weighted_score rows available_weight by_name
    score_of lookup insert feature
fused-threat_example =
    fused-threat engine moving fair_outputs threatened 5_010 engine-IsOrdered refl (omega arith)

fused-critical_example :
    let r = fused engine 5_010 moving strong_outputs context in
    (reaches (cent 65) r.market_score ≡ true)
    × (corroborated (detector_outputs engine moving strong_outputs context) context ≡ true)
    × (cent 40 ≤ r.confidence)
    × (engine.thresholds.critical ≤ r.fusion_score)
unfolding fused settled final_severity score_of lookup by_name insert ruled governed discounted
    discount scaled calibrated raw_weighted_score rows corroborated degrade confidence_of calibrate
    demote_critical demote_missing_market feature market_cap severity_of threat_cap uplift
    watch_floor available_weight missing_outputs weighted_sum
fused-critical_example = fused-critical engine moving strong_outputs context 5_010 refl

fused-Chains_example :
    let r = fused engine 5_010 moving fair_outputs threatened in
    Chains
      (min one r.decision_trace.raw_weighted_score)
      (legs_of r.decision_trace.adjustments r.decision_trace.policy_decisions)
      r.fusion_score
fused-Chains_example = fused-Chains engine moving fair_outputs threatened 5_010

abbrev env : Environment
env = record {
  uuid5 = λ name. "id:" <> name;
  digest = λ i. i.scope_id <> i.feature_window_id <> i.enrichment_profile;
  str = λ n. "1";
  threat_repository = some (λ scope asset cutoff. matched_threat);
}

abbrev request : Request
request = record {
  snapshot = moving;
  claim_risk = some (cent 65);
  legitimate_event_score = none;
  graph_score = none;
  graph_snapshot_id = none;
  verification_snapshot_id = some "v1";
  threat_context = none;
  scored_at = 5_010;
  correlation_id = "r1";
}

abbrev world : World
world = record { results = []; latest = []; published = [] }

score-assess_example :
    (r : FusionResult) × ((score env engine request world).0 ≡ some r)
    × (assess CampaignStage.normal r ≡ ok (assessment CampaignStage.normal r))
score-assess_example =
    score-assess env engine request world CampaignStage.normal engine-IsWeighted engine-IsOrdered

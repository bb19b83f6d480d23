-- ===== src/Fusion/Engine.antt =====
-- src/scam2market/intelligence/fusion.py, `FusionEngine.fuse`: how the steps of `Steps` are put
-- together. Times and the `scored_at` stamp come from the snapshot and the caller.
mod Steps
pub mod Score
pub mod Severity
pub mod Trace
pub mod Result
unfoldable pub use Steps.*
use scam2marke.Prelude.{
  ℕ, ◌+◌, ◌-◌, ◌*◌, ◌/◌, ◌≤◌, String, Bool, true, false, not, ◌&&◌, ◌||◌, List, [], ◌∷◌, ◌++◌,
  Option, none, some, min, max, ltb, leb, ◌==◌, is_some, or_else, length, any_of, if◌then◌else◌,
}
use scam2marke.Prelude.Int.{ℤ, pos, pos_part, sub_ℕ, leb_ℤ, ltb_ℤ}
use scam2marke.Prelude.Score.{one, cent, or_score, or_zero}
use scam2marke.Prelude.Dict.{Dict, string_eq, lookup}
use scam2marke.Fusion.Types.{
  RiskLevel, EnrichmentProfile, ThresholdConfig, FusionWeights, MissingOutput,
  ContributionDirection, ScoreAdjustment, PolicyDecision, DecisionTrace, ThreatContext,
  ThreatContextStatus, StageSignals, FusionResult,
}
use scam2marke.Fusion.Weights.{
  DetectorOutput, by_name, score_of, Row, rows, available_weight, raw_weighted_score, components,
  missing_outputs,
}
use Steps.{
  FeatureSnapshot, feature, FusionContext, FusionEngine, Draft, calibrate, discount, uplift,
  watch_floor, market_cap, threat_cap, reaches, severity_of, demote_critical, demote_missing_market,
  social_risk, profile_of, default_threat, degrade, confidence_of,
}

-- The score's way through the adjustments, and through the policies.
unfoldable pub calibrated : FusionEngine → FusionContext → ℕ → ℕ → Draft
unfolding calibrate
calibrated eng ctx baseline raw =
    calibrate eng ctx baseline (record { score = min one raw; adjustments = []; policies = [] })

unfoldable pub governed : FusionEngine → ThreatContext → Option ℕ → Option ℕ → Draft → Draft
unfolding uplift watch_floor market_cap threat_cap
governed eng threat market coordination d = threat_cap eng.thresholds threat d.score (
    market_cap eng.thresholds market
      (watch_floor eng.thresholds market coordination (uplift eng.threat_uplift_cap threat d)))

-- `any(value is not None and value >= 0.55 for value in corroborating_scores)`
unfoldable pub corroborated : Dict String DetectorOutput → FusionContext → Bool
unfolding score_of
corroborated d ctx = any_of (reaches (cent 55)) (
    score_of d "social_score"
    ∷ score_of d "coordination_score"
    ∷ score_of d "temporal_score"
    ∷ ctx.claim_risk
    ∷ ctx.graph_score
    ∷ [])

-- The severity after both demotions, with the policies that record them.
unfoldable pub final_severity : ThresholdConfig → Option ℕ → Bool → ℕ → Draft → RiskLevel × Draft
unfolding severity_of demote_critical demote_missing_market
final_severity t market corroboration confidence d =
    let justified = reaches (cent 65) market && (corroboration && leb (cent 40) confidence) in
    let (level, d') = demote_critical justified (severity_of t d.score) d in
    demote_missing_market market level d'

unfoldable pub stage_signals : FeatureSnapshot → StageSignals
unfolding feature
stage_signals s = record {
  price_return = feature s "price_return";
  relative_volume = feature s "relative_volume";
  spread = feature s "spread";
  orderbook_imbalance = feature s "orderbook_imbalance";
  buy_sell_pressure = feature s "buy_sell_pressure";
  mention_count = feature s "mention_count";
}

-- The local variables of `fuse`, from the outputs and the keyword arguments on.
module _ (eng : FusionEngine) (s : FeatureSnapshot) (outputs : List DetectorOutput)
    (ctx : FusionContext) where
  abbrev pub detector_outputs : Dict String DetectorOutput
  detector_outputs = by_name [] outputs

  abbrev pub weight_rows : List Row
  weight_rows = rows eng.weights detector_outputs ctx.claim_risk ctx.graph_score

  abbrev pub market_score : Option ℕ
  market_score = score_of detector_outputs "market_score"

  abbrev pub coordination_score : Option ℕ
  coordination_score = score_of detector_outputs "coordination_score"

  abbrev pub threat_context : ThreatContext
  threat_context = or_else ctx.threat_context default_threat

  abbrev pub missing : List MissingOutput
  missing =
      missing_outputs detector_outputs ctx.claim_risk ctx.legitimate_event_score ctx.graph_score

  abbrev pub baseline_confidence : ℕ
  baseline_confidence = pos_part (or_zero (feature s "baseline_confidence"))

  abbrev pub confidence : ℕ
  confidence = degrade threat_context (
      confidence_of (length missing) baseline_confidence
        (pos_part (or_zero (feature s "data_quality_score"))))

  -- `raw_score`, after the calibration.
  unfoldable pub scaled : Draft
  scaled = calibrated eng ctx baseline_confidence (raw_weighted_score weight_rows)

  -- `adjusted_score`, first after the legitimate event, then after the policies.
  unfoldable pub discounted : Draft
  discounted = discount ctx.legitimate_event_score scaled

  unfoldable pub ruled : Draft
  ruled = governed eng threat_context market_score coordination_score discounted

  unfoldable pub settled : RiskLevel × Draft
  settled =
      final_severity eng.thresholds market_score (corroborated detector_outputs ctx) confidence
        ruled

-- What `fuse` returns, where it does not raise.
unfoldable pub fused :
    FusionEngine → ℕ → FeatureSnapshot → List DetectorOutput → FusionContext → FusionResult
fused eng scored_at s outputs ctx =
    let d = detector_outputs eng s outputs ctx in
    let rs = weight_rows eng s outputs ctx in
    let market = market_score eng s outputs ctx in
    let coordination = coordination_score eng s outputs ctx in
    let final = (settled eng s outputs ctx).1 in
    let social = social_risk (score_of d "social_score") coordination in
    let (profile, revision) =
      profile_of (is_some ctx.graph_score)
        (is_some ctx.claim_risk || is_some ctx.legitimate_event_score) in
    record {
      model_score_id = "";
      scope_id = s.scope_id;
      asset_id = s.asset_id;
      feature_window_id = s.feature_window_id;
      feature_revision = s.revision;
      enrichment_profile = profile;
      fusion_revision = revision;
      evidence_cutoff = some s.window_end;
      input_snapshot_ids = [];
      idempotency_key = "";
      market_score = market;
      social_score = score_of d "social_score";
      coordination_score = coordination;
      temporal_score = score_of d "temporal_score";
      claim_risk = ctx.claim_risk;
      legitimate_event_score = ctx.legitimate_event_score;
      graph_score = ctx.graph_score;
      threat_context = threat_context eng s outputs ctx;
      market_anomaly_risk = market;
      market_anomaly_severity = severity_of eng.thresholds (or_score market 0);
      social_coordination_risk = social;
      social_coordination_severity = severity_of eng.thresholds (or_score social 0);
      raw_cross_domain_risk = (scaled eng s outputs ctx).score;
      context_adjusted_risk = final.score;
      fusion_score = final.score;
      confidence = confidence eng s outputs ctx;
      severity = (settled eng s outputs ctx).0;
      missing_outputs = missing eng s outputs ctx;
      is_calibrated =
          is_some eng.calibrator && leb (cent 50) (baseline_confidence eng s outputs ctx);
      market_regime = ctx.market_regime;
      market_regime_confidence = ctx.market_regime_confidence;
      liquidity_class = ctx.liquidity_class;
      liquidity_confidence = ctx.liquidity_confidence;
      stage_signals = stage_signals s;
      decision_trace = record {
        components = components d (available_weight rs) rs;
        adjustments = final.adjustments;
        policy_decisions = final.policies;
        thresholds = eng.thresholds;
        raw_weighted_score = raw_weighted_score rs;
        final_score = final.score;
      };
      scored_at = scored_at;
    }

-- `fuse`; `none` is the `ZeroDivisionError` of the trace's effective weights, which the code divides
-- by the available weight wherever a score is there.
unfoldable pub fuse :
    FusionEngine → ℕ → FeatureSnapshot → List DetectorOutput → FusionContext → Option FusionResult
fuse eng scored_at s outputs ctx =
    let rs = weight_rows eng s outputs ctx in
    if any_of (λ r. is_some r.value) rs && available_weight rs == 0
    then none
    else some (fused eng scored_at s outputs ctx)

-- ===== src/Fusion/Engine/Steps.antt =====
-- src/scam2market/intelligence/fusion.py, `FusionEngine.fuse`: what happens to the weighted mean, one
-- step of the code after the other. The thresholds are read as configured with `high` at 0.01 or more.
use scam2marke.Prelude.{
  ℕ, ◌+◌, ◌-◌, ◌*◌, ◌/◌, String, Bool, true, false, not, ◌&&◌, List, [], ◌∷◌, ◌++◌, Option, none,
  some, min, max, ltb, leb, ◌==◌, is_some, or_else, if◌then◌else◌,
}
use scam2marke.Prelude.Int.{ℤ, pos, pos_part, sub_ℕ, ltb_ℤ}
use scam2marke.Prelude.Score.{one, cent, or_score}
use scam2marke.Prelude.Dict.{Dict, string_eq, lookup}
use scam2marke.Fusion.Types.{
  RiskLevel, EnrichmentProfile, ThresholdConfig, FusionWeights, ContributionDirection,
  ScoreAdjustment, PolicyDecision, ThreatContext, ThreatContextStatus,
}

-- What `fuse` reads of a `FeatureSnapshot` (src/scam2market/features/schemas.py).
pub record FeatureSnapshot : Type 0 where
  pub feature_window_id : String
  pub scope_id : String
  pub asset_id : String
  pub window_end : ℕ
  pub revision : ℕ
  pub features : Dict String (Option ℤ)

-- `snapshot.features[name]`; the model's validator sees to it that every name is there.
unfoldable pub feature : FeatureSnapshot → String → Option ℤ
feature s name = or_else (lookup name s.features) none

-- The keyword arguments of `fuse`.
pub record FusionContext : Type 0 where
  pub claim_risk : Option ℕ
  pub legitimate_event_score : Option ℕ
  pub graph_score : Option ℕ
  pub threat_context : Option ThreatContext
  pub market_regime : String
  pub market_regime_confidence : ℕ
  pub liquidity_class : String
  pub liquidity_confidence : ℕ

-- The engine; a calibrator is the deployment's, and may answer any number.
pub record FusionEngine : Type 0 where
  pub weights : FusionWeights
  pub thresholds : ThresholdConfig
  pub calibrator : Option (ℕ → String → String → ℤ)
  pub threat_uplift_cap : ℕ

-- `max(0.0, min(1.0, value))`
abbrev pub clamp : ℤ → ℕ
clamp z = min one (pos_part z)

-- `_direction`
unfoldable pub direction : ℤ → ContributionDirection
direction delta =
    if ltb_ℤ (pos 0) delta
    then ContributionDirection.risk_increasing
    else if ltb_ℤ delta (pos 0)
    then ContributionDirection.risk_reducing
    else ContributionDirection.neutral

-- `_severity`
unfoldable pub severity_of : ThresholdConfig → ℕ → RiskLevel
severity_of t score =
    if leb t.critical score
    then RiskLevel.critical
    else if leb t.high score
    then RiskLevel.high
    else if leb t.watch score
    then RiskLevel.watch
    else RiskLevel.normal

-- The variables that the body of `fuse` assigns again and again.
pub record Draft : Type 0 where
  pub score : ℕ
  pub adjustments : List ScoreAdjustment
  pub policies : List PolicyDecision

abbrev adjust : String → Option ℕ → ContributionDirection → ℕ → Draft → Draft
adjust name factor dir after d = record d {
  score = after;
  adjustments =
      d.adjustments
      ++ record {
        name = name;
        before = d.score;
        factor = factor;
        delta = sub_ℕ after d.score;
        after = after;
        direction = dir;
      }
        ∷ [];
}

abbrev decide : String → Bool → ℕ → String → Draft → Draft
decide policy applied after reason d = record d {
  score = after;
  policies =
      d.policies
      ++ record {
        policy = policy;
        applied = applied;
        before = d.score;
        after = after;
        reason = reason;
      }
        ∷ [];
}

-- `availability * (0.4 + 0.35 * baseline + 0.25 * quality)`, clamped; the availability is the share
-- of seven inputs that is not missing, and both features lie in [0, 1].
unfoldable pub confidence_of : ℕ → ℕ → ℕ → ℕ
confidence_of missing baseline quality =
    min one ((7 - missing) * (40 * one + 35 * baseline + 25 * quality) / 700)

unfoldable pub calibrate : FusionEngine → FusionContext → ℕ → Draft → Draft
unfolding direction
calibrate eng ctx baseline d = elim eng.calibrator [
  | none ↦ d
  | some f ↦
      let after = clamp (f d.score ctx.market_regime ctx.liquidity_class) in
      if leb (cent 50) baseline
      then adjust "calibration" none (direction (sub_ℕ after d.score)) after d
      else d
]

-- `legitimate_adjustment`
abbrev pub legitimate_factor : Option ℕ → ℕ
legitimate_factor legitimate = one - 35 * min one (or_score legitimate 0) / 100

unfoldable pub discount : Option ℕ → Draft → Draft
unfolding direction
discount legitimate d =
    let factor = legitimate_factor legitimate in
    let after = d.score * factor / one in
    adjust "legitimate_event" (some factor) (direction (sub_ℕ after d.score)) after d

abbrev pub is_matched : ThreatContext → Bool
is_matched t = elim t.status [ ThreatContextStatus.matched ↦ true | _ ↦ false ]

abbrev pub is_degraded : ThreatContext → Bool
is_degraded t = elim t.status [
  | ThreatContextStatus.unavailable ↦ true
  | ThreatContextStatus.stale ↦ true
  | _ ↦ false
]

-- `uplift`
abbrev pub uplift_of : ℕ → ℕ → Option ℕ → ℕ
uplift_of cap score confidence = min cap (score * or_score confidence 0 * cap / (one * one))

unfoldable pub uplift : ℕ → ThreatContext → Draft → Draft
uplift cap t d = elim t.score [
  | none ↦ d
  | some score ↦
      if is_matched t
      then adjust "threat_intelligence_uplift" none ContributionDirection.risk_increasing
          (min one (d.score + uplift_of cap score t.confidence)) d
      else d
]

-- `confidence *= 0.85`, where the threat feed is unavailable or stale.
unfoldable pub degrade : ThreatContext → ℕ → ℕ
degrade t confidence = if is_degraded t then 85 * confidence / 100 else confidence

-- `value is not None and value >= bound`
abbrev pub reaches : ℕ → Option ℕ → Bool
reaches bound none = false
reaches bound (some v) = leb bound v

unfoldable pub watch_floor : ThresholdConfig → Option ℕ → Option ℕ → Draft → Draft
watch_floor t market coordination d =
    if reaches (cent 65) market && reaches (cent 65) coordination
    then decide "corroborated_watch_floor" true (max d.score t.watch)
        "market and coordination scores are at least 0.65" d
    else d

unfoldable pub market_cap : ThresholdConfig → Option ℕ → Draft → Draft
market_cap t market d =
    if reaches (cent 35) market
    then decide "market_evidence_high_cap" false d.score
        "market score meets the 0.35 evidence requirement" d
    else let after = min d.score (t.high - cent 1) in
      decide "market_evidence_high_cap" (not (d.score == after)) after
        "market score is missing or below 0.35" d

-- `threat_before` is the score before the uplift.
unfoldable pub threat_cap : ThresholdConfig → ThreatContext → ℕ → Draft → Draft
threat_cap t threat threat_before d =
    let after = min d.score (t.high - cent 1) in
    if is_matched threat && ltb threat_before t.high
    then decide "threat_cannot_independently_raise_high" (not (d.score == after)) after
        "threat context is corroborating evidence only" d
    else d

abbrev pub is_critical : RiskLevel → Bool
is_critical RiskLevel.critical = true
is_critical _ = false

abbrev pub at_least_high : RiskLevel → Bool
at_least_high RiskLevel.high = true
at_least_high RiskLevel.critical = true
at_least_high _ = false

-- The two demotions of the severity, which leave the score as it is.
unfoldable pub demote_critical : Bool → RiskLevel → Draft → RiskLevel × Draft
demote_critical justified level d =
    if is_critical level && not justified
    then (
      RiskLevel.high,
      decide "critical_requires_corroboration" true d.score "severity demoted from CRITICAL to HIGH"
          d,
    )
    else (level, d)

unfoldable pub demote_missing_market : Option ℕ → RiskLevel → Draft → RiskLevel × Draft
demote_missing_market market level d =
    if not (is_some market) && at_least_high level
    then (
      RiskLevel.watch,
      decide "missing_market_severity_demotion" true d.score
          "severity demoted to WATCH because market score is missing" d,
    )
    else (level, d)

-- `social_coordination_risk`: 0.30 of the social and 0.70 of the coordination score, of those there.
unfoldable pub social_risk : Option ℕ → Option ℕ → Option ℕ
social_risk none none = none
social_risk (some s) none = some (30 * s / 30)
social_risk none (some c) = some (70 * c / 70)
social_risk (some s) (some c) = some ((30 * s + 70 * c) / 100)

-- `enrichment_profile` and `fusion_revision`
unfoldable pub profile_of : Bool → Bool → EnrichmentProfile × ℕ
profile_of true true = (EnrichmentProfile.graph_and_verification, 3)
profile_of true false = (EnrichmentProfile.graph, 2)
profile_of false true = (EnrichmentProfile.verification, 2)
profile_of false false = (EnrichmentProfile.base, 1)

abbrev pub default_threat : ThreatContext
default_threat = record {
  status = ThreatContextStatus.disabled;
  score = none;
  confidence = none;
  snapshot_id = none;
  match_ids = [];
  cutoff = none;
}

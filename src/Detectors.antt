-- ===== src/Detectors.antt =====
-- src/scam2market/intelligence/detectors.py: the four detectors that feed the fusion, the market's
-- regime and its liquidity. A feature stands in millionths, counts and volumes too; each division
-- rounds down to a millionth. `CrossAssetContextBaseline`, which nothing calls, takes a square root
-- of floats and is left out.
mod Tests
pub mod Bounds
pub mod Classes
pub mod Service
use scam2marke.Prelude.{
  ℕ, ◌+◌, ◌-◌, ◌*◌, ◌/◌, String, ◌<>◌, Bool, true, false, not, ◌&&◌, ◌||◌, List, [], ◌∷◌, ◌++◌,
  Option, none, some, min, max, ltb, leb, ◌==◌, is_some, if◌then◌else◌,
}
use scam2marke.Prelude.Int.{ℤ, pos, abs, pos_part, ◌-ℤ◌, leb_ℤ, ltb_ℤ, ◌+ℤ◌}
use scam2marke.Prelude.Score.{one, cent, or_zero}
use scam2marke.Fusion.Types.{MissingReason}
use scam2marke.Fusion.Weights.{DetectorOutput}
use scam2marke.Fusion.Engine.{FeatureSnapshot, feature}

-- `_number`
unfoldable pub number : FeatureSnapshot → String → ℤ
unfolding feature
number s name = or_zero (feature s name)

abbrev pub unit : ℤ → ℕ
unit z = min one (pos_part z)

-- `_clamp(value / d)`, for a positive whole `d`.
abbrev pub clamp_over : ℕ → ℤ → ℕ
clamp_over d z = min one (pos_part z / d)

abbrev pub is_positive : ℤ → Bool
is_positive z = ltb_ℤ (pos 0) z

abbrev pub missing_output : String → String → String → MissingReason → DetectorOutput
missing_output name version reason why = record {
  name = name;
  score = none;
  model_version = version;
  reason = reason;
  missing_reason = some why;
}

abbrev pub scored_output : String → ℕ → String → String → DetectorOutput
scored_output name score version reason = record {
  name = name;
  score = some (min one score);
  model_version = version;
  reason = reason;
  missing_reason = none;
}

-- `MarketAnomalyDetector`: `has_market`, and the groups with their weights in hundredths.
abbrev pub has_market : FeatureSnapshot → Bool
has_market s = is_positive (number s "trade_count") || is_positive (number s "volume")

-- `features.get("orderbook_valid") == 1`
abbrev pub book_valid : FeatureSnapshot → Bool
book_valid s = elim (feature s "orderbook_valid") [
  | none ↦ false
  | some v ↦ leb_ℤ v (pos one) && leb_ℤ (pos one) v
]

abbrev pub market_groups : FeatureSnapshot → List (String × ℕ × ℕ)
market_groups s =
    ("direction", min one (10 * abs (number s "price_return")), 30)
    ∷ (
      "activity",
      (70 * clamp_over 4 (number s "relative_volume" -ℤ pos one)
            + 30 * clamp_over 30 (number s "trade_count"))
          / 100,
      35,
    )
    ∷ ("stress", min one (20 * pos_part (number s "volatility")), 20)
    ∷ (if book_valid s
        then (
          "microstructure",
          (65 * min one (abs (number s "orderbook_imbalance"))
                + 35 * min one (50 * pos_part (number s "spread")))
              / 100,
          15,
        )
          ∷ []
        else [])

abbrev pub group_weight : List (String × ℕ × ℕ) → ℕ
group_weight [] = 0
group_weight ((name, value, weight) ∷ gs) = weight + group_weight gs

abbrev pub group_sum : List (String × ℕ × ℕ) → ℕ
group_sum [] = 0
group_sum ((name, value, weight) ∷ gs) = value * weight + group_sum gs

-- `", ".join(...)` of the names
abbrev pub group_names : List (String × ℕ × ℕ) → String
group_names [] = ""
group_names ((name, value, weight) ∷ []) = name
group_names ((name, value, weight) ∷ g ∷ gs) = name <> ", " <> group_names (g ∷ gs)

unfoldable pub market_anomaly : FeatureSnapshot → DetectorOutput
unfolding number
market_anomaly s =
    let groups = market_groups s in
    let reason = "grouped market anomaly blend: " <> group_names groups in
    if not (has_market s)
    then missing_output "market_score" "market-grouped-baseline-v2" "market features unavailable" (
        if is_positive (number s "market_source_degraded")
        then MissingReason.source_degraded
        else MissingReason.source_unavailable)
    else scored_output "market_score" (group_sum groups / group_weight groups)
        "market-grouped-baseline-v2"
        (if book_valid s then reason else reason <> "; invalid or unavailable orderbook excluded")

-- `SocialSurgeDetector`
unfoldable pub social_surge : FeatureSnapshot → DetectorOutput
unfolding number feature
social_surge s =
    let blend : ℕ =
      (40 * clamp_over 12 (number s "mention_count")
        + 25 * clamp_over 8 (number s "unique_author_count")
        + 20 * clamp_over 10 (number s "hashtag_velocity")
        + 15 * unit (number s "new_author_ratio"))
      / 100 in
    if not (is_some (feature s "mention_count")) && not (is_some (feature s "unique_author_count"))
    then missing_output "social_score" "social-baseline-v1" "social features unavailable" (
        if is_positive (number s "social_source_idle")
        then MissingReason.source_idle
        else if is_positive (number s "social_source_degraded")
        then MissingReason.source_degraded
        else MissingReason.source_unavailable)
    else scored_output "social_score" blend "social-baseline-v1" "social surge blend"

-- n times a signed number
abbrev pub times : ℕ → ℤ → ℤ
times n (pos m) = pos (n * m)
times n (ℤ.negsuc m) = ℤ.negsuc (n * m + n - 1)

-- `CoordinationHeuristicDetector`; the ratios are added with their signs before the clamp.
unfoldable pub coordination_heuristic : FeatureSnapshot → DetectorOutput
unfolding number feature
coordination_heuristic s =
    let blend : ℤ =
      times 40 (number s "author_concentration")
      +ℤ times 35 (number s "repost_reply_ratio")
      +ℤ times 25 (number s "url_concentration") in
    if not (is_some (feature s "mention_count"))
    then missing_output "coordination_score" "coordination-heuristics-v1"
        "coordination evidence unavailable" MissingReason.source_unavailable
    else scored_output "coordination_score" (pos_part blend / 100) "coordination-heuristics-v1"
        "coordination heuristics"

-- `TemporalLeadLagDetector`
unfoldable pub temporal_lead_lag : FeatureSnapshot → DetectorOutput
unfolding feature
temporal_lead_lag s = elim (feature s "social_lead_seconds") [
  | none ↦
      missing_output "temporal_score" "temporal-lead-lag-v1" "paired streams unavailable"
        MissingReason.source_unavailable
  | some lead ↦
      if leb_ℤ lead (pos 0)
      then scored_output "temporal_score" 0 "temporal-lead-lag-v1" "social did not lead market"
      else scored_output "temporal_score" (pos_part lead / 300) "temporal-lead-lag-v1"
          "social activity led market"
]

pub data MarketRegime : Type 0 where
  calm trending volatile dislocated : MarketRegime

-- `MarketRegimeEngine.classify`
unfoldable pub classify_regime : FeatureSnapshot → MarketRegime × ℕ
unfolding number
classify_regime s =
    let price_return = abs (number s "price_return") in
    let volatility = pos_part (number s "volatility") in
    if leb (cent 20) price_return || leb (cent 10) volatility
    then (MarketRegime.dislocated, min one (max (price_return * 10 / 4) (volatility * 5)))
    else if leb (cent 4) volatility
    then (MarketRegime.volatile, min one (volatility * 10))
    else if leb (cent 5) price_return
    then (MarketRegime.trending, min one (price_return * 5))
    else (MarketRegime.calm, one - max (price_return * 20) (volatility * 25))

pub data LiquidityClass : Type 0 where
  low medium high unknown : LiquidityClass

-- `LiquidityClassifier.classify`
unfoldable pub classify_liquidity : FeatureSnapshot → LiquidityClass × ℕ
unfolding number
classify_liquidity s =
    let volume = number s "volume" in
    let depth = number s "top_n_depth" in
    let liquidity = volume +ℤ depth in
    if leb_ℤ volume (pos 0) && leb_ℤ depth (pos 0)
    then (LiquidityClass.unknown, 0)
    else if ltb_ℤ liquidity (pos (10_000 * one))
    then (LiquidityClass.low, one - pos_part liquidity / 10_000)
    else if ltb_ℤ liquidity (pos (250_000 * one))
    then (LiquidityClass.medium, min one (pos_part liquidity / 250_000))
    else (LiquidityClass.high, min one (pos_part liquidity / 1_000_000))

-- The outputs that `DetectionService.score` passes to `fuse`.
abbrev pub detect : FeatureSnapshot → List DetectorOutput
detect s = market_anomaly s ∷ social_surge s ∷ coordination_heuristic s ∷ temporal_lead_lag s ∷ []

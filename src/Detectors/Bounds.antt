-- ===== src/Detectors/Bounds.antt =====
-- What the detectors promise the fusion: scores in [0, 1], and when a score is missing.
use scam2marke.Prelude.{◌≡◌, true, none, arith, ◌↔◌, All, is_some, ◌||◌}
use scam2marke.Prelude.Score.{one}
use scam2marke.Fusion.Weights.{ValueLe}
use scam2marke.Fusion.Engine.{FeatureSnapshot, feature}
use scam2marke.Detectors.{
  market_anomaly, social_surge, coordination_heuristic, temporal_lead_lag, has_market, detect,
}

-- Whatever the features, every score of the four detectors lies in [0, 1].
pub detect-fits : (s : FeatureSnapshot) → All (λ o. ValueLe one o.score) (detect s)
unfolding market_anomaly social_surge coordination_heuristic temporal_lead_lag
detect-fits s = ground arith

-- A detector's score is missing exactly when its input is: the market's without a trade and a volume,
-- the social one without mentions and authors, the coordination without mentions, the temporal
-- without a lead; and a missing score, only it, comes with the reason why.
pub detect-missing :
    (s : FeatureSnapshot)
    → ((is_some (market_anomaly s).score ≡ true) ↔ (has_market s ≡ true))
      × ((is_some (social_surge s).score ≡ true) ↔ (
          (is_some (feature s "mention_count") || is_some (feature s "unique_author_count"))
          ≡ true))
      × (is_some (coordination_heuristic s).score ≡ is_some (feature s "mention_count"))
      × (is_some (temporal_lead_lag s).score ≡ is_some (feature s "social_lead_seconds"))
      × All (λ o. (is_some o.score ≡ true) ↔ (o.missing_reason ≡ none)) (detect s)
unfolding market_anomaly social_surge coordination_heuristic temporal_lead_lag
detect-missing s = ground arith

-- ===== src/Fusion/Engine/Severity.antt =====
-- The severity of a fused score, and what it takes for HIGH and CRITICAL.
use scam2marke.Prelude.{ℕ, ◌≤◌, ◌≡◌, Bool, true, Option, arith, ◌↔◌, is_some}
use scam2marke.Prelude.Score.{cent}
use scam2marke.Fusion.Types.{ThresholdConfig, RiskLevel}
use scam2marke.Campaign.Policy.{risk_rank}
use scam2marke.Fusion.Engine.{Draft, severity_of, final_severity, reaches, at_least_high}
use scam2marke.Fusion.Engine.Score.{IsOrdered}

-- With thresholds in order, a level is reached exactly when the score reaches its threshold.
pub severity_of_iff :
    (t : ThresholdConfig) (score : ℕ)
    → IsOrdered t
    → ((risk_rank RiskLevel.watch ≤ risk_rank (severity_of t score)) ↔ (t.watch ≤ score))
      × ((risk_rank RiskLevel.high ≤ risk_rank (severity_of t score)) ↔ (t.high ≤ score))
      × ((risk_rank RiskLevel.critical ≤ risk_rank (severity_of t score)) ↔ (t.critical ≤ score))
unfolding severity_of
severity_of_iff t score o = ground arith

-- The demotions change no score, and never raise the level that the score gives.
pub final_severity-demotes :
    (t : ThresholdConfig) (market : Option ℕ) (corroboration : Bool) (confidence : ℕ) (d : Draft)
    → let (level, d') = final_severity t market corroboration confidence d in
      (d'.score ≡ d.score) × (risk_rank level ≤ risk_rank (severity_of t d.score))
unfolding final_severity
final_severity-demotes t market corroboration confidence d = ground arith

-- CRITICAL takes a market score of 0.65, a corroborating score, a confidence of 0.4 and a fused
-- score at the critical threshold; HIGH or more takes a market score.
pub final_severity-needs :
    (t : ThresholdConfig) (market : Option ℕ) (corroboration : Bool) (confidence : ℕ) (d : Draft)
    → let level = (final_severity t market corroboration confidence d).0 in
      (level ≡ RiskLevel.critical
        → (reaches (cent 65) market ≡ true)
          × (corroboration ≡ true)
          × (cent 40 ≤ confidence)
          × (t.critical ≤ d.score))
      × (at_least_high level ≡ true → is_some market ≡ true)
unfolding final_severity severity_of
final_severity-needs t market corroboration confidence d = ground arith

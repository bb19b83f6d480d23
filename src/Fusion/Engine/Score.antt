-- ===== src/Fusion/Engine/Score.antt =====
-- The fused score: its range, what each adjustment may do to it, and what the policies forbid.
use scam2marke.Prelude.{ℕ, ◌+◌, ◌-◌, ◌*◌, ◌/◌, ◌≤◌, ◌<◌, ◌≡◌, true, false, Option, arith}
use scam2marke.Prelude.Score.{one, cent}
use scam2marke.Fusion.Types.{ThresholdConfig, ThreatContext}
use scam2marke.Fusion.Engine.{
  FusionEngine, FusionContext, Draft, calibrated, discount, governed, reaches, is_matched,
  legitimate_factor,
}

-- The thresholds rise, and `high` leaves room for the cap below it.
pub record IsOrdered (t : ThresholdConfig) : Type 0 where
  pub room : cent 1 ≤ t.high
  pub watch_high : t.watch ≤ t.high
  pub high_critical : t.high ≤ t.critical
  pub critical_one : t.critical ≤ one

scale-le : (x f : ℕ) → f ≤ one → x * f / one ≤ x
scale-le x f h = grind arith

scale-ge : (x f : ℕ) → 650_000 ≤ f → 65 * x ≤ 100 * (x * f / one) + 100
scale-ge x f h = grind arith

legitimate_factor_bounds :
    (legitimate : Option ℕ)
    → (650_000 ≤ legitimate_factor legitimate) × (legitimate_factor legitimate ≤ one)
legitimate_factor_bounds legitimate = omega arith

-- A legitimate event never raises the score, and takes at most 35 % of it, but for the rounding.
pub discount_bounds :
    (legitimate : Option ℕ) (d : Draft)
    → ((discount legitimate d).score ≤ d.score)
      × (65 * d.score ≤ 100 * (discount legitimate d).score + 100)
unfolding discount
discount_bounds legitimate d =
    let (lo, hi) = legitimate_factor_bounds legitimate in
    (
      scale-le d.score (legitimate_factor legitimate) hi,
      scale-ge d.score (legitimate_factor legitimate) lo,
    )

pub calibrated-le-one :
    (eng : FusionEngine) (ctx : FusionContext) (baseline raw : ℕ)
    → (calibrated eng ctx baseline raw).score ≤ one
unfolding calibrated
calibrated-le-one eng ctx baseline raw = ground arith

-- The policies and the uplift keep the score at 1 or less.
pub governed-le-one :
    (eng : FusionEngine) (t : ThreatContext) (m c : Option ℕ) (d : Draft)
    → IsOrdered eng.thresholds
    → d.score ≤ one
    → (governed eng t m c d).score ≤ one
unfolding governed
governed-le-one eng t m c d o h = ground arith

-- Without a market score of 0.35 the score stays below the threshold `high` by 0.01.
pub governed-market_cap :
    (eng : FusionEngine) (t : ThreatContext) (m c : Option ℕ) (d : Draft)
    → reaches (cent 35) m ≡ false
    → (governed eng t m c d).score ≤ eng.thresholds.high - cent 1
unfolding governed
governed-market_cap eng t m c d h = ground arith

-- A threat match never lifts a score that was below the threshold `high` to it.
pub governed-threat :
    (eng : FusionEngine) (t : ThreatContext) (m c : Option ℕ) (d : Draft)
    → is_matched t ≡ true
    → d.score < eng.thresholds.high
    → (governed eng t m c d).score ≤ eng.thresholds.high - cent 1
unfolding governed
governed-threat eng t m c d h below = ground arith

-- ===== src/Detectors/Classes.antt =====
-- The market's regime and its liquidity.
use scam2marke.Prelude.{ℕ, ◌≤◌, ◌≡◌, ◌↔◌, arith}
use scam2marke.Prelude.Int.{pos, abs, pos_part, ◌+ℤ◌, ◌≤ℤ◌, ◌<ℤ◌}
use scam2marke.Prelude.Score.{one}
use scam2marke.Fusion.Engine.{FeatureSnapshot}
use scam2marke.Detectors.{MarketRegime, LiquidityClass, classify_regime, classify_liquidity, number}

abbrev pub regime_rank : MarketRegime → ℕ
regime_rank MarketRegime.calm = 0
regime_rank MarketRegime.trending = 1
regime_rank MarketRegime.volatile = 2
regime_rank MarketRegime.dislocated = 3

abbrev pub liquidity_rank : LiquidityClass → ℕ
liquidity_rank LiquidityClass.unknown = 0
liquidity_rank LiquidityClass.low = 1
liquidity_rank LiquidityClass.medium = 2
liquidity_rank LiquidityClass.high = 3

-- A larger move of the price, up or down, with at least the volatility never gives a calmer regime;
-- and the confidence in a regime lies in [0, 1].
pub classify_regime_mono :
    (s t : FeatureSnapshot)
    → abs (number s "price_return") ≤ abs (number t "price_return")
    → pos_part (number s "volatility") ≤ pos_part (number t "volatility")
    → (regime_rank (classify_regime s).0 ≤ regime_rank (classify_regime t).0)
      × ((classify_regime s).1 ≤ one)
unfolding classify_regime
classify_regime_mono s t moves swings = ground arith

-- The liquidity is unknown exactly when neither the volume nor the depth is positive. To a snapshot
-- with a volume, a larger sum of the two never gives a lower class; and the confidence in a class
-- lies in [0, 1].
pub classify_liquidity_mono :
    (s t : FeatureSnapshot)
    → (number s "volume" +ℤ number s "top_n_depth") ≤ℤ (number t "volume" +ℤ number t "top_n_depth")
    → pos 0 <ℤ number t "volume"
    → (((classify_liquidity s).0 ≡ LiquidityClass.unknown)
        ↔ ((number s "volume" ≤ℤ pos 0) × (number s "top_n_depth" ≤ℤ pos 0)))
      × (liquidity_rank (classify_liquidity s).0 ≤ liquidity_rank (classify_liquidity t).0)
      × ((classify_liquidity s).1 ≤ one)
unfolding classify_liquidity
classify_liquidity_mono s t more traded = ground arith

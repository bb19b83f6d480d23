-- ===== src/Features/Compute.antt =====
-- src/scam2market/features/engine.py, `_compute_features`: the numbers of a window.
pub mod Market
pub mod Social
use scam2marke.Prelude.{
  ℕ, ◌+◌, ◌-◌, ◌*◌, ◌/◌, String, ◌<>◌, str_eq, Bool, List, [], ◌∷◌, ◌++◌, map, Option, none, some,
  or_else, min, length, all_of, if◌then◌else◌,
}
use scam2marke.Prelude.Int.{ℤ, pos, sub_ℕ, ◌-ℤ◌, max_ℤ}
use scam2marke.Prelude.Dict.{Dict, string_eq, nat_eq, pair_eq}
use scam2marke.Prelude.Score.{one}
use scam2marke.Features.Types.{
  SignalKind, SourceDomain, domain_eq, FeatureSignal, WindowKey, SourceState, FeatureWindowEngine,
}
use scam2marke.Features.Numbers.{quot_ℤ, mul_ℤ, min_ℤ, greatest, smallest}
use scam2marke.Features.Fields.{safe_float, is_readable, of_kind, field, source_state, flag_number}
use scam2marke.Features.Compute.Market.{earlier, market_features}
use scam2marke.Features.Compute.Social.{social_features}

abbrev map_option : (ℕ → ℤ) → Option ℕ → Option ℤ
map_option f none = none
map_option f (some n) = some (f n)

-- Whether `_compute_features` raises nothing.
unfoldable pub is_computable : List FeatureSignal → Bool
unfolding is_readable
is_computable events = all_of is_readable events

module _ (pstdev : List ℤ → ℤ) (s : FeatureWindowEngine) where
  abbrev states_of : String → SourceState → Dict String (Option ℤ)
  states_of domain state =
      (domain <> "_source_active", some (flag_number state.active))
      ∷ (domain <> "_source_idle", some (flag_number state.idle))
      ∷ (domain <> "_source_degraded", some (flag_number state.degraded))
      ∷ []

  abbrev times_of : List FeatureSignal → List ℕ
  times_of events = map (λ e. e.event_time) events

  -- The seconds from the latest of the times to the end of the window, 0 if that is past.
  abbrev freshness : ℕ → List ℕ → Option ℕ
  freshness end moments = elim (greatest moments) [ none ↦ none | some t ↦ some (end - t) ]

  -- `int(x)`
  abbrev truncated : ℤ → ℤ
  truncated x = quot_ℤ x one

  unfoldable greatest_gap : List ℤ → ℤ
  greatest_gap [] = pos 0
  greatest_gap (x ∷ []) = x
  greatest_gap (x ∷ y ∷ xs) = max_ℤ x (greatest_gap (y ∷ xs))

  abbrev lead : Option ℕ → Option ℕ → Option ℤ
  lead (some market) (some social) = some (sub_ℕ market social)
  lead _ _ = none

  -- The score is 1 less the penalties for old data, degraded sources and lost messages.
  unfoldable pub quality_score : ℕ → Option ℕ → Bool → Bool → ℤ → ℤ
  unfolding mul_ℤ
  quality_score market_age social_age market_degraded social_degraded gaps =
      let age = min one ((market_age + or_else social_age 0) / 600) in
      let sources =
        (if market_degraded then 250_000 else 0) + (if social_degraded then 250_000 else 0) in
      max_ℤ (pos 0)
        (pos one -ℤ pos age -ℤ pos sources -ℤ min_ℤ (pos 500_000) (mul_ℤ gaps (pos 100_000)))

  -- What `_compute_features` returns, in the order of the manifest.
  unfoldable pub compute_features : WindowKey → List FeatureSignal → Dict String (Option ℤ)
  unfolding market_features social_features greatest_gap quality_score safe_float
  compute_features (scope, (asset, (start, interval))) events =
      let key : WindowKey = (scope, (asset, (start, interval))) in
      let end = start + interval * one in
      let market = source_state s scope asset SourceDomain.market in
      let social = source_state s scope asset SourceDomain.social in
      let market_times = times_of (
        of_kind SignalKind.market_trade events
        ++ of_kind SignalKind.market_candle events
        ++ of_kind SignalKind.orderbook events) in
      let social_times =
        times_of
          (of_kind SignalKind.social_post events ++ of_kind SignalKind.asset_mention events) in
      let market_age = or_else (freshness end market_times) (interval * one) in
      let social_age = freshness end social_times in
      let gaps =
        truncated (
          greatest_gap (map (field "source_gap_count") (of_kind SignalKind.data_quality events))) in
      market_features pstdev s key events
      ++ ("market_data_freshness_seconds", some (pos market_age)) ∷ states_of "market" market
      ++ social_features s key events
      ++ ("social_data_freshness_seconds", map_option pos social_age) ∷ states_of "social" social
      ++ ("social_lead_seconds", lead (smallest market_times) (smallest social_times))
        ∷ ("source_gap_count", some (mul_ℤ gaps (pos one)))
        ∷ (
          "data_quality_score",
          some (quality_score market_age social_age market.degraded social.degraded gaps),
        )
        ∷ ("baseline_confidence", some (pos (min one (length (earlier key s.events) * 50_000))))
        ∷ []

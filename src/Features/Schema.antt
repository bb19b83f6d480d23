-- ===== src/Features/Schema.antt =====
-- src/scam2market/features/schemas.py, the fields and the validator of `FeatureSnapshot`, with the
-- version and the names of src/scam2market/feature_manifests/surveillance-features-v2.yaml.
use scam2marke.Prelude.{
  ℕ, String, str_eq, Bool, true, false, not, ◌&&◌, List, [], ◌∷◌, map, Option, none, some, is_some,
  length, all_of, ◌==◌, leb,
}
use scam2marke.Prelude.Dict.{string_eq, contains}
use scam2marke.Features.Types.{RevisionState, FeatureSnapshot, is_provisional}

abbrev pub feature_schema : String
feature_schema = "surveillance-features-v2"

abbrev pub feature_names : List String
feature_names =
    "price_return" ∷ "volume" ∷ "relative_volume" ∷ "volatility" ∷ "spread" ∷ "top_n_depth"
    ∷ "orderbook_imbalance" ∷ "orderbook_valid" ∷ "trade_count" ∷ "buy_sell_pressure"
    ∷ "market_data_freshness_seconds" ∷ "market_source_active" ∷ "market_source_idle"
    ∷ "market_source_degraded" ∷ "mention_count" ∷ "unique_author_count" ∷ "author_concentration"
    ∷ "repost_reply_ratio" ∷ "hashtag_velocity" ∷ "url_concentration" ∷ "new_author_ratio"
    ∷ "social_data_freshness_seconds" ∷ "social_source_active" ∷ "social_source_idle"
    ∷ "social_source_degraded" ∷ "social_lead_seconds" ∷ "source_gap_count" ∷ "data_quality_score"
    ∷ "baseline_confidence" ∷ []

-- `len(features) == len(FEATURE_NAMES) and set(features) == set(FEATURE_NAMES)`
unfoldable pub has_names : List String → Bool
unfolding contains
has_names names =
    (length names == length feature_names)
    && all_of (contains feature_names) names
    && all_of (contains names) feature_names

abbrev pub is_linked : RevisionState → Option ℕ → Bool
is_linked RevisionState.corrected supersedes = is_some supersedes
is_linked _ supersedes = true

abbrev pub bool_eq : Bool → Bool → Bool
bool_eq true b = b
bool_eq false b = not b

-- `ge=1`, where there is a number.
abbrev pub at_least_one : Option ℕ → Bool
at_least_one none = true
at_least_one (some n) = leb 1 n

-- What the constructor accepts, by the manifest's hash.
unfoldable pub is_accepted : String → FeatureSnapshot → Bool
unfolding has_names
is_accepted hash r =
    leb 1 r.revision
    && at_least_one r.supersedes_revision
    && has_names (map (λ feature. feature.0) r.features)
    && str_eq r.feature_schema_version feature_schema
    && str_eq r.feature_schema_hash hash
    && bool_eq r.is_final (not (is_provisional r.revision_state))
    && is_linked r.revision_state r.supersedes_revision

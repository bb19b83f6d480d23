-- ===== src/Fusion/Weights.antt =====
-- src/scam2market/intelligence/fusion.py, `FusionEngine.fuse`: the weighted mean of the scores that
-- are there. Weights and scores are millionths, a product of the two keeps its twelve decimals, and
-- the one division rounds down to a millionth.
use scam2marke.Prelude.{
  ℕ, ◌+◌, ◌*◌, ◌/◌, ◌≤◌, ◌<◌, String, true, false, List, [], ◌∷◌, Option, none, some, map, ltb,
  ◌==◌, is_some, or_else, All, arith, if◌then◌else◌, Bool-cases, inl, inr,
}
use scam2marke.Prelude.Dict.{Dict, string_eq, lookup, insert}
use scam2marke.Fusion.Types.{
  FusionWeights, MissingReason, MissingOutput, ContributionDirection, TraceComponent,
}

-- src/scam2market/intelligence/detectors.py; a detector's score is clamped to [0, 1].
pub record DetectorOutput : Type 0 where
  pub name : String
  pub score : Option ℕ
  pub model_version : String
  pub reason : String
  pub missing_reason : Option MissingReason

-- `{output.name: output for output in outputs}`
unfoldable pub by_name :
    Dict String DetectorOutput → List DetectorOutput → Dict String DetectorOutput
by_name d [] = d
by_name d (o ∷ os) = by_name (insert o.name o d) os

-- `detector_values.get(name)`, for a name that is neither `claim_risk` nor `graph_score`.
unfoldable pub score_of : Dict String DetectorOutput → String → Option ℕ
score_of d name = elim (lookup name d) [ none ↦ none | some o ↦ o.score ]

-- A configured weight with the value that it applies to.
pub record Row : Type 0 where
  pub name : String
  pub weight : ℕ
  pub value : Option ℕ

-- `self._weights.model_dump().items()`, each with its value.
unfoldable pub rows : FusionWeights → Dict String DetectorOutput → Option ℕ → Option ℕ → List Row
unfolding score_of
rows w d claim_risk graph_score =
    record { name = "market_score"; weight = w.market_score; value = score_of d "market_score" }
    ∷ record { name = "social_score"; weight = w.social_score; value = score_of d "social_score" }
    ∷ record {
      name = "coordination_score";
      weight = w.coordination_score;
      value = score_of d "coordination_score";
    }
    ∷ record {
      name = "temporal_score";
      weight = w.temporal_score;
      value = score_of d "temporal_score";
    }
    ∷ record { name = "claim_risk"; weight = w.claim_risk; value = claim_risk }
    ∷ record { name = "graph_score"; weight = w.graph_score; value = graph_score }
    ∷ []

-- The two sums of the first loop.
abbrev pub weighted_row : Option ℕ → ℕ → ℕ
weighted_row none w = 0
weighted_row (some v) w = w * v

abbrev pub available_row : Option ℕ → ℕ → ℕ
available_row none w = 0
available_row (some v) w = w

unfoldable pub weighted_sum : List Row → ℕ
weighted_sum [] = 0
weighted_sum (r ∷ rs) = weighted_row r.value r.weight + weighted_sum rs

unfoldable pub available_weight : List Row → ℕ
available_weight [] = 0
available_weight (r ∷ rs) = available_row r.value r.weight + available_weight rs

-- `weighted_sum / available_weight if available_weight else 0.0`
unfoldable pub raw_weighted_score : List Row → ℕ
unfolding weighted_sum available_weight
raw_weighted_score rs =
    if available_weight rs == 0 then 0 else weighted_sum rs / available_weight rs

abbrev reason_for : Option ℕ → Option DetectorOutput → Option MissingReason
reason_for (some v) o = none
reason_for none none = some MissingReason.not_provided
reason_for none (some o) = some (or_else o.missing_reason MissingReason.no_observations)

-- The entry of the trace for one weight; the caller has ruled out the division by zero.
unfoldable pub component : Dict String DetectorOutput → ℕ → Row → TraceComponent
component d available r =
    let effective = elim r.value as (λ _. ℕ) [
      | none ↦ 0
      | some _ ↦ r.weight * 1_000_000 / available
    ] in
    let contribution = elim r.value as (λ _. ℕ) [ none ↦ 0 | some v ↦ r.weight * v / available ] in
    record {
      name = r.name;
      value = r.value;
      configured_weight = r.weight;
      effective_normalized_weight = effective;
      signed_weighted_contribution = contribution;
      direction =
          if ltb 0 contribution
          then ContributionDirection.risk_increasing
          else ContributionDirection.neutral;
      missing = if is_some r.value then false else true;
      missing_reason = reason_for r.value (lookup r.name d);
    }

unfoldable pub components : Dict String DetectorOutput → ℕ → List Row → List TraceComponent
unfolding component
components d available rs = map (component d available) rs

-- The entry of `missing` for a detector's output that has no score.
abbrev missing_one : Dict String DetectorOutput → String → List MissingOutput → List MissingOutput
missing_one d name rest = elim (score_of d name) [
  | some _ ↦ rest
  | none ↦
      record {
        name = name;
        reason = elim (lookup name d) [
          | none ↦ MissingReason.not_provided
          | some o ↦ or_else o.missing_reason MissingReason.no_observations
        ];
      }
      ∷ rest
]

abbrev missing_input : Option ℕ → String → List MissingOutput → List MissingOutput
missing_input (some _) name rest = rest
missing_input none name rest = record { name = name; reason = MissingReason.not_provided } ∷ rest

-- `missing`
unfoldable pub missing_outputs :
    Dict String DetectorOutput → Option ℕ → Option ℕ → Option ℕ → List MissingOutput
unfolding score_of
missing_outputs d claim_risk legitimate graph_score = missing_one d "market_score" (
    missing_one d "social_score" (
      missing_one d "coordination_score" (
        missing_one d "temporal_score" (
          missing_input claim_risk "claim_risk" (
            missing_input legitimate "legitimate_event_score"
              (missing_input graph_score "graph_score" []))))))

abbrev pub ValueLe : ℕ → Option ℕ → Type 0
ValueLe b none = Unit {0}
ValueLe b (some v) = v ≤ b

abbrev pub ValueGe : ℕ → Option ℕ → Type 0
ValueGe a none = Unit {0}
ValueGe a (some v) = a ≤ v

row-le : (b w : ℕ) (v : Option ℕ) → ValueLe b v → weighted_row v w ≤ available_row v w * b
row-le b w none h = omega arith
row-le b w (some v) h = grind arith

row-ge : (a w : ℕ) (v : Option ℕ) → ValueGe a v → available_row v w * a ≤ weighted_row v w
row-ge a w none h = omega arith
row-ge a w (some v) h = grind arith

weighted_sum-le :
    (b : ℕ) (rs : List Row)
    → All (λ r. ValueLe b r.value) rs
    → weighted_sum rs ≤ available_weight rs * b
unfolding weighted_sum available_weight
weighted_sum-le b [] h = omega arith
weighted_sum-le b (r ∷ rs) h =
    omega (arith, row-le b r.weight r.value h.0, weighted_sum-le b rs h.1)

weighted_sum-ge :
    (a : ℕ) (rs : List Row)
    → All (λ r. ValueGe a r.value) rs
    → available_weight rs * a ≤ weighted_sum rs
unfolding weighted_sum available_weight
weighted_sum-ge a [] h = omega arith
weighted_sum-ge a (r ∷ rs) h =
    omega (arith, row-ge a r.weight r.value h.0, weighted_sum-ge a rs h.1)

quotient-le : (w a b : ℕ) → 0 < a → w ≤ a * b → w / a ≤ b
quotient-le w a b p h = grind arith

quotient-ge : (w a b : ℕ) → 0 < a → a * b ≤ w → b ≤ w / a
quotient-ge w a b p h = grind arith

-- The weighted mean lies between the smallest and the largest score that is there, whatever the
-- weights are.
pub raw_weighted_score_bounds :
    (a b : ℕ) (rs : List Row)
    → 0 < available_weight rs
    → All (λ r. ValueGe a r.value) rs
    → All (λ r. ValueLe b r.value) rs
    → (a ≤ raw_weighted_score rs) × (raw_weighted_score rs ≤ b)
unfolding raw_weighted_score
raw_weighted_score_bounds a b rs pos lo hi = ground (
  arith,
  quotient-le (weighted_sum rs) (available_weight rs) b pos (weighted_sum-le b rs hi),
  quotient-ge (weighted_sum rs) (available_weight rs) a pos (weighted_sum-ge a rs lo),
)

pub raw_weighted_score-le :
    (b : ℕ) (rs : List Row) → All (λ r. ValueLe b r.value) rs → raw_weighted_score rs ≤ b
unfolding raw_weighted_score
raw_weighted_score-le b rs h = elim (Bool-cases (available_weight rs == 0)) [
  | inl zero_weight ↦ rw zero_weight (omega arith)
  | inr some_weight ↦ rw some_weight (
      quotient-le (weighted_sum rs) (available_weight rs) b (ground arith) (weighted_sum-le b rs h))
]

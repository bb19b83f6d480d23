-- ===== src/Fusion/Engine/Result.antt =====
-- What a fused result promises to the code that reads it.
use scam2marke.Prelude.{
  ℕ, ◌+◌, ◌-◌, ◌≤◌, ◌<◌, ◌≡◌, inl, inr, String, true, false, ◌&&◌, List, [], ◌∷◌, Option, none,
  some, ◌==◌, is_some, any_of, All, arith, Bool-cases, Option-cases,
}
use scam2marke.Prelude.Score.{one, cent, or_score}
use scam2marke.Prelude.Dict.{
  Dict, string_eq, lookup, insert, Entries, insert-Entries, lookup-Entries,
}
use scam2marke.Fusion.Types.{FusionWeights, ThreatContext, RiskLevel, ThresholdConfig}
use scam2marke.Fusion.Weights.{
  DetectorOutput, by_name, score_of, Row, rows, available_weight, ValueLe, raw_weighted_score,
}
use scam2marke.Fusion.Engine.{
  FusionEngine, FusionContext, FeatureSnapshot, detector_outputs, weight_rows, market_score,
  coordination_score, threat_context, scaled, discounted, ruled, settled, fused, fuse, confidence,
  confidence_of, degrade, social_risk, reaches, is_matched, severity_of, corroborated,
  baseline_confidence,
}
use scam2marke.Fusion.Engine.Score.{
  IsOrdered, discount_bounds, calibrated-le-one, governed-le-one, governed-market_cap,
  governed-threat,
}
use scam2marke.Fusion.Engine.Severity.{final_severity-demotes, final_severity-needs}
use scam2marke.Campaign.Types.{CampaignStage}
use scam2marke.Campaign.Policy.{assess, assessment, ok, risk_rank}
use scam2marke.Campaign.Policy.Stages.{IsScored, assess-total}

abbrev pub OutputFits : String → DetectorOutput → Type 0
OutputFits name o = ValueLe one o.score

by_name-Entries :
    (d : Dict String DetectorOutput) (os : List DetectorOutput)
    → Entries OutputFits d
    → All (λ o. ValueLe one o.score) os
    → Entries OutputFits (by_name d os)
unfolding by_name
by_name-Entries d [] h p = h
by_name-Entries d (o ∷ os) h p =
    by_name-Entries (insert o.name o d) os (insert-Entries OutputFits o.name o d p.0 h) p.1

score_of-le :
    (d : Dict String DetectorOutput) (name : String)
    → Entries OutputFits d
    → ValueLe one (score_of d name)
unfolding score_of
score_of-le d name h = elim (Option-cases (lookup name d)) [
  | inl absent ↦ rw (absent, score_of, ValueLe) tt
  | inr (o, found) ↦
      let fits = lookup-Entries OutputFits name o d h found in rw (found, score_of) fits
]

or_score-le : (b : ℕ) (v : Option ℕ) → ValueLe b v → or_score v 0 ≤ b
or_score-le b none h = omega arith
or_score-le b (some v) h = ground arith

social_risk-le : (s c : Option ℕ) → ValueLe one s → ValueLe one c → ValueLe one (social_risk s c)
unfolding social_risk
social_risk-le none none hs hc = tt
social_risk-le (some s) none hs hc = omega arith
social_risk-le none (some c) hs hc = omega arith
social_risk-le (some s) (some c) hs hc = omega arith

confidence-le-one : (t : ThreatContext) (m b q : ℕ) → degrade t (confidence_of m b q) ≤ one
unfolding degrade confidence_of
confidence-le-one t m b q = ground arith

-- The weights of the engine are positive.
pub record IsWeighted (w : FusionWeights) : Type 0 where
  pub market_pos : 0 < w.market_score
  pub social_pos : 0 < w.social_score
  pub coordination_pos : 0 < w.coordination_score
  pub temporal_pos : 0 < w.temporal_score
  pub claim_pos : 0 < w.claim_risk
  pub graph_pos : 0 < w.graph_score

available_weight-pos :
    (rs : List Row)
    → All (λ r. 0 < r.weight) rs
    → any_of (λ r. is_some r.value) rs ≡ true
    → 0 < available_weight rs
unfolding available_weight
available_weight-pos [] h e = absurd (cc)
available_weight-pos (r ∷ rs) h e = ground (arith, available_weight-pos rs h.1)

zero_weight :
    (rs : List Row)
    → All (λ r. 0 < r.weight) rs
    → (any_of (λ r. is_some r.value) rs && available_weight rs == 0) ≡ true
    → ⊥
zero_weight rs h e = elim (Bool-cases (any_of (λ r. is_some r.value) rs)) [
  | inl there ↦ let more = available_weight-pos rs h there in ground arith
  | inr none_there ↦ cc (rw none_there at e)
]

below_high :
    (t : ThresholdConfig) (level : RiskLevel) (score score' : ℕ)
    → IsOrdered t
    → score' ≡ score
    → score ≤ t.high - cent 1
    → risk_rank level ≤ risk_rank (severity_of t score)
    → (score' + cent 1 ≤ t.high) × (risk_rank level ≤ 1)
unfolding severity_of
below_high t level score score' order same small less = ground arith

module _ (eng : FusionEngine) (s : FeatureSnapshot) (outputs : List DetectorOutput)
    (ctx : FusionContext) where
  pub fuse-total :
      (scored_at : ℕ)
      → IsWeighted eng.weights
      → fuse eng scored_at s outputs ctx ≡ some (fused eng scored_at s outputs ctx)
  unfolding fuse
  fuse-total scored_at w =
      let rs = weight_rows eng s outputs ctx in
      let positive : All (λ r. 0 < r.weight) rs = unfold rows in omega arith in
      elim (Bool-cases (any_of (λ r. is_some r.value) rs && available_weight rs == 0)) [
        | inl stuck ↦ absurd (zero_weight rs positive stuck)
        | inr fine ↦ rw fine
      ]

  scaled-le-one : (scaled eng s outputs ctx).score ≤ one
  unfolding scaled
  scaled-le-one =
      calibrated-le-one eng ctx (baseline_confidence eng s outputs ctx)
        (raw_weighted_score (weight_rows eng s outputs ctx))

  discounted-le-one : (discounted eng s outputs ctx).score ≤ one
  unfolding discounted
  discounted-le-one =
      let fewer = (discount_bounds ctx.legitimate_event_score (scaled eng s outputs ctx)).0 in
      let top = scaled-le-one in omega arith

  settled_demotes :
      let (level, d) = settled eng s outputs ctx in
      (d.score ≡ (ruled eng s outputs ctx).score)
      × (risk_rank level ≤ risk_rank (severity_of eng.thresholds (ruled eng s outputs ctx).score))
  unfolding settled
  settled_demotes =
      final_severity-demotes eng.thresholds (market_score eng s outputs ctx)
        (corroborated (detector_outputs eng s outputs ctx) ctx) (confidence eng s outputs ctx)
        (ruled eng s outputs ctx)

  ruled-le-one : IsOrdered eng.thresholds → (ruled eng s outputs ctx).score ≤ one
  unfolding ruled
  ruled-le-one order =
      governed-le-one eng (threat_context eng s outputs ctx) (market_score eng s outputs ctx)
        (coordination_score eng s outputs ctx) (discounted eng s outputs ctx) order
        discounted-le-one

  settled-le-one : IsOrdered eng.thresholds → (settled eng s outputs ctx).1.score ≤ one
  settled-le-one order =
      let (same, less) = settled_demotes in let top = ruled-le-one order in omega arith

  -- Where the detectors' scores are at most 1 and the thresholds are in order, the scores of the
  -- result lie in [0, 1], as its model demands.
  pub fused-IsScored :
      (scored_at : ℕ)
      → IsOrdered eng.thresholds
      → All (λ o. ValueLe one o.score) outputs
      → let r = fused eng scored_at s outputs ctx in
        IsScored r × (r.fusion_score ≤ one) × (r.raw_cross_domain_risk ≤ one)
  unfolding fused
  fused-IsScored scored_at order fits =
      let d = detector_outputs eng s outputs ctx in
      let entries = by_name-Entries [] outputs tt fits in
      let score_fits = λ (name : String). score_of-le d name entries in
      let social =
        social_risk-le _ _ (score_fits "social_score") (score_fits "coordination_score") in
      (
        record {
          market_bound = or_score-le one _ (score_fits "market_score");
          social_bound = or_score-le one _ social;
          coordination_bound = or_score-le one _ (score_fits "coordination_score");
          confidence_bound = confidence-le-one (threat_context eng s outputs ctx) _ _ _;
        },
        settled-le-one order,
        scaled-le-one,
      )

  -- Every fused result can be assessed from every stage of a campaign: the campaign's rules never
  -- refuse its transition, nor its model the confidence.
  pub fused-assess :
      (scored_at : ℕ) (stage : CampaignStage)
      → IsOrdered eng.thresholds
      → All (λ o. ValueLe one o.score) outputs
      → let r = fused eng scored_at s outputs ctx in assess stage r ≡ ok (assessment stage r)
  fused-assess scored_at stage order fits =
      (assess-total stage (fused eng scored_at s outputs ctx)
        (fused-IsScored scored_at order fits).0).0

  settled_below :
      IsOrdered eng.thresholds
      → (ruled eng s outputs ctx).score ≤ eng.thresholds.high - cent 1
      → let (level, d) = settled eng s outputs ctx in
        (d.score + cent 1 ≤ eng.thresholds.high) × (risk_rank level ≤ 1)
  settled_below order small =
      let (same, less) = settled_demotes in below_high eng.thresholds _ _ _ order same small less

  -- Without a market score of 0.35 the fused score stays 0.01 below the threshold for HIGH, and the
  -- severity below HIGH.
  pub fused-market :
      (scored_at : ℕ)
      → IsOrdered eng.thresholds
      → reaches (cent 35) (market_score eng s outputs ctx) ≡ false
      → let r = fused eng scored_at s outputs ctx in
        (r.fusion_score + cent 1 ≤ eng.thresholds.high) × (risk_rank r.severity ≤ 1)
  unfolding fused ruled
  fused-market scored_at order weak =
      let capped =
        governed-market_cap eng (threat_context eng s outputs ctx) _
          (coordination_score eng s outputs ctx) (discounted eng s outputs ctx) weak in
      settled_below order capped

  -- A threat match never makes a result HIGH or CRITICAL whose score was below HIGH without it.
  pub fused-threat :
      (scored_at : ℕ)
      → IsOrdered eng.thresholds
      → is_matched (threat_context eng s outputs ctx) ≡ true
      → (discounted eng s outputs ctx).score < eng.thresholds.high
      → let r = fused eng scored_at s outputs ctx in
        (r.fusion_score + cent 1 ≤ eng.thresholds.high) × (risk_rank r.severity ≤ 1)
  unfolding fused ruled
  fused-threat scored_at order hit below = settled_below order (
      governed-threat eng (threat_context eng s outputs ctx) (market_score eng s outputs ctx)
        (coordination_score eng s outputs ctx) (discounted eng s outputs ctx) hit below)

  -- A CRITICAL result has a market score of 0.65, a corroborating score of 0.55, a confidence of 0.4
  -- and a fused score at the critical threshold.
  pub fused-critical :
      (scored_at : ℕ)
      → (fused eng scored_at s outputs ctx).severity ≡ RiskLevel.critical
      → let r = fused eng scored_at s outputs ctx in
        (reaches (cent 65) r.market_score ≡ true)
        × (corroborated (detector_outputs eng s outputs ctx) ctx ≡ true)
        × (cent 40 ≤ r.confidence)
        × (eng.thresholds.critical ≤ r.fusion_score)
  unfolding fused settled
  fused-critical scored_at h =
      let (same, less) = settled_demotes in
      let (market, corroboration, sure, high) =
        (final_severity-needs eng.thresholds (market_score eng s outputs ctx)
            (corroborated (detector_outputs eng s outputs ctx) ctx) (confidence eng s outputs ctx)
            (ruled eng s outputs ctx)).0
          h in
      (market, corroboration, sure, omega arith)

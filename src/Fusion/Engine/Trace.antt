-- ===== src/Fusion/Engine/Trace.antt =====
-- The decision trace: its adjustments and policies lead from the first score to the last.
use scam2marke.Prelude.{
  ℕ, ◌≡◌, refl, sym, ap, ◌∙◌, Bool, List, [], ◌∷◌, ◌++◌, Option, map, min, arith, subst, inl, inr,
  Bool-cases, Option-cases, ◌&&◌, not, ltb, leb, is_some,
}
use mathlib.Core.List.{map-append, append_assoc, append-nil}
use scam2marke.Prelude.Score.{one, cent}
use scam2marke.Fusion.Weights.{DetectorOutput, raw_weighted_score}
use scam2marke.Fusion.Types.{
  ScoreAdjustment, PolicyDecision, ThreatContext, RiskLevel, ThresholdConfig,
}
use scam2marke.Fusion.Engine.{
  FusionEngine, FusionContext, Draft, calibrated, discount, uplift, watch_floor, market_cap,
  threat_cap, governed, final_severity, is_matched, reaches, is_critical, at_least_high,
  demote_critical, demote_missing_market, fused, FeatureSnapshot, scaled, discounted, ruled,
  settled, weight_rows, baseline_confidence, market_score, coordination_score, detector_outputs,
  threat_context, confidence, corroborated, severity_of,
}

abbrev pub Leg : Type 0
Leg = ℕ × ℕ

abbrev pub adjustment_leg : ScoreAdjustment → Leg
adjustment_leg a = (a.before, a.after)

abbrev pub policy_leg : PolicyDecision → Leg
policy_leg p = (p.before, p.after)

-- The scores before and after each entry, the adjustments first.
abbrev pub legs_of : List ScoreAdjustment → List PolicyDecision → List Leg
legs_of as' ps = map adjustment_leg as' ++ map policy_leg ps

abbrev pub legs : Draft → List Leg
legs d = legs_of d.adjustments d.policies

-- Each entry starts where the one before it ended.
abbrev pub Chains : ℕ → List Leg → ℕ → Type 0
Chains a [] b = a ≡ b
Chains a ((x, y) ∷ rest) b = (a ≡ x) × Chains y rest b

Chains-snoc : (a b c : ℕ) (ls : List Leg) → Chains a ls b → Chains a (ls ++ (b, c) ∷ []) c
Chains-snoc a b c [] h = (h, refl)
Chains-snoc a b c ((x, y) ∷ rest) h = (h.0, Chains-snoc y b c rest h.1)

abbrev pub Replays : ℕ → Draft → Type 0
Replays start d = Chains start (legs d) d.score

-- Another policy.
decide-Replays :
    (start after : ℕ) (d : Draft) (p : PolicyDecision)
    → p.before ≡ d.score
    → p.after ≡ after
    → Replays start d
    → Replays start (record d { score = after; policies = d.policies ++ p ∷ [] })
decide-Replays start after d p before here h =
    let regroup =
      append_assoc (map adjustment_leg d.adjustments) (map policy_leg d.policies)
        (policy_leg p ∷ [])
      ∙ ap (λ ls. map adjustment_leg d.adjustments ++ ls)
          (sym (map-append policy_leg d.policies (p ∷ []))) in
    subst (λ ls. Chains start ls after) regroup
      (rw (before, here) (Chains-snoc start d.score after (legs d) h))

-- Another adjustment, while there is no policy yet.
adjust-Replays :
    (start after : ℕ) (d : Draft) (a : ScoreAdjustment)
    → a.before ≡ d.score
    → a.after ≡ after
    → d.policies ≡ []
    → Replays start d
    → Replays start (record d { score = after; adjustments = d.adjustments ++ a ∷ [] })
adjust-Replays start after d a before here none_yet h =
    let bare = λ (as' : List ScoreAdjustment).
      ap (legs_of as') none_yet ∙ append-nil (map adjustment_leg as') in
    let h' = subst (λ ls. Chains start ls d.score) (bare d.adjustments) h in
    let regroup =
      sym (map-append adjustment_leg d.adjustments (a ∷ []))
      ∙ sym (bare (d.adjustments ++ a ∷ [])) in
    subst (λ ls. Chains start ls after) regroup
      (rw (before, here) (Chains-snoc start d.score after (map adjustment_leg d.adjustments) h'))

calibrated-Replays :
    (eng : FusionEngine) (ctx : FusionContext) (baseline raw : ℕ)
    → Replays (min one raw) (calibrated eng ctx baseline raw)
      × ((calibrated eng ctx baseline raw).policies ≡ [])
unfolding calibrated
calibrated-Replays eng ctx baseline raw = ground arith

discount-Replays :
    (start : ℕ) (legitimate : Option ℕ) (d : Draft)
    → d.policies ≡ []
    → Replays start d
    → Replays start (discount legitimate d) × ((discount legitimate d).policies ≡ [])
unfolding discount
discount-Replays start legitimate d none_yet h =
    (adjust-Replays start _ d _ refl refl none_yet h, none_yet)

uplift-Replays :
    (start cap : ℕ) (t : ThreatContext) (d : Draft)
    → d.policies ≡ []
    → Replays start d
    → Replays start (uplift cap t d)
unfolding uplift
uplift-Replays start cap t d none_yet h = elim (Option-cases t.score) [
  | inl absent ↦ rw (absent, uplift) h
  | inr (score, found) ↦
      rw (found, uplift)
        (elim (Bool-cases (is_matched t)) [
          | inl hit ↦ rw hit (adjust-Replays start _ d _ refl refl none_yet h)
          | inr miss ↦ rw miss h
        ])
]

watch_floor-Replays :
    (start : ℕ) (t : ThresholdConfig) (m c : Option ℕ) (d : Draft)
    → Replays start d
    → Replays start (watch_floor t m c d)
unfolding watch_floor
watch_floor-Replays start t m c d h =
    elim (Bool-cases (reaches (cent 65) m && reaches (cent 65) c)) [
      | inl yes_floor ↦ rw yes_floor (decide-Replays start _ d _ refl refl h)
      | inr no_floor ↦ rw no_floor h
    ]

market_cap-Replays :
    (start : ℕ) (t : ThresholdConfig) (m : Option ℕ) (d : Draft)
    → Replays start d
    → Replays start (market_cap t m d)
unfolding market_cap
market_cap-Replays start t m d h = elim (Bool-cases (reaches (cent 35) m)) [
  | inl enough ↦ rw enough (decide-Replays start _ d _ refl refl h)
  | inr short ↦ rw short (decide-Replays start _ d _ refl refl h)
]

threat_cap-Replays :
    (start : ℕ) (t : ThresholdConfig) (threat : ThreatContext) (before : ℕ) (d : Draft)
    → Replays start d
    → Replays start (threat_cap t threat before d)
unfolding threat_cap
threat_cap-Replays start t threat before d h =
    elim (Bool-cases (is_matched threat && ltb before t.high)) [
      | inl capped ↦ rw capped (decide-Replays start _ d _ refl refl h)
      | inr free ↦ rw free h
    ]

demote_critical-Replays :
    (start : ℕ) (justified : Bool) (level : RiskLevel) (d : Draft)
    → Replays start d
    → Replays start (demote_critical justified level d).1
unfolding demote_critical
demote_critical-Replays start justified level d h =
    elim (Bool-cases (is_critical level && not justified)) [
      | inl demoted ↦ rw demoted (decide-Replays start _ d _ refl refl h)
      | inr kept ↦ rw kept h
    ]

demote_missing_market-Replays :
    (start : ℕ) (m : Option ℕ) (level : RiskLevel) (d : Draft)
    → Replays start d
    → Replays start (demote_missing_market m level d).1
unfolding demote_missing_market
demote_missing_market-Replays start m level d h =
    elim (Bool-cases (not (is_some m) && at_least_high level)) [
      | inl demoted ↦ rw demoted (decide-Replays start _ d _ refl refl h)
      | inr kept ↦ rw kept h
    ]

governed-Replays :
    (start : ℕ) (eng : FusionEngine) (t : ThreatContext) (m c : Option ℕ) (d : Draft)
    → d.policies ≡ []
    → Replays start d
    → Replays start (governed eng t m c d)
unfolding governed
governed-Replays start eng t m c d none_yet h =
    let lifted = uplift eng.threat_uplift_cap t d in
    let floored = watch_floor eng.thresholds m c lifted in
    threat_cap-Replays start eng.thresholds t d.score (market_cap eng.thresholds m floored) (
      market_cap-Replays start eng.thresholds m floored (
        watch_floor-Replays start eng.thresholds m c lifted
          (uplift-Replays start eng.threat_uplift_cap t d none_yet h)))

final_severity-Replays :
    (start : ℕ) (t : ThresholdConfig) (m : Option ℕ) (corroboration : Bool) (confidence : ℕ)
    (d : Draft)
    → Replays start d
    → Replays start (final_severity t m corroboration confidence d).1
unfolding final_severity
final_severity-Replays start t m corroboration confidence d h =
    let justified = reaches (cent 65) m && (corroboration && leb (cent 40) confidence) in
    let (level, d') = demote_critical justified (severity_of t d.score) d in
    demote_missing_market-Replays start m level d'
      (demote_critical-Replays start justified (severity_of t d.score) d h)

module _ (eng : FusionEngine) (s : FeatureSnapshot) (outputs : List DetectorOutput)
    (ctx : FusionContext) where
  settled-Replays :
      Replays
        (min one (raw_weighted_score (weight_rows eng s outputs ctx)))
        (settled eng s outputs ctx).1
  unfolding scaled discounted ruled settled
  settled-Replays =
      let start = min one (raw_weighted_score (weight_rows eng s outputs ctx)) in
      let (first, none_yet) =
        calibrated-Replays eng ctx (baseline_confidence eng s outputs ctx)
          (raw_weighted_score (weight_rows eng s outputs ctx)) in
      let (second, still_none) =
        discount-Replays start ctx.legitimate_event_score (scaled eng s outputs ctx) none_yet
          first in
      final_severity-Replays start eng.thresholds (market_score eng s outputs ctx)
        (corroborated (detector_outputs eng s outputs ctx) ctx) (confidence eng s outputs ctx)
        (ruled eng s outputs ctx)
        (governed-Replays start eng (threat_context eng s outputs ctx)
          (market_score eng s outputs ctx) (coordination_score eng s outputs ctx)
          (discounted eng s outputs ctx) still_none second)

  -- The trace of every fused result accounts for its score: starting from the weighted mean, held at
  -- 1 or less, each adjustment and then each policy begins with the score that the one before it
  -- left, and the last one leaves the fused score.
  pub fused-Chains :
      (scored_at : ℕ)
      → let r = fused eng scored_at s outputs ctx in
        Chains
          (min one r.decision_trace.raw_weighted_score)
          (legs_of r.decision_trace.adjustments r.decision_trace.policy_decisions)
          r.fusion_score
  unfolding fused
  fused-Chains scored_at = settled-Replays

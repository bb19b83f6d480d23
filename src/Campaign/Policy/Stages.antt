-- ===== src/Campaign/Policy/Stages.antt =====
-- How a campaign moves through its stages.
use scam2marke.Prelude.{
  ℕ, ◌+◌, ◌≤◌, ◌≡◌, ◌≢◌, refl, ◌⊎◌, inl, inr, true, List, [], ◌∷◌, arith, length, ◌↔◌, Bool-cases,
  leb,
}
use scam2marke.Prelude.Int.{minus, ◌≤ℤ◌, ◌<ℤ◌}
use scam2marke.Prelude.Score.{one, cent}
use scam2marke.Fusion.Types.{FusionResult, RiskLevel}
use scam2marke.Campaign.Types.{CampaignStage, CampaignAssessment}
use scam2marke.Campaign.Policy.{
  ok, risk_rank, max_risk, allowed, price_return, pressure, social_or_raw, social, coordination,
  market, next_stage, stage_confidence, checked, assess, assessment, stage_after, run_stages,
}

-- The scores of a result lie between 0 and 1.
pub record IsScored (s : FusionResult) : Type 0 where
  pub market_bound : market s ≤ one
  pub social_bound : social s ≤ one
  pub coordination_bound : coordination s ≤ one
  pub confidence_bound : s.confidence ≤ one

next_stage-allowed : (c : CampaignStage) (s : FusionResult) → allowed c (next_stage c s).0 ≡ true
unfolding allowed next_stage
next_stage-allowed CampaignStage.normal s = ground arith
next_stage-allowed _ s = ground arith

stage_confidence-le-one :
    (c : CampaignStage) (s : FusionResult) → IsScored s → stage_confidence c s ≤ one
unfolding stage_confidence
stage_confidence-le-one CampaignStage.normal s h = omega arith
stage_confidence-le-one _ s h = omega arith

-- From every stage, a result whose scores lie between 0 and 1 is assessed: neither the transition
-- check nor the bound on the confidence ever fails, and the stage is the one that the rules choose.
pub assess-total :
    (c : CampaignStage) (s : FusionResult)
    → IsScored s
    → (assess c s ≡ ok (assessment c s)) × ((assessment c s).next_stage ≡ (next_stage c s).0)
unfolding assess checked assessment
assess-total c s h =
    (ground (arith, next_stage-allowed c s, stage_confidence-le-one (next_stage c s).0 s h), refl)

-- Either the score is refused, or its stage is the one that the rules choose.
stage_after_cases :
    (c : CampaignStage) (s : FusionResult)
    → (stage_after c (assess c s) ≡ c) ⊎ (stage_after c (assess c s) ≡ (next_stage c s).0)
unfolding assess checked assessment stage_after
stage_after_cases c s = elim (Bool-cases (leb (stage_confidence (next_stage c s).0 s) one)) [
  | inl fits ↦ inr (rw (next_stage-allowed c s, fits))
  | inr wide ↦ inl (rw (next_stage-allowed c s, wide))
]

pub assess-allowed :
    (c : CampaignStage) (s : FusionResult) (a : CampaignAssessment)
    → assess c s ≡ ok a
    → allowed c a.next_stage ≡ true
unfolding assess checked
assess-allowed c s a h = ground arith

-- How far a campaign has come.
abbrev pub progress : CampaignStage → ℕ
progress CampaignStage.normal = 0
progress CampaignStage.early_social_seeding = 1
progress CampaignStage.coordinated_amplification = 2
progress CampaignStage.market_pump = 3
progress CampaignStage.possible_distribution = 4
progress CampaignStage.dump = 5
progress CampaignStage.post_event = 6

next_stage-progress :
    (c : CampaignStage) (s : FusionResult)
    → 2 ≤ progress c
    → progress c ≤ progress (next_stage c s).0
unfolding next_stage
next_stage-progress CampaignStage.normal s h = absurd (omega arith)
next_stage-progress _ s h = ground arith

-- Once a campaign has gone beyond seeding, no sequence of scores takes it back: every later stage is
-- the same or further on.
pub run_stages-progress :
    (c : CampaignStage) (ss : List FusionResult)
    → 2 ≤ progress c
    → progress c ≤ progress (run_stages c ss)
unfolding run_stages
run_stages-progress c [] h = omega arith
run_stages-progress c (s ∷ ss) h =
    let d = stage_after c (assess c s) in
    let step : progress c ≤ progress d = elim (stage_after_cases c s) [
      | inl e ↦ rw e (omega arith)
      | inr e ↦ rw e (next_stage-progress c s h)
    ] in
    let rest = run_stages-progress d ss (omega arith) in omega arith

-- The fewest scores that take a new campaign to a stage.
abbrev pub depth : CampaignStage → ℕ
depth CampaignStage.normal = 0
depth CampaignStage.early_social_seeding = 1
depth CampaignStage.coordinated_amplification = 2
depth CampaignStage.market_pump = 2
depth _ = 3

next_stage-depth : (c : CampaignStage) (s : FusionResult) → depth (next_stage c s).0 ≤ depth c + 1
unfolding next_stage
next_stage-depth CampaignStage.normal s = ground arith
next_stage-depth _ s = ground arith

-- A campaign climbs one rung for a score at most: to be in distribution, in a dump or past the event
-- a campaign that starts out normal needs three scores, to be in a pump two.
pub run_stages-depth :
    (c : CampaignStage) (ss : List FusionResult) → depth (run_stages c ss) ≤ depth c + length ss
unfolding run_stages
run_stages-depth c [] = omega arith
run_stages-depth c (s ∷ ss) =
    let d = stage_after c (assess c s) in
    let step : depth d ≤ depth c + 1 = elim (stage_after_cases c s) [
      | inl e ↦ rw e (omega arith)
      | inr e ↦ rw e (next_stage-depth c s)
    ] in
    omega (arith, run_stages-depth d ss)

abbrev pub EntersFor : CampaignStage → FusionResult → Type 0
EntersFor CampaignStage.early_social_seeding s = cent 35 ≤ social_or_raw s
EntersFor CampaignStage.coordinated_amplification s = cent 55 ≤ coordination s
EntersFor CampaignStage.market_pump s =
    (cent 60 ≤ market s) × (risk_rank RiskLevel.high ≤ risk_rank s.severity)
EntersFor CampaignStage.possible_distribution s =
    (pressure s ≤ℤ minus (cent 25)) ⊎ (price_return s <ℤ minus (cent 2))
EntersFor CampaignStage.dump s =
    (price_return s ≤ℤ minus (cent 8)) ⊎ (pressure s ≤ℤ minus (cent 50))
EntersFor _ s = s.severity ≡ RiskLevel.normal

-- A campaign changes its stage only on the evidence for the new stage: seeding on social activity of
-- 0.35, amplification on coordination of 0.55, a pump on a market risk of 0.60 with a severity of
-- HIGH or more, distribution on sell pressure or a falling price, a dump on a fall of 8 % or
-- pressure of -0.50, and the return to normal and the end of the event on a normal severity.
pub next_stage-EntersFor :
    (c : CampaignStage) (s : FusionResult) → (next_stage c s).0 ≢ c → EntersFor (next_stage c s).0 s
unfolding next_stage
next_stage-EntersFor CampaignStage.normal s h = ground arith
next_stage-EntersFor _ s h = ground arith

-- `max_risk` is the join of the four levels: an upper bound of both, and below every other.
pub max_risk-join :
    (a b c : RiskLevel)
    → (risk_rank (max_risk a b) ≤ risk_rank c)
      ↔ ((risk_rank a ≤ risk_rank c) × (risk_rank b ≤ risk_rank c))
unfolding max_risk
max_risk-join a b c = ground arith

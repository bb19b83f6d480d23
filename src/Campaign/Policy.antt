-- ===== src/Campaign/Policy.antt =====
-- src/scam2market/campaigns/policy.py
pub mod Stages
pub mod Alerts
use scam2marke.Prelude.{
  ℕ, ◌-◌, String, Bool, true, false, ◌&&◌, ◌||◌, List, [], ◌∷◌, ◌++◌, Option, none, some, ltb, leb,
  ◌==◌, max, str_eq, if◌then◌else◌,
}
use scam2marke.Prelude.Int.{ℤ, pos, minus, leb_ℤ, ltb_ℤ, abs}
use scam2marke.Prelude.Score.{one, cent, or_score, or_zero}
use scam2marke.Fusion.Types.{FusionResult, RiskLevel}
use scam2marke.Campaign.Types.{
  CampaignStage, AlertType, AlertTrigger, ReasonCode, CampaignAssessment,
}

pub data PolicyError : Type 0 where
  invalid_campaign_transition confidence_out_of_range : PolicyError

pub data Assessed : Type 0 where
  ok : CampaignAssessment → Assessed
  err : PolicyError → Assessed

-- `_RISK_RANK`
abbrev pub risk_rank : RiskLevel → ℕ
risk_rank RiskLevel.normal = 0
risk_rank RiskLevel.watch = 1
risk_rank RiskLevel.high = 2
risk_rank RiskLevel.critical = 3

unfoldable pub max_risk : RiskLevel → RiskLevel → RiskLevel
max_risk left right = if leb (risk_rank right) (risk_rank left) then left else right

-- `severity == RiskLevel.normal`
abbrev pub is_normal : RiskLevel → Bool
is_normal r = risk_rank r == 0

-- `_transitions`, as a test of `target in _transitions[current]`.
unfoldable pub allowed : CampaignStage → CampaignStage → Bool
allowed CampaignStage.normal CampaignStage.normal = true
allowed CampaignStage.normal CampaignStage.early_social_seeding = true
allowed CampaignStage.early_social_seeding CampaignStage.normal = true
allowed CampaignStage.early_social_seeding CampaignStage.early_social_seeding = true
allowed CampaignStage.early_social_seeding CampaignStage.coordinated_amplification = true
allowed CampaignStage.early_social_seeding CampaignStage.market_pump = true
allowed CampaignStage.early_social_seeding CampaignStage.post_event = true
allowed CampaignStage.coordinated_amplification CampaignStage.coordinated_amplification = true
allowed CampaignStage.coordinated_amplification CampaignStage.market_pump = true
allowed CampaignStage.coordinated_amplification CampaignStage.dump = true
allowed CampaignStage.coordinated_amplification CampaignStage.post_event = true
allowed CampaignStage.market_pump CampaignStage.market_pump = true
allowed CampaignStage.market_pump CampaignStage.possible_distribution = true
allowed CampaignStage.market_pump CampaignStage.dump = true
allowed CampaignStage.possible_distribution CampaignStage.possible_distribution = true
allowed CampaignStage.possible_distribution CampaignStage.dump = true
allowed CampaignStage.possible_distribution CampaignStage.post_event = true
allowed CampaignStage.dump CampaignStage.dump = true
allowed CampaignStage.dump CampaignStage.post_event = true
allowed CampaignStage.post_event CampaignStage.post_event = true
allowed _ _ = false

-- The local variables that `_next_stage`, `_stage_confidence` and `_alerts` read off a score.
abbrev pub price_return : FusionResult → ℤ
price_return s = or_zero s.stage_signals.price_return

abbrev pub pressure : FusionResult → ℤ
pressure s = or_zero s.stage_signals.buy_sell_pressure

abbrev pub social_or_raw : FusionResult → ℕ
social_or_raw s = or_score s.social_coordination_risk (or_score s.social_score 0)

abbrev pub social : FusionResult → ℕ
social s = or_score s.social_coordination_risk 0

abbrev pub coordination : FusionResult → ℕ
coordination s = or_score s.coordination_score 0

abbrev pub market : FusionResult → ℕ
market s = or_score s.market_anomaly_risk 0

-- `market >= 0.60 and _RISK_RANK[score.severity] >= _RISK_RANK[RiskLevel.high]`
abbrev pub market_confirms : FusionResult → Bool
market_confirms s =
    leb (cent 60) (market s) && leb (risk_rank RiskLevel.high) (risk_rank s.severity)

-- `score.severity == RiskLevel.normal and social < 0.20`
abbrev pub has_decayed : FusionResult → Bool
has_decayed s = is_normal s.severity && ltb (social_or_raw s) (cent 20)

-- `_next_stage`
unfoldable pub next_stage : CampaignStage → FusionResult → CampaignStage × String
next_stage CampaignStage.normal s =
    if leb (cent 35) (social_or_raw s)
    then (CampaignStage.early_social_seeding, "social activity crossed watch threshold")
    else (CampaignStage.normal, "no campaign signal")
next_stage CampaignStage.early_social_seeding s =
    if market_confirms s
    then (CampaignStage.market_pump, "market evidence justified guarded stage skip")
    else if leb (cent 55) (coordination s)
    then (CampaignStage.coordinated_amplification, "coordination corroborated social seeding")
    else if has_decayed s
    then (CampaignStage.normal, "social signal decayed before corroboration")
    else (CampaignStage.early_social_seeding, "social seeding persists")
next_stage CampaignStage.coordinated_amplification s =
    if leb_ℤ (price_return s) (minus (cent 8))
    then (CampaignStage.dump, "sharp reversal justified guarded dump transition")
    else if market_confirms s
    then (CampaignStage.market_pump, "market anomaly corroborated coordination")
    else if has_decayed s
    then (CampaignStage.post_event, "coordinated activity ended without a pump")
    else (CampaignStage.coordinated_amplification, "coordinated amplification persists")
next_stage CampaignStage.market_pump s =
    if leb_ℤ (price_return s) (minus (cent 8))
    then (CampaignStage.dump, "price reversal crossed dump threshold")
    else if leb_ℤ (pressure s) (minus (cent 25)) || ltb_ℤ (price_return s) (minus (cent 2))
    then (
      CampaignStage.possible_distribution, "sell-pressure proxies indicate possible distribution",
    )
    else (CampaignStage.market_pump, "pump conditions persist")
next_stage CampaignStage.possible_distribution s =
    if leb_ℤ (price_return s) (minus (cent 8)) || leb_ℤ (pressure s) (minus (cent 50))
    then (CampaignStage.dump, "possible distribution progressed to a sharp selloff")
    else if is_normal s.severity
    then (CampaignStage.post_event, "possible distribution signal decayed")
    else (CampaignStage.possible_distribution, "possible distribution conditions persist")
next_stage CampaignStage.dump s =
    if is_normal s.severity
    then (CampaignStage.post_event, "dump activity returned to baseline")
    else (CampaignStage.dump, "campaign remains in terminal monitoring")
next_stage CampaignStage.post_event s =
    (CampaignStage.post_event, "campaign remains in terminal monitoring")

-- `_stage_confidence`; `max(0.0, 1.0 - score.fusion_score)` is a subtraction that stops at 0.
unfoldable pub stage_confidence : CampaignStage → FusionResult → ℕ
stage_confidence CampaignStage.normal s = one - s.fusion_score
stage_confidence CampaignStage.early_social_seeding s = social s
stage_confidence CampaignStage.coordinated_amplification s = max (social s) (coordination s)
stage_confidence CampaignStage.market_pump s = max (market s) s.confidence
stage_confidence CampaignStage.possible_distribution s = max (market s) s.confidence
stage_confidence CampaignStage.dump s = max (market s) s.confidence
stage_confidence CampaignStage.post_event s = s.confidence

-- The place of a code in the alphabetical order, by which `sorted` compares.
abbrev pub code_rank : ReasonCode → ℕ
code_rank ReasonCode.abnormal_return = 0
code_rank ReasonCode.public_data_proxy_only = 1
code_rank ReasonCode.relative_volume = 2
code_rank ReasonCode.sell_pressure_proxy = 3
code_rank ReasonCode.social_coordination = 4

-- The values whose tests hold: one `if` with its `append` after the other.
unfoldable pub raised {ℓ} : {A : Type ℓ} → List (Bool × A) → List A
raised [] = []
raised ((true, a) ∷ rules) = a ∷ raised rules
raised ((false, a) ∷ rules) = raised rules

-- `sorted(set(codes))`, one code after the other into its place, and not at all if it is there.
insert_code : ReasonCode → List ReasonCode → List ReasonCode
insert_code c [] = c ∷ []
insert_code c (d ∷ ds) =
    let rest = d ∷ insert_code c ds in
    if ltb (code_rank c) (code_rank d)
    then c ∷ d ∷ ds
    else if code_rank c == code_rank d
    then d ∷ ds
    else rest

sorted_codes : List ReasonCode → List ReasonCode
unfolding insert_code
sorted_codes [] = []
sorted_codes (c ∷ cs) = insert_code c (sorted_codes cs)

abbrev pub is_distribution : CampaignStage → Bool
is_distribution CampaignStage.possible_distribution = true
is_distribution _ = false

-- The five tests of `_reason_codes`, in the order of the code.
abbrev pub code_rules : CampaignStage → FusionResult → List (Bool × ReasonCode)
code_rules stage s =
    (leb_ℤ (pos (cent 8)) (price_return s), ReasonCode.abnormal_return)
    ∷ (leb_ℤ (pos (cent 250)) (or_zero s.stage_signals.relative_volume), ReasonCode.relative_volume)
    ∷ (leb (cent 35) (social s), ReasonCode.social_coordination)
    ∷ (leb_ℤ (pressure s) (minus (cent 25)), ReasonCode.sell_pressure_proxy)
    ∷ (is_distribution stage, ReasonCode.public_data_proxy_only)
    ∷ []

unfoldable pub reason_codes : CampaignStage → FusionResult → List ReasonCode
unfolding sorted_codes raised
reason_codes stage s = sorted_codes (raised (code_rules stage s))

abbrev pub trigger : AlertType → RiskLevel → String → AlertTrigger
trigger t r why = record { alert_type = t; severity = r; reason = why }

-- The eight tests of `_alerts`, in the order of the code, each with the alert that it appends.
abbrev pub alert_rules : FusionResult → List (Bool × AlertTrigger)
alert_rules s =
    (
      leb (cent 35) (social s),
      trigger AlertType.social_hype_surge s.social_coordination_severity
          "social hype or author concentration crossed threshold",
    )
    ∷ (
      leb (cent 55) (coordination s),
      trigger AlertType.coordinated_promotion s.social_coordination_severity
          "coordination heuristics crossed threshold",
    )
    ∷ (
      leb (cent 60) (or_score s.claim_risk 0),
      trigger AlertType.unverified_narrative (max_risk RiskLevel.watch s.severity)
          "narrative lacked time-valid official support",
    )
    ∷ (
      leb (cent 35) (market s) && leb_ℤ (pos (cent 250)) (or_zero s.stage_signals.relative_volume),
      trigger AlertType.market_volume_anomaly s.market_anomaly_severity
          "relative market volume crossed threshold",
    )
    ∷ (
      leb (cent 8) (abs (price_return s)),
      trigger AlertType.market_price_anomaly s.market_anomaly_severity
          "absolute price return crossed threshold",
    )
    ∷ (
      leb_ℤ (pos (cent 2)) (or_zero s.stage_signals.spread)
          || leb (cent 70) (abs (or_zero s.stage_signals.orderbook_imbalance)),
      trigger AlertType.market_microstructure_anomaly s.market_anomaly_severity
          "spread or order-book imbalance crossed threshold",
    )
    ∷ (
      leb (cent 35) s.fusion_score && (leb (cent 35) (market s) && leb (cent 35) (social s)),
      trigger AlertType.cross_domain_manipulation_risk s.severity
          "market and social evidence corroborated each other",
    )
    ∷ (
      leb_ℤ (price_return s) (minus (cent 5)) || leb_ℤ (pressure s) (minus (cent 35)),
      trigger AlertType.possible_dump_phase (max_risk RiskLevel.watch s.market_anomaly_severity)
          "negative return or sell pressure indicates a possible dump",
    )
    ∷ []

unfoldable pub alerts : FusionResult → List AlertTrigger
unfolding raised max_risk
alerts s = raised (alert_rules s)

-- `validate`, then the model's own bound on `stage_confidence`.
checked : CampaignStage → CampaignAssessment → Assessed
unfolding allowed
checked current a =
    if allowed current a.next_stage
    then if leb a.stage_confidence one then ok a else err confidence_out_of_range
    else err invalid_campaign_transition

unfoldable pub assessment : CampaignStage → FusionResult → CampaignAssessment
unfolding next_stage stage_confidence reason_codes alerts
assessment current s =
    let (target, reason) = next_stage current s in
    record {
      next_stage = target;
      transition_reason = reason;
      stage_confidence = stage_confidence target s;
      reason_codes = reason_codes target s;
      stage_evidence_ids = if str_eq s.idempotency_key "" then [] else s.idempotency_key ∷ [];
      rule_version = "campaign-stage-rules-v2";
      alerts = alerts s;
    }

unfoldable pub assess : CampaignStage → FusionResult → Assessed
unfolding checked assessment
assess current s = checked current (assessment current s)

-- The stage after a score: a score that is not assessed raises, and leaves the campaign as it was.
unfoldable pub stage_after : CampaignStage → Assessed → CampaignStage
stage_after c (ok a) = a.next_stage
stage_after c (err _) = c

unfoldable pub run_stages : CampaignStage → List FusionResult → CampaignStage
unfolding stage_after assess
run_stages c [] = c
run_stages c (s ∷ ss) = run_stages (stage_after c (assess c s)) ss

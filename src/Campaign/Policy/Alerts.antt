-- ===== src/Campaign/Policy/Alerts.antt =====
-- Which alerts and reason codes a score raises, and in what order.
use scam2marke.Prelude.{
  ℕ, ◌↔◌, if◌then◌else◌, suc, ◌≤◌, ◌<◌, ◌≡◌, ◌≢◌, refl, sym, ◌∙◌, Bool, true, false, ◌||◌, List, [],
  ◌∷◌, arith, ◌==◌,
}
use scam2marke.Prelude.Int.{minus, ◌≤ℤ◌}
use scam2marke.Prelude.Score.{cent}
use scam2marke.Fusion.Types.{FusionResult}
use scam2marke.Campaign.Types.{CampaignStage, AlertType, AlertTrigger, ReasonCode}
use scam2marke.Campaign.Policy.Stages.{next_stage-EntersFor, EntersFor}
use scam2marke.Campaign.Policy.{
  next_stage, code_rank, insert_code, sorted_codes, reason_codes, alerts, alert_rules, code_rules,
  raised, pressure,
}

-- The place of an alert type in the order in which `_alerts` tests for them.
abbrev pub alert_rank : AlertType → ℕ
alert_rank AlertType.social_hype_surge = 0
alert_rank AlertType.coordinated_promotion = 1
alert_rank AlertType.unverified_narrative = 2
alert_rank AlertType.market_volume_anomaly = 3
alert_rank AlertType.market_price_anomaly = 4
alert_rank AlertType.market_microstructure_anomaly = 5
alert_rank AlertType.cross_domain_manipulation_risk = 6
alert_rank AlertType.possible_dump_phase = 7

-- The ranks rise strictly, from `n` on.
abbrev pub Ascends : ℕ → List AlertTrigger → Type 0
Ascends n [] = Unit
Ascends n (a ∷ rest) = (n ≤ alert_rank a.alert_type) × Ascends (suc (alert_rank a.alert_type)) rest

abbrev RulesAscend : ℕ → List (Bool × AlertTrigger) → Type 0
RulesAscend n [] = Unit
RulesAscend n ((_, a) ∷ rest) =
    (n ≤ alert_rank a.alert_type) × RulesAscend (suc (alert_rank a.alert_type)) rest

raised-Ascends :
    (m n : ℕ) (rules : List (Bool × AlertTrigger))
    → m ≤ n
    → RulesAscend n rules
    → Ascends m (raised rules)
unfolding raised
raised-Ascends m n [] h p = tt
raised-Ascends m n ((true, a) ∷ rest) h p =
    (omega arith, raised-Ascends _ (suc (alert_rank a.alert_type)) rest (omega arith) p.1)
raised-Ascends m n ((false, a) ∷ rest) h p =
    raised-Ascends m (suc (alert_rank a.alert_type)) rest (omega arith) p.1

-- A score raises each type of alert at most once, in the order of the enumeration.
pub alerts-Ascends : (s : FusionResult) → Ascends 0 (alerts s)
unfolding alerts
alerts-Ascends s = raised-Ascends 0 0 (alert_rules s) (omega arith) (omega arith)

abbrev pub raises : AlertType → List AlertTrigger → Bool
raises t [] = false
raises t (a ∷ rest) = if alert_rank a.alert_type == alert_rank t then true else raises t rest

-- The tests of the rules for one type.
abbrev demands : AlertType → List (Bool × AlertTrigger) → Bool
demands t [] = false
demands t ((b, a) ∷ rest) =
    if alert_rank a.alert_type == alert_rank t then b || demands t rest else demands t rest

raises-raised :
    (t : AlertType) (rules : List (Bool × AlertTrigger)) → raises t (raised rules) ≡ demands t rules
unfolding raised
raises-raised t [] = refl
raises-raised t ((true, a) ∷ rest) = ground (arith, raises-raised t rest)
raises-raised t ((false, a) ∷ rest) = ground (arith, raises-raised t rest)

dump_cause :
    (c : CampaignStage) (s : FusionResult)
    → c ≢ CampaignStage.dump
    → (next_stage c s).0 ≡ CampaignStage.dump
    → EntersFor CampaignStage.dump s
dump_cause c s ne e = rw e at (next_stage-EntersFor c s (λ same. ne (sym same ∙ e)))

-- The score that takes a campaign into a dump also raises the alert of a possible dump.
pub dump-alert :
    (c : CampaignStage) (s : FusionResult)
    → c ≢ CampaignStage.dump
    → (next_stage c s).0 ≡ CampaignStage.dump
    → raises AlertType.possible_dump_phase (alerts s) ≡ true
unfolding alerts
dump-alert c s ne e =
    let cause = dump_cause c s ne e in
    raises-raised AlertType.possible_dump_phase (alert_rules s) ∙ ground arith

-- Each alert of a fused risk comes with the alert of its social half.
pub cross_domain-alert :
    (s : FusionResult)
    → raises AlertType.cross_domain_manipulation_risk (alerts s) ≡ true
    → raises AlertType.social_hype_surge (alerts s) ≡ true
unfolding alerts
cross_domain-alert s h =
    let test = sym (raises-raised AlertType.cross_domain_manipulation_risk (alert_rules s)) ∙ h in
    raises-raised AlertType.social_hype_surge (alert_rules s) ∙ ground (arith, test)

-- The codes rise strictly.
abbrev pub IsSorted : List ReasonCode → Type 0
IsSorted [] = Unit
IsSorted (c ∷ []) = Unit
IsSorted (c ∷ d ∷ ds) = (code_rank c < code_rank d) × IsSorted (d ∷ ds)

abbrev pub has_code : ReasonCode → List ReasonCode → Bool
has_code c [] = false
has_code c (d ∷ ds) = if code_rank c == code_rank d then true else has_code c ds

insert_code-IsSorted :
    (c : ReasonCode) (ds : List ReasonCode) → IsSorted ds → IsSorted (insert_code c ds)
unfolding insert_code
insert_code-IsSorted c [] h = tt
insert_code-IsSorted c (d ∷ []) h = ground arith
insert_code-IsSorted c (d ∷ e ∷ ds) h = ground (arith, insert_code-IsSorted c (e ∷ ds) h.1)

has_code-insert :
    (b c : ReasonCode) (ds : List ReasonCode)
    → has_code b (insert_code c ds) ≡ (if code_rank b == code_rank c then true else has_code b ds)
unfolding insert_code
has_code-insert b c [] = refl
has_code-insert b c (d ∷ ds) = ground (arith, has_code-insert b c ds)

sorted_codes-IsSorted : (cs : List ReasonCode) → IsSorted (sorted_codes cs)
unfolding sorted_codes
sorted_codes-IsSorted [] = tt
sorted_codes-IsSorted (c ∷ cs) = insert_code-IsSorted c (sorted_codes cs) (sorted_codes-IsSorted cs)

has_code-sorted :
    (b : ReasonCode) (cs : List ReasonCode) → has_code b (sorted_codes cs) ≡ has_code b cs
unfolding sorted_codes
has_code-sorted b [] = refl
has_code-sorted b (c ∷ cs) =
    ground (arith, has_code-sorted b cs, has_code-insert b c (sorted_codes cs))

abbrev calls_for : ReasonCode → List (Bool × ReasonCode) → Bool
calls_for c [] = false
calls_for c ((b, d) ∷ rest) =
    if code_rank c == code_rank d then b || calls_for c rest else calls_for c rest

has_code-raised :
    (c : ReasonCode) (rules : List (Bool × ReasonCode))
    → has_code c (raised rules) ≡ calls_for c rules
unfolding raised
has_code-raised c [] = refl
has_code-raised c ((true, d) ∷ rest) = ground (arith, has_code-raised c rest)
has_code-raised c ((false, d) ∷ rest) = ground (arith, has_code-raised c rest)

proxy_iff :
    (stage : CampaignStage) (s : FusionResult) (found : Bool)
    → found ≡ calls_for ReasonCode.public_data_proxy_only (code_rules stage s)
    → (found ≡ true) ↔ (stage ≡ CampaignStage.possible_distribution)
proxy_iff CampaignStage.normal s found e = ground arith
proxy_iff _ s found e = ground arith

-- The reason codes are in alphabetical order and without repetition; and the code for public data
-- stands among them exactly when the stage is a possible distribution, that for selling pressure
-- exactly when the pressure is -0.25 or less.
pub reason_codes-IsSorted :
    (stage : CampaignStage) (s : FusionResult)
    → IsSorted (reason_codes stage s)
      × ((has_code ReasonCode.public_data_proxy_only (reason_codes stage s) ≡ true)
          ↔ (stage ≡ CampaignStage.possible_distribution))
      × ((has_code ReasonCode.sell_pressure_proxy (reason_codes stage s) ≡ true)
          ↔ (pressure s ≤ℤ minus (cent 25)))
unfolding reason_codes
reason_codes-IsSorted stage s =
    let codes = raised (code_rules stage s) in
    let has =
      λ (b : ReasonCode). has_code-sorted b codes ∙ has_code-raised b (code_rules stage s) in
    (
      sorted_codes-IsSorted codes,
      proxy_iff stage s _ (has ReasonCode.public_data_proxy_only),
      ground (arith, has ReasonCode.sell_pressure_proxy),
    )

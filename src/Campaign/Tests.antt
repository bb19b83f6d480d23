-- ===== src/Campaign/Tests.antt =====
-- Tests of the campaigns, and the theorems about them at concrete inputs.
use scam2marke.Prelude.{
  ◌↔◌, ◌≤◌, ℕ, ◌≡◌, ◌≤◌, refl, true, false, Bool, [], ◌∷◌, arith, length, ◌==◌,
}
use scam2marke.Prelude.Dict.{lookup, contains, string_eq, pair_eq}
use scam2marke.Fusion.Types.{RiskLevel}
use scam2marke.Campaign.Types.{CampaignStage, AlertType, AlertTrigger, CampaignRecord}
use scam2marke.Campaign.Policy.{next_stage, run_stages, alerts, stage_after, assess, assessment}
use scam2marke.Campaign.Policy.Stages.{
  IsScored, progress, EntersFor, run_stages-progress, next_stage-EntersFor,
}
use scam2marke.Campaign.Common.{updated_campaign}
use scam2marke.Campaign.Memory.{apply, open_campaign, done, quiet_update}
use scam2marke.Campaign.Memory.Laws.{apply_twice}
use scam2marke.Campaign.Memory.Order.{Moved, apply-Advances}
use scam2marke.Campaign.Memory.Outbox.{Accounts, apply-Accounts}
use scam2marke.Campaign.Memory.Invariant.{IsValid, apply-IsValid}
use scam2marke.Campaign.Database.{rolled_back, lock_timeout, apply_sql}
use scam2marke.Campaign.Database.Lock.{apply_sql-lock}
use scam2marke.Campaign.Database.Actives.{actives, IsUnique, apply_sql-IsUnique}
use scam2marke.Campaign.Samples.{hot_score, evidence, amplified, store, database, mark}

hot_score-IsScored : IsScored hot_score
hot_score-IsScored = omega arith

apply-Advances_example : Moved evidence store amplified (apply mark evidence store)
unfolding contains open_campaign lookup
apply-Advances_example = apply-Advances mark evidence store amplified refl refl hot_score-IsScored

-- The evidence moves the campaign into a dump, and raises seven alerts.
apply_dumps :
    ((stage_after CampaignStage.coordinated_amplification
        (assess CampaignStage.coordinated_amplification hot_score))
      ≡ CampaignStage.dump)
    × (length (alerts hot_score) ≡ 7)
unfolding stage_after assess alerts
apply_dumps = (refl, refl)

-- The lock is taken at the third attempt.
abbrev third : ℕ → Bool
third k = k == 2

apply_sql-lock_example :
    ((apply_sql mark third evidence database).0 ≡ rolled_back lock_timeout)
    ↔ ((k : ℕ) → k ≤ 3 → third k ≡ false)
apply_sql-lock_example = apply_sql-lock mark third evidence database

database-IsUnique : IsUnique database
unfolding actives
database-IsUnique scope_id asset_id = ground arith

apply_sql-IsUnique_example : IsUnique (apply_sql mark third evidence database).1
apply_sql-IsUnique_example = apply_sql-IsUnique mark third evidence database database-IsUnique

-- The campaign that the evidence leaves.
abbrev dumped : CampaignRecord
dumped =
    updated_campaign amplified evidence
      (assessment CampaignStage.coordinated_amplification hot_score)

apply_twice_example :
    apply mark evidence (apply mark evidence store).1
    ≡ (done (quiet_update dumped true false), (apply mark evidence store).1)
unfolding apply contains lookup updated_campaign
apply_twice_example = apply_twice mark evidence store _ refl

apply-Accounts_example : Accounts mark store.outbox (apply mark evidence store)
apply-Accounts_example = apply-Accounts mark evidence store

store-IsValid : IsValid store
store-IsValid = record {
  campaigns_fit = ((refl, refl, omega arith, omega arith, refl), tt);
  alerts_fit = ((refl, refl, refl, omega arith, omega arith, refl), tt);
}

apply-IsValid_example : IsValid (apply mark evidence store).1
apply-IsValid_example = apply-IsValid mark evidence store store-IsValid

run_stages-progress_example :
    2 ≤ progress (run_stages CampaignStage.coordinated_amplification (hot_score ∷ hot_score ∷ []))
run_stages-progress_example =
    run_stages-progress CampaignStage.coordinated_amplification (hot_score ∷ hot_score ∷ [])
      (omega arith)

next_stage-EntersFor_example :
    EntersFor (next_stage CampaignStage.coordinated_amplification hot_score).0 hot_score
unfolding next_stage
next_stage-EntersFor_example =
    next_stage-EntersFor CampaignStage.coordinated_amplification hot_score (λ e. cc)

abbrev hype : AlertTrigger
hype = record {
  alert_type = AlertType.social_hype_surge;
  severity = RiskLevel.watch;
  reason = "hype";
}

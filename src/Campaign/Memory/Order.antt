-- ===== src/Campaign/Memory/Order.antt =====
-- The order in which `InMemoryCampaignRepository` lets evaluations change a campaign.
use scam2marke.Prelude.{
  ℕ, ◌+◌, ◌≤◌, String, true, false, Option, none, some, ◌≡◌, refl, ◌⊎◌, inr, arith,
}
use scam2marke.Campaign.Types.{CampaignEvidence, CampaignRecord, CampaignAssessment}
use scam2marke.Prelude.Dict.{lookup, contains, string_eq, pair_eq}
use scam2marke.Campaign.Policy.{ok, assess, allowed, risk_rank, max_risk}
use scam2marke.Campaign.Policy.Stages.{IsScored, assess-total, assess-allowed}
use scam2marke.Campaign.Common.{
  EvaluationOrder, order_leb, evaluation_order, applied_order, is_stale, updated_campaign,
  cutoff_of,
}
use scam2marke.Campaign.Memory.{
  Store, Applied, done, raised, key_of, stage_of, open_campaign, next_campaign, apply_assessed,
  apply,
}
use scam2marke.Campaign.Memory.Laws.{noted, apply_cases, open_campaign-lookup, assessed-Settles}

-- The order is total: what does not come at or before another comes at or after it.
order_leb-total : (a b : EvaluationOrder) → order_leb a b ≡ false → order_leb b a ≡ true
unfolding order_leb
order_leb-total a b h = ground arith

order_leb_trans :
    (a b c : EvaluationOrder) → order_leb a b ≡ true → order_leb b c ≡ true → order_leb a c ≡ true
unfolding order_leb
order_leb_trans a b c h k = ground arith

order_leb-antisym : (a b : EvaluationOrder) → order_leb a b ≡ true → order_leb b a ≡ true → a ≡ b
unfolding order_leb
order_leb-antisym a b h k = ground arith

-- `<=` on evaluation tuples is a linear order.
pub order_leb-linear :
    (a b c : EvaluationOrder)
    → ((order_leb a b ≡ false → order_leb b a ≡ true)
        × (order_leb a b ≡ true → order_leb b c ≡ true → order_leb a c ≡ true)
        × (order_leb a b ≡ true → order_leb b a ≡ true → a ≡ b))
order_leb-linear a b c = (order_leb-total a b, order_leb_trans a b c, order_leb-antisym a b)

-- Evidence at the place `o` comes strictly later than the last evaluation applied, if there is one.
abbrev pub Precedes : CampaignRecord → Option ℕ → EvaluationOrder → Type 0
Precedes c none o = Unit
Precedes c (some cutoff) o = order_leb o (applied_order cutoff c) ≡ false

-- What further evidence does to the campaign that is open for it.
pub record Advances (e : CampaignEvidence) (old new : CampaignRecord) : Type 0 where
  pub later : Precedes old old.last_applied_evidence_cutoff (evaluation_order e)
  pub applied : applied_order (cutoff_of e) new ≡ evaluation_order e
  pub same_campaign : new.campaign_id ≡ old.campaign_id
  pub stage_allowed : allowed old.stage new.stage ≡ true
  pub severity_kept : risk_rank old.max_severity ≤ risk_rank new.max_severity
  pub time_kept : old.last_evidence_at ≤ new.last_evidence_at
  pub counted : new.version ≡ old.version + 1

fresh-Precedes :
    (e : CampaignEvidence) (c : CampaignRecord) (cutoff : Option ℕ)
    → c.last_applied_evidence_cutoff ≡ cutoff
    → is_stale c e ≡ false
    → Precedes c cutoff (evaluation_order e)
unfolding is_stale
fresh-Precedes e c none h fresh = tt
fresh-Precedes e c (some cutoff) h fresh = rw h at fresh

updated-Advances :
    (e : CampaignEvidence) (c : CampaignRecord) (a : CampaignAssessment)
    → assess c.stage e.fusion ≡ ok a
    → is_stale c e ≡ false
    → Advances e c (updated_campaign c e a)
unfolding updated_campaign max_risk applied_order evaluation_order
updated-Advances e c a h fresh = record {
  later = fresh-Precedes e c c.last_applied_evidence_cutoff refl fresh;
  applied = refl;
  same_campaign = refl;
  stage_allowed = assess-allowed c.stage e.fusion a h;
  severity_kept = ground arith;
  time_kept = omega arith;
  counted = refl;
}

-- What the call does to the campaign `c` that is open for the evidence.
abbrev pub Moved : CampaignEvidence → Store → CampaignRecord → Applied × Store → Type 0
Moved e s c (raised f, t) = ⊥
Moved e s c (done u, t) =
    (lookup (key_of e) t.campaigns ≡ some u.campaign)
    × (((u.stale_evidence ≡ true) × (u.campaign ≡ c) × (is_stale c e ≡ true) × (t ≡ noted e s))
        ⊎ ((u.stale_evidence ≡ false) × Advances e c u.campaign))

apply_assessed-Moved :
    (uuid5 : String → String) (e : CampaignEvidence) (s : Store) (c : CampaignRecord)
    (a : CampaignAssessment)
    → assess c.stage e.fusion ≡ ok a
    → is_stale c e ≡ false
    → Moved e s c (apply_assessed uuid5 e (some c) a (noted e s))
unfolding apply_assessed next_campaign
apply_assessed-Moved uuid5 e s c a h fresh =
    ((assessed-Settles uuid5 e (some c) a s _ refl).1, inr (refl, updated-Advances e c a h fresh))

-- New evidence for an open campaign, with scores in [0, 1], is applied or stale: the call returns,
-- and the campaign that it returns is the one on record. Stale evidence changes nothing but the list
-- of evidence seen; other evidence comes strictly later in the order of evaluations than the last
-- one applied. Then its own place in the order is recorded, the stage makes an allowed transition,
-- neither the highest severity nor the time of the last evidence goes back, and the version counts
-- up by one.
pub apply-Advances :
    (uuid5 : String → String) (e : CampaignEvidence) (s : Store) (c : CampaignRecord)
    → contains s.evidence_ids e.event_id ≡ false
    → open_campaign e s ≡ some c
    → IsScored e.fusion
    → Moved e s c (apply uuid5 e s)
apply-Advances uuid5 e s c new found scored =
    apply_cases uuid5 (Moved e s c) e s (λ seen _. absurd (cc)) (λ d seen _. absurd (cc))
      (λ f _ h. absurd (cc ((assess-total (stage_of (open_campaign e s)) e.fusion scored).0)))
      (λ d _ known old. ground (arith, open_campaign-lookup uuid5 e s d known))
      (λ a _ h fresh. rw found (apply_assessed-Moved uuid5 e s c a (rw found at h) (fresh c found)))

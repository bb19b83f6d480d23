-- ===== src/Campaign/Memory/Laws.antt =====
-- The branches of `InMemoryCampaignRepository.apply`, and what each of them leaves alone.
use scam2marke.Prelude.{
  String, true, false, List, [], ◌∷◌, Option, none, some, ◌≡◌, refl, ap, ◌∙◌, inl, inr, subst,
  Bool-cases, Option-cases, arith,
}
use mathlib.Core.Option.{some-injective}
use scam2marke.Prelude.Dict.{
  lookup, insert, contains, lookup-insert, beq_refl, contains-cons_self, string_eq, pair_eq,
}
use scam2marke.Campaign.Types.{
  CampaignEvidence, CampaignRecord, CampaignUpdate, CampaignAssessment, AlertRecord, AlertTrigger,
}
use scam2marke.Campaign.Policy.{PolicyError, Assessed, ok, err, assess}
use scam2marke.Campaign.Common.{is_stale}
use scam2marke.Campaign.Memory.{
  Store, no_campaign, policy, Applied, done, raised, key_of, open_campaign, stage_of, next_campaign,
  write_campaign, apply_alert, apply_alerts, apply_assessed, quiet_update, apply_new,
  answer_duplicate, apply,
}

-- The store once the identifier of new evidence is noted.
abbrev pub noted : CampaignEvidence → Store → Store
noted e s = record s { evidence_ids = e.event_id ∷ s.evidence_ids }

module _ (uuid5 : String → String) where
  apply_new_cases {ℓ} :
      (P : Applied × Store → Type ℓ) (e : CampaignEvidence) (s : Store)
      (existing : Option CampaignRecord) (r : Assessed)
      → ((f : PolicyError) → r ≡ err f → P (raised (policy f), s))
      → ((c : CampaignRecord)
          → existing ≡ some c
          → is_stale c e ≡ true
          → P (done (quiet_update c false true), s))
      → ((a : CampaignAssessment)
          → r ≡ ok a
          → ((c : CampaignRecord) → existing ≡ some c → is_stale c e ≡ false)
          → P (apply_assessed uuid5 e existing a s))
      → P (apply_new uuid5 e existing r s)
  unfolding apply_new
  apply_new_cases P e s existing (err f) failed stale applied = failed f refl
  apply_new_cases P e s none (ok a) failed stale applied = applied a refl (λ c h. absurd (cc))
  apply_new_cases P e s (some c) (ok a) failed stale applied = elim (Bool-cases (is_stale c e)) [
    | inl old ↦ rw old (stale c refl old)
    | inr fresh ↦
        rw fresh
          (applied a refl (λ d h. subst (λ x. is_stale x e ≡ false) (some-injective _ _ h) fresh))
  ]

  -- How a call of `apply` can go: a duplicate without or with its campaign, a score that is not
  -- assessed, a stale evaluation, and an evaluation that is applied.
  pub apply_cases {ℓ} :
      (P : Applied × Store → Type ℓ) (e : CampaignEvidence) (s : Store)
      → (contains s.evidence_ids e.event_id ≡ true
          → lookup (key_of e) s.campaigns ≡ none
          → P (raised no_campaign, s))
      → ((c : CampaignRecord)
          → contains s.evidence_ids e.event_id ≡ true
          → lookup (key_of e) s.campaigns ≡ some c
          → P (done (quiet_update c true false), s))
      → ((f : PolicyError)
          → contains s.evidence_ids e.event_id ≡ false
          → assess (stage_of (open_campaign e s)) e.fusion ≡ err f
          → P (raised (policy f), noted e s))
      → ((c : CampaignRecord)
          → contains s.evidence_ids e.event_id ≡ false
          → open_campaign e s ≡ some c
          → is_stale c e ≡ true
          → P (done (quiet_update c false true), noted e s))
      → ((a : CampaignAssessment)
          → contains s.evidence_ids e.event_id ≡ false
          → assess (stage_of (open_campaign e s)) e.fusion ≡ ok a
          → ((c : CampaignRecord) → open_campaign e s ≡ some c → is_stale c e ≡ false)
          → P (apply_assessed uuid5 e (open_campaign e s) a (noted e s)))
      → P (apply uuid5 e s)
  unfolding apply answer_duplicate
  apply_cases P e s missing duplicate failed stale applied =
      elim (Bool-cases (contains s.evidence_ids e.event_id)) [
        | inl seen ↦ rw seen (elim (Option-cases (lookup (key_of e) s.campaigns)) [
          | inl gone ↦ rw (gone, answer_duplicate) (missing seen gone)
          | inr (c, found) ↦ rw (found, answer_duplicate) (duplicate c seen found)
        ])
        | inr fresh ↦ rw fresh (
            apply_new_cases P e (noted e s) (open_campaign e s) _ (λ f. failed f fresh)
              (λ c h. stale c fresh h) (λ a. applied a fresh))
      ]

  -- The loop over the triggers writes alerts and messages only.
  pub apply_alerts_frame :
      (e : CampaignEvidence) (c : CampaignRecord) (ts : List AlertTrigger) (s : Store)
      (rs : List AlertRecord) (ids : List String)
      → let t = (apply_alerts uuid5 e c ts (s, rs, ids)).0 in
        (t.campaigns ≡ s.campaigns)
        × (t.evidence_ids ≡ s.evidence_ids)
        × (t.stage_history ≡ s.stage_history)
  unfolding apply_alerts
  apply_alerts_frame e c [] s rs ids = (refl, refl, refl)
  apply_alerts_frame e c (t ∷ ts) s rs ids =
      let (s', rs', ids') = apply_alert uuid5 e c t (s, rs, ids) in
      let rest = apply_alerts_frame e c ts s' rs' ids' in
      let step : (s'.campaigns ≡ s.campaigns)
          × (s'.evidence_ids ≡ s.evidence_ids)
          × (s'.stage_history ≡ s.stage_history) =
        unfold apply_alert in ground arith in
      (rest.0 ∙ step.0, rest.1 ∙ step.1, rest.2 ∙ step.2)

  pub apply_assessed_frame :
      (e : CampaignEvidence) (existing : Option CampaignRecord) (a : CampaignAssessment) (s : Store)
      → let t = (apply_assessed uuid5 e existing a s).1 in
        (t.campaigns ≡ insert (key_of e) (next_campaign uuid5 e a existing) s.campaigns)
        × (t.evidence_ids ≡ s.evidence_ids)
  unfolding apply_assessed
  apply_assessed_frame e existing a s =
      let c = next_campaign uuid5 e a existing in
      let w = write_campaign uuid5 e existing c s in
      let rest = apply_alerts_frame e c a.alerts w.0 [] w.1 in
      let first : (w.0.campaigns ≡ insert (key_of e) c s.campaigns)
          × (w.0.evidence_ids ≡ s.evidence_ids) =
        unfold write_campaign in ground arith in
      (rest.0 ∙ first.0, rest.1 ∙ first.1)

  pub open_campaign-lookup :
      (e : CampaignEvidence) (s : Store) (c : CampaignRecord)
      → open_campaign e s ≡ some c
      → lookup (key_of e) s.campaigns ≡ some c
  unfolding open_campaign
  open_campaign-lookup e s c h = ground arith

  pub apply_assessed-campaign :
      (e : CampaignEvidence) (x : Option CampaignRecord) (a : CampaignAssessment) (s : Store)
      (u : CampaignUpdate)
      → (apply_assessed uuid5 e x a s).0 ≡ done u
      → next_campaign uuid5 e a x ≡ u.campaign
  unfolding apply_assessed
  apply_assessed-campaign e x a s u h = ground arith

  -- What a call that returned leaves behind: the evidence is noted and its campaign is on record.
  abbrev pub Settles : CampaignEvidence → Applied × Store → Type 0
  Settles e (r, s) =
      (u : CampaignUpdate)
      → r ≡ done u
      → (contains s.evidence_ids e.event_id ≡ true)
        × (lookup (key_of e) s.campaigns ≡ some u.campaign)

  pub assessed-Settles :
      (e : CampaignEvidence) (x : Option CampaignRecord) (a : CampaignAssessment) (s : Store)
      → Settles e (apply_assessed uuid5 e x a (noted e s))
  assessed-Settles e x a s u h =
      let frame = apply_assessed_frame e x a (noted e s) in
      (
        ap (λ ids. contains ids e.event_id) frame.1 ∙ contains-cons_self e.event_id s.evidence_ids,
        ap (lookup (key_of e)) frame.0
            ∙ lookup-insert (key_of e) (key_of e) (next_campaign uuid5 e a x) s.campaigns
            ∙ rw (beq_refl (key_of e)) (ap some (apply_assessed-campaign e x a (noted e s) u h)),
      )

  apply-Settles : (e : CampaignEvidence) (s : Store) → Settles e (apply uuid5 e s)
  apply-Settles e s =
      apply_cases (Settles e) e s (λ seen gone u h. cc) (λ c seen found u h. (seen, ground arith))
        (λ f new _ u h. cc)
        (λ c new found old u h.
          let known = open_campaign-lookup e s c found in
          (contains-cons_self e.event_id s.evidence_ids, ground arith))
        (λ a new _ _. assessed-Settles e (open_campaign e s) a s)

  -- Evidence is applied once: after a call that returned, the same evidence again changes nothing,
  -- sends nothing, and returns the campaign of the first call marked as a duplicate.
  pub apply_twice :
      (e : CampaignEvidence) (s : Store) (u : CampaignUpdate)
      → (apply uuid5 e s).0 ≡ done u
      → apply uuid5 e (apply uuid5 e s).1
        ≡ (done (quiet_update u.campaign true false), (apply uuid5 e s).1)
  apply_twice e s u h =
      let (seen, found) = apply-Settles e s u h in unfold apply answer_duplicate in rw (seen, found)

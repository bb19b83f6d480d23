-- ===== src/Campaign/Database/Lock.antt =====
-- src/scam2market/campaigns/repository.py: the advisory lock of `SqlCampaignRepository.apply`.
use scam2marke.Prelude.{
  ℕ, zero, suc, ◌+◌, ◌<◌, ◌≤◌, ◌≡◌, ◌↔◌, refl, sym, ◌∙◌, String, Bool, true, false, List, [],
  Option, none, some, arith, Bool-cases, Option-cases, inl, inr, is_some,
}
use scam2marke.Prelude.Dict.{lookup, string_eq}
use scam2marke.Campaign.Types.{CampaignEvidence, CampaignRecord, CampaignStage}
use scam2marke.Campaign.Policy.{Assessed, ok, err, assess}
use scam2marke.Campaign.Common.{is_stale, gap_elapsed, new_campaign}
use scam2marke.Campaign.Database.{
  Database, Outcome, committed, rolled_back, lock_timeout, end_transaction, acquire, get_campaign,
  select_active, close_campaign, finish, write_assessed, apply_fresh, answer_prior, apply_within,
  apply_sql,
}

-- The attempts fail to take the lock only when the database answers none of them.
acquire_iff :
    (answers : ℕ → Bool) (remaining start : ℕ)
    → (acquire answers remaining start ≡ true)
      ↔ ((k : ℕ) × (start ≤ k) × (k < start + remaining) × (answers k ≡ true))
unfolding acquire
acquire_iff answers zero start = (λ h. absurd (cc), λ (k, lo, hi, h). absurd (omega arith))
acquire_iff answers (suc n) start = elim (Bool-cases (answers start)) [
  | inl said ↦ (λ h. (start, omega arith, omega arith, said), λ h. rw said refl)
  | inr unsaid ↦
      let (to, fro) = acquire_iff answers n (start + 1) in
      (
        λ h.
            let later : acquire answers n (start + 1) ≡ true = ground (arith, h, unsaid) in
            let (k, lo, hi, said) = to later in (k, omega arith, omega arith, said),
        λ (k, lo, hi, said).
            let apart : start + 1 ≤ k = grind (arith, unsaid, said) in
            rw unsaid (fro (k, apart, omega arith, said)),
      )
]

abbrev Unlocked : Outcome → Type 0
Unlocked (committed u) = ⊥
Unlocked (rolled_back f) = f ≡ lock_timeout

true-false : true ≡ false → ⊥
true-false h = cc

module _ (uuid5 : String → String) where
  write_assessed-held :
      (e : CampaignEvidence) (existing : Option CampaignRecord) (r : Assessed) (now : Database)
      (ids : List String)
      → Unlocked (write_assessed uuid5 e existing r (now, ids)).0
      → ⊥
  unfolding write_assessed finish
  write_assessed-held e existing (err f) now ids h = cc
  write_assessed-held e none (ok a) now ids h =
      elim (Bool-cases
        (is_some (get_campaign (new_campaign uuid5 e a).campaign_id now.campaigns))) [
          | inl there ↦ let same = rw there at h in cc
          | inr absent ↦ rw absent at h
        ]
  write_assessed-held e (some old) (ok a) now ids h = h

  apply_fresh-held :
      (e : CampaignEvidence) (existing : Option CampaignRecord) (db : Database)
      → Unlocked (apply_fresh uuid5 e existing db).0
      → ⊥
  unfolding apply_fresh
  apply_fresh-held e none db h =
      write_assessed-held e none (assess CampaignStage.normal e.fusion) db [] h
  apply_fresh-held e (some c) db h = elim (Bool-cases (is_stale c e)) [
    | inl old ↦ rw old at h
    | inr fresh ↦ elim (Bool-cases (gap_elapsed db.merge_gap c e)) [
      | inl past ↦
          let (now, ids) = close_campaign uuid5 e c db in
          write_assessed-held e none (assess CampaignStage.normal e.fusion) now ids
            (rw past at (rw fresh at h))
      | inr near ↦
          write_assessed-held e (some c) (assess c.stage e.fusion) db []
            (rw near at (rw fresh at h))
    ]
  ]

  answer_prior-held :
      (found : Option CampaignRecord) (db : Database) → Unlocked (answer_prior uuid5 found db).0 → ⊥
  answer_prior-held none db h = cc
  answer_prior-held (some c) db h = h

  apply_within-held :
      (answers : ℕ → Bool) (e : CampaignEvidence) (db : Database)
      → Unlocked (apply_within uuid5 answers e db).0
      → acquire answers (db.lock_retry_count + 1) 0 ≡ false
  unfolding apply_within
  apply_within-held answers e db h =
      elim (Bool-cases (acquire answers (db.lock_retry_count + 1) 0)) [
        | inr refused ↦ refused
        | inl held ↦ elim (Option-cases (lookup e.event_id db.evidence)) [
          | inr (prior, seen) ↦ absurd (
              answer_prior-held (get_campaign prior.campaign_id db.campaigns) db
                (rw seen at (rw held at h)))
          | inl new ↦ absurd (
              apply_fresh-held e (select_active e.fusion.scope_id e.fusion.asset_id db.campaigns) db
                (rw new at (rw held at h)))
        ]
      ]

  apply_within-refused :
      (answers : ℕ → Bool) (e : CampaignEvidence) (db : Database)
      → acquire answers (db.lock_retry_count + 1) 0 ≡ false
      → Unlocked (apply_within uuid5 answers e db).0
  unfolding apply_within
  apply_within-refused answers e db refused = rw refused refl

  end_transaction-outcome :
      (db : Database) (r : Outcome × Database) → (end_transaction db r).0 ≡ r.0
  end_transaction-outcome db (committed u, written) = refl
  end_transaction-outcome db (rolled_back f, written) = refl

  Unlocked-timeout : (o : Outcome) → o ≡ rolled_back lock_timeout → Unlocked o
  Unlocked-timeout (committed u) same = cc
  Unlocked-timeout (rolled_back f) same = cc

  Unlocked-raised : (o : Outcome) → Unlocked o → o ≡ rolled_back lock_timeout
  Unlocked-raised (committed u) unlocked = absurd unlocked
  Unlocked-raised (rolled_back f) unlocked = cc

  -- The call raises the lock's timeout exactly where the database refuses the lock at the first
  -- attempt and at each of the `lock_retry_count` others.
  pub apply_sql-lock :
      (answers : ℕ → Bool) (e : CampaignEvidence) (db : Database)
      → ((apply_sql uuid5 answers e db).0 ≡ rolled_back lock_timeout)
        ↔ ((k : ℕ) → k ≤ db.lock_retry_count → answers k ≡ false)
  unfolding apply_sql
  apply_sql-lock answers e db =
      let same = end_transaction-outcome db (apply_within uuid5 answers e db) in
      let iff = acquire_iff answers (db.lock_retry_count + 1) 0 in
      (
        λ h k few. elim (Bool-cases (answers k)) [
          | inr refused ↦ refused
          | inl granted ↦
              let none_held = apply_within-held answers e db (Unlocked-timeout _ (sym same ∙ h)) in
              let held = iff.1 (k, omega arith, omega arith, granted) in
              absurd (true-false (sym held ∙ none_held))
        ],
        λ refused.
            same
            ∙ Unlocked-raised _ (
                apply_within-refused answers e db
                  (elim (Bool-cases (acquire answers (db.lock_retry_count + 1) 0)) [
                    | inr never ↦ never
                    | inl held ↦
                        let (k, _, few, granted) = iff.0 held in
                        absurd (true-false (sym granted ∙ refused k (omega arith)))
                  ])),
      )

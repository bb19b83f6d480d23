-- ===== src/Campaign/Database/Actives.antt =====
-- At most one campaign is active for an asset within a scope.
use scam2marke.Prelude.{
  ℕ, ◌+◌, ◌≤◌, ◌≡◌, refl, ◌∙◌, String, Bool, true, false, List, [], ◌∷◌, ◌++◌, Option, none, some,
  arith, Bool-cases, Option-cases, inl, inr, is_some, eq_iff, subst,
}
use mathlib.Core.Option.{some-injective}
use scam2marke.Prelude.Dict.{lookup, string_eq, pair_eq}
use scam2marke.Campaign.Types.{
  CampaignEvidence, CampaignRecord, CampaignStage, CampaignAssessment, AlertTrigger, AlertRecord,
}
use scam2marke.Campaign.Policy.{Assessed, ok, err, assess}
use scam2marke.Campaign.Common.{is_stale, gap_elapsed, new_campaign, updated_campaign}
use scam2marke.Campaign.Alerting.{change_alert}
use scam2marke.Campaign.Memory.{alert_type_eq, stage_differs}
use scam2marke.Campaign.Database.{
  Database, CampaignRow, acquire, get_campaign, select_active, replace_active, close_campaign,
  is_selected, finish, write_assessed, apply_fresh, answer_prior, apply_within, apply_sql,
  end_transaction, Outcome, committed, rolled_back, open_new, continue_old, upsert_alert,
  upsert_alerts, open_row, closed_row, add_evidence,
}

abbrev count_if : Bool → ℕ
count_if true = 1
count_if false = 0

-- The number of rows that are active for the key.
unfoldable pub actives : String → String → List CampaignRow → ℕ
actives scope_id asset_id [] = 0
actives scope_id asset_id (r ∷ rs) =
    count_if (is_selected scope_id asset_id r) + actives scope_id asset_id rs

-- The partial unique index `uq_campaign_active_scope_asset` of the table.
abbrev pub IsUnique : Database → Type 0
IsUnique db = (scope_id asset_id : String) → actives scope_id asset_id db.campaigns ≤ 1

module _ (scope_id asset_id : String) where
  actives-append :
      (rs : List CampaignRow) (r : CampaignRow)
      → actives scope_id asset_id (rs ++ r ∷ [])
        ≡ actives scope_id asset_id rs + count_if (is_selected scope_id asset_id r)
  unfolding actives
  actives-append [] r = omega arith
  actives-append (x ∷ rs) r = omega (arith, actives-append rs r)

  select_active-none :
      (rs : List CampaignRow)
      → select_active scope_id asset_id rs ≡ none
      → actives scope_id asset_id rs ≡ 0
  unfolding actives select_active
  select_active-none [] h = refl
  select_active-none (r ∷ rs) h = elim (Bool-cases (is_selected scope_id asset_id r)) [
    | inl hit ↦ absurd (cc (rw hit at h))
    | inr miss ↦ let rest = select_active-none rs (rw miss at h) in rw miss (omega arith)
  ]

  -- Replacing the active row moves the count of every key by the difference of the two rows.
  actives-replace_active :
      (scope' asset' : String) (new : CampaignRow) (c : CampaignRecord) (rs : List CampaignRow)
      → select_active scope_id asset_id rs ≡ some c
      → (actives scope' asset' (replace_active scope_id asset_id new rs)
            + count_if (is_selected scope' asset' (open_row c))
          ≡ actives scope' asset' rs + count_if (is_selected scope' asset' new))
        × (is_selected scope_id asset_id (open_row c) ≡ true)
  unfolding actives select_active replace_active
  actives-replace_active scope' asset' new c [] h = absurd (cc)
  actives-replace_active scope' asset' new c (r ∷ rs) h =
      elim (Bool-cases (is_selected scope_id asset_id r)) [
        | inl hit ↦
            let same = some-injective _ _ (rw hit at h) in
            rw hit (
              subst
                (λ x.
                  (count_if (is_selected scope' asset' new)
                      + actives scope' asset' rs
                      + count_if (is_selected scope' asset' (open_row x))
                    ≡ count_if (is_selected scope' asset' r)
                      + actives scope' asset' rs
                      + count_if (is_selected scope' asset' new))
                  × (is_selected scope_id asset_id (open_row x) ≡ true))
                same (omega arith, hit))
        | inr miss ↦
            let (count, sel) = actives-replace_active scope' asset' new c rs (rw miss at h) in
            rw miss (omega arith, sel)
      ]

-- A row is selected only by its own key.
is_selected_key :
    (scope_id asset_id : String) (r : CampaignRow)
    → is_selected scope_id asset_id r ≡ true
    → (r.campaign.scope_id ≡ scope_id) × (r.campaign.asset_id ≡ asset_id)
is_selected_key scope_id asset_id r h =
    ground (arith, eq_iff r.campaign.scope_id scope_id, eq_iff r.campaign.asset_id asset_id)

append-fits :
    (scope_id asset_id : String) (rs : List CampaignRow) (r : CampaignRow)
    → actives r.campaign.scope_id r.campaign.asset_id rs ≡ 0
    → actives scope_id asset_id rs ≤ 1
    → actives scope_id asset_id (rs ++ r ∷ []) ≤ 1
append-fits scope_id asset_id rs r free fits =
    let count = actives-append scope_id asset_id rs r in
    elim (Bool-cases (is_selected scope_id asset_id r)) [
      | inr other ↦ let same = rw other at count in omega arith
      | inl mine ↦
          let (scope, asset) = is_selected_key scope_id asset_id r mine in
          let none_there : actives scope_id asset_id rs ≡ 0 = rw (scope, asset) at free in
          let more = rw mine at count in omega arith
    ]

closed_row-closed :
    (scope_id asset_id : String) (c : CampaignRecord)
    → is_selected scope_id asset_id (closed_row c) ≡ false
closed_row-closed scope_id asset_id c = ground arith

module _ (uuid5 : String → String) where
  upsert_alert-campaigns :
      (e : CampaignEvidence) (c : CampaignRecord) (t : AlertTrigger) (db : Database)
      (records : List AlertRecord) (ids : List String)
      → (upsert_alert uuid5 e c t (db, records, ids)).0.campaigns ≡ db.campaigns
  unfolding upsert_alert
  upsert_alert-campaigns e c t db records ids =
      elim (Bool-cases
        (change_alert uuid5 db.suppression e c.campaign_id t
          (lookup (c.campaign_id, t.alert_type) db.alerts)).suppressed) [
            | inl held ↦ rw held refl
            | inr sent ↦ rw sent refl
          ]

  upsert_alerts-campaigns :
      (e : CampaignEvidence) (c : CampaignRecord) (ts : List AlertTrigger) (db : Database)
      (records : List AlertRecord) (ids : List String)
      → (upsert_alerts uuid5 e c ts (db, records, ids)).0.campaigns ≡ db.campaigns
  unfolding upsert_alerts
  upsert_alerts-campaigns e c [] db records ids = refl
  upsert_alerts-campaigns e c (t ∷ ts) db records ids =
      let (db', records', ids') = upsert_alert uuid5 e c t (db, records, ids) in
      upsert_alerts-campaigns e c ts db' records' ids' ∙ upsert_alert-campaigns e c t db records ids

  finish-campaigns :
      (e : CampaignEvidence) (a : CampaignAssessment) (c : CampaignRecord) (now : Database)
      (ids : List String)
      → (finish uuid5 e a c (now, ids)).1.campaigns ≡ now.campaigns
  unfolding finish
  finish-campaigns e a c now ids =
      upsert_alerts-campaigns e c a.alerts (add_evidence e c now) [] ids

  continue_old-campaigns :
      (e : CampaignEvidence) (a : CampaignAssessment) (old c : CampaignRecord) (db : Database)
      (ids : List String)
      → (continue_old uuid5 e a old c db ids).0.campaigns
        ≡ replace_active e.fusion.scope_id e.fusion.asset_id (open_row c) db.campaigns
  unfolding continue_old
  continue_old-campaigns e a old c db ids = elim (Bool-cases (stage_differs c.stage old.stage)) [
    | inl moved ↦ rw moved refl
    | inr stays ↦ rw stays refl
  ]

  -- What the rows are when a campaign is written: none active for the key, or the one that goes on.
  abbrev IsReady : CampaignEvidence → Option CampaignRecord → List CampaignRow → Type 0
  IsReady e none rs = actives e.fusion.scope_id e.fusion.asset_id rs ≡ 0
  IsReady e (some c) rs = select_active e.fusion.scope_id e.fusion.asset_id rs ≡ some c

  new_row-fits :
      (e : CampaignEvidence) (a : CampaignAssessment) (scope_id asset_id : String)
      (rs : List CampaignRow)
      → actives e.fusion.scope_id e.fusion.asset_id rs ≡ 0
      → actives scope_id asset_id rs ≤ 1
      → actives scope_id asset_id (rs ++ open_row (new_campaign uuid5 e a) ∷ []) ≤ 1
  unfolding new_campaign
  new_row-fits e a scope_id asset_id rs free fits =
      append-fits scope_id asset_id rs (open_row (new_campaign uuid5 e a)) free fits

  old_row-fits :
      (e : CampaignEvidence) (a : CampaignAssessment) (old : CampaignRecord)
      (scope_id asset_id : String) (rs : List CampaignRow)
      → select_active e.fusion.scope_id e.fusion.asset_id rs ≡ some old
      → actives scope_id asset_id rs ≤ 1
      → actives scope_id asset_id (
          replace_active e.fusion.scope_id e.fusion.asset_id
            (open_row (updated_campaign old e a))
            rs)
        ≤ 1
  unfolding updated_campaign
  old_row-fits e a old scope_id asset_id rs found fits =
      let (count, selected) =
        actives-replace_active e.fusion.scope_id e.fusion.asset_id scope_id asset_id
          (open_row (updated_campaign old e a)) old rs found in
      omega arith

  write_assessed-IsUnique :
      (e : CampaignEvidence) (existing : Option CampaignRecord) (r : Assessed) (now : Database)
      (ids : List String)
      → IsUnique now
      → IsReady e existing now.campaigns
      → IsUnique (write_assessed uuid5 e existing r (now, ids)).1
  unfolding write_assessed open_new
  write_assessed-IsUnique e existing (err f) now ids fits ready = fits
  write_assessed-IsUnique e none (ok a) now ids fits ready =
      let c = new_campaign uuid5 e a in
      let (written, ids') = open_new uuid5 e a c now ids in
      elim (Bool-cases (is_some (get_campaign c.campaign_id now.campaigns))) [
        | inl there ↦ rw there fits
        | inr absent ↦
            rw (absent, finish-campaigns e a c written ids')
              (λ scope_id asset_id.
                new_row-fits e a scope_id asset_id now.campaigns ready (fits scope_id asset_id))
      ]
  write_assessed-IsUnique e (some old) (ok a) now ids fits ready =
      let c = updated_campaign old e a in
      let (written, ids') = continue_old uuid5 e a old c now ids in
      rw (finish-campaigns e a c written ids', continue_old-campaigns e a old c now ids)
        (λ scope_id asset_id.
          old_row-fits e a old scope_id asset_id now.campaigns ready (fits scope_id asset_id))

  close_campaign-fits :
      (e : CampaignEvidence) (c : CampaignRecord) (db : Database)
      → IsUnique db
      → select_active e.fusion.scope_id e.fusion.asset_id db.campaigns ≡ some c
      → IsUnique (close_campaign uuid5 e c db).0
        × (actives e.fusion.scope_id e.fusion.asset_id (close_campaign uuid5 e c db).0.campaigns
            ≡ 0)
  unfolding close_campaign
  close_campaign-fits e c db unique found =
      let count = λ (scope_id asset_id : String).
        actives-replace_active e.fusion.scope_id e.fusion.asset_id scope_id asset_id (closed_row c)
          c db.campaigns found in
      (
        λ scope_id asset_id.
            let (moved, selected) = count scope_id asset_id in
            let gone = closed_row-closed scope_id asset_id c in
            let before = unique scope_id asset_id in grind (arith, gone, moved, before),
        let (moved, selected) = count e.fusion.scope_id e.fusion.asset_id in
            let gone = closed_row-closed e.fusion.scope_id e.fusion.asset_id c in
            let before = unique e.fusion.scope_id e.fusion.asset_id in
            grind (arith, gone, moved, before, selected),
      )

  answer_prior-IsUnique :
      (found : Option CampaignRecord) (db : Database)
      → IsUnique db
      → IsUnique (answer_prior uuid5 found db).1
  answer_prior-IsUnique none db unique = unique
  answer_prior-IsUnique (some c) db unique = unique

  apply_fresh-IsUnique :
      (e : CampaignEvidence) (existing : Option CampaignRecord) (db : Database)
      → IsUnique db
      → select_active e.fusion.scope_id e.fusion.asset_id db.campaigns ≡ existing
      → IsUnique (apply_fresh uuid5 e existing db).1
  unfolding apply_fresh
  apply_fresh-IsUnique e none db unique found =
      write_assessed-IsUnique e none (assess CampaignStage.normal e.fusion) db [] unique
        (select_active-none e.fusion.scope_id e.fusion.asset_id db.campaigns found)
  apply_fresh-IsUnique e (some c) db unique found = elim (Bool-cases (is_stale c e)) [
    | inl old ↦ rw old unique
    | inr fresh ↦ elim (Bool-cases (gap_elapsed db.merge_gap c e)) [
      | inl past ↦
          let (now, ids) = close_campaign uuid5 e c db in
          let (still, free) = close_campaign-fits e c db unique found in
          rw (fresh, past)
            (write_assessed-IsUnique e none (assess CampaignStage.normal e.fusion) now ids still
              free)
      | inr near ↦
          rw (fresh, near)
            (write_assessed-IsUnique e (some c) (assess c.stage e.fusion) db [] unique found)
    ]
  ]

  end_transaction-IsUnique :
      (db : Database) (r : Outcome × Database)
      → IsUnique db
      → IsUnique r.1
      → IsUnique (end_transaction db r).1
  end_transaction-IsUnique db (committed u, written) before after = after
  end_transaction-IsUnique db (rolled_back f, written) before after = before

  apply_within-IsUnique :
      (answers : ℕ → Bool) (e : CampaignEvidence) (db : Database)
      → IsUnique db
      → IsUnique (apply_within uuid5 answers e db).1
  unfolding apply_within
  apply_within-IsUnique answers e db unique =
      elim (Bool-cases (acquire answers (db.lock_retry_count + 1) 0)) [
        | inr refused ↦ rw refused unique
        | inl held ↦ elim (Option-cases (lookup e.event_id db.evidence)) [
          | inr (prior, seen) ↦
              rw (held, seen)
                (answer_prior-IsUnique (get_campaign prior.campaign_id db.campaigns) db unique)
          | inl new ↦
              rw (held, new)
                (apply_fresh-IsUnique e
                  (select_active e.fusion.scope_id e.fusion.asset_id db.campaigns) db unique refl)
        ]
      ]

  -- Every call keeps at most one campaign active for an asset within a scope, so that the unique index
  -- of the table never stops it: not when it opens a campaign, nor when it closes one for another.
  pub apply_sql-IsUnique :
      (answers : ℕ → Bool) (e : CampaignEvidence) (db : Database)
      → IsUnique db
      → IsUnique (apply_sql uuid5 answers e db).1
  unfolding apply_sql
  apply_sql-IsUnique answers e db unique =
      end_transaction-IsUnique db (apply_within uuid5 answers e db) unique
        (apply_within-IsUnique answers e db unique)

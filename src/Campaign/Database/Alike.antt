-- ===== src/Campaign/Database/Alike.antt =====
-- src/scam2market/campaigns/repository.py: the steps of `apply` in both stores, side by side.
use scam2marke.Prelude.{
  str_eq, ◌++◌, ap, if◌then◌else◌, ◌≡◌, refl, ◌∙◌, String, true, false, List, [], ◌∷◌, Option, none,
  some, Bool-cases, inl, inr, is_some, subst,
}
use scam2marke.Prelude.Dict.{lookup, contains, string_eq, pair_eq}
use scam2marke.Campaign.Types.{
  CampaignEvidence, CampaignRecord, CampaignAssessment, AlertTrigger, AlertRecord,
}
use scam2marke.Campaign.Policy.{ok}
use scam2marke.Campaign.Policy.Stages.{IsScored}
use mathlib.Core.Option.{some-injective}
use scam2marke.Campaign.Common.{is_stale, gap_elapsed, new_campaign, updated_campaign, domain_event}
use scam2marke.Campaign.Alerting.{change_alert}
use scam2marke.Campaign.Memory.{
  alert_type_eq, stage_differs, Store, Applied, done, raised, policy, apply_new, apply_assessed,
  apply_alert, apply_alerts, write_campaign, next_campaign, key_of, send_if,
}
use scam2marke.Campaign.Database.{
  CampaignRow, is_selected, closed_row, close_campaign, replace_active, Database, Outcome,
  committed, rolled_back, refused, get_campaign, select_active, finish, write_assessed, apply_fresh,
  open_new, continue_old, upsert_alert, upsert_alerts, add_evidence,
}

append_assoc : (xs ys zs : List String) → xs ++ (ys ++ zs) ≡ (xs ++ ys) ++ zs
append_assoc [] ys zs = refl
append_assoc (x ∷ xs) ys zs = ap (λ us. x ∷ us) (append_assoc xs ys zs)

emitted_more :
    (first xs ys : List String) (id : String)
    → first ++ xs ≡ ys
    → first ++ (xs ++ id ∷ []) ≡ ys ++ id ∷ []
emitted_more first xs ys id same = append_assoc first xs (id ∷ []) ∙ ap (λ zs. zs ++ id ∷ []) same

-- What the two have at one point of the loop over the triggers; the database has emitted `first`
-- before.
pub record IsAlike (first : List String) (m : Store × List AlertRecord × List String)
    (d : Database × List AlertRecord × List String) : Type 0 where
  pub same_alerts : m.0.alerts ≡ d.0.alerts
  pub same_suppression : m.0.suppression ≡ d.0.suppression
  pub same_records : m.1 ≡ d.1
  pub same_ids : first ++ m.2 ≡ d.2

module _ (uuid5 : String → String) where
  apply_alert-IsAlike :
      (first : List String) (e : CampaignEvidence) (c : CampaignRecord) (t : AlertTrigger)
      (m : Store × List AlertRecord × List String) (d : Database × List AlertRecord × List String)
      → IsAlike first m d
      → IsAlike first (apply_alert uuid5 e c t m) (upsert_alert uuid5 e c t d)
  unfolding apply_alert upsert_alert domain_event send_if
  apply_alert-IsAlike first e c t (s, rm, im) (db, rd, id) h =
      elim (Bool-cases
        (change_alert uuid5 db.suppression e c.campaign_id t
          (lookup (c.campaign_id, t.alert_type) db.alerts)).suppressed) [
            | inl held ↦ record {
              same_alerts = rw (h.same_alerts, h.same_suppression, held) refl;
              same_suppression = rw (h.same_alerts, h.same_suppression, held) refl;
              same_records = rw (h.same_alerts, h.same_suppression, held, h.same_records) refl;
              same_ids = rw (h.same_alerts, h.same_suppression, held) h.same_ids;
            }
            | inr sent ↦ record {
              same_alerts = rw (h.same_alerts, h.same_suppression, sent) refl;
              same_suppression = rw (h.same_alerts, h.same_suppression, sent) refl;
              same_records = rw (h.same_alerts, h.same_suppression, sent, h.same_records) refl;
              same_ids =
                  rw (h.same_alerts, h.same_suppression, sent)
                    (emitted_more first im id _ h.same_ids);
            }
          ]

  apply_alerts-IsAlike :
      (first : List String) (e : CampaignEvidence) (c : CampaignRecord) (ts : List AlertTrigger)
      (m : Store × List AlertRecord × List String) (d : Database × List AlertRecord × List String)
      → IsAlike first m d
      → IsAlike first (apply_alerts uuid5 e c ts m) (upsert_alerts uuid5 e c ts d)
  unfolding apply_alerts upsert_alerts
  apply_alerts-IsAlike first e c [] m d h = h
  apply_alerts-IsAlike first e c (t ∷ ts) m d h =
      apply_alerts-IsAlike first e c ts (apply_alert uuid5 e c t m) (upsert_alert uuid5 e c t d)
        (apply_alert-IsAlike first e c t m d h)

  -- The same answer, but that the database has emitted `first` before, and the same alerts
  -- afterwards.
  abbrev pub Same : List String → Applied × Store → Outcome × Database → Type 0
  Same first (done u, s) (committed v, db) =
      (record u { emitted_event_ids = first ++ u.emitted_event_ids } ≡ v) × (s.alerts ≡ db.alerts)
  Same first (raised (policy f), s) (rolled_back (refused g), db) = f ≡ g
  Same _ _ _ = ⊥

  write-IsAlike :
      (e : CampaignEvidence) (a : CampaignAssessment) (old : CampaignRecord) (c : CampaignRecord)
      (s : Store) (db : Database)
      → s.alerts ≡ db.alerts
      → s.suppression ≡ db.suppression
      → let (m, im) = write_campaign uuid5 e (some old) c s in
        let (d, id) = continue_old uuid5 e a old c db [] in
        IsAlike [] (m, [], im) (add_evidence e c d, [], id)
  unfolding write_campaign continue_old domain_event send_if
  write-IsAlike e a old c s db alerts suppression =
      elim (Bool-cases (stage_differs c.stage old.stage)) [
        | inl moved ↦ record {
          same_alerts = rw moved alerts;
          same_suppression = rw moved suppression;
          same_records = refl;
          same_ids = rw moved refl;
        }
        | inr stays ↦ record {
          same_alerts = rw stays alerts;
          same_suppression = rw stays suppression;
          same_records = refl;
          same_ids = rw stays refl;
        }
      ]

  finish-Same :
      (e : CampaignEvidence) (a : CampaignAssessment) (existing : Option CampaignRecord) (s : Store)
      (d : Database) (id first : List String)
      → (let c = next_campaign uuid5 e a existing in
          let (m, im) = write_campaign uuid5 e existing c s in
          IsAlike first (m, [], im) (add_evidence e c d, [], id))
      → Same first
          (apply_assessed uuid5 e existing a s)
          (finish uuid5 e a (next_campaign uuid5 e a existing) (d, id))
  unfolding apply_assessed finish
  finish-Same e a existing s d id first h =
      let c = next_campaign uuid5 e a existing in
      let (m, im) = write_campaign uuid5 e existing c s in
      let all =
        apply_alerts-IsAlike first e c a.alerts (m, [], im) (add_evidence e c d, [], id) h in
      (rw (all.same_records, all.same_ids) refl, all.same_alerts)

  -- The store and the database know of the same campaign and the same alerts, neither has seen the
  -- evidence, whose scores lie in [0, 1] and which is not stale where the merge gap has passed, and a
  -- new campaign's identifier is not taken.
  pub record IsSynced (e : CampaignEvidence) (s : Store) (db : Database) : Type 0 where
    pub campaign :
        lookup (key_of e) s.campaigns
        ≡ select_active e.fusion.scope_id e.fusion.asset_id db.campaigns
    pub scored : IsScored e.fusion
    pub alerts : s.alerts ≡ db.alerts
    pub suppression : s.suppression ≡ db.suppression
    pub merge_gap : s.merge_gap ≡ db.merge_gap
    pub unseen : contains s.evidence_ids e.event_id ≡ false
    pub unknown : lookup e.event_id db.evidence ≡ none
    pub ordered :
        (c : CampaignRecord)
        → lookup (key_of e) s.campaigns ≡ some c
        → gap_elapsed s.merge_gap c e ≡ true
        → is_stale c e ≡ false
    pub fresh_id :
        (a : CampaignAssessment)
        → is_some (get_campaign (new_campaign uuid5 e a).campaign_id db.campaigns) ≡ false

  new-IsAlike :
      (e : CampaignEvidence) (a : CampaignAssessment) (s : Store) (db : Database)
      (first : List String)
      → s.alerts ≡ db.alerts
      → s.suppression ≡ db.suppression
      → let c = new_campaign uuid5 e a in
        let (m, im) = write_campaign uuid5 e none c s in
        let (d, id) = open_new uuid5 e a c db first in
        IsAlike first (m, [], im) (add_evidence e c d, [], id)
  unfolding write_campaign open_new domain_event send_if
  new-IsAlike e a s db first alerts suppression = record {
    same_alerts = alerts;
    same_suppression = suppression;
    same_records = refl;
    same_ids = refl;
  }

  pub new-Same :
      (e : CampaignEvidence) (a : CampaignAssessment) (s : Store) (db : Database)
      (first : List String)
      → s.alerts ≡ db.alerts
      → s.suppression ≡ db.suppression
      → is_some (get_campaign (new_campaign uuid5 e a).campaign_id db.campaigns) ≡ false
      → Same first
          (apply_new uuid5 e none (ok a) s)
          (write_assessed uuid5 e none (ok a) (db, first))
  unfolding apply_new write_assessed next_campaign
  new-Same e a s db first alerts suppression free =
      let (d, id) = open_new uuid5 e a (new_campaign uuid5 e a) db first in
      rw free (finish-Same e a none s d id first (new-IsAlike e a s db first alerts suppression))

  get_campaign-replace_active :
      (scope_id asset_id id : String) (c : CampaignRecord) (rs : List CampaignRow)
      → select_active scope_id asset_id rs ≡ some c
      → is_some (get_campaign id (replace_active scope_id asset_id (closed_row c) rs))
        ≡ is_some (get_campaign id rs)
  unfolding get_campaign replace_active select_active
  get_campaign-replace_active scope_id asset_id id c [] found = refl
  get_campaign-replace_active scope_id asset_id id c (r ∷ rs) found =
      elim (Bool-cases (is_selected scope_id asset_id r)) [
        | inl selected ↦
            let same : r.campaign ≡ c = some-injective _ _ (rw selected at found) in
            rw selected (
              subst
                (λ c.
                  is_some (
                    if str_eq c.campaign_id id
                    then some (closed_row c).campaign
                    else get_campaign id rs)
                  ≡ is_some (
                      if str_eq r.campaign.campaign_id id
                      then some r.campaign
                      else get_campaign id rs))
                same
                (elim (Bool-cases (str_eq r.campaign.campaign_id id)) [
                  | inl it ↦ rw it refl
                  | inr other ↦ rw other refl
                ]))
        | inr passed ↦
            let rest = get_campaign-replace_active scope_id asset_id id c rs (rw passed at found) in
            rw passed (elim (Bool-cases (str_eq r.campaign.campaign_id id)) [
              | inl it ↦ rw it refl
              | inr other ↦ rw other rest
            ])
      ]

  -- What the database emits for the closing of a campaign, which the in-memory store does not do.
  abbrev pub closing : CampaignEvidence → Option CampaignRecord → Database → List String
  closing e none db = []
  closing e (some c) db =
      if gap_elapsed db.merge_gap c e then (close_campaign uuid5 e c db).1 else []

  pub closed-Same :
      (e : CampaignEvidence) (a : CampaignAssessment) (c : CampaignRecord) (s : Store)
      (db : Database)
      → s.alerts ≡ db.alerts
      → s.suppression ≡ db.suppression
      → select_active e.fusion.scope_id e.fusion.asset_id db.campaigns ≡ some c
      → is_some (get_campaign (new_campaign uuid5 e a).campaign_id db.campaigns) ≡ false
      → Same
          (close_campaign uuid5 e c db).1
          (apply_new uuid5 e none (ok a) s)
          (write_assessed uuid5 e none (ok a) (close_campaign uuid5 e c db))
  unfolding close_campaign
  closed-Same e a c s db alerts suppression found free =
      new-Same e a s (close_campaign uuid5 e c db).0 (close_campaign uuid5 e c db).1 alerts
        suppression
        (get_campaign-replace_active e.fusion.scope_id e.fusion.asset_id
            (new_campaign uuid5 e a).campaign_id c db.campaigns found
          ∙ free)

  pub old-Same :
      (e : CampaignEvidence) (a : CampaignAssessment) (c : CampaignRecord) (s : Store)
      (db : Database)
      → s.alerts ≡ db.alerts
      → s.suppression ≡ db.suppression
      → is_stale c e ≡ false
      → Same []
          (apply_new uuid5 e (some c) (ok a) s)
          (write_assessed uuid5 e (some c) (ok a) (db, []))
  unfolding apply_new write_assessed next_campaign
  old-Same e a c s db alerts suppression fresh =
      let (d, id) = continue_old uuid5 e a c (updated_campaign c e a) db [] in
      rw fresh (
        finish-Same e a (some c) s d id []
          (write-IsAlike e a c (updated_campaign c e a) s db alerts suppression))

  pub stale-Same :
      (e : CampaignEvidence) (a : CampaignAssessment) (c : CampaignRecord) (s : Store)
      (db : Database)
      → s.alerts ≡ db.alerts
      → is_stale c e ≡ true
      → Same [] (apply_new uuid5 e (some c) (ok a) s) (apply_fresh uuid5 e (some c) db)
  unfolding apply_new apply_fresh
  stale-Same e a c s db alerts old = rw old (refl, alerts)

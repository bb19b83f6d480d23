-- ===== src/Campaign/Memory/Invariant.antt =====
-- What holds of an in-memory store after any sequence of calls.
use scam2marke.Prelude.{
  ℕ, ◌≤◌, String, true, List, [], ◌∷◌, Option, none, some, ◌≡◌, refl, sym, subst, arith, is_some,
}
use scam2marke.Prelude.Dict.{
  lookup, insert, Entries, insert-Entries, lookup-Entries, string_eq, pair_eq,
}
use scam2marke.Campaign.Types.{
  CampaignEvidence, CampaignRecord, CampaignStatus, CampaignAssessment, AlertRecord, AlertTrigger,
  AlertType, AlertStatus,
}
use scam2marke.Campaign.Common.{new_campaign, updated_campaign}
use scam2marke.Campaign.Alerting.{change_alert}
use scam2marke.Campaign.Memory.{
  Store, key_of, alert_type_eq, open_campaign, next_campaign, write_campaign, apply_alert,
  apply_alerts, apply_assessed, apply,
}
use scam2marke.Campaign.Memory.Laws.{noted, apply_cases}

-- A campaign is filed under its own scope and asset, is active, has a version, the time of its last
-- evidence is not before that of its first, and it records the last evaluation.
abbrev pub CampaignFits : String × String → CampaignRecord → Type 0
CampaignFits k c =
    (k ≡ (c.scope_id, c.asset_id))
    × (c.status ≡ CampaignStatus.active)
    × (1 ≤ c.version)
    × (c.first_evidence_at ≤ c.last_evidence_at)
    × (is_some c.last_applied_evidence_cutoff ≡ true)

-- An alert is filed under its campaign and type, is active, counts its occurrences by its version,
-- and was triggered last no earlier than first.
abbrev pub AlertFits : String × AlertType → AlertRecord → Type 0
AlertFits k a =
    (k ≡ (a.campaign_id, a.alert_type))
    × (a.status ≡ AlertStatus.active)
    × (a.occurrence_count ≡ a.version)
    × (1 ≤ a.version)
    × (a.first_triggered_at ≤ a.last_triggered_at)
    × (is_some a.last_notified_at ≡ true)

pub record IsValid (s : Store) : Type 0 where
  pub campaigns_fit : Entries CampaignFits s.campaigns
  pub alerts_fit : Entries AlertFits s.alerts

open_campaign-fits :
    (e : CampaignEvidence) (s : Store) (c : CampaignRecord)
    → IsValid s
    → open_campaign e s ≡ some c
    → CampaignFits (key_of e) c
unfolding open_campaign
open_campaign-fits e s c v h =
    lookup-Entries CampaignFits (key_of e) c s.campaigns v.campaigns_fit (ground arith)

module _ (uuid5 : String → String) where
  next_campaign-fits :
      (e : CampaignEvidence) (a : CampaignAssessment) (x : Option CampaignRecord)
      → ((c : CampaignRecord) → x ≡ some c → CampaignFits (key_of e) c)
      → CampaignFits (key_of e) (next_campaign uuid5 e a x)
  unfolding next_campaign new_campaign updated_campaign
  next_campaign-fits e a none h = ground arith
  next_campaign-fits e a (some c) h = let fits = h c refl in ground arith

  change_alert-fits :
      (gap : ℕ) (e : CampaignEvidence) (id : String) (t : AlertTrigger) (x : Option AlertRecord)
      → ((a : AlertRecord) → x ≡ some a → AlertFits (id, t.alert_type) a)
      → AlertFits (id, t.alert_type) (change_alert uuid5 gap e id t x).alert
  unfolding change_alert
  change_alert-fits gap e id t none h = ground arith
  change_alert-fits gap e id t (some a) h = let fits = h a refl in ground arith

  apply_alert_frame :
      (e : CampaignEvidence) (c : CampaignRecord) (t : AlertTrigger) (s : Store)
      (rs : List AlertRecord) (ids : List String)
      → let s' = (apply_alert uuid5 e c t (s, rs, ids)).0 in
        let k : String × AlertType = (c.campaign_id, t.alert_type) in
        (s'.campaigns ≡ s.campaigns)
        × (s'.alerts
            ≡ insert k
                (change_alert uuid5 s.suppression e c.campaign_id t (lookup k s.alerts)).alert
                s.alerts)
  unfolding apply_alert
  apply_alert_frame e c t s rs ids = ground arith

  write_campaign_frame :
      (e : CampaignEvidence) (x : Option CampaignRecord) (c : CampaignRecord) (s : Store)
      → let s' = (write_campaign uuid5 e x c s).0 in
        (s'.campaigns ≡ insert (key_of e) c s.campaigns) × (s'.alerts ≡ s.alerts)
  unfolding write_campaign
  write_campaign_frame e x c s = ground arith

  apply_alert-IsValid :
      (e : CampaignEvidence) (c : CampaignRecord) (t : AlertTrigger) (s : Store)
      (rs : List AlertRecord) (ids : List String)
      → IsValid s
      → IsValid (apply_alert uuid5 e c t (s, rs, ids)).0
  apply_alert-IsValid e c t s rs ids v =
      let k : String × AlertType = (c.campaign_id, t.alert_type) in
      let change = change_alert uuid5 s.suppression e c.campaign_id t (lookup k s.alerts) in
      let (same, grown) = apply_alert_frame e c t s rs ids in
      let fits =
        change_alert-fits s.suppression e c.campaign_id t (lookup k s.alerts)
          (λ a h. lookup-Entries AlertFits k a s.alerts v.alerts_fit h) in
      record {
        campaigns_fit = subst (Entries CampaignFits) (sym same) v.campaigns_fit;
        alerts_fit =
            subst (Entries AlertFits) (sym grown)
              (insert-Entries AlertFits k change.alert s.alerts fits v.alerts_fit);
      }

  apply_alerts-IsValid :
      (e : CampaignEvidence) (c : CampaignRecord) (ts : List AlertTrigger) (s : Store)
      (rs : List AlertRecord) (ids : List String)
      → IsValid s
      → IsValid (apply_alerts uuid5 e c ts (s, rs, ids)).0
  unfolding apply_alerts
  apply_alerts-IsValid e c [] s rs ids v = v
  apply_alerts-IsValid e c (t ∷ ts) s rs ids v =
      let (s', rs', ids') = apply_alert uuid5 e c t (s, rs, ids) in
      apply_alerts-IsValid e c ts s' rs' ids' (apply_alert-IsValid e c t s rs ids v)

  write_campaign-IsValid :
      (e : CampaignEvidence) (x : Option CampaignRecord) (c : CampaignRecord) (s : Store)
      → CampaignFits (key_of e) c
      → IsValid s
      → IsValid (write_campaign uuid5 e x c s).0
  write_campaign-IsValid e x c s fits v =
      let (grown, same) = write_campaign_frame e x c s in
      record {
        campaigns_fit =
            subst (Entries CampaignFits) (sym grown)
              (insert-Entries CampaignFits (key_of e) c s.campaigns fits v.campaigns_fit);
        alerts_fit = subst (Entries AlertFits) (sym same) v.alerts_fit;
      }

  apply_assessed-IsValid :
      (e : CampaignEvidence) (x : Option CampaignRecord) (a : CampaignAssessment) (s : Store)
      → ((c : CampaignRecord) → x ≡ some c → CampaignFits (key_of e) c)
      → IsValid s
      → IsValid (apply_assessed uuid5 e x a s).1
  unfolding apply_assessed
  apply_assessed-IsValid e x a s h v =
      let c = next_campaign uuid5 e a x in
      let (written, ids) = write_campaign uuid5 e x c s in
      apply_alerts-IsValid e c a.alerts written [] ids
        (write_campaign-IsValid e x c s (next_campaign-fits e a x h) v)

  -- Every call keeps the store valid, also one that raises.
  pub apply-IsValid : (e : CampaignEvidence) (s : Store) → IsValid s → IsValid (apply uuid5 e s).1
  apply-IsValid e s v =
      let noted_valid : IsValid (noted e s) = record {
        campaigns_fit = v.campaigns_fit;
        alerts_fit = v.alerts_fit;
      } in
      apply_cases uuid5 (λ r. IsValid r.1) e s (λ _ _. v) (λ _ _ _. v) (λ _ _ _. noted_valid)
        (λ _ _ _ _. noted_valid)
        (λ a _ _ _.
          apply_assessed-IsValid e (open_campaign e s) a (noted e s)
            (λ c h. open_campaign-fits e s c v h) noted_valid)

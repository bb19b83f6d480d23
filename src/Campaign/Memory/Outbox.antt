-- ===== src/Campaign/Memory/Outbox.antt =====
-- The messages that `InMemoryCampaignRepository.apply` queues.
use scam2marke.Prelude.{
  ◌+◌, ◌≤◌, String, Bool, true, false, List, [], ◌∷◌, ◌++◌, Option, map, ◌≡◌, refl, sym, ap, ◌∙◌,
  length, length-append, arith,
}
use mathlib.Core.List.{append-nil, append_assoc, map-append}
use scam2marke.Events.{CanonicalEvent}
use scam2marke.Campaign.Types.{
  CampaignEvidence, CampaignRecord, CampaignAssessment, AlertRecord, AlertTrigger,
}
use scam2marke.Campaign.Memory.{
  Store, send_if, Applied, done, raised, open_campaign, write_campaign, apply_alert, apply_alerts,
  apply_assessed, apply, next_campaign,
}
use scam2marke.Campaign.Memory.Laws.{noted, apply_cases}

abbrev pub Queue : Type 0
Queue = List (String × CanonicalEvent)

abbrev pub ids_of : Queue → List String
ids_of = map λ m. m.1.event_id

-- The queue has grown by messages whose identifiers are `ids`, in this order.
abbrev pub Sends : Queue → Queue → List String → Type 0
Sends before after ids = (sent : Queue) × (after ≡ before ++ sent) × (ids_of sent ≡ ids)

Sends-append :
    (a b c : Queue) (xs ys : List String) → Sends a b xs → Sends b c ys → Sends a c (xs ++ ys)
Sends-append a b c xs ys (m, p, q) (n, r, t) = (
  m ++ n,
  r ∙ ap (λ z. z ++ n) p ∙ append_assoc a m n,
  map-append (λ x. x.1.event_id) m n ∙ cc (q, t),
)

Sends-none : (q : Queue) → Sends q q []
Sends-none q = ([], sym (append-nil q), refl)

send_if-Sends :
    (b : Bool) (topic : String) (event : CanonicalEvent) (s : Store) (ids : List String)
    → let (s', ids') = send_if b topic event s ids in
      (more : List String) × Sends s.outbox s'.outbox more
      × (ids' ≡ ids ++ more)
      × (length more ≤ 1)
unfolding send_if
send_if-Sends false topic event s ids =
    ([], ([], sym (append-nil s.outbox), refl), sym (append-nil ids), omega arith)
send_if-Sends true topic event s ids =
    (event.event_id ∷ [], ((topic, event) ∷ [], refl, refl), refl, omega arith)

send_if-Sends_first :
    (b : Bool) (topic : String) (event : CanonicalEvent) (s : Store)
    → let (s', ids) = send_if b topic event s [] in Sends s.outbox s'.outbox ids × (length ids ≤ 1)
unfolding send_if
send_if-Sends_first false topic event s = (([], sym (append-nil s.outbox), refl), omega arith)
send_if-Sends_first true topic event s = (((topic, event) ∷ [], refl, refl), omega arith)

module _ (uuid5 : String → String) where
  -- One trigger sends one message or none.
  apply_alert-Sends :
      (e : CampaignEvidence) (c : CampaignRecord) (t : AlertTrigger) (s : Store)
      (rs : List AlertRecord) (ids : List String)
      → let (s', _, ids') = apply_alert uuid5 e c t (s, rs, ids) in
        (more : List String) × Sends s.outbox s'.outbox more
        × (ids' ≡ ids ++ more)
        × (length more ≤ 1)
  unfolding apply_alert
  apply_alert-Sends e c t s rs ids = send_if-Sends _ _ _ _ ids

  write_campaign-Sends :
      (e : CampaignEvidence) (x : Option CampaignRecord) (c : CampaignRecord) (s : Store)
      → let (s', ids) = write_campaign uuid5 e x c s in
        Sends s.outbox s'.outbox ids × (length ids ≤ 1)
  unfolding write_campaign
  write_campaign-Sends e x c s = send_if-Sends_first _ _ _ _

  apply_alert-length :
      (e : CampaignEvidence) (c : CampaignRecord) (t : AlertTrigger) (s : Store)
      (rs : List AlertRecord) (ids : List String)
      → length (apply_alert uuid5 e c t (s, rs, ids)).1 ≡ length rs + 1
  unfolding apply_alert
  apply_alert-length e c t s rs ids = length-append rs _

  apply_alerts-Sends :
      (e : CampaignEvidence) (c : CampaignRecord) (ts : List AlertTrigger) (o : Queue) (s : Store)
      (rs : List AlertRecord) (ids : List String)
      → Sends o s.outbox ids
      → length ids ≤ length rs + 1
      → let (s', rs', ids') = apply_alerts uuid5 e c ts (s, rs, ids) in
        Sends o s'.outbox ids' × (length ids' ≤ length rs' + 1)
  unfolding apply_alerts
  apply_alerts-Sends e c [] o s rs ids h small = (h, small)
  apply_alerts-Sends e c (t ∷ ts) o s rs ids h few =
      let (s', rs', ids') = apply_alert uuid5 e c t (s, rs, ids) in
      let (more, sent, eq, small) = apply_alert-Sends e c t s rs ids in
      let next : Sends o s'.outbox ids' =
        rw eq (Sends-append o s.outbox s'.outbox ids more h sent) in
      apply_alerts-Sends e c ts o s' rs' ids' next
        (omega (arith, ap length eq, length-append ids more, apply_alert-length e c t s rs ids))

  -- What a call has queued, by how it ended.
  abbrev pub Accounts : Queue → Applied × Store → Type 0
  Accounts before (raised f, s) = s.outbox ≡ before
  Accounts before (done u, s) =
      Sends before s.outbox u.emitted_event_ids × (length u.emitted_event_ids ≤ length u.alerts + 1)

  apply_assessed-Accounts :
      (e : CampaignEvidence) (x : Option CampaignRecord) (a : CampaignAssessment) (s : Store)
      → Accounts s.outbox (apply_assessed uuid5 e x a s)
  unfolding apply_assessed
  apply_assessed-Accounts e x a s =
      let (sent, few) = write_campaign-Sends e x (next_campaign uuid5 e a x) s in
      apply_alerts-Sends e (next_campaign uuid5 e a x) a.alerts s.outbox _ [] _ sent few

  -- A call queues exactly the messages whose identifiers it reports, behind those that wait already
  -- and in the reported order: at most one for the campaign and one for each alert that it returns;
  -- a call that raises queues none.
  pub apply-Accounts : (e : CampaignEvidence) (s : Store) → Accounts s.outbox (apply uuid5 e s)
  apply-Accounts e s =
      apply_cases uuid5 (Accounts s.outbox) e s (λ _ _. refl)
        (λ c _ _. (Sends-none s.outbox, omega arith)) (λ _ _ _. refl)
        (λ c _ _ _. (Sends-none s.outbox, omega arith))
        (λ a _ _ _. apply_assessed-Accounts e (open_campaign e s) a (noted e s))

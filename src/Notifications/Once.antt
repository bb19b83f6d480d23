-- ===== src/Notifications/Once.antt =====
-- One delivery for a channel and an event, and no claimed delivery left behind.
use scam2marke.Prelude.{
  ℕ, ◌≡◌, refl, ap, ◌∙◌, inl, inr, String, eq_iff, Bool, true, false, ◌&&◌, ◌||◌, not, List, [],
  ◌∷◌, ◌++◌, arith, if◌then◌else◌, Bool-cases, any_of, All,
}
use scam2marke.Prelude.Dict.{Dict, string_eq}
use scam2marke.Notifications.Service.{
  NotificationChannel, NotificationSubscription, AlertEvent, NotificationDelivery, same_delivery,
  is_for, new_delivery, enqueue,
}

any_of-append {ℓ} :
    {A : Type ℓ} (p : A → Bool) (xs ys : List A) → any_of p (xs ++ ys) ≡ any_of p xs || any_of p ys
any_of-append p [] ys = refl
any_of-append p (x ∷ xs) ys = ground (arith, any_of-append p xs ys)

neither : (a b : Bool) → a ≡ false → b ≡ false → a || (b || false) ≡ false
neither a b ha hb = ground arith

none_of : (a b : Bool) → a || b ≡ false → (a ≡ false) × (b ≡ false)
none_of a b h = ground arith

and_not : (a b : Bool) → a && not b ≡ true → b ≡ false
and_not a b h = ground arith

-- No later row is for the channel and the event of an earlier one.
abbrev pub OnePerEvent : List NotificationDelivery → Type 0
OnePerEvent [] = Unit
OnePerEvent (d ∷ ds) = (any_of (same_delivery d.channel_id d.event_id) ds ≡ false) × OnePerEvent ds

other_way :
    (d e : NotificationDelivery)
    → same_delivery e.channel_id e.event_id d ≡ false
    → same_delivery d.channel_id d.event_id e ≡ false
other_way d e h = ground (
  arith,
  eq_iff d.channel_id e.channel_id,
  eq_iff e.channel_id d.channel_id,
  eq_iff d.event_id e.event_id,
  eq_iff e.event_id d.event_id,
)

OnePerEvent-snoc :
    (ds : List NotificationDelivery) (e : NotificationDelivery)
    → OnePerEvent ds
    → any_of (same_delivery e.channel_id e.event_id) ds ≡ false
    → OnePerEvent (ds ++ e ∷ [])
OnePerEvent-snoc [] e one fresh = (refl, tt)
OnePerEvent-snoc (d ∷ ds) e one fresh =
    let mine = same_delivery e.channel_id e.event_id in
    let parts = none_of (mine d) (any_of mine ds) fresh in
    (
      any_of-append (same_delivery d.channel_id d.event_id) ds (e ∷ [])
          ∙ neither _ _ one.0 (other_way d e parts.0),
      OnePerEvent-snoc ds e one.1 parts.1,
    )

module _ (upper : String → String) (uuid4 : ℕ → String) (channels : Dict String NotificationChannel)
    (event : AlertEvent) (tenant_id : String) where
  -- The subscription needs no delivery, or has one.
  abbrev pub IsServed : List NotificationDelivery → NotificationSubscription → Type 0
  IsServed rows s =
      not (is_for upper channels event tenant_id s)
        || any_of (same_delivery s.channel_id event.event_id) rows
      ≡ true

  abbrev added :
      ℕ → NotificationSubscription → List NotificationDelivery → List NotificationDelivery
  added now s rows =
      if is_for upper channels event tenant_id s
        && not (any_of (same_delivery s.channel_id event.event_id) rows)
      then rows ++ new_delivery uuid4 now tenant_id event s.channel_id rows ∷ []
      else rows

  added-IsServed :
      (now : ℕ) (s : NotificationSubscription) (rows : List NotificationDelivery)
      → IsServed (added now s rows) s
  added-IsServed now s rows = elim (Bool-cases (is_for upper channels event tenant_id s)) [
    | inl wanted ↦ elim (Bool-cases (any_of (same_delivery s.channel_id event.event_id) rows)) [
      | inl there ↦ rw (wanted, there) there
      | inr missing ↦
          rw
            (
              wanted,
              missing,
              any_of-append (same_delivery s.channel_id event.event_id) rows,
              (eq_iff s.channel_id s.channel_id).1 refl,
              (eq_iff event.event_id event.event_id).1 refl,
            )
            (ground arith)
    ]
    | inr unwanted ↦ rw unwanted refl
  ]

  added-keeps :
      (now : ℕ) (s : NotificationSubscription) (rows : List NotificationDelivery)
      → (p : NotificationDelivery → Bool) → any_of p rows ≡ true
      → any_of p (added now s rows) ≡ true
  added-keeps now s rows p h =
      elim (Bool-cases (
        is_for upper channels event tenant_id s
        && not (any_of (same_delivery s.channel_id event.event_id) rows))) [
          | inl new ↦ rw (new, any_of-append p rows, h) refl
          | inr old ↦ rw old h
        ]

  added_served :
      (now : ℕ) (s : NotificationSubscription) (rows : List NotificationDelivery)
      → IsServed rows s
      → added now s rows ≡ rows
  added_served now s rows served = ground arith

  enqueue-keeps :
      (now : ℕ) (ss : List NotificationSubscription) (rows : List NotificationDelivery)
      → (p : NotificationDelivery → Bool) → any_of p rows ≡ true
      → any_of p (enqueue upper uuid4 now channels event tenant_id ss rows) ≡ true
  unfolding enqueue
  enqueue-keeps now [] rows p h = h
  enqueue-keeps now (s ∷ ss) rows p h =
      enqueue-keeps now ss (added now s rows) p (added-keeps now s rows p h)

  IsServed-keeps :
      (rows more : List NotificationDelivery) (s : NotificationSubscription)
      → ((p : NotificationDelivery → Bool) → any_of p rows ≡ true → any_of p more ≡ true)
      → IsServed rows s
      → IsServed more s
  IsServed-keeps rows more s keeps served =
      elim (Bool-cases (any_of (same_delivery s.channel_id event.event_id) rows)) [
        | inl there ↦ ground (arith, keeps (same_delivery s.channel_id event.event_id) there)
        | inr missing ↦ ground arith
      ]

  enqueue-IsServed :
      (now : ℕ) (ss : List NotificationSubscription) (rows : List NotificationDelivery)
      → All (IsServed (enqueue upper uuid4 now channels event tenant_id ss rows)) ss
  unfolding enqueue
  enqueue-IsServed now [] rows = tt
  enqueue-IsServed now (s ∷ ss) rows = (
    IsServed-keeps (added now s rows) _ s (enqueue-keeps now ss (added now s rows))
        (added-IsServed now s rows),
    enqueue-IsServed now ss (added now s rows),
  )

  enqueue_served :
      (now : ℕ) (ss : List NotificationSubscription) (rows : List NotificationDelivery)
      → All (IsServed rows) ss
      → enqueue upper uuid4 now channels event tenant_id ss rows ≡ rows
  unfolding enqueue
  enqueue_served now [] rows served = refl
  enqueue_served now (s ∷ ss) rows served =
      ap (enqueue upper uuid4 now channels event tenant_id ss) (added_served now s rows served.0)
      ∙ enqueue_served now ss rows served.1

  -- After `enqueue` every subscription of the tenant that the alert is one for has a delivery of
  -- its channel for the event, and the event, when it comes again, adds none.
  pub enqueue-again :
      (now later : ℕ) (ss : List NotificationSubscription) (rows : List NotificationDelivery)
      → let queued = enqueue upper uuid4 now channels event tenant_id ss rows in
        All (IsServed queued) ss
        × (enqueue upper uuid4 later channels event tenant_id ss queued ≡ queued)
  enqueue-again now later ss rows =
      let served = enqueue-IsServed now ss rows in
      (
        served,
        enqueue_served later ss (enqueue upper uuid4 now channels event tenant_id ss rows) served,
      )

  added-OnePerEvent :
      (now : ℕ) (s : NotificationSubscription) (rows : List NotificationDelivery)
      → OnePerEvent rows
      → OnePerEvent (added now s rows)
  added-OnePerEvent now s rows one =
      let mine = any_of (same_delivery s.channel_id event.event_id) rows in
      elim (Bool-cases (is_for upper channels event tenant_id s && not mine)) [
        | inl new ↦ rw new (
            OnePerEvent-snoc rows (new_delivery uuid4 now tenant_id event s.channel_id rows) one
              (and_not (is_for upper channels event tenant_id s) mine new))
        | inr old ↦ rw old one
      ]

  -- One delivery for a channel and an event at most: `enqueue` keeps that, however many
  -- subscriptions share a channel.
  pub enqueue-OnePerEvent :
      (now : ℕ) (ss : List NotificationSubscription) (rows : List NotificationDelivery)
      → OnePerEvent rows
      → OnePerEvent (enqueue upper uuid4 now channels event tenant_id ss rows)
  unfolding enqueue
  enqueue-OnePerEvent now [] rows one = one
  enqueue-OnePerEvent now (s ∷ ss) rows one =
      enqueue-OnePerEvent now ss (added now s rows) (added-OnePerEvent now s rows one)

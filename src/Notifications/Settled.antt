-- ===== src/Notifications/Settled.antt =====
-- No claimed delivery is left behind.
use scam2marke.Prelude.{
  ℕ, ◌≡◌, refl, inl, inr, String, str_eq, eq_iff, Bool, false, ◌&&◌, List, [], ◌∷◌, map, arith,
  if◌then◌else◌, Bool-cases, All, All-map,
}
use scam2marke.Prelude.Dict.{contains, string_eq}
use scam2marke.Notifications.Service.{
  NotificationDelivery, is_processing, Sent, response, error, finalize_row, finalize, finalize_all,
  claim_due, due_ids, claim, deliver_due,
}

-- The row is not the delivery, or is not in process.
abbrev Over : String → NotificationDelivery → Type 0
Over id d = str_eq d.delivery_id id && is_processing d.status ≡ false

-- The row is none of the deliveries, or is not in process.
abbrev pub AllOver : List String → NotificationDelivery → Type 0
AllOver ids d = contains ids d.delivery_id && is_processing d.status ≡ false

abbrev finalized : ℕ → String → Sent → NotificationDelivery → NotificationDelivery
finalized now id sent d = if str_eq d.delivery_id id then finalize_row now sent d else d

finalize_row-ends :
    (now : ℕ) (sent : Sent) (d : NotificationDelivery)
    → is_processing (finalize_row now sent d).status ≡ false
unfolding finalize_row
finalize_row-ends now (response code) d = ground arith
finalize_row-ends now (error text) d = ground arith

finalize_row-id :
    (now : ℕ) (sent : Sent) (d : NotificationDelivery)
    → (finalize_row now sent d).delivery_id ≡ d.delivery_id
unfolding finalize_row
finalize_row-id now (response code) d = ground arith
finalize_row-id now (error text) d = ground arith

and_false : (a b : Bool) → b ≡ false → a && b ≡ false
and_false a b h = ground arith

finalized-Over :
    (now : ℕ) (id : String) (sent : Sent) (d : NotificationDelivery)
    → Over id (finalized now id sent d)
finalized-Over now id sent d = elim (Bool-cases (str_eq d.delivery_id id)) [
  | inl this ↦ rw this (and_false _ _ (finalize_row-ends now sent d))
  | inr other ↦ simp (other) refl
]

finalized-keeps :
    (now : ℕ) (id : String) (ids : List String) (sent : Sent) (d : NotificationDelivery)
    → AllOver ids d
    → AllOver ids (finalized now id sent d)
finalized-keeps now id ids sent d over = elim (Bool-cases (str_eq d.delivery_id id)) [
  | inl this ↦ rw this (and_false _ _ (finalize_row-ends now sent d))
  | inr other ↦ rw other over
]

AllOver-cons :
    (id : String) (ids : List String) (d : NotificationDelivery)
    → Over id d
    → AllOver ids d
    → AllOver (id ∷ ids) d
unfolding contains
AllOver-cons id ids d here rest = ground (arith, eq_iff id d.delivery_id, eq_iff d.delivery_id id)

Over-one : (id : String) (d : NotificationDelivery) → Over id d → AllOver (id ∷ []) d
unfolding contains
Over-one id d here = ground (arith, eq_iff id d.delivery_id, eq_iff d.delivery_id id)

one-Over : (id : String) (d : NotificationDelivery) → AllOver (id ∷ []) d → Over id d
unfolding contains
one-Over id d here = ground (arith, eq_iff id d.delivery_id, eq_iff d.delivery_id id)

finalize_all-keeps :
    (clock : String → ℕ) (sends : String → Sent) (ids done : List String)
    → (rows : List NotificationDelivery) → All (AllOver done) rows
    → All (AllOver done) (finalize_all clock sends ids rows)
unfolding finalize_all finalize
finalize_all-keeps clock sends [] done rows all = all
finalize_all-keeps clock sends (id ∷ ids) done rows all =
    finalize_all-keeps clock sends ids done (finalize (clock id) id (sends id) rows) (
      All-map (AllOver done) (AllOver done) (finalized (clock id) id (sends id))
        (finalized-keeps (clock id) id done (sends id)) rows all)

All-every :
    (P : NotificationDelivery → Type 0) (f : NotificationDelivery → NotificationDelivery)
    → ((d : NotificationDelivery) → P (f d))
    → (rows : List NotificationDelivery) → All P (map f rows)
All-every P f h [] = tt
All-every P f h (d ∷ rows) = (h d, All-every P f h rows)

All-both :
    (P Q R : NotificationDelivery → Type 0)
    → ((d : NotificationDelivery) → P d → Q d → R d)
    → (rows : List NotificationDelivery) → All P rows
    → All Q rows
    → All R rows
All-both P Q R h [] p q = tt
All-both P Q R h (d ∷ rows) p q = (h d p.0 q.0, All-both P Q R h rows p.1 q.1)

none-AllOver : (d : NotificationDelivery) → AllOver [] d
unfolding contains
none-AllOver d = refl

All-none : (rows : List NotificationDelivery) → All (AllOver []) rows
All-none [] = tt
All-none (d ∷ rows) = (none-AllOver d, All-none rows)

finalize_all-AllOver :
    (clock : String → ℕ) (sends : String → Sent) (ids : List String)
    → (rows : List NotificationDelivery) → All (AllOver ids) (finalize_all clock sends ids rows)
unfolding finalize_all finalize
finalize_all-AllOver clock sends [] rows = All-none rows
finalize_all-AllOver clock sends (id ∷ ids) rows =
    let first =
      All-every (AllOver (id ∷ [])) (finalized (clock id) id (sends id))
        (λ d.
          Over-one id (finalized (clock id) id (sends id) d)
            (finalized-Over (clock id) id (sends id) d))
        rows in
    All-both (AllOver (id ∷ [])) (AllOver ids) (AllOver (id ∷ ids))
      (λ d here rest. AllOver-cons id ids d (one-Over id d here) rest) _
      (finalize_all-keeps clock sends ids (id ∷ []) (finalize (clock id) id (sends id) rows) first)
      (finalize_all-AllOver clock sends ids (finalize (clock id) id (sends id) rows))

-- No delivery that `deliver_due` has claimed is left in process: each one is delivered, failed, or
-- set back for another attempt, whatever its transport does.
pub deliver_due-AllOver :
    (locked : String → Bool) (clock : String → ℕ) (sends : String → Sent) (now limit : ℕ)
    → (rows : List NotificationDelivery)
    → All
        (AllOver (claim_due locked now limit rows).0)
        (deliver_due locked clock sends now limit rows).1
unfolding deliver_due claim_due
deliver_due-AllOver locked clock sends now limit rows =
    finalize_all-AllOver clock sends (due_ids locked now limit rows)
      (map (claim (due_ids locked now limit rows) now) rows)

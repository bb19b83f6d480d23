-- ===== src/Notifications/Refinement.antt =====
-- The service implements the machine of attempts.
use scam2marke.Prelude.{
  ℕ, refl, ◌∙◌, inl, inr, String, str_eq, Bool, List, [], ◌∷◌, map, if◌then◌else◌, Bool-cases, All,
}
use scam2marke.Notifications.Service.{
  NotificationDelivery, claim, claim_due, due_ids, Sent, finalize_row, finalize, finalize_all,
  deliver_due,
}
use scam2marke.Notifications.Attempts.{
  IsValid, stay, Steps-trans, Follows, claim-Follows, finalize_row-Follows,
}

-- The rows, one by one.
abbrev pub AllFollow : List NotificationDelivery → List NotificationDelivery → Type 0
AllFollow [] [] = Unit
AllFollow [] (e ∷ es) = ⊥
AllFollow (d ∷ ds) [] = ⊥
AllFollow (d ∷ ds) (e ∷ es) = Follows d e × AllFollow ds es

AllFollow-refl : (ds : List NotificationDelivery) → All IsValid ds → AllFollow ds ds
AllFollow-refl [] valid = tt
AllFollow-refl (d ∷ ds) valid = ((refl, valid.0, stay), AllFollow-refl ds valid.1)

AllFollow-map :
    (f : NotificationDelivery → NotificationDelivery)
    → ((d : NotificationDelivery) → IsValid d → Follows d (f d))
    → (ds : List NotificationDelivery) → All IsValid ds
    → AllFollow ds (map f ds)
AllFollow-map f h [] valid = tt
AllFollow-map f h (d ∷ ds) valid = (h d valid.0, AllFollow-map f h ds valid.1)

AllFollow-IsValid : (ds es : List NotificationDelivery) → AllFollow ds es → All IsValid es
AllFollow-IsValid [] [] h = tt
AllFollow-IsValid [] (e ∷ es) h = absurd h
AllFollow-IsValid (d ∷ ds) [] h = absurd h
AllFollow-IsValid (d ∷ ds) (e ∷ es) h = (h.0.1, AllFollow-IsValid ds es h.1)

AllFollow-trans :
    (ds es fs : List NotificationDelivery) → AllFollow ds es → AllFollow es fs → AllFollow ds fs
AllFollow-trans [] [] fs h k = k
AllFollow-trans [] (e ∷ es) fs h k = absurd h
AllFollow-trans (d ∷ ds) [] fs h k = absurd h
AllFollow-trans (d ∷ ds) (e ∷ es) [] h k = absurd k
AllFollow-trans (d ∷ ds) (e ∷ es) (f ∷ fs) h k =
    ((h.0.0 ∙ k.0.0, k.0.1, Steps-trans h.0.2 k.0.2), AllFollow-trans ds es fs h.1 k.1)

at_id :
    (now : ℕ) (id : String) (sent : Sent) (d : NotificationDelivery)
    → IsValid d
    → Follows d (if str_eq d.delivery_id id then finalize_row now sent d else d)
at_id now id sent d valid = elim (Bool-cases (str_eq d.delivery_id id)) [
  | inl this ↦ rw this (finalize_row-Follows now sent d valid)
  | inr other ↦ rw other (refl, valid, stay)
]

finalize-AllFollow :
    (now : ℕ) (id : String) (sent : Sent) (ds : List NotificationDelivery)
    → All IsValid ds
    → AllFollow ds (finalize now id sent ds)
unfolding finalize
finalize-AllFollow now id sent ds valid = AllFollow-map _ (λ d v. at_id now id sent d v) ds valid

finalize_all-AllFollow :
    (clock : String → ℕ) (sends : String → Sent) (ids : List String)
    → (ds : List NotificationDelivery) → All IsValid ds
    → AllFollow ds (finalize_all clock sends ids ds)
unfolding finalize_all
finalize_all-AllFollow clock sends [] ds valid = AllFollow-refl ds valid
finalize_all-AllFollow clock sends (id ∷ ids) ds valid =
    let first = finalize-AllFollow (clock id) id (sends id) ds valid in
    AllFollow-trans ds (finalize (clock id) id (sends id) ds) _ first (
      finalize_all-AllFollow clock sends ids (finalize (clock id) id (sends id) ds)
        (AllFollow-IsValid ds _ first))

-- Whatever is sent and whatever fails: `deliver_due` takes each delivery along steps of the machine
-- of attempts and leaves a count of attempts that its status goes with. No row is lost or added.
pub deliver_due-AllFollow :
    (locked : String → Bool) (clock : String → ℕ) (sends : String → Sent) (now limit : ℕ)
    → (rows : List NotificationDelivery) → All IsValid rows
    → AllFollow rows (deliver_due locked clock sends now limit rows).1
unfolding deliver_due claim_due
deliver_due-AllFollow locked clock sends now limit rows valid =
    let ids = due_ids locked now limit rows in
    let claimed = AllFollow-map (claim ids now) (claim-Follows ids now) rows valid in
    AllFollow-trans rows (map (claim ids now) rows) _ claimed (
      finalize_all-AllFollow clock sends ids (map (claim ids now) rows)
        (AllFollow-IsValid rows _ claimed))

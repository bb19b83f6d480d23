-- ===== src/Notifications/Attempts.antt =====
-- A delivery as a machine of attempts, and how a row of the table stands for a state of it.
use scam2marke.Prelude.{
  ℕ, ◌+◌, ◌≡◌, refl, inl, inr, ◌≤◌, ◌<◌, String, Bool, true, ◌&&◌, List, arith, leb, if◌then◌else◌,
  Bool-cases,
}
use scam2marke.Prelude.Dict.{contains, string_eq}
use scam2marke.Notifications.Service.{
  DeliveryStatus, NotificationDelivery, is_due, is_waiting, is_processing, claim, Sent, response,
  error, finalize_row,
}

-- What a delivery promises: at most five attempts, each of which is over before the next begins,
-- and an end when one succeeds or the fifth fails.
pub data Phase : Type 0 where
  waiting sending done : ℕ → Phase
  given_up : Phase

pub data Step : Phase → Phase → Type 0 where
  attempt : (n : ℕ) → n < 5 → Step (waiting n) (sending (n + 1))
  succeed : (n : ℕ) → Step (sending n) (done n)
  wait_again : (n : ℕ) → n < 5 → Step (sending n) (waiting n)
  give_up : (n : ℕ) → n ≡ 5 → Step (sending n) given_up

pub data Steps : Phase → Phase → Type 0 where
  stay : {p : Phase} → Steps p p
  move : {p q r : Phase} → Step p q → Steps q r → Steps p r

pub Steps-trans : {p q r : Phase} → Steps p q → Steps q r → Steps p r
Steps-trans stay after = after
Steps-trans (move step rest) after = move step (Steps-trans rest after)

abbrev pub phase_of : DeliveryStatus → ℕ → Phase
phase_of DeliveryStatus.pending n = waiting n
phase_of DeliveryStatus.retry n = waiting n
phase_of DeliveryStatus.processing n = sending n
phase_of DeliveryStatus.delivered n = done n
phase_of DeliveryStatus.failed n = given_up

abbrev pub phase : NotificationDelivery → Phase
phase d = phase_of d.status d.attempts

-- The attempts that a status goes with.
abbrev pub Fits : DeliveryStatus → ℕ → Type 0
Fits DeliveryStatus.pending n = n ≡ 0
Fits DeliveryStatus.retry n = (1 ≤ n) × (n < 5)
Fits DeliveryStatus.processing n = (1 ≤ n) × (n ≤ 5)
Fits DeliveryStatus.delivered n = (1 ≤ n) × (n ≤ 5)
Fits DeliveryStatus.failed n = n ≡ 5

abbrev pub IsValid : NotificationDelivery → Type 0
IsValid d = Fits d.status d.attempts

-- A row becomes a row of the same delivery, by steps of the machine.
abbrev pub Follows : NotificationDelivery → NotificationDelivery → Type 0
Follows d e = (d.delivery_id ≡ e.delivery_id) × IsValid e × Steps (phase d) (phase e)

claim-Follows-due :
    (status : DeliveryStatus) (n : ℕ)
    → is_waiting status ≡ true
    → Fits status n
    → Fits DeliveryStatus.processing (n + 1)
      × Steps (phase_of status n) (phase_of DeliveryStatus.processing (n + 1))
claim-Follows-due DeliveryStatus.pending n waits fits =
    ((omega arith, omega arith), move (attempt n (omega arith)) stay)
claim-Follows-due DeliveryStatus.retry n waits fits =
    ((omega arith, omega arith), move (attempt n fits.1) stay)
claim-Follows-due DeliveryStatus.processing n waits fits = absurd (cc)
claim-Follows-due DeliveryStatus.delivered n waits fits = absurd (cc)
claim-Follows-due DeliveryStatus.failed n waits fits = absurd (cc)

first_true : (a b c : Bool) → (a && b) && c ≡ true → a ≡ true
first_true a b c h = ground arith

pub claim-Follows :
    (ids : List String) (now : ℕ) (d : NotificationDelivery)
    → IsValid d
    → Follows d (claim ids now d)
unfolding claim
claim-Follows ids now d valid = elim (Bool-cases (is_due now d && contains ids d.delivery_id)) [
  | inl claimed ↦
      let waits = first_true (is_waiting d.status) _ _ claimed in
      let moved = claim-Follows-due d.status d.attempts waits valid in
      rw claimed (refl, moved.0, moved.1)
  | inr left ↦ rw left (refl, valid, stay)
]

finalize-sent :
    (status : DeliveryStatus) (n : ℕ)
    → is_processing status ≡ true
    → Fits status n
    → Fits DeliveryStatus.delivered n
      × Steps (phase_of status n) (phase_of DeliveryStatus.delivered n)
finalize-sent DeliveryStatus.processing n active fits = (fits, move (succeed n) stay)
finalize-sent DeliveryStatus.pending n active fits = absurd (cc)
finalize-sent DeliveryStatus.retry n active fits = absurd (cc)
finalize-sent DeliveryStatus.delivered n active fits = absurd (cc)
finalize-sent DeliveryStatus.failed n active fits = absurd (cc)

-- What an error leaves.
abbrev after_error : ℕ → DeliveryStatus
after_error n = if leb 5 n then DeliveryStatus.failed else DeliveryStatus.retry

finalize-unsent :
    (status : DeliveryStatus) (n : ℕ)
    → is_processing status ≡ true
    → Fits status n
    → Fits (after_error n) n × Steps (phase_of status n) (phase_of (after_error n) n)
finalize-unsent DeliveryStatus.processing n active fits = elim (Bool-cases (leb 5 n)) [
  | inl last ↦ let five : n ≡ 5 = ground arith in rw last (five, move (give_up n five) stay)
  | inr more ↦
      let under : n < 5 = ground arith in rw more ((fits.0, under), move (wait_again n under) stay)
]
finalize-unsent DeliveryStatus.pending n active fits = absurd (cc)
finalize-unsent DeliveryStatus.retry n active fits = absurd (cc)
finalize-unsent DeliveryStatus.delivered n active fits = absurd (cc)
finalize-unsent DeliveryStatus.failed n active fits = absurd (cc)

pub finalize_row-Follows :
    (now : ℕ) (sent : Sent) (d : NotificationDelivery)
    → IsValid d
    → Follows d (finalize_row now sent d)
unfolding finalize_row
finalize_row-Follows now (response code) d valid = elim (Bool-cases (is_processing d.status)) [
  | inl active ↦
      let moved = finalize-sent d.status d.attempts active valid in
      rw active (refl, moved.0, moved.1)
  | inr other ↦ rw other (refl, valid, stay)
]
finalize_row-Follows now (error text) d valid = elim (Bool-cases (is_processing d.status)) [
  | inl active ↦
      let moved = finalize-unsent d.status d.attempts active valid in
      rw active (refl, moved.0, moved.1)
  | inr other ↦ rw other (refl, valid, stay)
]

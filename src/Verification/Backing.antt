-- ===== src/Verification/Backing.antt =====
-- What a legitimate-event score rests on.
use scam2marke.Prelude.{
  ℕ, ◌≡◌, ◌∙◌, subst, ◌⊎◌, inl, inr, ◌≤◌, ◌<◌, String, Bool, true, false, not, List, [], ◌∷◌, map,
  arith, leb→le, keep, max, Any, Any-mono, Any-keep, Any-map,
}
use scam2marke.Verification.Types.{DisclosureCandidate, Claim}
use scam2marke.Verification.Verifier.{
  Scored, is_before, conflicted, scored, is_match, matching, verdict, best_reliability,
}
use scam2marke.Verification.Hindsight.{before, worth, legitimate-verdict}

-- The candidate was available at the alert, matched the claim, does not contradict it, and the
-- score is its reliability.
pub record Backed (lower upper : String → String) (threshold : ℕ) (claim : Claim)
    (alert_time score : ℕ) (c : DisclosureCandidate) : Type 0 where
  pub available : c.available_at ≤ alert_time
  pub matches : is_match lower upper threshold (scored lower upper claim c) ≡ true
  pub agrees : conflicted lower upper claim (scored lower upper claim c) ≡ false
  pub equals : score ≡ c.reliability

max-cases : (a b : ℕ) → (max a b ≡ a) ⊎ (max a b ≡ b)
max-cases a b = ground arith

best_reliability-Any :
    (is : List Scored)
    → 0 < best_reliability is
    → Any (λ (i : Scored). best_reliability is ≡ i.0.reliability) is
unfolding best_reliability
best_reliability-Any [] positive = absurd (omega arith)
best_reliability-Any (i ∷ is) positive = elim (max-cases i.0.reliability (best_reliability is)) [
  | inl own ↦ inl own
  | inr rest ↦
      inr
        (Any-mono (λ j e. rest ∙ e) is (best_reliability-Any is (subst (λ m. 0 < m) rest positive)))
]

module _ (lower upper : String → String) (threshold : ℕ) (claim : Claim) (alert_time : ℕ) where
  abbrev agreeing : List Scored → List Scored
  agreeing bs = keep (λ (i : Scored). not (conflicted lower upper claim i)) bs

  worth-agreeing :
      (bs : List Scored)
      → 0 < worth lower upper threshold claim alert_time bs
      → worth lower upper threshold claim alert_time bs ≡ best_reliability (agreeing bs)
  worth-agreeing bs positive = ground arith

  not-false : (b : Bool) → not b ≡ true → b ≡ false
  not-false b h = ground arith

  worth-Backed :
      (cs : List DisclosureCandidate) (score : ℕ)
      → score
        ≡ worth lower upper threshold claim alert_time
            (before lower upper threshold claim alert_time cs)
      → 0 < score
      → Any (Backed lower upper threshold claim alert_time score) cs
  unfolding matching
  worth-Backed cs score e positive =
      let bs = before lower upper threshold claim alert_time cs in
      let is_best = worth-agreeing bs (subst (λ m. 0 < m) e positive) in
      let found = best_reliability-Any (agreeing bs) (subst (λ m. 0 < m) (e ∙ is_best) positive) in
      let free = λ (i : Scored). not (conflicted lower upper claim i) in
      let all = map (scored lower upper claim) cs in
      let in_before = Any-keep _ free bs found in
      let in_matching =
        Any-keep _ (is_before alert_time) (matching lower upper threshold claim cs) in_before in
      let in_all = Any-keep _ (is_match lower upper threshold) all in_matching in
      Any-mono
        (λ c (((best, agrees), early), matched). record {
          available = leb→le c.available_at alert_time early;
          matches = matched;
          agrees = not-false (conflicted lower upper claim (scored lower upper claim c)) agrees;
          equals = e ∙ is_best ∙ best;
        })
        cs (Any-map _ (scored lower upper claim) cs in_all)

  -- A legitimate-event score above 0 is the reliability of a retrieved candidate that was
  -- available at the time of the alert, matched the claim and did not contradict it.
  pub legitimate-verdict-Backed :
      (complete : Bool) (cs : List DisclosureCandidate)
      → 0 < (verdict lower upper threshold claim alert_time complete cs).legitimate
      → Any
          (Backed lower upper threshold claim alert_time
            (verdict lower upper threshold claim alert_time complete cs).legitimate)
          cs
  legitimate-verdict-Backed complete cs positive =
      worth-Backed cs _ (legitimate-verdict lower upper threshold claim alert_time complete cs)
        positive

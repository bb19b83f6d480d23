-- ===== src/Verification/Hindsight.antt =====
-- What became available only after an alert does not count for the claim.
use scam2marke.Prelude.{
  ℕ, ◌≡◌, refl, sym, ap, ◌∙◌, String, Bool, true, ◌||◌, subst, not, List, [], ◌∷◌, map, arith, leb,
  if◌then◌else◌, nonempty, keep, keep-keep, nonempty-keep, keep-map,
}
use scam2marke.Prelude.Score.{one, cent}
use scam2marke.Verification.Types.{VerificationResult, DisclosureCandidate, Claim}
use scam2marke.Verification.Verifier.{
  Scored, Decision, is_before, is_future, conflicted, scored, is_match, matching, decide, verdict,
  best_reliability,
}

abbrev pub contemporaneous : ℕ → List DisclosureCandidate → List DisclosureCandidate
contemporaneous alert_time cs = keep (λ (c : DisclosureCandidate). leb c.available_at alert_time) cs

abbrev pub outcome : Decision → VerificationResult × ℕ
outcome d = (d.result, d.risk)

module _ (lower upper : String → String) (threshold : ℕ) (claim : Claim) (alert_time : ℕ) where
  abbrev pub before : List DisclosureCandidate → List Scored
  before cs = keep (is_before alert_time) (matching lower upper threshold claim cs)

  before-contemporaneous :
      (cs : List DisclosureCandidate)
      → before cs ≡ matching lower upper threshold claim (contemporaneous alert_time cs)
  unfolding matching
  before-contemporaneous cs =
      keep-keep (is_before alert_time) (is_match lower upper threshold)
        (map (scored lower upper claim) cs)
      ∙ ap (keep (is_match lower upper threshold))
          (keep-map (scored lower upper claim) (is_before alert_time) cs)

  same-before :
      (cs ds : List DisclosureCandidate)
      → contemporaneous alert_time cs ≡ contemporaneous alert_time ds
      → before cs ≡ before ds
  same-before cs ds same =
      before-contemporaneous cs
      ∙ ap (matching lower upper threshold claim) same
      ∙ sym (before-contemporaneous ds)

  abbrev pub verdict_of : Bool → List DisclosureCandidate → Decision
  verdict_of complete cs = verdict lower upper threshold claim alert_time complete cs

  -- What the matches that were available at the alert are worth.
  abbrev pub worth : List Scored → ℕ
  worth bs =
      if nonempty (keep (conflicted lower upper claim) bs)
      then 0
      else best_reliability (keep (λ (i : Scored). not (conflicted lower upper claim i)) bs)

  legitimate-decide :
      (complete retrieved : Bool) (conflict support future : List Scored)
      → (decide lower upper complete retrieved conflict support future).legitimate
        ≡ (if nonempty conflict then 0 else best_reliability support)
  unfolding decide best_reliability
  legitimate-decide complete retrieved [] [] [] = ground arith
  legitimate-decide complete retrieved [] [] (f ∷ fs) = refl
  legitimate-decide complete retrieved [] (s ∷ ss) future = refl
  legitimate-decide complete retrieved (c ∷ cs) support future = refl

  pub legitimate-verdict :
      (complete : Bool) (cs : List DisclosureCandidate)
      → (verdict_of complete cs).legitimate ≡ worth (before cs)
  unfolding verdict
  legitimate-verdict complete cs =
      legitimate-decide complete (nonempty cs) _ _
        (keep (is_future alert_time) (matching lower upper threshold claim cs))

  -- Two retrievals with the same candidates available at the time of the alert give the claim the
  -- same legitimate-event score, whatever else they hold and whichever sources were read.
  pub legitimate-verdict-hindsight :
      (complete complete' : Bool) (cs ds : List DisclosureCandidate)
      → contemporaneous alert_time cs ≡ contemporaneous alert_time ds
      → (verdict_of complete cs).legitimate ≡ (verdict_of complete' ds).legitimate
  legitimate-verdict-hindsight complete complete' cs ds same =
      legitimate-verdict complete cs
      ∙ ap worth (same-before cs ds same)
      ∙ sym (legitimate-verdict complete' ds)

  -- The result and the risk, where a match was available at the alert.
  abbrev judged : List Scored → VerificationResult × ℕ
  judged bs =
      if nonempty (keep (conflicted lower upper claim) bs)
      then (VerificationResult.conflicting, one)
      else (VerificationResult.supported_before_alert, cent 15)

  outcome-decide :
      (complete retrieved : Bool) (conflict support future : List Scored)
      → nonempty conflict || nonempty support ≡ true
      → outcome (decide lower upper complete retrieved conflict support future) ≡ (
          if nonempty conflict
          then (VerificationResult.conflicting, one)
          else (VerificationResult.supported_before_alert, cent 15))
  unfolding decide
  outcome-decide complete retrieved [] [] future some_match = absurd (cc)
  outcome-decide complete retrieved [] (s ∷ ss) future some_match = refl
  outcome-decide complete retrieved (c ∷ cs) support future some_match = refl

  outcome-verdict :
      (complete : Bool) (cs : List DisclosureCandidate)
      → nonempty (before cs) ≡ true
      → outcome (verdict_of complete cs) ≡ judged (before cs)
  unfolding verdict
  outcome-verdict complete cs some_match =
      outcome-decide complete (nonempty cs) _ _
        (keep (is_future alert_time) (matching lower upper threshold claim cs))
        (nonempty-keep (conflicted lower upper claim) (before cs) some_match)

  -- Where a matching candidate was available at the time of the alert, the result and the risk of
  -- the claim depend on nothing but the candidates available at that time.
  pub outcome-verdict-hindsight :
      (complete complete' : Bool) (cs ds : List DisclosureCandidate)
      → contemporaneous alert_time cs ≡ contemporaneous alert_time ds
      → nonempty (before cs) ≡ true
      → outcome (verdict_of complete cs) ≡ outcome (verdict_of complete' ds)
  outcome-verdict-hindsight complete complete' cs ds same some_match =
      outcome-verdict complete cs some_match
      ∙ ap judged (same-before cs ds same)
      ∙ sym (
          outcome-verdict complete' ds
            (subst (λ bs. nonempty bs ≡ true) (same-before cs ds same) some_match))

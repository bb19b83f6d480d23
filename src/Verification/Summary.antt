-- ===== src/Verification/Summary.antt =====
-- src/scam2market/verification/service.py, `NarrativeVerificationService`: the claims of a narrative
-- event are verified and summed up, and the summary is stored once.
use scam2marke.Prelude.{ℕ, String, ◌<>◌, Bool, List, [], ◌∷◌, map, ltb, if◌then◌else◌, max}
use scam2marke.Verification.Types.{
  VerificationResult, Claim, ClaimVerification, VerificationSummary,
}
use scam2marke.Verification.Extractor.{TextLibrary, extract}
use scam2marke.Verification.Verifier.{verify}
use scam2marke.Verification.Repository.{VerificationRepository, persist_verifications}

-- What the service reads of a `CanonicalEvent` and of its narrative.
pub record NarrativeEvent : Type 0 where
  -- `event.event_type == EventType.narrative_clustered`
  pub is_clustered : Bool
  pub event_time : ℕ
  pub narrative_id : String
  pub narrative_revision_id : String
  pub asset_id : String
  pub summary : String

pub data ProcessError : Type 0 where
  not_a_narrative no_claim : ProcessError

pub data Processed : Type 0 where
  refused : ProcessError → Processed
  processed : VerificationRepository → VerificationSummary → Processed

unfoldable pub precedence : VerificationResult → ℕ
precedence VerificationResult.conflicting = 5
precedence VerificationResult.unsupported = 4
precedence VerificationResult.supported_after_alert = 3
precedence VerificationResult.unknown = 2
precedence VerificationResult.supported_before_alert = 1

-- `_aggregate_result`, which keeps the first of the greatest
unfoldable pub aggregate_result : ClaimVerification → List ClaimVerification → VerificationResult
unfolding precedence
aggregate_result v [] = v.result
aggregate_result v (w ∷ vs) =
    let rest = aggregate_result w vs in
    if ltb (precedence v.result) (precedence rest) then rest else v.result

unfoldable pub greatest_of : (ClaimVerification → ℕ) → List ClaimVerification → ℕ
greatest_of f [] = 0
greatest_of f (v ∷ vs) = max (f v) (greatest_of f vs)

module _ (lib : TextLibrary) (show_time : ℕ → String) where
  -- The claims and what the verifier made of them.
  unfoldable pub summarize :
      NarrativeEvent → List Claim → ClaimVerification → List ClaimVerification → VerificationSummary
  summarize event claims v vs = record {
    narrative_id = event.narrative_id;
    alert_time = event.event_time;
    result = aggregate_result v vs;
    claim_risk = greatest_of (λ (i : ClaimVerification). i.claim_risk) (v ∷ vs);
    legitimate_event_score =
        greatest_of (λ (i : ClaimVerification). i.legitimate_event_score) (v ∷ vs);
    claims = claims;
    verifications = v ∷ vs;
  }

  abbrev pub event_id_of : NarrativeEvent → String
  event_id_of event = lib.uuid5 (
      "claim-summary:"
      <> lib.uuid5 (
          "verification-snapshot:"
          <> (event.narrative_revision_id
              <> (":" <> (show_time event.event_time <> ":availability-bounded-verifier-v2")))))

  unfoldable pub finish :
      VerificationRepository → NarrativeEvent → List Claim → List ClaimVerification → Processed
  finish r event claims [] = refused no_claim
  finish r event claims (v ∷ vs) =
      let summary = summarize event claims v vs in
      processed (persist_verifications r v vs (event_id_of event, summary)).1 summary

module _ (lib : TextLibrary) (show_time : ℕ → String)
    (threshold lookback_days future_days : ℕ) where
  abbrev pub verify_at : VerificationRepository → ℕ → Claim → ClaimVerification
  verify_at r alert_time claim =
      verify lib.lower lib.upper lib.uuid5 show_time threshold lookback_days future_days r claim
        alert_time

  -- `process`
  unfoldable pub process : VerificationRepository → NarrativeEvent → Processed
  process r event =
      let claims = extract lib event.narrative_id event.asset_id event.summary event.event_time in
      if event.is_clustered
      then finish lib show_time r event claims (map (verify_at r event.event_time) claims)
      else refused not_a_narrative

-- The repository after the call.
abbrev pub after : VerificationRepository → Processed → VerificationRepository
after r (refused e) = r
after r (processed r' s) = r'

-- ===== src/Verification/Verifier.antt =====
-- src/scam2market/verification/service.py, `TimeBoundedClaimVerifier` and the evidence it records.
-- A product of two scores is cut towards 0 to millionths. The text of an explainer, the versions,
-- the metadata of the retrieval and the clock's `verified_at` are left out of the record.
use scam2marke.Prelude.{
  ℕ, suc, ◌*◌, ◌/◌, ◌≡◌, refl, sym, ap, ◌∙◌, ◌↔◌, String, ◌<>◌, Bool, true, false, ◌&&◌, ◌||◌, not,
  List, [], ◌∷◌, ◌++◌, map, ltb, leb, ◌==◌, ==_iff, max, min, length, nonempty, keep, sorted,
  if◌then◌else◌,
}
use scam2marke.Prelude.Dict.{Eq, string_eq, pair_eq, contains}
use scam2marke.Prelude.Score.{one, cent}
use scam2marke.Prelude.Text.{str_leb}
use scam2marke.Features.Numbers.{distinct}
use scam2marke.Verification.Types.{
  VerificationResult, EvidenceRelation, DisclosureCandidate, Claim, VerificationEvidence,
  ClaimVerification,
}
use scam2marke.Verification.Text.{structured_similarity, conflict_reasons}
use scam2marke.Verification.Repository.{VerificationRepository, candidates, source_coverage}

-- A candidate with its similarity.
abbrev pub Scored : Type 0
Scored = DisclosureCandidate × ℕ

abbrev pub code_of : EvidenceRelation → ℕ
code_of EvidenceRelation.supporting = 0
code_of EvidenceRelation.conflicts = 1
code_of EvidenceRelation.context = 2
code_of EvidenceRelation.retrospective = 3

abbrev relation_of : ℕ → EvidenceRelation
relation_of n =
    if n == 0
    then EvidenceRelation.supporting
    else if n == 1
    then EvidenceRelation.conflicts
    else if n == 2
    then EvidenceRelation.context
    else EvidenceRelation.retrospective

abbrev pub relation_beq : EvidenceRelation → EvidenceRelation → Bool
relation_beq a b = code_of a == code_of b

relation-code : (a : EvidenceRelation) → relation_of (code_of a) ≡ a
relation-code EvidenceRelation.supporting = refl
relation-code EvidenceRelation.conflicts = refl
relation-code EvidenceRelation.context = refl
relation-code EvidenceRelation.retrospective = refl

pub relation_beq_iff : (a b : EvidenceRelation) → (relation_beq a b ≡ true) ↔ (a ≡ b)
relation_beq_iff a b = (
  λ same.
      sym (relation-code a)
      ∙ ap relation_of ((==_iff (code_of a) (code_of b)).0 same)
      ∙ relation-code b,
  λ same. (==_iff (code_of a) (code_of b)).1 (ap code_of same),
)

instance abbrev pub relation_eq : Eq EvidenceRelation
relation_eq = record { beq = relation_beq; beq_iff = relation_beq_iff }

abbrev pub is_after : VerificationResult → Bool
is_after VerificationResult.supported_after_alert = true
is_after _ = false

pub record Decision : Type 0 where
  pub result : VerificationResult
  pub risk : ℕ
  pub legitimate : ℕ
  pub evidence : List Scored
  pub reason : String

-- `max(item[0].reliability for item in support)`
unfoldable pub best_reliability : List Scored → ℕ
best_reliability [] = 0
best_reliability (i ∷ is) = max i.0.reliability (best_reliability is)

abbrev pub is_before : ℕ → Scored → Bool
is_before alert_time i = leb i.0.available_at alert_time

abbrev pub is_future : ℕ → Scored → Bool
is_future alert_time i = ltb alert_time i.0.available_at

-- `(-score, str(chunk_id))`
abbrev pub rank_leb : Scored → Scored → Bool
rank_leb a b = ltb b.1 a.1 || (a.1 == b.1 && str_leb a.0.chunk_id b.0.chunk_id)

module _ (lower upper : String → String) where
  unfoldable pub conflicted : Claim → Scored → Bool
  conflicted claim i = nonempty ((conflict_reasons lower upper claim i.0))

  abbrev pub scored : Claim → DisclosureCandidate → Scored
  scored claim c = (c, structured_similarity lower upper claim c)

  abbrev pub is_match : ℕ → Scored → Bool
  is_match threshold i = leb threshold (i.1 * i.0.reliability / one)

  unfoldable pub matching : ℕ → Claim → List DisclosureCandidate → List Scored
  unfolding structured_similarity
  matching threshold claim cs = keep (is_match threshold) (map (scored claim) cs)

  -- The branches of `verify`.
  unfoldable pub decide : Bool → Bool → List Scored → List Scored → List Scored → Decision
  decide complete retrieved conflict support future =
      if nonempty conflict
      then record {
        result = VerificationResult.conflicting;
        risk = one;
        legitimate = 0;
        evidence = support ++ (conflict ++ future);
        reason = "a time-valid source materially conflicts with the extracted claim";
      }
      else if nonempty support
      then record {
        result = VerificationResult.supported_before_alert;
        risk = cent 15;
        legitimate = best_reliability support;
        evidence = support ++ future;
        reason = "supporting disclosure existed at or before the alert cutoff";
      }
      else if nonempty future
      then record {
        result = VerificationResult.supported_after_alert;
        risk = cent 75;
        legitimate = 0;
        evidence = future;
        reason = "support appeared only after the alert cutoff and was not used retrospectively";
      }
      else if not complete
      then record {
        result = VerificationResult.unknown;
        risk = cent 50;
        legitimate = 0;
        evidence = [];
        reason = "expected official sources were failed, stale, or incomplete";
      }
      else if retrieved
      then record {
        result = VerificationResult.unsupported;
        risk = cent 90;
        legitimate = 0;
        evidence = [];
        reason = "retrieved time-bounded sources did not support the claim";
      }
      else record {
        result = VerificationResult.unknown;
        risk = cent 50;
        legitimate = 0;
        evidence = [];
        reason = "no eligible disclosure evidence was available around the alert cutoff";
      }

  unfoldable pub verdict : ℕ → Claim → ℕ → Bool → List DisclosureCandidate → Decision
  verdict threshold claim alert_time complete cs =
      let ms = matching threshold claim cs in
      let before = keep (is_before alert_time) ms in
      decide complete (nonempty cs) (keep (conflicted claim) before)
        (keep (λ (i : Scored). not (conflicted claim i)) before) (keep (is_future alert_time) ms)

  abbrev pub relation_at : Claim → ℕ → Scored → EvidenceRelation
  relation_at claim alert_time i =
      if not (is_before alert_time i)
      then EvidenceRelation.retrospective
      else if conflicted claim i
      then EvidenceRelation.conflicts
      else EvidenceRelation.supporting

  abbrev pub key_at : Claim → ℕ → Scored → String × EvidenceRelation
  key_at claim alert_time i = (i.0.disclosure_id, relation_at claim alert_time i)

  -- `conflicts or ([…] if eligible else […])`
  unfoldable pub reasons_at : Claim → ℕ → Scored → List String
  reasons_at claim alert_time i =
      if conflicted claim i
      then conflict_reasons lower upper claim i.0
      else (if is_before alert_time i then "AVAILABLE_AT_CUTOFF" else "AVAILABLE_AFTER_CUTOFF") ∷ []

  unfoldable pub evidence_at : Claim → ℕ → ℕ → Scored → VerificationEvidence
  evidence_at claim alert_time rank i = record {
    disclosure_id = i.0.disclosure_id;
    relation = relation_at claim alert_time i;
    score = max 0 (min one (i.1 * i.0.reliability / one));
    rank = rank;
    temporal_eligible = is_before alert_time i;
    reason_codes = reasons_at claim alert_time i;
    source_policy_id = i.0.source_policy_id;
    source_policy_version = i.0.source_policy_version;
    trust_score = i.0.reliability;
  }

  -- The loop of `_verification_evidence`, over the ranked matches.
  unfoldable pub collect :
      Claim
      → ℕ
      → List Scored
      → List VerificationEvidence
      → List (String × EvidenceRelation)
      → List VerificationEvidence
  collect claim alert_time [] result seen = result
  collect claim alert_time (i ∷ is) result seen =
      let key = key_at claim alert_time i in
      let again = contains seen key in
      collect claim alert_time is
        (if again
          then result
          else result ++ evidence_at claim alert_time (suc (length result)) i ∷ [])
        (if again then seen else key ∷ seen)

  unfoldable pub verification_evidence : Claim → List Scored → ℕ → List VerificationEvidence
  verification_evidence claim ms alert_time = collect claim alert_time (sorted rank_leb ms) [] []

  module _ (uuid5 : String → String) (show_time : ℕ → String)
      (threshold lookback_days future_days : ℕ) where
    -- `verify`
    unfoldable pub verify : VerificationRepository → Claim → ℕ → ClaimVerification
    verify r claim alert_time =
        let cs = candidates r claim.asset_id alert_time lookback_days future_days in
        let d = verdict threshold claim alert_time (source_coverage r claim.asset_id) cs in
        record {
          verification_id = uuid5 (
              "verification:"
              <> (claim.claim_id
                  <> (":" <> (show_time alert_time <> ":availability-bounded-verifier-v2"))));
          claim_id = claim.claim_id;
          alert_time = alert_time;
          result = d.result;
          claim_risk = d.risk;
          legitimate_event_score = d.legitimate;
          evidence_document_ids =
              sorted str_leb (distinct (map (λ (i : Scored). i.0.disclosure_id) d.evidence));
          deterministic_reason = d.reason;
          retrospective_only = is_after d.result;
          evidence = verification_evidence claim (matching threshold claim cs) alert_time;
        }

-- ===== src/Verification/Process.antt =====
-- The service as a whole: which result wins, when a summary comes out, and a repeated event.
use scam2marke.Prelude.{
  ℕ, ◌≡◌, refl, sym, ap, subst, inl, inr, ◌≤◌, String, true, false, List, [], ◌∷◌, ◌++◌, map, arith,
  ltb, eq_iff, Bool-cases, nonempty, All, All-mono, Any,
}
use scam2marke.Prelude.Text.{is_blank}
use scam2marke.Verification.Types.{
  VerificationResult, Claim, ClaimVerification, VerificationSummary,
}
use scam2marke.Verification.Extractor.{TextLibrary, extract}
use scam2marke.Verification.Verifier.{verify}
use scam2marke.Verification.Repository.{
  VerificationRepository, persist_verifications, has_verification, candidates, source_coverage,
}
use scam2marke.Verification.Claims.{extract-nonempty}
use scam2marke.Verification.Summary.{
  NarrativeEvent, Processed, processed, precedence, aggregate_result, verify_at, event_id_of,
  summarize, finish, process, after,
}

below_own : (own best other : ℕ) → ltb own best ≡ false → other ≤ best → other ≤ own
below_own own best other more below = ground arith

-- The result of one of them, which no other goes before.
abbrev pub Wins : List ClaimVerification → VerificationResult → Type 0
Wins vs result =
    Any (λ (w : ClaimVerification). w.result ≡ result) vs
    × All (λ (w : ClaimVerification). precedence w.result ≤ precedence result) vs

aggregate_result_later :
    (v w : ClaimVerification) (vs : List ClaimVerification)
    → ltb (precedence v.result) (precedence (aggregate_result w vs)) ≡ true
    → aggregate_result v (w ∷ vs) ≡ aggregate_result w vs
unfolding aggregate_result
aggregate_result_later v w vs less = rw less refl

aggregate_result_first :
    (v w : ClaimVerification) (vs : List ClaimVerification)
    → ltb (precedence v.result) (precedence (aggregate_result w vs)) ≡ false
    → aggregate_result v (w ∷ vs) ≡ v.result
unfolding aggregate_result
aggregate_result_first v w vs more = rw more refl

-- The result is that of one of the verifications, and none of them has a result that goes before
-- it: CONFLICTING, UNSUPPORTED, SUPPORTED_AFTER_ALERT, UNKNOWN, SUPPORTED_BEFORE_ALERT.
pub aggregate_result-Wins :
    (v : ClaimVerification) (vs : List ClaimVerification) → Wins (v ∷ vs) (aggregate_result v vs)
unfolding aggregate_result
aggregate_result-Wins v [] = (inl refl, (omega arith, tt))
aggregate_result-Wins v (w ∷ vs) =
    let rest = aggregate_result-Wins w vs in
    elim (Bool-cases (ltb (precedence v.result) (precedence (aggregate_result w vs)))) [
      | inl less ↦
          subst (Wins (v ∷ w ∷ vs)) (sym (aggregate_result_later v w vs less))
            (inr rest.0, (ground arith, rest.1))
      | inr more ↦ subst (Wins (v ∷ w ∷ vs)) (sym (aggregate_result_first v w vs more)) (
        inl refl,
        (
          omega arith,
          All-mono (λ x below. below_own (precedence v.result) _ (precedence x.result) more below)
              (w ∷ vs) rest.1,
        ),
      )
    ]

has-append :
    (id : String) (xs ys : List ClaimVerification)
    → has_verification id ys ≡ true
    → has_verification id (xs ++ ys) ≡ true
has-append id [] ys h = h
has-append id (x ∷ xs) ys h = ground (arith, has-append id xs ys h)

persist-again :
    (r : VerificationRepository) (v : ClaimVerification) (vs : List ClaimVerification)
    → (e : String × VerificationSummary)
    → (persist_verifications (persist_verifications r v vs e).1 v vs e).1
      ≡ (persist_verifications r v vs e).1
unfolding persist_verifications
persist-again r v vs e =
    let own = (eq_iff v.verification_id v.verification_id).1 refl in
    let known = has-append v.verification_id r.verifications (v ∷ vs) (ground (arith, own)) in
    elim (Bool-cases (has_verification v.verification_id r.verifications)) [
      | inl before ↦ simp (before) refl
      | inr new ↦ simp (new, known) refl
    ]

module _ (lib : TextLibrary) (show_time : ℕ → String)
    (threshold lookback_days future_days : ℕ) where
  abbrev run : VerificationRepository → NarrativeEvent → Processed
  run r event = process lib show_time threshold lookback_days future_days r event

  abbrev claims_of : NarrativeEvent → List Claim
  claims_of event = extract lib event.narrative_id event.asset_id event.summary event.event_time

  abbrev IsStored : NarrativeEvent → Processed → Type 0
  IsStored event p = (r : VerificationRepository) × (s : VerificationSummary) × (p ≡ processed r s)

  finish-processed :
      (r : VerificationRepository) (event : NarrativeEvent) (claims : List Claim)
      → (f : Claim → ClaimVerification) → nonempty claims ≡ true
      → IsStored event (finish lib show_time r event claims (map f claims))
  unfolding finish
  finish-processed r event [] f some_claim = absurd (cc)
  finish-processed r event (c ∷ cs) f some_claim = (_, _, refl)

  -- A narrative event whose summary is more than white space is never refused: a summary comes out.
  pub process-total :
      (r : VerificationRepository) (event : NarrativeEvent)
      → event.is_clustered ≡ true
      → is_blank (lib.strip event.summary) ≡ false
      → (r' : VerificationRepository) × (s : VerificationSummary) × (run r event ≡ processed r' s)
  unfolding process
  process-total r event clustered solid = simp (clustered) (
      finish-processed r event (claims_of event)
        (verify_at lib show_time threshold lookback_days future_days r event.event_time)
        (extract-nonempty lib event.narrative_id event.asset_id event.event_time event.summary
          solid))

  persist-verify :
      (r : VerificationRepository) (v : ClaimVerification) (vs : List ClaimVerification)
      → (e : String × VerificationSummary) (t : ℕ)
      → verify_at lib show_time threshold lookback_days future_days
          (persist_verifications r v vs e).1
          t
        ≡ verify_at lib show_time threshold lookback_days future_days r t
  unfolding persist_verifications verify candidates source_coverage
  persist-verify r v vs e t =
      elim (Bool-cases (has_verification v.verification_id r.verifications)) [
        | inl known ↦ rw known refl
        | inr unknown ↦ rw unknown refl
      ]

  finish-verify :
      (r : VerificationRepository) (event : NarrativeEvent) (claims : List Claim)
      → (vs : List ClaimVerification) (t : ℕ)
      → verify_at lib show_time threshold lookback_days future_days
          (after r (finish lib show_time r event claims vs))
          t
        ≡ verify_at lib show_time threshold lookback_days future_days r t
  unfolding finish
  finish-verify r event claims [] t = refl
  finish-verify r event claims (v ∷ vs) t = persist-verify r v vs _ t

  finish-again :
      (r : VerificationRepository) (event : NarrativeEvent) (claims : List Claim)
      → (vs : List ClaimVerification)
      → finish lib show_time (after r (finish lib show_time r event claims vs)) event claims vs
        ≡ finish lib show_time r event claims vs
  unfolding finish
  finish-again r event claims [] = refl
  finish-again r event claims (v ∷ vs) =
      ap (λ r'. processed r' (summarize lib show_time event claims v vs))
        (persist-again r v vs
          (event_id_of lib show_time event, summarize lib show_time event claims v vs))

  -- A narrative event that comes a second time has the answer of the first time, and changes
  -- nothing in the repository: no verification and no outbox event is added.
  pub process-again :
      (r : VerificationRepository) (event : NarrativeEvent)
      → run (after r (run r event)) event ≡ run r event
  unfolding process
  process-again r event = elim (Bool-cases event.is_clustered) [
    | inl clustered ↦ simp (clustered, finish-verify) (finish-again r event (claims_of event) _)
    | inr other ↦ simp (other) refl
  ]

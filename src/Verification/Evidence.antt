-- ===== src/Verification/Evidence.antt =====
-- The evidence that a verification records: its ranks, its keys and what each entry says.
use scam2marke.Prelude.{
  sorted-All, All-member, Any-mono, ◌<◌, ℕ, suc, ◌+◌, ◌*◌, ◌/◌, ◌≡◌, refl, sym, ap, ◌∙◌, ◌≢◌, ◌↔◌,
  subst, inl, inr, ◌≤◌, String, true, false, List, [], ◌∷◌, ◌++◌, arith, Bool-cases, length,
  nonempty, All, All-append, All-mono, Any, Any-append, All-sorted, min, max, sorted,
}
use scam2marke.Prelude.Dict.{contains, contains-cons_self, pair_eq, string_eq}
use scam2marke.Prelude.Score.{one}
use scam2marke.Verification.Types.{EvidenceRelation, VerificationEvidence, Claim}
use scam2marke.Verification.Verifier.{
  Scored, is_before, conflicted, key_at, relation_at, relation_eq, evidence_at, reasons_at,
  rank_leb, collect, verification_evidence,
}

abbrev pub evidence_key : VerificationEvidence → String × EvidenceRelation
evidence_key e = (e.disclosure_id, e.relation)

abbrev pub Ranked : ℕ → List VerificationEvidence → Type 0
Ranked n [] = Unit
Ranked n (e ∷ es) = (e.rank ≡ n) × Ranked (suc n) es

abbrev pub OncePerKey : List VerificationEvidence → Type 0
OncePerKey [] = Unit
OncePerKey (e ∷ es) =
    All (λ (f : VerificationEvidence). evidence_key f ≢ evidence_key e) es × OncePerKey es

Ranked-snoc :
    (n : ℕ) (es : List VerificationEvidence) (e : VerificationEvidence)
    → Ranked n es
    → e.rank ≡ n + length es
    → Ranked n (es ++ e ∷ [])
Ranked-snoc n [] e ranked last = (omega (arith, last), tt)
Ranked-snoc n (f ∷ es) e ranked last = (ranked.0, Ranked-snoc (suc n) es e ranked.1 (omega arith))

OncePerKey-snoc :
    (es : List VerificationEvidence) (e : VerificationEvidence)
    → OncePerKey es
    → All (λ (f : VerificationEvidence). evidence_key f ≢ evidence_key e) es
    → OncePerKey (es ++ e ∷ [])
OncePerKey-snoc [] e once fresh = (tt, tt)
OncePerKey-snoc (f ∷ es) e once fresh = (
  All-append _ es (e ∷ []) once.0 ((λ same. fresh.0 (sym same)), tt),
  OncePerKey-snoc es e once.1 fresh.1,
)

contains-cons :
    (k j : String × EvidenceRelation) (seen : List (String × EvidenceRelation))
    → contains seen j ≡ true
    → contains (k ∷ seen) j ≡ true
unfolding contains
contains-cons k j seen h = ground arith

true-false : true ≡ false → ⊥
true-false h = cc

none_known :
    (k : String × EvidenceRelation)
    → contains [] k ≡ true
    → Any (λ (e : VerificationEvidence). evidence_key e ≡ k) []
unfolding contains
none_known k h = absurd (true-false (sym h))

module _ (lower upper : String → String) (claim : Claim) (alert_time : ℕ)
    (matches : List Scored) where
  -- The entry is about the match, and says of it whether it was available by the cutoff and, if it
  -- was, whether it contradicts the claim.
  abbrev pub IsOf : VerificationEvidence → Scored → Type 0
  IsOf e i =
      (e.disclosure_id ≡ i.0.disclosure_id)
      × ((e.temporal_eligible ≡ true) ↔ (i.0.available_at ≤ alert_time))
      × ((e.relation ≡ EvidenceRelation.retrospective) ↔ (alert_time < i.0.available_at))
      × ((e.relation ≡ EvidenceRelation.conflicts)
          ↔ ((i.0.available_at ≤ alert_time) × (conflicted lower upper claim i ≡ true)))

  -- A score of at most 1, some reason, and a match that it is of.
  pub record Sound (e : VerificationEvidence) : Type 0 where
    pub bounded : e.score ≤ one
    pub explained : nonempty e.reason_codes ≡ true
    pub source : Any (IsOf e) matches

  -- The accumulator of the loop, with the keys that it has seen.
  record Collected (result : List VerificationEvidence) (seen : List (String × EvidenceRelation))
      : Type 0 where
    pub ranked : Ranked 1 result
    pub once : OncePerKey result
    pub covered : All (λ (e : VerificationEvidence). contains seen (evidence_key e) ≡ true) result
    pub sound : All Sound result

  capped : (n : ℕ) → max 0 (min one n) ≤ one
  capped n = omega arith

  reasons_at-nonempty : (i : Scored) → nonempty (reasons_at lower upper claim alert_time i) ≡ true
  unfolding reasons_at conflicted
  reasons_at-nonempty i = ground arith

  evidence_at-bounded :
      (n : ℕ) (i : Scored) → (evidence_at lower upper claim alert_time n i).score ≤ one
  unfolding evidence_at
  evidence_at-bounded n i = capped (i.1 * i.0.reliability / one)

  evidence_at-explained :
      (n : ℕ) (i : Scored)
      → nonempty (evidence_at lower upper claim alert_time n i).reason_codes ≡ true
  unfolding evidence_at
  evidence_at-explained n i = reasons_at-nonempty i

  relation_at-retrospective :
      (i : Scored)
      → (relation_at lower upper claim alert_time i ≡ EvidenceRelation.retrospective)
        ↔ (alert_time < i.0.available_at)
  relation_at-retrospective i = ground arith

  relation_at-conflicts :
      (i : Scored)
      → (relation_at lower upper claim alert_time i ≡ EvidenceRelation.conflicts)
        ↔ ((i.0.available_at ≤ alert_time) × (conflicted lower upper claim i ≡ true))
  relation_at-conflicts i = ground arith

  is_before_iff : (i : Scored) → (is_before alert_time i ≡ true) ↔ (i.0.available_at ≤ alert_time)
  is_before_iff i = ground arith

  evidence_at-IsOf : (n : ℕ) (i : Scored) → IsOf (evidence_at lower upper claim alert_time n i) i
  unfolding evidence_at
  evidence_at-IsOf n i =
      (refl, is_before_iff i, relation_at-retrospective i, relation_at-conflicts i)

  evidence_at-Sound :
      (n : ℕ) (i : Scored)
      → Any (λ (j : Scored). j ≡ i) matches
      → Sound (evidence_at lower upper claim alert_time n i)
  evidence_at-Sound n i there =
      let e = evidence_at lower upper claim alert_time n i in
      record {
        bounded = evidence_at-bounded n i;
        explained = evidence_at-explained n i;
        source =
            Any-mono (λ j same. subst (IsOf e) (sym same) (evidence_at-IsOf n i)) matches there;
      }

  Collected-snoc :
      (result : List VerificationEvidence) (seen : List (String × EvidenceRelation)) (i : Scored)
      → contains seen (key_at lower upper claim alert_time i) ≡ false
      → Any (λ (j : Scored). j ≡ i) matches
      → Collected result seen
      → Collected
          (result ++ evidence_at lower upper claim alert_time (suc (length result)) i ∷ [])
          (key_at lower upper claim alert_time i ∷ seen)
  unfolding evidence_at
  Collected-snoc result seen i fresh there c =
      let e = evidence_at lower upper claim alert_time (suc (length result)) i in
      record {
        ranked = Ranked-snoc 1 result e c.ranked (omega arith);
        once = OncePerKey-snoc result e c.once (
            All-mono
              (λ f known same. absurd (true-false (sym known ∙ ap (contains seen) same ∙ fresh)))
              result c.covered);
        covered =
            All-append _ result (e ∷ [])
              (All-mono (λ f known. contains-cons _ (evidence_key f) seen known) result c.covered)
              (contains-cons_self (key_at lower upper claim alert_time i) seen, tt);
        sound = All-append Sound result (e ∷ []) c.sound (evidence_at-Sound _ i there, tt);
      }

  collect-Collected :
      (is : List Scored) (result : List VerificationEvidence)
      (seen : List (String × EvidenceRelation))
      → All (λ i. Any (λ (j : Scored). j ≡ i) matches) is
      → Collected result seen
      → (keys : List (String × EvidenceRelation)) × Collected
          (collect lower upper claim alert_time is result seen)
          keys
  unfolding collect
  collect-Collected [] result seen all c = (seen, c)
  collect-Collected (i ∷ is) result seen all c =
      elim (Bool-cases (contains seen (key_at lower upper claim alert_time i))) [
        | inl again ↦ rw again (collect-Collected is result seen all.1 c)
        | inr fresh ↦
            rw fresh (collect-Collected is _ _ all.1 (Collected-snoc result seen i fresh all.0 c))
      ]

module _ (lower upper : String → String) (claim : Claim) (alert_time : ℕ) where
  abbrev pub Represented : List VerificationEvidence → Scored → Type 0
  Represented es i =
      Any (λ (e : VerificationEvidence). evidence_key e ≡ key_at lower upper claim alert_time i) es

  collect-Any :
      (P : VerificationEvidence → Type 0)
      → (is : List Scored) (result : List VerificationEvidence)
        (seen : List (String × EvidenceRelation))
      → Any P result
      → Any P (collect lower upper claim alert_time is result seen)
  unfolding collect
  collect-Any P [] result seen found = found
  collect-Any P (i ∷ is) result seen found =
      elim (Bool-cases (contains seen (key_at lower upper claim alert_time i))) [
        | inl again ↦ rw again (collect-Any P is result seen found)
        | inr fresh ↦ rw fresh (collect-Any P is _ _ (Any-append P result _ (inl found)))
      ]

  -- The keys seen are keys of the result.
  Known : List (String × EvidenceRelation) → List VerificationEvidence → Type 0
  Known seen result =
      (k : String × EvidenceRelation)
      → contains seen k ≡ true
      → Any (λ (e : VerificationEvidence). evidence_key e ≡ k) result

  Known-cons :
      (seen : List (String × EvidenceRelation)) (result : List VerificationEvidence)
      → (k : String × EvidenceRelation) (e : VerificationEvidence) → evidence_key e ≡ k
      → Known seen result
      → Known (k ∷ seen) (result ++ e ∷ [])
  unfolding contains Known
  Known-cons seen result k e same known j h = elim (Bool-cases (pair_eq.beq k j)) [
    | inl it ↦ Any-append _ result (e ∷ []) (inr (inl (same ∙ (pair_eq.beq_iff k j).0 it)))
    | inr other ↦ Any-append _ result (e ∷ []) (inl (known j (rw other at h)))
  ]

  collect_again :
      (i : Scored) (is : List Scored) (result : List VerificationEvidence)
      → (seen : List (String × EvidenceRelation))
      → contains seen (key_at lower upper claim alert_time i) ≡ true
      → collect lower upper claim alert_time (i ∷ is) result seen
        ≡ collect lower upper claim alert_time is result seen
  unfolding collect
  collect_again i is result seen again = rw again refl

  collect_new :
      (i : Scored) (is : List Scored) (result : List VerificationEvidence)
      → (seen : List (String × EvidenceRelation))
      → contains seen (key_at lower upper claim alert_time i) ≡ false
      → collect lower upper claim alert_time (i ∷ is) result seen
        ≡ collect lower upper claim alert_time is
            (result ++ evidence_at lower upper claim alert_time (suc (length result)) i ∷ [])
            (key_at lower upper claim alert_time i ∷ seen)
  unfolding collect
  collect_new i is result seen fresh = rw fresh refl

  AllRepresented : List Scored → List VerificationEvidence → Type 0
  AllRepresented is es = All (Represented es) is

  collect-Represented :
      (is : List Scored) (result : List VerificationEvidence)
      → (seen : List (String × EvidenceRelation)) → Known seen result
      → AllRepresented is (collect lower upper claim alert_time is result seen)
  unfolding Known AllRepresented evidence_at
  collect-Represented [] result seen known = tt
  collect-Represented (i ∷ is) result seen known =
      let key = key_at lower upper claim alert_time i in
      let e = evidence_at lower upper claim alert_time (suc (length result)) i in
      elim (Bool-cases (contains seen key)) [
        | inl again ↦ subst (AllRepresented (i ∷ is)) (sym (collect_again i is result seen again)) (
          collect-Any _ is result seen (known key again),
          collect-Represented is result seen known,
        )
        | inr fresh ↦ subst (AllRepresented (i ∷ is)) (sym (collect_new i is result seen fresh)) (
          collect-Any _ is (result ++ e ∷ []) (key ∷ seen)
              (Any-append _ result (e ∷ []) (inr (inl refl))),
          collect-Represented is (result ++ e ∷ []) (key ∷ seen)
              (Known-cons seen result key e refl known),
        )
      ]

  -- Every match stands in the evidence: an entry has its disclosure and its relation.
  pub verification_evidence-Represented :
      (ms : List Scored)
      → All (Represented (verification_evidence lower upper claim ms alert_time)) ms
  unfolding verification_evidence
  verification_evidence-Represented ms = All-sorted _ rank_leb ms (
      unfold AllRepresented in
      (collect-Represented (sorted rank_leb ms) [] [] (unfold Known in none_known)))

  -- The ranks count from 1, and no two entries have both disclosure and relation in common. Every
  -- match has an entry with its disclosure and its relation. Every entry has a score of at most 1 and
  -- a reason, and is of a match: it is temporally eligible exactly where that was available by the
  -- cutoff, RETROSPECTIVE exactly where it became available after the cutoff, and CONFLICTS exactly
  -- where it was available by the cutoff and contradicts the claim.
  pub verification_evidence-Sound :
      (ms : List Scored)
      → let es = verification_evidence lower upper claim ms alert_time in
        Ranked 1 es
        × OncePerKey es
        × All (Represented es) ms
        × All (Sound lower upper claim alert_time ms) es
  unfolding verification_evidence
  verification_evidence-Sound ms =
      let c =
        (collect-Collected lower upper claim alert_time ms (sorted rank_leb ms) [] []
          (sorted-All (λ i. Any (λ (j : Scored). j ≡ i) ms) rank_leb ms (All-member ms))
          record { ranked = tt; once = tt; covered = tt; sound = tt }).1 in
      (c.ranked, c.once, verification_evidence-Represented ms, c.sound)

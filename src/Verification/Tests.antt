-- ===== src/Verification/Tests.antt =====
-- The theorems at concrete claims and documents, and runs of the definitions.
use scam2marke.Prelude.{
  ℕ, ◌≡◌, refl, sym, subst, ◌<◌, ◌≤◌, String, ◌<>◌, true, false, List, [], ◌∷◌, none, arith,
  nonempty, All, Any, sorted, keep, ◌==◌, if◌then◌else◌,
}
use Prim.Native.Char.{Char, code}
use Prim.Native.String.append
use scam2marke.Prelude.Dict.{lookup, contains, string_eq}
use scam2marke.Prelude.Score.{one, cent}
use scam2marke.Prelude.Text.{text_length, contains_text, starts_with}
use scam2marke.Features.Numbers.{distinct}
use scam2marke.Verification.Text.{
  find_tokens, scan_tokens, token_of, extend, join_tokens, find_amounts, scan_amounts, amount_step,
  words, is_number, all_digits, claim_type_of, is_negated, similarity, canonical_claim,
  structured_similarity, conflict_reasons, evidence_text,
}
use scam2marke.Verification.Repository.{select_versions, persist_versioned_disclosure}
use scam2marke.Verification.Verifier.{
  Scored, matching, decide, verdict, best_reliability, conflicted, verification_evidence,
}
use scam2marke.Verification.Hindsight.{before, legitimate-verdict-hindsight}
use scam2marke.Verification.Backing.{Backed, legitimate-verdict-Backed}
use scam2marke.Verification.Evidence.{
  Ranked, OncePerKey, Represented, Sound, verification_evidence-Sound,
}
use scam2marke.Verification.Amounts.{amounts-canonical_claim}
use scam2marke.Verification.Summary.{process, after}
use scam2marke.Verification.Process.{process-again}
use scam2marke.Verification.Versions.{eligible, later, Seen, select_versions-eligible}
use scam2marke.Verification.Stored.{next_key, persist_versioned_disclosure-again}
use scam2marke.Verification.Samples.{
  lib, award_claim, early, late, nobody, event, filing, versions, same,
}

two_tokens : find_tokens "a contract_1, -b 42" ≡ "contract_1" ∷ "42" ∷ []
unfolding find_tokens scan_tokens token_of extend text_length
two_tokens = refl

fractions : find_amounts "paid 10.25 of 7 and 3." ≡ "10.25" ∷ "7" ∷ "3" ∷ []
unfolding find_amounts scan_amounts amount_step words is_number all_digits
fractions = refl

early_score : (verdict same same (cent 34) award_claim 50 true (early ∷ late ∷ [])).legitimate ≡ one
unfolding verdict matching decide best_reliability conflicted structured_similarity similarity
    canonical_claim is_negated conflict_reasons evidence_text claim_type_of find_tokens scan_tokens
    token_of extend text_length join_tokens find_amounts scan_amounts amount_step words is_number
    all_digits distinct contains contains_text starts_with sorted
early_score = refl

legitimate-verdict-hindsight_example :
    (verdict same same (cent 34) award_claim 50 true (early ∷ late ∷ [])).legitimate
    ≡ (verdict same same (cent 34) award_claim 50 false (early ∷ [])).legitimate
legitimate-verdict-hindsight_example =
    legitimate-verdict-hindsight same same (cent 34) award_claim 50 true false (early ∷ late ∷ [])
      (early ∷ []) refl

early_matches : nonempty (before same same (cent 34) award_claim 50 (early ∷ late ∷ [])) ≡ true
unfolding verdict matching decide best_reliability conflicted structured_similarity similarity
    canonical_claim is_negated conflict_reasons evidence_text claim_type_of find_tokens scan_tokens
    token_of extend text_length join_tokens find_amounts scan_amounts amount_step words is_number
    all_digits distinct contains contains_text starts_with sorted
early_matches = refl

legitimate-verdict-Backed_example :
    Any
      (Backed same same
        (cent 34)
        award_claim
        50
        (verdict same same (cent 34) award_claim 50 true (early ∷ late ∷ [])).legitimate)
      (early ∷ late ∷ [])
legitimate-verdict-Backed_example =
    legitimate-verdict-Backed same same (cent 34) award_claim 50 true (early ∷ late ∷ [])
      (subst (λ n. 0 < n) (sym early_score) (omega arith))

abbrev matches : List Scored
matches = (early, 900_000) ∷ (late, 700_000) ∷ (early, 600_000) ∷ []

verification_evidence-Sound_example :
    Ranked 1 (verification_evidence same same award_claim matches 50)
    × OncePerKey (verification_evidence same same award_claim matches 50)
    × All
        (Represented same same award_claim 50
          (verification_evidence same same award_claim matches 50))
        matches
    × All
        (Sound same same award_claim 50 matches)
        (verification_evidence same same award_claim matches 50)
verification_evidence-Sound_example = verification_evidence-Sound same same award_claim 50 matches

amounts-canonical_claim_example :
    All
      (λ (w : String). is_number w ≡ true)
      (canonical_claim same same "acme" "dividend of 10.25 dollars").amounts
amounts-canonical_claim_example =
    amounts-canonical_claim same same "acme" "dividend of 10.25 dollars"

abbrev no_time : ℕ → String
no_time n = ""

process-again_example :
    process lib no_time
      (cent 34)
      30
      7
      (after nobody (process lib no_time (cent 34) 30 7 nobody event))
      event
    ≡ process lib no_time (cent 34) 30 7 nobody event
process-again_example = process-again lib no_time (cent 34) 30 7 nobody event

select_versions-eligible_example :
    Seen 50 versions (keep (eligible 50) (select_versions 50 versions))
    × (keep (later 50) (select_versions 50 versions) ≡ keep (later 50) versions)
select_versions-eligible_example = select_versions-eligible 50 versions

nothing_stored : lookup (next_key same (λ n. "") (filing 1 20) nobody) nobody.documents ≡ none
unfolding lookup
nothing_stored = refl

persist_versioned_disclosure-again_example :
    persist_versioned_disclosure same
      (λ n. "")
      90
      (λ d. [])
      (persist_versioned_disclosure same (λ n. "") 80 (λ d. []) nobody (filing 1 20) true).1
      (filing 1 20)
      false
    ≡ (none, (persist_versioned_disclosure same (λ n. "") 80 (λ d. []) nobody (filing 1 20) true).1)
persist_versioned_disclosure-again_example =
    persist_versioned_disclosure-again same (λ n. "") (filing 1 20) (λ d. []) 80 90 nobody true
      false nothing_stored

-- A `strip` that takes newlines off the front.
abbrev strip_front : String → String
strip_front String.[] = String.[]
strip_front (String.◌∷◌ c s) = if code c == b'\n' then s else String.◌∷◌ c s

strip_front-shorter : (s : String) → text_length (strip_front s) ≤ text_length s
unfolding text_length
strip_front-shorter String.[] = omega arith
strip_front-shorter (String.◌∷◌ c s) = ground arith

one_front :
    (c : Char) (s : String)
    → code c ≡ b'\n'
    → text_length (strip_front (String.◌∷◌ c s)) ≤ text_length s
one_front c s same = ground arith

strip_front-newline : (s : String) → text_length (strip_front ("\n" <> s)) ≤ text_length s
strip_front-newline s = rw (append.cons "\n" String.[] s, append.nil s) (one_front "\n" s refl)

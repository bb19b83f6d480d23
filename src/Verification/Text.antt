-- ===== src/Verification/Text.antt =====
-- src/scam2market/verification/service.py, the regular expressions and the canonical form of a
-- text. `lower` and `upper` are the methods of `str`.
use Prim.Native.Char.{Char, code}
use scam2marke.Prelude.{
  ℕ, ◌+◌, ◌*◌, ◌/◌, String, ◌<>◌, Bool, true, false, ◌&&◌, ◌||◌, not, List, [], ◌∷◌, ◌++◌, Option,
  none, some, leb, ◌==◌, if◌then◌else◌, length, nonempty, keep, any_of, sorted, is_some,
}
use scam2marke.Prelude.Dict.{contains, string_eq}
use scam2marke.Prelude.Text.{text_length, str_leb, contains_text, is_blank}
use scam2marke.Prelude.Score.{one}
use scam2marke.Features.Numbers.{distinct}
use scam2marke.Verification.Types.{Canonical, Claim, DisclosureCandidate}

abbrev pub is_digit : ℕ → Bool
is_digit c = leb b'0' c && leb c b'9'

-- `[a-z0-9]`
abbrev pub starts_token : ℕ → Bool
starts_token c = (leb b'a' c && leb c b'z') || is_digit c

-- `[a-z0-9_-]`
abbrev pub continues_token : ℕ → Bool
continues_token c = starts_token c || (c == b'_') || (c == b'-')

abbrev pub snoc : String → Char → String
snoc s c = s <> String.◌∷◌ c String.[]

-- A run of characters is a token from two on.
unfoldable pub token_of : String → List String
unfolding text_length
token_of run = if leb 2 (text_length run) then run ∷ [] else []

-- The run that a character leaves.
unfoldable pub extend : String → Char → String
extend run c =
    if is_blank run
    then (if starts_token (code c) then String.◌∷◌ c String.[] else String.[])
    else if continues_token (code c)
    then snoc run c
    else String.[]

-- The matches of `[a-z0-9][a-z0-9_-]+`, with the run that is open.
unfoldable pub scan_tokens : String → String → List String
scan_tokens run String.[] = token_of run
scan_tokens run (String.◌∷◌ c s) =
    (if continues_token (code c) then [] else token_of run) ++ scan_tokens (extend run c) s

-- `_TOKEN.findall`
unfoldable pub find_tokens : String → List String
unfolding scan_tokens
find_tokens s = scan_tokens String.[] s

-- `" ".join`
unfoldable pub join_tokens : List String → String
join_tokens [] = ""
join_tokens (t ∷ []) = t
join_tokens (t ∷ u ∷ ts) = t <> (" " <> join_tokens (u ∷ ts))

abbrev pub negations : List String
negations = "no" ∷ "not" ∷ "never" ∷ "denies" ∷ "denied" ∷ "false" ∷ "without" ∷ []

abbrev pub stopwords : List String
stopwords = "about" ∷ "after" ∷ "from" ∷ "have" ∷ "that" ∷ "this" ∷ "with" ∷ "will" ∷ []

abbrev pub member : List String → String → Bool
member xs x = contains xs x

-- The truth of `a & b`.
abbrev pub share : List String → List String → Bool
share xs ys = any_of (member ys) xs

-- `\w`, on the characters of tokens and blanks
abbrev pub is_word : ℕ → Bool
is_word c = starts_token c || (c == b'_')

unfoldable pub all_digits : String → Bool
all_digits String.[] = true
all_digits (String.◌∷◌ c s) = is_digit (code c) && all_digits s

-- `\b\d+\b`
unfoldable pub is_number : String → Bool
unfolding all_digits
is_number w = not (is_blank w) && all_digits w

-- The words of a text, each with whether a dot follows it.
unfoldable pub words : String → String → List (String × Bool)
words run String.[] = (run, false) ∷ []
words run (String.◌∷◌ c s) =
    (if is_word (code c) then [] else (run, code c == b'.') ∷ [])
    ++ words (if is_word (code c) then snoc run c else String.[]) s

-- What a word makes of the number before it that ended in a dot.
unfoldable pub amount_step : Option String → String × Bool → List String × Option String
unfolding is_number
amount_step none (w, dot) =
    if is_number w then (if dot then ([], some w) else (w ∷ [], none)) else ([], none)
amount_step (some p) (w, dot) =
    if is_number w then ((p <> ("." <> w)) ∷ [], none) else (p ∷ [], none)

unfoldable pub scan_amounts : Option String → List (String × Bool) → List String
unfolding amount_step
scan_amounts none [] = []
scan_amounts (some p) [] = p ∷ []
scan_amounts before (w ∷ ws) = (amount_step before w).0 ++ scan_amounts (amount_step before w).1 ws

-- `re.findall(r"\b\d+(?:\.\d+)?\b", text)`
unfoldable pub find_amounts : String → List String
unfolding scan_amounts words
find_amounts s = scan_amounts none (words String.[] s)

unfoldable pub claim_type_of : List String → String
unfolding contains_text join_tokens
claim_type_of tokens =
    if member tokens "contract" || member tokens "award"
    then "CONTRACT_AWARD"
    else if member tokens "promoter" && share ("buy" ∷ "bought" ∷ "purchase" ∷ []) tokens
    then "INSIDER_PURCHASE"
    else if contains_text "earning" (join_tokens tokens) || member tokens "results"
    then "EARNINGS_FORECAST"
    else if member tokens "listing"
    then "EXCHANGE_LISTING"
    else if member tokens "partnership"
    then "PARTNERSHIP"
    else "OTHER"

module _ (lower upper : String → String) where
  unfoldable pub is_negated : String → Bool
  unfolding find_tokens
  is_negated text = share (find_tokens (lower text)) negations

  unfoldable pub similarity : String → String → ℕ
  unfolding find_tokens distinct
  similarity left right =
      let plain = λ (token : String). not (member stopwords token) in
      let left_tokens = distinct (keep plain (find_tokens (lower left))) in
      let right_tokens = distinct (keep plain (find_tokens (lower right))) in
      if not (nonempty left_tokens) || not (nonempty right_tokens)
      then 0
      else length (keep (member right_tokens) left_tokens)
        * one
        / length (distinct (left_tokens ++ right_tokens))

  unfoldable pub canonical_claim : String → String → Canonical
  unfolding find_tokens find_amounts claim_type_of is_negated sorted join_tokens
  canonical_claim asset_id text =
      let tokens = find_tokens (lower text) in
      record {
        subject = upper asset_id;
        claim_type = claim_type_of tokens;
        polarity = some (if is_negated text then "NEGATIVE" else "POSITIVE");
        amounts = find_amounts (join_tokens tokens);
        content_tokens =
            sorted str_leb
              (keep (λ (t : String). not (member stopwords t) && not (member negations t)) tokens);
      }

  unfoldable pub evidence_text : DisclosureCandidate → String
  evidence_text candidate = candidate.title <> (" " <> candidate.text)

  abbrev pub same_polarity : Option String → Option String → Bool
  same_polarity none none = true
  same_polarity (some a) (some b) = string_eq.beq a b
  same_polarity _ _ = false

  unfoldable pub structured_similarity : Claim → DisclosureCandidate → ℕ
  unfolding similarity canonical_claim evidence_text
  structured_similarity claim candidate =
      let text = evidence_text candidate in
      let evidence = canonical_claim claim.asset_id text in
      let lexical = similarity claim.claim_text text in
      let type_match = if string_eq.beq evidence.claim_type claim.claim_type then one else 0 in
      let polarity_match =
        if same_polarity evidence.polarity claim.canonical_payload.polarity then one else 0 in
      let claim_amounts = claim.canonical_payload.amounts in
      let amount_match =
        if not (nonempty claim_amounts) || share claim_amounts evidence.amounts then one else 0 in
      (60 * lexical + 20 * type_match + 10 * polarity_match + 10 * amount_match) / 100

  unfoldable pub conflict_reasons : Claim → DisclosureCandidate → List String
  unfolding canonical_claim evidence_text
  conflict_reasons claim candidate =
      let evidence = canonical_claim claim.asset_id (evidence_text candidate) in
      let polarity = claim.canonical_payload.polarity in
      let amounts = claim.canonical_payload.amounts in
      (if is_some polarity && not (same_polarity evidence.polarity polarity)
        then "POLARITY_MISMATCH" ∷ []
        else [])
      ++ (if nonempty amounts && nonempty evidence.amounts && not (share amounts evidence.amounts)
          then "AMOUNT_MISMATCH" ∷ []
          else [])

-- ===== src/Verification/Extractor.antt =====
-- src/scam2market/verification/service.py, `DeterministicClaimExtractor` and the chunks of a
-- document. The methods of `str`, the two splitting expressions, the digest of a canonical claim
-- and `uuid5` are Python's.
use scam2marke.Prelude.{
  ℕ, suc, ◌+◌, String, ◌<>◌, not, ◌&&◌, List, [], ◌∷◌, ◌++◌, map, leb, ltb, length, nonempty, keep,
  take, if◌then◌else◌,
}
use scam2marke.Prelude.Dict.{contains, string_eq}
use scam2marke.Prelude.Text.{is_blank, text_length}
use scam2marke.Verification.Types.{Canonical, Claim, DisclosureDocument, DisclosureChunk}
use scam2marke.Verification.Text.{find_tokens, canonical_claim}

pub record TextLibrary : Type 0 where
  pub lower : String → String
  pub upper : String → String
  pub strip : String → String
  -- `part.strip(" ,")`
  pub strip_part : String → String
  pub splitlines : String → List String
  pub sentences : String → List String
  pub boundaries : String → List String
  pub digest : Canonical → String
  pub uuid5 : String → String
  pub show : ℕ → String

unfoldable pub concat_map : (String → List String) → List String → List String
concat_map f [] = []
concat_map f (s ∷ ss) = f s ++ concat_map f ss

module _ (lib : TextLibrary) where
  unfoldable pub candidate_parts : String → List String
  unfolding concat_map find_tokens
  candidate_parts summary = map lib.strip_part (
      keep (λ (part : String). leb 3 (length (find_tokens part)))
        (concat_map lib.boundaries (lib.sentences summary)))

  unfoldable pub claim_texts : String → List String
  claim_texts summary =
      let parts = candidate_parts summary in
      if not (nonempty parts) && not (is_blank (lib.strip summary))
      then lib.strip summary ∷ []
      else parts

  unfoldable pub claim_of : String → String → ℕ → String → Claim
  claim_of narrative_id asset_id extracted_at text =
      let canonical = canonical_claim lib.lower lib.upper asset_id text in
      let claim_hash = lib.digest canonical in
      record {
        claim_id = lib.uuid5 ("claim:" <> (narrative_id <> (":" <> claim_hash)));
        narrative_id = narrative_id;
        asset_id = asset_id;
        claim_text = text;
        claim_type = canonical.claim_type;
        canonical_payload = canonical;
        claim_hash = claim_hash;
        extracted_at = extracted_at;
      }

  -- The loop of `extract`, with the hashes seen.
  unfoldable pub extract_loop : String → String → ℕ → List String → List String → List Claim
  unfolding contains
  extract_loop narrative_id asset_id extracted_at [] seen = []
  extract_loop narrative_id asset_id extracted_at (text ∷ texts) seen =
      let claim = claim_of narrative_id asset_id extracted_at text in
      let again = contains seen claim.claim_hash in
      (if again then [] else claim ∷ [])
      ++ extract_loop narrative_id asset_id extracted_at texts
          (if again then seen else claim.claim_hash ∷ seen)

  unfoldable pub extract : String → String → String → ℕ → List Claim
  unfolding extract_loop
  extract narrative_id asset_id summary extracted_at =
      extract_loop narrative_id asset_id extracted_at (take 5 (claim_texts summary)) []

  -- The loop of `_chunks`: the chunks that are closed, for what is open.
  unfoldable pub chunk_texts : ℕ → String → List String → List String
  unfolding text_length
  chunk_texts limit current [] = if is_blank current then [] else current ∷ []
  chunk_texts limit current (p ∷ ps) =
      let full = not (is_blank current) && ltb limit (text_length current + text_length p + 1) in
      (if full then current ∷ [] else [])
      ++ chunk_texts limit (if full then p else lib.strip (current <> ("\n" <> p))) ps

  unfoldable pub paragraphs : String → List String
  paragraphs body =
      let parts =
        map lib.strip
          (keep (λ (part : String). not (is_blank (lib.strip part))) (lib.splitlines body)) in
      if nonempty parts then parts else lib.strip body ∷ []

  unfoldable pub numbered : DisclosureDocument → ℕ → List String → List DisclosureChunk
  unfolding find_tokens
  numbered d index [] = []
  numbered d index (text ∷ texts) =
      record {
        chunk_id = lib.uuid5 ("disclosure-chunk:" <> (d.disclosure_id <> (":" <> lib.show index)));
        disclosure_id = d.disclosure_id;
        chunk_index = index;
        text = text;
        token_count = length (find_tokens text);
      }
      ∷ numbered d (suc index) texts

  -- `_chunks`
  unfoldable pub chunks : ℕ → DisclosureDocument → List DisclosureChunk
  unfolding numbered chunk_texts paragraphs
  chunks limit d = numbered d 0 (chunk_texts limit "" (paragraphs d.body))

-- ===== src/Verification/Samples.antt =====
-- Claims, disclosures and events for the tests.
use scam2marke.Prelude.{ℕ, String, true, false, List, [], ◌∷◌, none, some}
use scam2marke.Prelude.Dict.{string_eq}
use scam2marke.Prelude.Score.{one}
use scam2marke.Verification.Types.{
  VerificationResult, DisclosureCandidate, DisclosureDocument, DisclosureChunk, Claim,
  ClaimVerification,
}
use scam2marke.Verification.Repository.{VerificationRepository}
use scam2marke.Verification.Extractor.{TextLibrary}
use scam2marke.Verification.Summary.{NarrativeEvent}

abbrev pub same : String → String
same s = s

abbrev pub lib : TextLibrary
lib = record {
  lower = same;
  upper = same;
  strip = same;
  strip_part = same;
  splitlines = λ s. s ∷ [];
  sentences = λ s. s ∷ [];
  boundaries = λ s. s ∷ [];
  digest = λ c. c.claim_type;
  uuid5 = same;
  show = λ n. "";
}

abbrev pub award_claim : Claim
award_claim = record {
  claim_id = "c";
  narrative_id = "n";
  asset_id = "acme";
  claim_text = "acme wins contract award";
  claim_type = "CONTRACT_AWARD";
  canonical_payload = record {
    subject = "acme";
    claim_type = "CONTRACT_AWARD";
    polarity = some "POSITIVE";
    amounts = [];
    content_tokens = "acme" ∷ "award" ∷ "contract" ∷ "wins" ∷ [];
  };
  claim_hash = "h";
  extracted_at = 50;
}

abbrev pub candidate : String → String → ℕ → DisclosureCandidate
candidate id title available = record {
  chunk_id = id;
  disclosure_id = id;
  source = "exchange";
  source_document_id = id;
  title = title;
  text = "";
  published_at = 10;
  first_observed_at = 10;
  ingested_at = 10;
  available_at = available;
  document_version = 1;
  source_policy_version = "v1";
  reliability = one;
  source_policy_id = none;
}

abbrev pub early : DisclosureCandidate
early = candidate "d1" "acme wins contract award" 40

abbrev pub late : DisclosureCandidate
late = candidate "d2" "acme denies contract award" 60

abbrev pub nobody : VerificationRepository
nobody = record {
  documents = [];
  verifications = [];
  outbox = [];
  coverage = true;
  coverage_by_asset = [];
}

abbrev pub event : NarrativeEvent
event = record {
  is_clustered = true;
  event_time = 50;
  narrative_id = "n";
  narrative_revision_id = "n1";
  asset_id = "acme";
  summary = "acme wins contract award";
}

abbrev pub verification : VerificationResult → ClaimVerification
verification result = record {
  verification_id = "v";
  claim_id = "c";
  alert_time = 50;
  result = result;
  claim_risk = 0;
  legitimate_event_score = 0;
  evidence_document_ids = [];
  deterministic_reason = "";
  retrospective_only = false;
  evidence = [];
}

abbrev pub filing : ℕ → ℕ → DisclosureDocument
filing version available = record {
  disclosure_id = "d";
  source = "exchange";
  source_document_id = "filing-1";
  asset_id = none;
  title = "award";
  body = "acme wins contract award";
  published_at = 10;
  retrieved_at = 10;
  first_observed_at = none;
  ingested_at = none;
  available_at = some available;
  document_version = version;
  supersedes_disclosure_id = none;
  source_policy_version = "v1";
  reliability = one;
  content_hash = "h";
  source_policy_id = none;
  source_document_key = none;
  logical_source_key = none;
  version_status = "CURRENT";
}

abbrev pub versions : List (DisclosureDocument × List DisclosureChunk)
versions = (filing 1 20, []) ∷ (filing 2 30, []) ∷ (filing 3 60, []) ∷ []

-- ===== src/Verification/Types.antt =====
-- src/scam2market/verification/schemas.py. Times are whole microseconds, identifiers are texts,
-- scores are millionths.
use scam2marke.Prelude.{ℕ, String, Option, List, Bool}

pub data VerificationResult : Type 0 where
  supported_before_alert supported_after_alert unsupported : VerificationResult
  conflicting unknown : VerificationResult

pub data EvidenceRelation : Type 0 where
  supporting conflicts context retrospective : EvidenceRelation

pub record DisclosureChunk : Type 0 where
  pub chunk_id : String
  pub disclosure_id : String
  pub chunk_index : ℕ
  pub text : String
  pub token_count : ℕ

pub record DisclosureDocument : Type 0 where
  pub disclosure_id : String
  pub source : String
  pub source_document_id : String
  pub asset_id : Option String
  pub title : String
  pub body : String
  pub published_at : ℕ
  pub retrieved_at : ℕ
  pub first_observed_at : Option ℕ
  pub ingested_at : Option ℕ
  pub available_at : Option ℕ
  pub document_version : ℕ
  pub supersedes_disclosure_id : Option String
  pub source_policy_version : String
  pub reliability : ℕ
  pub content_hash : String
  pub source_policy_id : Option String
  pub source_document_key : Option String
  pub logical_source_key : Option String
  pub version_status : String

pub record DisclosureCandidate : Type 0 where
  pub chunk_id : String
  pub disclosure_id : String
  pub source : String
  pub source_document_id : String
  pub title : String
  pub text : String
  pub published_at : ℕ
  pub first_observed_at : ℕ
  pub ingested_at : ℕ
  pub available_at : ℕ
  pub document_version : ℕ
  pub source_policy_version : String
  pub reliability : ℕ
  pub source_policy_id : Option String

-- The part of `canonical_payload` that is read again.
pub record Canonical : Type 0 where
  pub subject : String
  pub claim_type : String
  pub polarity : Option String
  pub amounts : List String
  pub content_tokens : List String

pub record Claim : Type 0 where
  pub claim_id : String
  pub narrative_id : String
  pub asset_id : String
  pub claim_text : String
  pub claim_type : String
  pub canonical_payload : Canonical
  pub claim_hash : String
  pub extracted_at : ℕ

pub record VerificationEvidence : Type 0 where
  pub disclosure_id : String
  pub relation : EvidenceRelation
  pub score : ℕ
  pub rank : ℕ
  pub temporal_eligible : Bool
  pub reason_codes : List String
  pub source_policy_id : Option String
  pub source_policy_version : String
  pub trust_score : ℕ

pub record ClaimVerification : Type 0 where
  pub verification_id : String
  pub claim_id : String
  pub alert_time : ℕ
  pub result : VerificationResult
  pub claim_risk : ℕ
  pub legitimate_event_score : ℕ
  pub evidence_document_ids : List String
  pub deterministic_reason : String
  pub retrospective_only : Bool
  pub evidence : List VerificationEvidence

pub record VerificationSummary : Type 0 where
  pub narrative_id : String
  pub alert_time : ℕ
  pub result : VerificationResult
  pub claim_risk : ℕ
  pub legitimate_event_score : ℕ
  pub claims : List Claim
  pub verifications : List ClaimVerification

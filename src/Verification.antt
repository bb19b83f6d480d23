-- ===== src/Verification.antt =====
-- src/scam2market/verification/: the official disclosures, the claims of a narrative, and the
-- decision whether a disclosure that was available at the time of an alert supports a claim.
pub mod Types
pub mod Text
pub mod Repository
pub mod Extractor
pub mod Chunks
pub mod Claims
pub mod Verifier
pub mod Summary
pub mod Process
pub mod Versions
pub mod Stored
pub mod Amounts
pub mod Hindsight
pub mod Backing
pub mod Evidence
mod Samples
mod Tests

-- ===== src/Ingestion.antt =====
-- src/scam2market/ingestion: what is known of the quality of a source.
mod Tests
pub mod Quality

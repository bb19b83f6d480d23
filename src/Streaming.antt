-- ===== src/Streaming.antt =====
-- src/scam2market/streaming, with the outbox of src/scam2market/ingestion/repositories.py.
pub mod Outbox
pub mod Worker
pub mod Delivery
pub mod Saving
pub mod NoLoss
mod FeatureWorker
mod Tests
mod WorkerTests

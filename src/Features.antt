-- ===== src/Features.antt =====
-- src/scam2market/features: the windows of an asset's signals and their revisions.
pub mod Types
pub mod Numbers
pub mod Fields
pub mod Compute
pub mod Schema
pub mod Sources
pub mod Engine
pub mod Validation
pub mod Checkpoint
pub mod Service
mod Tests

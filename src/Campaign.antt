-- ===== src/Campaign.antt =====
-- src/scam2market/campaigns: the stages of a campaign, its alerts, and the stores that apply
-- evidence to them.
pub mod Types
pub mod Policy
pub mod Common
pub mod Alerting
pub mod Memory
pub mod Database
mod Samples
mod Tests

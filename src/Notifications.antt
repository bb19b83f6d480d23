-- ===== src/Notifications.antt =====
-- src/scam2market/notifications/service.py: the deliveries of alerts to the channels of a tenant.
pub mod Service
pub mod Attempts
pub mod Refinement
pub mod Once
pub mod Settled
mod Tests

-- ===== src/Fusion.antt =====
-- src/scam2market/intelligence: the fusion of the detectors' scores into one risk.
pub mod Types
pub mod Weights
pub mod Engine

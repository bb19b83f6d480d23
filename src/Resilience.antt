-- ===== src/Resilience.antt =====
-- src/scam2market/resilience: the circuit breaker and the bounded batching of a stream.
mod Tests
pub mod Circuit
pub mod Batching

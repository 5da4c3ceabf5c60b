-- ===== src/Sidecar.antt =====
-- secureprompt-api/src/ml_sidecar/client.rs: the client of the ML sidecar, which splits a long prompt,
-- asks for each chunk, and keeps a circuit breaker.
pub mod Split
pub mod Breaker
pub mod Detect
pub mod Checks
pub mod Answered
pub mod Healthy
mod Tests

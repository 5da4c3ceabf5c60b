-- ===== src/License.antt =====
-- secureprompt-api/src/license, http/middleware/license_gate.rs and http/routes/license.rs: the
-- vendor's licence, its offline staleness, its online revocation, and the gate over requests.
pub mod Freshness
pub mod State
pub mod Clock
pub mod Token
pub mod Revocation
pub mod Gate
pub mod Routes
pub mod Lifecycle
pub mod Cases
pub mod Current
pub mod Steps
pub mod Supersede
pub mod Recovery
pub mod Polling
pub mod Paths
mod Tests

-- ===== src/AuditExport.antt =====
-- secureprompt-common/src/audit_export.rs: the signed export of a workspace's audit trail, its two
-- sections of pages, the manifest with a digest chain over them, and the auditor's verification.
pub mod Manifest
pub mod Library
pub mod Chain
pub mod Retention
pub mod Verify
pub mod Build
pub mod Links
pub mod Accepted
pub mod Root
pub mod Runs
pub mod Sections
pub mod Building
pub mod Accepting
pub mod Parts
pub mod Roundtrip
pub mod Signed
mod Tests

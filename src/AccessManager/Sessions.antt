-- ===== src/AccessManager/Sessions.antt =====
-- container/control-plane/services/access-manager/lib/sessions.mjs.
pub mod Store
pub mod Issue
pub mod Revoke
pub mod Report
pub mod Pruning
pub mod Validation
pub mod RoundTrip
pub mod Revocation
pub mod ManagementIssue
mod Tests

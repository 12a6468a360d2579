-- ===== src/AccessManager/Totp.antt =====
-- container/control-plane/services/access-manager/lib/totp.mjs.
pub mod Base32
pub mod RoundTrip
pub mod RetryLimiter
pub mod RetryLaws
pub mod Code
pub mod CodeLaws
pub mod Flows
pub mod FlowLaws
mod Tests

-- ===== src/AccessManager/RateLimiter.antt =====
-- container/control-plane/services/access-manager/lib/rate-limiter.mjs.
pub mod Windows
pub mod Keys
pub mod Limiter
pub mod Status
pub mod Recording
pub mod Clears
pub mod Attempts
pub mod Admission
pub mod Room
pub mod Backoff
pub mod KeyLaws
pub mod Waits
mod Tests

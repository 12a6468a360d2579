-- ===== src/AccessManager.antt =====
-- container/control-plane/services/access-manager/lib: accounts, sessions and their limits.
pub mod Account
pub mod RateLimiter
pub mod Sessions
pub mod Exchanges
pub mod Transitions
pub mod Totp

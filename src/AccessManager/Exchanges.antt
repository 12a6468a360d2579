-- ===== src/AccessManager/Exchanges.antt =====
-- container/control-plane/services/access-manager/lib/exchanges.mjs.
pub mod Store
pub mod Laws
mod Tests

-- ===== src/AccessManager/Transitions.antt =====
-- container/control-plane/services/access-manager/lib/transitions.mjs.
pub mod Store
pub mod Laws
mod Tests

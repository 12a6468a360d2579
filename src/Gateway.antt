-- ===== src/Gateway.antt =====
-- container/control-plane/services/gateway/lib.
pub mod Availability
pub mod Outages
mod Tests

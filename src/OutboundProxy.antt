-- ===== src/OutboundProxy.antt =====
-- container/control-plane/services/outbound-proxy/lib.
pub mod Dns
pub mod DnsBounds
pub mod DnsSpec
pub mod DnsRefine
mod Tests

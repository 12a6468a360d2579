-- ===== src/Stage0/Slots.antt =====
-- container/platform/stage0/lib/slots.mjs: the class `BootstrapManager`.
pub mod Disk
pub mod Operations
pub mod Collection
pub mod Soundness
pub mod Writing
pub mod Steps
pub mod Reach
pub mod Laws
pub mod Recovery
pub mod Collecting
pub mod Tests

-- ===== src/Stage0.antt =====
-- container/platform/stage0/lib.
pub mod Slots
pub mod Trust
pub mod Supervisor
pub mod Starting
mod Tests

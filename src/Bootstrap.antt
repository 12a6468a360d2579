-- ===== src/Bootstrap.antt =====
-- container/platform/bootstrap/lib.
pub mod Deployments
pub mod Images
pub mod ImageLaws
pub mod ImageStart
pub mod ImageOutcomes
pub mod Gc
pub mod Marking
pub mod GcLaws
pub mod Tests
mod ImageTests

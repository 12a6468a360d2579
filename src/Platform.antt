-- ===== src/Platform.antt =====
-- container/platform/lib.
pub mod Contracts
pub mod Versions
pub mod VersionOrder
pub mod Numbers
pub mod Values
pub mod Node
pub mod Artifacts
pub mod Stable
pub mod Manifests
pub mod Deployments
mod Tests

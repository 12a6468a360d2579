-- ===== src/Stage0/Trust.antt =====
-- container/platform/stage0/lib: signed documents and the ledger of those that were accepted.
pub mod Signature
pub mod Keyring
pub mod Target
pub mod Official
pub mod Ledger
pub mod KeyringParse
pub mod KeyringLaws
pub mod TargetLaws
pub mod OfficialLaws
pub mod Steps
mod Tests

-- ===== src/Updater.antt =====
-- container/control-plane/modules/updater/lib.
pub mod Journal
pub mod JournalLaws
pub mod Channel
pub mod ChannelLaws
pub mod AutomaticCheck
pub mod Notices
pub mod Silence
mod CheckTests
mod Tests

-- ===== src/Conversation.antt =====
-- The event-sourced conversation: crates/conversation-core, crates/conversation-journal and
-- crates/conversation-kernel.
pub mod Message
pub mod Lifecycle
pub mod Event
pub mod State
pub mod Changes
pub mod Projector
pub mod Kernel
pub mod JsonlJournal
pub mod Slice
mod Tests
mod JournalTests

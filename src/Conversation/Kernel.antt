-- ===== src/Conversation/Kernel.antt =====
-- `ConversationKernel`: crates/conversation-kernel/src/kernel.rs.
pub mod Commands
pub mod Checks
pub mod Messages
pub mod Resources
pub mod Runs
pub mod Actions
pub mod Decide
pub mod ActionLifecycle
pub mod RunLifecycle
pub mod History
pub mod Journal
pub mod Handle
pub mod Refinement

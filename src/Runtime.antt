-- ===== src/Runtime.antt =====
-- The runtime that carries runs out, crates/agent-runtime/src, and what stands beside it:
-- crates/action-runtime and crates/scheduler.
pub mod RunStore
pub mod RunQueue
pub mod ApprovalQueue
pub mod RunJournal
pub mod RetryPolicy
pub mod ToolLoop
pub mod ActionStore
pub mod ActionRuntime
pub mod Scheduler
mod Tests
mod RecoveryTests
mod ActionTests
mod SchedulerTests

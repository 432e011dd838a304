-- ===== src/Runtime/RunQueue/Recovery.antt =====
-- What the recovery of leases leaves alone: `recover_expired_leases` of
-- crates/agent-runtime/src/run_queue.rs.
use connor_agent_core.Common.{ℕ, String, ◌≡◌, false, Option}
use connor_agent_core.Domain.Descriptors.{Time}
use connor_agent_core.Runtime.RunStore.{AgentRunRecord}
use connor_agent_core.Runtime.RunQueue.{is_overdue}

-- The run is not overdue, if the record is its.
abbrev Spares : String → ℕ → Time → AgentRunRecord → Type 0
Spares k timeout now r = r.run_id ≡ k → is_overdue timeout now r ≡ false

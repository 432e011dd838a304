-- ===== src/Conversation/Kernel/RunLifecycle.antt =====
-- The life of an agent run under the commands of crates/conversation-kernel/src/kernel.rs.
use connor_agent_core.Common.{String, ◌≡◌, true, false, some, none, arith, ◌==◌, eq_iff}
use connor_agent_core.Common.Dict.{get, get-insert, get-update}
use connor_agent_core.Domain.Descriptors.{Time}
use connor_agent_core.Conversation.Lifecycle.{AgentRunState, AgentRunStatus, run_requested}
use connor_agent_core.Conversation.State.{ConversationState}
use connor_agent_core.Conversation.Projector.{apply_event}
use connor_agent_core.Conversation.Changes.{set_run}
use connor_agent_core.Conversation.Kernel.Checks.{run_is_open}
use connor_agent_core.Conversation.Kernel.Decide.{
  Command, decide, after, request_agent_run_cmd, start_agent_run_cmd, complete_agent_run_cmd,
  fail_agent_run_cmd, cancel_agent_run_cmd, timeout_agent_run_cmd,
}

-- the command does not request a run under this identifier, which `id_gen` would have drawn again
abbrev pub RequestsNoRun : String → Command → String → Type 0
RequestsNoRun id (request_agent_run_cmd c) first = (first == id) ≡ false
RequestsNoRun id _ first = Unit

-- the moves that the kernel allows between two statuses of one run
infix 40 ◌⟶◌
pub data ◌⟶◌ : AgentRunStatus → AgentRunStatus → Type 0 where
  stay : {s : AgentRunStatus} → s ⟶ s
  start : {s : AgentRunStatus} → run_is_open s ≡ true → s ⟶ AgentRunStatus.started
  finish : {s t : AgentRunStatus} → run_is_open s ≡ true → run_is_open t ≡ false → s ⟶ t

-- A command that does not request a run under the identifier of a recorded run leaves its status,
-- or moves it from requested or started to started or to one of the four ends.
pub decide_run-⟶ :
    (cmd : Command) (first second : String) (now : Time) (s : ConversationState) (id : String)
    (a b : AgentRunState)
    → RequestsNoRun id cmd first
    → get id s.agent_runs ≡ some a
    → get id (after s (decide cmd first second now s)).agent_runs ≡ some b
    → a.status ⟶ b.status
unfolding decide apply_event
decide_run-⟶ (request_agent_run_cmd c) first second now s id a b r h k = ground (
  arith,
  get-insert first id (run_requested first c.trigger_message_id second) s.agent_runs,
  stay {s = a.status},
)
decide_run-⟶ (start_agent_run_cmd c) first second now s id a b r h k = grind (
  arith,
  eq_iff c.run_id id,
  get-update c.run_id id (set_run AgentRunStatus.started none none none none) s.agent_runs,
  stay,
  start,
)
decide_run-⟶ (complete_agent_run_cmd c) first second now s id a b r h k = grind (
  arith,
  eq_iff c.run_id id,
  get-update c.run_id id
      (set_run AgentRunStatus.completed (some c.output_message_id) none none none) s.agent_runs,
  stay,
  finish,
)
decide_run-⟶ (fail_agent_run_cmd c) first second now s id a b r h k = grind (
  arith,
  eq_iff c.run_id id,
  get-update c.run_id id
      (set_run AgentRunStatus.failed none (some c.error_code) (some c.error_message) none)
      s.agent_runs,
  stay,
  finish,
)
decide_run-⟶ (cancel_agent_run_cmd c) first second now s id a b r h k = grind (
  arith,
  eq_iff c.run_id id,
  get-update c.run_id id (set_run AgentRunStatus.cancelled none none none (some c.reason))
      s.agent_runs,
  stay,
  finish,
)
decide_run-⟶ (timeout_agent_run_cmd c) first second now s id a b r h k = grind (
  arith,
  eq_iff c.run_id id,
  get-update c.run_id id (set_run AgentRunStatus.timed_out none none none none) s.agent_runs,
  stay,
  finish,
)
decide_run-⟶ _ first second now s id a b r h k = ground (arith, stay {s = a.status})

-- A command that does not request a run under its identifier leaves a recorded run that has
-- completed, failed, timed out or been cancelled exactly as it is.
terminal_run_final :
    (cmd : Command) (first second : String) (now : Time) (s : ConversationState) (id : String)
    (a : AgentRunState)
    → RequestsNoRun id cmd first
    → get id s.agent_runs ≡ some a
    → run_is_open a.status ≡ false
    → get id (after s (decide cmd first second now s)).agent_runs ≡ some a
unfolding decide apply_event
terminal_run_final (request_agent_run_cmd c) first second now s id a r h t =
    ground
      (arith, get-insert first id (run_requested first c.trigger_message_id second) s.agent_runs)
terminal_run_final (start_agent_run_cmd c) first second now s id a r h t = ground (
  arith,
  eq_iff c.run_id id,
  get-update c.run_id id (set_run AgentRunStatus.started none none none none) s.agent_runs,
)
terminal_run_final (complete_agent_run_cmd c) first second now s id a r h t = ground (
  arith,
  eq_iff c.run_id id,
  get-update c.run_id id
      (set_run AgentRunStatus.completed (some c.output_message_id) none none none) s.agent_runs,
)
terminal_run_final (fail_agent_run_cmd c) first second now s id a r h t = ground (
  arith,
  eq_iff c.run_id id,
  get-update c.run_id id
      (set_run AgentRunStatus.failed none (some c.error_code) (some c.error_message) none)
      s.agent_runs,
)
terminal_run_final (cancel_agent_run_cmd c) first second now s id a r h t = ground (
  arith,
  eq_iff c.run_id id,
  get-update c.run_id id (set_run AgentRunStatus.cancelled none none none (some c.reason))
      s.agent_runs,
)
terminal_run_final (timeout_agent_run_cmd c) first second now s id a r h t = ground (
  arith,
  eq_iff c.run_id id,
  get-update c.run_id id (set_run AgentRunStatus.timed_out none none none none) s.agent_runs,
)
terminal_run_final _ first second now s id a r h t = ground arith

-- ===== src/Conversation/Kernel/ActionLifecycle.antt =====
-- The life of an action under the commands of crates/conversation-kernel/src/kernel.rs.
use connor_agent_core.Common.{String, ◌≡◌, true, false, some, arith, ◌==◌, eq_iff}
use connor_agent_core.Common.Dict.{get, get-insert, get-update, is_some}
use connor_agent_core.Domain.Descriptors.{Time}
use connor_agent_core.Conversation.Lifecycle.{
  ConversationActionState, ConversationActionStatus, action_requested, is_terminal,
}
use connor_agent_core.Conversation.State.{ConversationState}
use connor_agent_core.Conversation.Projector.{apply_event}
use connor_agent_core.Conversation.Changes.{
  approval_required_action, approved_action, denied_action, started_action, completed_action,
  failed_action,
}
use connor_agent_core.Conversation.Kernel.Decide.{
  Command, decide, after, request_action_cmd, require_action_approval_cmd, approve_action_cmd,
  deny_action_cmd, start_action_cmd, complete_action_cmd, fail_action_cmd, append_message_cmd,
}

-- the command does not request an action under this identifier
abbrev pub RequestsNo : String → Command → Type 0
RequestsNo id (request_action_cmd c) = (c.action_request.action_id == id) ≡ false
RequestsNo id _ = Unit

-- the moves that the kernel allows between two statuses of one action
infix 40 ◌⟶◌
pub data ◌⟶◌ : ConversationActionStatus → ConversationActionStatus → Type 0 where
  stay : {s : ConversationActionStatus} → s ⟶ s
  ask :
      {s : ConversationActionStatus}
      → is_terminal s ≡ false
      → s ⟶ ConversationActionStatus.approval_required
  approve : ConversationActionStatus.approval_required ⟶ ConversationActionStatus.approved
  deny :
      {s : ConversationActionStatus} → is_terminal s ≡ false → s ⟶ ConversationActionStatus.denied
  begin_unasked : ConversationActionStatus.requested ⟶ ConversationActionStatus.started
  begin_approved : ConversationActionStatus.approved ⟶ ConversationActionStatus.started
  complete : ConversationActionStatus.started ⟶ ConversationActionStatus.completed
  fail : ConversationActionStatus.started ⟶ ConversationActionStatus.failed

-- Between the status of a recorded action before and after a command that does not request an
-- action under its identifier there is an edge of the diagram, or no change.
pub decide-⟶ :
    (cmd : Command) (first second : String) (now : Time) (s : ConversationState) (id : String)
    (a b : ConversationActionState)
    → RequestsNo id cmd
    → get id s.actions ≡ some a
    → get id (after s (decide cmd first second now s)).actions ≡ some b
    → a.status ⟶ b.status
unfolding decide apply_event
decide-⟶ (request_action_cmd c) first second now s id a b r h k = ground (
  arith,
  get-insert c.action_request.action_id id (action_requested c.action_request) s.actions,
  stay {s = a.status},
)
decide-⟶ (require_action_approval_cmd c) first second now s id a b r h k = grind (
  arith,
  eq_iff c.action_id id,
  get-update c.action_id id (approval_required_action c.reason) s.actions,
  stay,
  ask,
)
decide-⟶ (approve_action_cmd c) first second now s id a b r h k = grind (
  arith,
  eq_iff c.action_id id,
  get-update c.action_id id (approved_action c.approved_by) s.actions,
  stay,
  approve,
)
decide-⟶ (deny_action_cmd c) first second now s id a b r h k = grind (
  arith,
  eq_iff c.action_id id,
  get-update c.action_id id (denied_action c.reason) s.actions,
  stay,
  deny,
)
decide-⟶ (start_action_cmd c) first second now s id a b r h k = grind (
  arith,
  eq_iff c.action_id id,
  get-update c.action_id id started_action s.actions,
  stay,
  begin_unasked,
  begin_approved,
)
decide-⟶ (complete_action_cmd c) first second now s id a b r h k = grind (
  arith,
  eq_iff c.action_id id,
  get-update c.action_id id (completed_action c.result) s.actions,
  stay,
  complete,
)
decide-⟶ (fail_action_cmd c) first second now s id a b r h k = grind (
  arith,
  eq_iff c.action_id id,
  get-update c.action_id id (failed_action c.error_message) s.actions,
  stay,
  fail,
)
decide-⟶ (append_message_cmd c) first second now s id a b r h k =
    ground (arith, stay {s = a.status})
decide-⟶ _ first second now s id a b r h k = ground (arith, stay {s = a.status})

-- No command removes an action.
pub decide-keeps_action :
    (cmd : Command) (first second : String) (now : Time) (s : ConversationState) (id : String)
    (a : ConversationActionState)
    → get id s.actions ≡ some a
    → is_some (get id (after s (decide cmd first second now s)).actions) ≡ true
unfolding decide apply_event
decide-keeps_action (request_action_cmd c) first second now s id a h =
    ground (
      arith,
      get-insert c.action_request.action_id id (action_requested c.action_request) s.actions,
    )
decide-keeps_action (require_action_approval_cmd c) first second now s id a h =
    ground (arith, get-update c.action_id id (approval_required_action c.reason) s.actions)
decide-keeps_action (approve_action_cmd c) first second now s id a h =
    ground (arith, get-update c.action_id id (approved_action c.approved_by) s.actions)
decide-keeps_action (deny_action_cmd c) first second now s id a h =
    ground (arith, get-update c.action_id id (denied_action c.reason) s.actions)
decide-keeps_action (start_action_cmd c) first second now s id a h =
    ground (arith, get-update c.action_id id started_action s.actions)
decide-keeps_action (complete_action_cmd c) first second now s id a h =
    ground (arith, get-update c.action_id id (completed_action c.result) s.actions)
decide-keeps_action (fail_action_cmd c) first second now s id a h =
    ground (arith, get-update c.action_id id (failed_action c.error_message) s.actions)
decide-keeps_action _ first second now s id a h = ground arith

-- A command that does not request an action under this identifier leaves an action that is denied,
-- completed or failed exactly as it is.
pub terminal_action_final :
    (cmd : Command) (first second : String) (now : Time) (s : ConversationState) (id : String)
    (a : ConversationActionState)
    → RequestsNo id cmd
    → get id s.actions ≡ some a
    → is_terminal a.status ≡ true
    → get id (after s (decide cmd first second now s)).actions ≡ some a
unfolding decide apply_event
terminal_action_final (request_action_cmd c) first second now s id a r h t =
    ground (
      arith,
      get-insert c.action_request.action_id id (action_requested c.action_request) s.actions,
    )
terminal_action_final (require_action_approval_cmd c) first second now s id a r h t = ground (
  arith,
  eq_iff c.action_id id,
  get-update c.action_id id (approval_required_action c.reason) s.actions,
)
terminal_action_final (approve_action_cmd c) first second now s id a r h t = ground (
  arith,
  eq_iff c.action_id id,
  get-update c.action_id id (approved_action c.approved_by) s.actions,
)
terminal_action_final (deny_action_cmd c) first second now s id a r h t =
    ground
      (arith, eq_iff c.action_id id, get-update c.action_id id (denied_action c.reason) s.actions)
terminal_action_final (start_action_cmd c) first second now s id a r h t =
    ground (arith, eq_iff c.action_id id, get-update c.action_id id started_action s.actions)
terminal_action_final (complete_action_cmd c) first second now s id a r h t =
    ground (
      arith,
      eq_iff c.action_id id,
      get-update c.action_id id (completed_action c.result) s.actions,
    )
terminal_action_final (fail_action_cmd c) first second now s id a r h t = ground (
  arith,
  eq_iff c.action_id id,
  get-update c.action_id id (failed_action c.error_message) s.actions,
)
terminal_action_final _ first second now s id a r h t = ground arith

-- ===== src/Conversation/Kernel/Actions.antt =====
-- The action commands of crates/conversation-kernel/src/kernel.rs.
use connor_agent_core.Common.{String, Bool, true, false, some, List}
use connor_agent_core.Conversation.Lifecycle.{ConversationActionStatus}
use connor_agent_core.Conversation.Event.{ConversationEvent}
use connor_agent_core.Conversation.State.{ConversationState}
use connor_agent_core.Conversation.Kernel.Commands.{
  RequestActionCommand, RequireActionApprovalCommand, ApproveActionCommand, DenyActionCommand,
  StartActionCommand, CompleteActionCommand, FailActionCommand,
}
use connor_agent_core.Conversation.Kernel.Checks.{
  Result, ok, err, ◌>>=◌, ◌>>◌, guard, Emission, emit, validate_conversation_exists,
  validate_optional_actor, validate_action_exists, validate_action_not_terminal,
  action_not_awaiting_approval, action_requires_approval, action_terminal, action_cannot_start,
  action_not_started,
}

abbrev pub awaits_approval : ConversationActionStatus → Bool
awaits_approval ConversationActionStatus.approval_required = true
awaits_approval _ = false

abbrev pub is_started : ConversationActionStatus → Bool
is_started ConversationActionStatus.started = true
is_started _ = false

-- `request_action`
unfoldable pub request_action : RequestActionCommand → ConversationState → Result (List Emission)
request_action cmd state = do
  validate_conversation_exists state cmd.conversation_id
  validate_optional_actor state cmd.requested_by
  emit cmd.requested_by (ConversationEvent.action_requested cmd.action_request)

-- `require_action_approval`
unfoldable pub require_action_approval :
    RequireActionApprovalCommand → ConversationState → Result (List Emission)
require_action_approval cmd state = do
  action ← validate_action_not_terminal state cmd.conversation_id cmd.action_id
  validate_optional_actor state cmd.required_by
  emit cmd.required_by (ConversationEvent.action_approval_required cmd.action_id cmd.reason)

-- `approve_action`
unfoldable pub approve_action : ApproveActionCommand → ConversationState → Result (List Emission)
approve_action cmd state = do
  action ← validate_action_exists state cmd.conversation_id cmd.action_id
  guard (awaits_approval action.status) (action_not_awaiting_approval cmd.action_id)
  validate_optional_actor state (some cmd.approved_by)
  emit (some cmd.approved_by) (ConversationEvent.action_approved cmd.action_id cmd.approved_by)

-- `deny_action`
unfoldable pub deny_action : DenyActionCommand → ConversationState → Result (List Emission)
deny_action cmd state = do
  action ← validate_action_not_terminal state cmd.conversation_id cmd.action_id
  validate_optional_actor state cmd.denied_by
  emit cmd.denied_by (ConversationEvent.action_denied cmd.action_id cmd.reason)

-- the `match` on the status in `start_action`
unfoldable pub check_startable : String → ConversationActionStatus → Result (Unit {0})
check_startable action_id ConversationActionStatus.requested = ok tt
check_startable action_id ConversationActionStatus.approved = ok tt
check_startable action_id ConversationActionStatus.approval_required =
    err (action_requires_approval action_id)
check_startable action_id ConversationActionStatus.denied = err (action_terminal action_id)
check_startable action_id ConversationActionStatus.completed = err (action_terminal action_id)
check_startable action_id ConversationActionStatus.failed = err (action_terminal action_id)
check_startable action_id ConversationActionStatus.started = err (action_cannot_start action_id)

-- `start_action`
unfoldable pub start_action : StartActionCommand → ConversationState → Result (List Emission)
unfolding check_startable
start_action cmd state = do
  action ← validate_action_exists state cmd.conversation_id cmd.action_id
  check_startable cmd.action_id action.status
  validate_optional_actor state cmd.started_by
  emit cmd.started_by (ConversationEvent.action_started cmd.action_id)

-- `complete_action`
unfoldable pub complete_action : CompleteActionCommand → ConversationState → Result (List Emission)
complete_action cmd state = do
  action ← validate_action_exists state cmd.conversation_id cmd.action_id
  guard (is_started action.status) (action_not_started cmd.action_id)
  validate_optional_actor state cmd.completed_by
  emit cmd.completed_by (ConversationEvent.action_completed cmd.action_id cmd.result)

-- `fail_action`
unfoldable pub fail_action : FailActionCommand → ConversationState → Result (List Emission)
fail_action cmd state = do
  action ← validate_action_exists state cmd.conversation_id cmd.action_id
  guard (is_started action.status) (action_not_started cmd.action_id)
  validate_optional_actor state cmd.failed_by
  emit cmd.failed_by (ConversationEvent.action_failed cmd.action_id cmd.error_message)

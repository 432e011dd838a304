-- ===== src/Conversation/Kernel/Runs.antt =====
-- The agent run commands of crates/conversation-kernel/src/kernel.rs.
use connor_agent_core.Common.{
  ℕ, String, ◌-◌, some, List, [], ◌∷◌, map, ltb, if◌then◌else◌, length, drop,
}
use connor_agent_core.Common.Dict.{contains}
use connor_agent_core.Conversation.Message.{Message}
use connor_agent_core.Conversation.Event.{ConversationEvent}
use connor_agent_core.Conversation.State.{ConversationState}
use connor_agent_core.Conversation.Kernel.Commands.{
  RequestAgentRunCommand, StartAgentRunCommand, CompleteAgentRunCommand, FailAgentRunCommand,
  CancelAgentRunCommand, TimeoutAgentRunCommand,
}
use connor_agent_core.Conversation.Kernel.Checks.{
  Result, ok, ◌>>◌, guard, Emission, emit, validate_conversation_exists, validate_optional_actor,
  validate_agent_run_transition, message_not_found, actor_not_participant, output_message_not_found,
}

-- `messages[messages.len() - max..]`, or all of them where there are no more than `max`
unfoldable pub recent : ℕ → List Message → List Message
recent max_messages messages =
    if ltb max_messages (length messages)
    then drop (length messages - max_messages) messages
    else messages

abbrev pub max_slice_messages : ℕ
max_slice_messages = 20

-- `request_agent_run`; the identifiers of the run and of the slice are arguments
unfoldable pub request_agent_run :
    RequestAgentRunCommand → String → String → ConversationState → Result (List Emission)
request_agent_run cmd run_id slice_id state = do
  validate_conversation_exists state cmd.conversation_id
  guard (contains cmd.trigger_message_id state.messages_by_id)
      (message_not_found cmd.trigger_message_id)
  ok (
      record {
        actor_id = some cmd.requested_by;
        event =
            ConversationEvent.context_slice_built slice_id cmd.trigger_message_id
              (map (λ (m : Message). m.id) (recent max_slice_messages state.messages));
      }
      ∷ record {
        actor_id = some cmd.requested_by;
        event = ConversationEvent.agent_run_requested run_id cmd.trigger_message_id slice_id;
      }
      ∷ [])

-- `start_agent_run`
unfoldable pub start_agent_run : StartAgentRunCommand → ConversationState → Result (List Emission)
start_agent_run cmd state = do
  validate_agent_run_transition state cmd.conversation_id cmd.run_id
  guard (contains cmd.started_by state.participants) (actor_not_participant cmd.started_by)
  emit (some cmd.started_by) (ConversationEvent.agent_run_started cmd.run_id)

-- `complete_agent_run`
unfoldable pub complete_agent_run :
    CompleteAgentRunCommand → ConversationState → Result (List Emission)
complete_agent_run cmd state = do
  validate_agent_run_transition state cmd.conversation_id cmd.run_id
  guard (contains cmd.output_message_id state.messages_by_id)
      (output_message_not_found cmd.output_message_id)
  guard (contains cmd.completed_by state.participants) (actor_not_participant cmd.completed_by)
  emit (some cmd.completed_by)
      (ConversationEvent.agent_run_completed cmd.run_id cmd.output_message_id)

-- `fail_agent_run`
unfoldable pub fail_agent_run : FailAgentRunCommand → ConversationState → Result (List Emission)
fail_agent_run cmd state = do
  validate_agent_run_transition state cmd.conversation_id cmd.run_id
  guard (contains cmd.failed_by state.participants) (actor_not_participant cmd.failed_by)
  emit (some cmd.failed_by)
      (ConversationEvent.agent_run_failed cmd.run_id cmd.error_code cmd.error_message)

-- `cancel_agent_run`
unfoldable pub cancel_agent_run : CancelAgentRunCommand → ConversationState → Result (List Emission)
cancel_agent_run cmd state = do
  validate_agent_run_transition state cmd.conversation_id cmd.run_id
  guard (contains cmd.cancelled_by state.participants) (actor_not_participant cmd.cancelled_by)
  emit (some cmd.cancelled_by) (ConversationEvent.agent_run_cancelled cmd.run_id cmd.reason)

-- `timeout_agent_run`
unfoldable pub timeout_agent_run :
    TimeoutAgentRunCommand → ConversationState → Result (List Emission)
timeout_agent_run cmd state = do
  validate_agent_run_transition state cmd.conversation_id cmd.run_id
  validate_optional_actor state cmd.timed_out_by
  emit cmd.timed_out_by (ConversationEvent.agent_run_timed_out cmd.run_id)

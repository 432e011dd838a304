-- ===== src/Conversation/Changes.antt =====
-- The changes to the state that the branches of `apply_event` make:
-- crates/conversation-kernel/src/projector.rs.
use connor_agent_core.Common.{String, Option, none, some, List, [], ◌∷◌, ◌++◌, ◌==◌, if◌then◌else◌}
use connor_agent_core.Common.Dict.{Dict, get, contains, insert, update}
use connor_agent_core.Domain.Descriptors.{Time}
use connor_agent_core.Domain.Action.{ActionResult}
use connor_agent_core.Conversation.Message.{Message, MessageContent}
use connor_agent_core.Conversation.Lifecycle.{
  AgentRunState, AgentRunStatus, ConversationActionState, ConversationActionStatus,
}
use connor_agent_core.Conversation.State.{ConversationState}

-- `threads.entry(thread_id).or_default().push(message_id)`
unfoldable pub push_thread : String → String → Dict (List String) → Dict (List String)
push_thread thread_id message_id threads =
    insert thread_id
      (elim (get thread_id threads) [ none ↦ message_id ∷ [] | some ids ↦ ids ++ message_id ∷ [] ])
      threads

-- the three steps that `MessageAppended` and `AssistantSuggestionCreated` share
unfoldable pub add_message : Message → ConversationState → ConversationState
unfolding push_thread
add_message message state = record state {
  threads = elim message.thread_id [
    | none ↦ state.threads
    | some thread_id ↦ push_thread thread_id message.id state.threads
  ];
  messages_by_id = insert message.id message state.messages_by_id;
  messages = state.messages ++ message ∷ [];
}

abbrev pub edit : MessageContent → Time → Message → Message
edit new_content edited_at message = record message {
  content = new_content;
  edited_at = some edited_at;
}

-- `messages.iter_mut().find(|m| m.id == message_id)`, and the change to what is found
unfoldable pub edit_first : String → (Message → Message) → List Message → List Message
edit_first message_id f [] = []
edit_first message_id f (m ∷ ms) =
    if m.id == message_id then f m ∷ ms else m ∷ edit_first message_id f ms

unfoldable pub edit_message : String → MessageContent → Time → ConversationState → ConversationState
unfolding edit_first
edit_message message_id new_content edited_at state =
    if contains message_id state.messages_by_id
    then record state {
      messages_by_id = update message_id (edit new_content edited_at) state.messages_by_id;
      messages = edit_first message_id (edit new_content edited_at) state.messages;
    }
    else state

-- the field updates of the `AgentRun…` events
abbrev pub set_run :
    AgentRunStatus
    → (output_message_id error_code error_message cancel_reason : Option String) → AgentRunState
    → AgentRunState
set_run status output_message_id error_code error_message cancel_reason run = record run {
  status = status;
  output_message_id = output_message_id;
  error_code = error_code;
  error_message = error_message;
  cancel_reason = cancel_reason;
}

abbrev pub approval_required_action : String → ConversationActionState → ConversationActionState
approval_required_action reason action = record action {
  status = ConversationActionStatus.approval_required;
  approval_required_reason = some reason;
  denial_reason = none;
  result = none;
  error_message = none;
}

abbrev pub approved_action : String → ConversationActionState → ConversationActionState
approved_action approved_by action = record action {
  status = ConversationActionStatus.approved;
  approved_by = some approved_by;
  denial_reason = none;
  error_message = none;
}

abbrev pub denied_action : String → ConversationActionState → ConversationActionState
denied_action reason action = record action {
  status = ConversationActionStatus.denied;
  denial_reason = some reason;
  result = none;
  error_message = none;
}

abbrev pub started_action : ConversationActionState → ConversationActionState
started_action action = record action {
  status = ConversationActionStatus.started;
  result = none;
  error_message = none;
}

abbrev pub completed_action : ActionResult → ConversationActionState → ConversationActionState
completed_action result action = record action {
  status = ConversationActionStatus.completed;
  result = some result;
  error_message = none;
}

abbrev pub failed_action : String → ConversationActionState → ConversationActionState
failed_action error_message action = record action {
  status = ConversationActionStatus.failed;
  result = none;
  error_message = some error_message;
}

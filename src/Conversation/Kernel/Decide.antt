-- ===== src/Conversation/Kernel/Decide.antt =====
-- All commands on an existing conversation as one type, and their decision in one function:
-- crates/conversation-kernel/src/kernel.rs.
use connor_agent_core.Common.{ℕ, String, List, [], ◌∷◌}
use connor_agent_core.Domain.Descriptors.{Time}
use connor_agent_core.Conversation.State.{ConversationState}
use connor_agent_core.Conversation.Projector.{apply_event}
use connor_agent_core.Conversation.Kernel.Commands.{
  AppendMessageCommand, EditMessageCommand, CreateAssistantSuggestionCommand, LinkEntityCommand,
  UnlinkEntityCommand, LinkArtifactCommand, UnlinkArtifactCommand, AttachSurfaceCommand,
  UpdateSurfaceCommand, CloseSurfaceCommand, ObserveAssetCommand, CaptureAssetCommand,
  ProcessAssetCommand, ObserveEntityStateCommand, QueryEntityCommand, RequestAgentRunCommand,
  StartAgentRunCommand, CompleteAgentRunCommand, FailAgentRunCommand, CancelAgentRunCommand,
  TimeoutAgentRunCommand, RequestActionCommand, RequireActionApprovalCommand, ApproveActionCommand,
  DenyActionCommand, StartActionCommand, CompleteActionCommand, FailActionCommand,
}
use connor_agent_core.Conversation.Kernel.Checks.{
  Result, ok, err, Emission, validate_action_not_terminal, validate_agent_run_transition,
}
use connor_agent_core.Conversation.Kernel.Messages.{
  append_message, edit_message, create_assistant_suggestion,
}
use connor_agent_core.Conversation.Kernel.Resources.{
  link_entity, unlink_entity, link_artifact, unlink_artifact, attach_surface, update_surface,
  close_surface, observe_asset, capture_asset, process_asset, observe_entity_state, query_entity,
}
use connor_agent_core.Conversation.Kernel.Runs.{
  request_agent_run, start_agent_run, complete_agent_run, fail_agent_run, cancel_agent_run,
  timeout_agent_run,
}
use connor_agent_core.Conversation.Kernel.Actions.{
  request_action, require_action_approval, approve_action, deny_action, start_action,
  complete_action, fail_action,
}

pub data Command : Type 0 where
  append_message_cmd : AppendMessageCommand → Command
  edit_message_cmd : EditMessageCommand → Command
  create_assistant_suggestion_cmd : CreateAssistantSuggestionCommand → Command
  link_entity_cmd : LinkEntityCommand → Command
  unlink_entity_cmd : UnlinkEntityCommand → Command
  link_artifact_cmd : LinkArtifactCommand → Command
  unlink_artifact_cmd : UnlinkArtifactCommand → Command
  attach_surface_cmd : AttachSurfaceCommand → Command
  update_surface_cmd : UpdateSurfaceCommand → Command
  close_surface_cmd : CloseSurfaceCommand → Command
  observe_asset_cmd : ObserveAssetCommand → Command
  capture_asset_cmd : CaptureAssetCommand → Command
  process_asset_cmd : ProcessAssetCommand → Command
  observe_entity_state_cmd : ObserveEntityStateCommand → Command
  query_entity_cmd : QueryEntityCommand → Command
  request_agent_run_cmd : RequestAgentRunCommand → Command
  start_agent_run_cmd : StartAgentRunCommand → Command
  complete_agent_run_cmd : CompleteAgentRunCommand → Command
  fail_agent_run_cmd : FailAgentRunCommand → Command
  cancel_agent_run_cmd : CancelAgentRunCommand → Command
  timeout_agent_run_cmd : TimeoutAgentRunCommand → Command
  request_action_cmd : RequestActionCommand → Command
  require_action_approval_cmd : RequireActionApprovalCommand → Command
  approve_action_cmd : ApproveActionCommand → Command
  deny_action_cmd : DenyActionCommand → Command
  start_action_cmd : StartActionCommand → Command
  complete_action_cmd : CompleteActionCommand → Command
  fail_action_cmd : FailActionCommand → Command

-- `cmd.conversation_id`
abbrev pub target : Command → String
target (append_message_cmd c) = c.conversation_id
target (edit_message_cmd c) = c.conversation_id
target (create_assistant_suggestion_cmd c) = c.conversation_id
target (link_entity_cmd c) = c.conversation_id
target (unlink_entity_cmd c) = c.conversation_id
target (link_artifact_cmd c) = c.conversation_id
target (unlink_artifact_cmd c) = c.conversation_id
target (attach_surface_cmd c) = c.conversation_id
target (update_surface_cmd c) = c.conversation_id
target (close_surface_cmd c) = c.conversation_id
target (observe_asset_cmd c) = c.conversation_id
target (capture_asset_cmd c) = c.conversation_id
target (process_asset_cmd c) = c.conversation_id
target (observe_entity_state_cmd c) = c.conversation_id
target (query_entity_cmd c) = c.conversation_id
target (request_agent_run_cmd c) = c.conversation_id
target (start_agent_run_cmd c) = c.conversation_id
target (complete_agent_run_cmd c) = c.conversation_id
target (fail_agent_run_cmd c) = c.conversation_id
target (cancel_agent_run_cmd c) = c.conversation_id
target (timeout_agent_run_cmd c) = c.conversation_id
target (request_action_cmd c) = c.conversation_id
target (require_action_approval_cmd c) = c.conversation_id
target (approve_action_cmd c) = c.conversation_id
target (deny_action_cmd c) = c.conversation_id
target (start_action_cmd c) = c.conversation_id
target (complete_action_cmd c) = c.conversation_id
target (fail_action_cmd c) = c.conversation_id

-- how many identifiers the command takes from `id_gen` before those of its events
abbrev pub ids_taken : Command → ℕ
ids_taken (append_message_cmd c) = 1
ids_taken (create_assistant_suggestion_cmd c) = 1
ids_taken (request_agent_run_cmd c) = 2
ids_taken _ = 0

-- `first` and `second` are the identifiers that `id_gen` gives next
unfoldable pub decide :
    Command → (first second : String) → Time → ConversationState → Result (List Emission)
unfolding append_message edit_message create_assistant_suggestion link_entity unlink_entity
    link_artifact unlink_artifact attach_surface update_surface close_surface observe_asset
    capture_asset process_asset observe_entity_state query_entity request_agent_run start_agent_run
    complete_agent_run fail_agent_run cancel_agent_run timeout_agent_run request_action
    require_action_approval approve_action deny_action start_action complete_action fail_action
    validate_action_not_terminal validate_agent_run_transition
decide (append_message_cmd c) first second now s = append_message c first now s
decide (edit_message_cmd c) first second now s = edit_message c now s
decide (create_assistant_suggestion_cmd c) first second now s =
    create_assistant_suggestion c first now s
decide (link_entity_cmd c) first second now s = link_entity c s
decide (unlink_entity_cmd c) first second now s = unlink_entity c s
decide (link_artifact_cmd c) first second now s = link_artifact c s
decide (unlink_artifact_cmd c) first second now s = unlink_artifact c s
decide (attach_surface_cmd c) first second now s = attach_surface c s
decide (update_surface_cmd c) first second now s = update_surface c s
decide (close_surface_cmd c) first second now s = close_surface c s
decide (observe_asset_cmd c) first second now s = observe_asset c s
decide (capture_asset_cmd c) first second now s = capture_asset c s
decide (process_asset_cmd c) first second now s = process_asset c s
decide (observe_entity_state_cmd c) first second now s = observe_entity_state c s
decide (query_entity_cmd c) first second now s = query_entity c s
decide (request_agent_run_cmd c) first second now s = request_agent_run c first second s
decide (start_agent_run_cmd c) first second now s = start_agent_run c s
decide (complete_agent_run_cmd c) first second now s = complete_agent_run c s
decide (fail_agent_run_cmd c) first second now s = fail_agent_run c s
decide (cancel_agent_run_cmd c) first second now s = cancel_agent_run c s
decide (timeout_agent_run_cmd c) first second now s = timeout_agent_run c s
decide (request_action_cmd c) first second now s = request_action c s
decide (require_action_approval_cmd c) first second now s = require_action_approval c s
decide (approve_action_cmd c) first second now s = approve_action c s
decide (deny_action_cmd c) first second now s = deny_action c s
decide (start_action_cmd c) first second now s = start_action c s
decide (complete_action_cmd c) first second now s = complete_action c s
decide (fail_action_cmd c) first second now s = fail_action c s

-- the state after the events of a command
abbrev pub apply_emissions : ConversationState → List Emission → ConversationState
apply_emissions s [] = s
apply_emissions s (e ∷ es) = apply_emissions (apply_event s e.event) es

-- the state after a command; a command that is refused changes nothing
abbrev pub after : ConversationState → Result (List Emission) → ConversationState
after s (ok es) = apply_emissions s es
after s (err e) = s

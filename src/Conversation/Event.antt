-- ===== src/Conversation/Event.antt =====
-- The journal's entries: crates/conversation-core/src/event.rs.
use connor_agent_core.Common.{ℕ, String, Option, List}
use connor_agent_core.Domain.Descriptors.{
  Time, EntityDescriptor, LinkReason, ArtifactDescriptor, SurfaceDescriptor, AssetMetadata,
  AssetProcessingStatus,
}
use connor_agent_core.Domain.Action.{ActionRequest, ActionResult}
use connor_agent_core.Conversation.Message.{
  ConversationSession, Participant, MessageContent, Message,
}

abbrev pub current_schema_version : ℕ
current_schema_version = 1

pub data SuggestionTrigger : Type 0 where
  mention complex_concept historical_reference proactive : SuggestionTrigger

pub data ConversationEvent : Type 0 where
  conversation_created : ConversationSession → ConversationEvent
  participant_added : Participant → ConversationEvent
  participant_removed : (participant_id : String) → ConversationEvent
  message_appended : Message → ConversationEvent
  message_edited :
      (message_id : String) (new_content : MessageContent) (edited_at : Time) → ConversationEvent
  message_tombstoned : (message_id reason : String) → ConversationEvent
  thread_started : (thread_id root_message_id : String) → ConversationEvent
  assistant_suggestion_created : Message → SuggestionTrigger → ConversationEvent
  local_triage_attached : (message_id triage_ref : String) → ConversationEvent
  context_slice_built :
      (slice_id trigger_message_id : String) (message_ids : List String) → ConversationEvent
  agent_run_requested : (run_id trigger_message_id context_slice_id : String) → ConversationEvent
  agent_run_started : (run_id : String) → ConversationEvent
  agent_run_completed : (run_id output_message_id : String) → ConversationEvent
  agent_run_failed : (run_id error_code error_message : String) → ConversationEvent
  agent_run_cancelled : (run_id reason : String) → ConversationEvent
  action_requested : ActionRequest → ConversationEvent
  action_approval_required : (action_id reason : String) → ConversationEvent
  action_approved : (action_id approved_by : String) → ConversationEvent
  action_denied : (action_id reason : String) → ConversationEvent
  action_started : (action_id : String) → ConversationEvent
  action_completed : (action_id : String) → ActionResult → ConversationEvent
  action_failed : (action_id error_message : String) → ConversationEvent
  artifact_linked : ArtifactDescriptor → ConversationEvent
  artifact_unlinked : (artifact_id reason : String) → ConversationEvent
  surface_attached : SurfaceDescriptor → ConversationEvent
  surface_updated : SurfaceDescriptor → ConversationEvent
  surface_closed : (surface_id reason : String) → ConversationEvent
  asset_observed : AssetMetadata → ConversationEvent
  asset_captured : AssetMetadata → ConversationEvent
  asset_processed : (asset_id : String) → AssetProcessingStatus → ConversationEvent
  entity_linked : EntityDescriptor → LinkReason → ConversationEvent
  entity_unlinked : (entity_id reason : String) → ConversationEvent
  entity_state_observed : (entity_id state_ref : String) → ConversationEvent
  entity_queried : (entity_id query : String) (result_ref : Option String) → ConversationEvent
  agent_run_timed_out : (run_id : String) → ConversationEvent

pub record ConversationEventEnvelope : Type 0 where
  pub schema_version : ℕ
  pub event_id : String
  pub conversation_id : String
  pub occurred_at : Time
  pub actor_id : Option String
  pub event : ConversationEvent

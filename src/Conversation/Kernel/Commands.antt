-- ===== src/Conversation/Kernel/Commands.antt =====
-- The commands of crates/conversation-kernel/src/commands.rs.
use connor_agent_core.Common.{String, Option, List}
use connor_agent_core.Domain.Descriptors.{
  EntityDescriptor, LinkReason, ArtifactDescriptor, SurfaceDescriptor, AssetMetadata,
  AssetProcessingStatus,
}
use connor_agent_core.Domain.Action.{ActionRequest, ActionResult}
use connor_agent_core.Conversation.Message.{
  ConversationKind, Participant, MessageContent, SuggestedAction, Visibility,
}
use connor_agent_core.Conversation.Event.{SuggestionTrigger}

pub record CreateConversationCommand : Type 0 where
  pub kind : ConversationKind
  pub title : Option String
  pub participants : List Participant
  pub actor_id : Option String

pub record AppendMessageCommand : Type 0 where
  pub conversation_id : String
  pub sender_id : String
  pub content : MessageContent
  pub reply_to : Option String
  pub thread_id : Option String
  pub visibility : Visibility

pub record EditMessageCommand : Type 0 where
  pub conversation_id : String
  pub message_id : String
  pub new_content : MessageContent
  pub edited_by : String

pub record CreateAssistantSuggestionCommand : Type 0 where
  pub conversation_id : String
  pub target_user_id : String
  pub text : String
  pub actions : List SuggestedAction
  pub trigger : SuggestionTrigger

pub record LinkEntityCommand : Type 0 where
  pub conversation_id : String
  pub entity : EntityDescriptor
  pub reason : LinkReason
  pub linked_by : Option String

pub record UnlinkEntityCommand : Type 0 where
  pub conversation_id : String
  pub entity_id : String
  pub reason : String
  pub unlinked_by : Option String

pub record LinkArtifactCommand : Type 0 where
  pub conversation_id : String
  pub artifact : ArtifactDescriptor
  pub linked_by : Option String

pub record UnlinkArtifactCommand : Type 0 where
  pub conversation_id : String
  pub artifact_id : String
  pub reason : String
  pub unlinked_by : Option String

pub record AttachSurfaceCommand : Type 0 where
  pub conversation_id : String
  pub surface : SurfaceDescriptor
  pub attached_by : Option String

pub record UpdateSurfaceCommand : Type 0 where
  pub conversation_id : String
  pub surface : SurfaceDescriptor
  pub updated_by : Option String

pub record CloseSurfaceCommand : Type 0 where
  pub conversation_id : String
  pub surface_id : String
  pub reason : String
  pub closed_by : Option String

pub record ObserveAssetCommand : Type 0 where
  pub conversation_id : String
  pub asset : AssetMetadata
  pub observed_by : Option String

pub record CaptureAssetCommand : Type 0 where
  pub conversation_id : String
  pub asset : AssetMetadata
  pub captured_by : Option String

pub record ProcessAssetCommand : Type 0 where
  pub conversation_id : String
  pub asset_id : String
  pub status : AssetProcessingStatus
  pub processed_by : Option String

pub record ObserveEntityStateCommand : Type 0 where
  pub conversation_id : String
  pub entity_id : String
  pub state_ref : String
  pub observed_by : Option String

pub record QueryEntityCommand : Type 0 where
  pub conversation_id : String
  pub entity_id : String
  pub query : String
  pub result_ref : Option String
  pub queried_by : Option String

pub record RequestAgentRunCommand : Type 0 where
  pub conversation_id : String
  pub trigger_message_id : String
  pub requested_by : String

pub record StartAgentRunCommand : Type 0 where
  pub conversation_id : String
  pub run_id : String
  pub started_by : String

pub record CompleteAgentRunCommand : Type 0 where
  pub conversation_id : String
  pub run_id : String
  pub output_message_id : String
  pub completed_by : String

pub record FailAgentRunCommand : Type 0 where
  pub conversation_id : String
  pub run_id : String
  pub error_code : String
  pub error_message : String
  pub failed_by : String

pub record CancelAgentRunCommand : Type 0 where
  pub conversation_id : String
  pub run_id : String
  pub reason : String
  pub cancelled_by : String

pub record TimeoutAgentRunCommand : Type 0 where
  pub conversation_id : String
  pub run_id : String
  pub timed_out_by : Option String

pub record RequestActionCommand : Type 0 where
  pub conversation_id : String
  pub action_request : ActionRequest
  pub requested_by : Option String

pub record RequireActionApprovalCommand : Type 0 where
  pub conversation_id : String
  pub action_id : String
  pub reason : String
  pub required_by : Option String

pub record ApproveActionCommand : Type 0 where
  pub conversation_id : String
  pub action_id : String
  pub approved_by : String

pub record DenyActionCommand : Type 0 where
  pub conversation_id : String
  pub action_id : String
  pub reason : String
  pub denied_by : Option String

pub record StartActionCommand : Type 0 where
  pub conversation_id : String
  pub action_id : String
  pub started_by : Option String

pub record CompleteActionCommand : Type 0 where
  pub conversation_id : String
  pub action_id : String
  pub result : ActionResult
  pub completed_by : Option String

pub record FailActionCommand : Type 0 where
  pub conversation_id : String
  pub action_id : String
  pub error_message : String
  pub failed_by : Option String

-- ===== src/Conversation/Kernel/Resources.antt =====
-- The entity, artifact, surface and asset commands of crates/conversation-kernel/src/kernel.rs.
use connor_agent_core.Common.{List}
use connor_agent_core.Common.Dict.{contains}
use connor_agent_core.Conversation.Event.{ConversationEvent}
use connor_agent_core.Conversation.State.{ConversationState}
use connor_agent_core.Conversation.Kernel.Commands.{
  LinkEntityCommand, UnlinkEntityCommand, LinkArtifactCommand, UnlinkArtifactCommand,
  AttachSurfaceCommand, UpdateSurfaceCommand, CloseSurfaceCommand, ObserveAssetCommand,
  CaptureAssetCommand, ProcessAssetCommand, ObserveEntityStateCommand, QueryEntityCommand,
}
use connor_agent_core.Conversation.Kernel.Checks.{
  Result, ◌>>◌, guard, Emission, emit, validate_conversation_exists, validate_optional_actor,
  entity_not_linked, artifact_not_linked, surface_not_attached, asset_not_observed,
}

-- `link_entity`
unfoldable pub link_entity : LinkEntityCommand → ConversationState → Result (List Emission)
link_entity cmd state = do
  validate_conversation_exists state cmd.conversation_id
  validate_optional_actor state cmd.linked_by
  emit cmd.linked_by (ConversationEvent.entity_linked cmd.entity cmd.reason)

-- `unlink_entity`
unfoldable pub unlink_entity : UnlinkEntityCommand → ConversationState → Result (List Emission)
unlink_entity cmd state = do
  validate_conversation_exists state cmd.conversation_id
  validate_optional_actor state cmd.unlinked_by
  guard (contains cmd.entity_id state.linked_entities) (entity_not_linked cmd.entity_id)
  emit cmd.unlinked_by (ConversationEvent.entity_unlinked cmd.entity_id cmd.reason)

-- `link_artifact`
unfoldable pub link_artifact : LinkArtifactCommand → ConversationState → Result (List Emission)
link_artifact cmd state = do
  validate_conversation_exists state cmd.conversation_id
  validate_optional_actor state cmd.linked_by
  emit cmd.linked_by (ConversationEvent.artifact_linked cmd.artifact)

-- `unlink_artifact`
unfoldable pub unlink_artifact : UnlinkArtifactCommand → ConversationState → Result (List Emission)
unlink_artifact cmd state = do
  validate_conversation_exists state cmd.conversation_id
  validate_optional_actor state cmd.unlinked_by
  guard (contains cmd.artifact_id state.linked_artifacts) (artifact_not_linked cmd.artifact_id)
  emit cmd.unlinked_by (ConversationEvent.artifact_unlinked cmd.artifact_id cmd.reason)

-- `attach_surface`
unfoldable pub attach_surface : AttachSurfaceCommand → ConversationState → Result (List Emission)
attach_surface cmd state = do
  validate_conversation_exists state cmd.conversation_id
  validate_optional_actor state cmd.attached_by
  emit cmd.attached_by (ConversationEvent.surface_attached cmd.surface)

-- `update_surface`
unfoldable pub update_surface : UpdateSurfaceCommand → ConversationState → Result (List Emission)
update_surface cmd state = do
  validate_conversation_exists state cmd.conversation_id
  validate_optional_actor state cmd.updated_by
  guard (contains cmd.surface.id state.attached_surfaces) (surface_not_attached cmd.surface.id)
  emit cmd.updated_by (ConversationEvent.surface_updated cmd.surface)

-- `close_surface`
unfoldable pub close_surface : CloseSurfaceCommand → ConversationState → Result (List Emission)
close_surface cmd state = do
  validate_conversation_exists state cmd.conversation_id
  validate_optional_actor state cmd.closed_by
  guard (contains cmd.surface_id state.attached_surfaces) (surface_not_attached cmd.surface_id)
  emit cmd.closed_by (ConversationEvent.surface_closed cmd.surface_id cmd.reason)

-- `observe_asset`
unfoldable pub observe_asset : ObserveAssetCommand → ConversationState → Result (List Emission)
observe_asset cmd state = do
  validate_conversation_exists state cmd.conversation_id
  validate_optional_actor state cmd.observed_by
  emit cmd.observed_by (ConversationEvent.asset_observed cmd.asset)

-- `capture_asset`
unfoldable pub capture_asset : CaptureAssetCommand → ConversationState → Result (List Emission)
capture_asset cmd state = do
  validate_conversation_exists state cmd.conversation_id
  validate_optional_actor state cmd.captured_by
  guard (contains cmd.asset.id state.observed_assets) (asset_not_observed cmd.asset.id)
  emit cmd.captured_by (ConversationEvent.asset_captured cmd.asset)

-- `process_asset`
unfoldable pub process_asset : ProcessAssetCommand → ConversationState → Result (List Emission)
process_asset cmd state = do
  validate_conversation_exists state cmd.conversation_id
  validate_optional_actor state cmd.processed_by
  guard (contains cmd.asset_id state.observed_assets) (asset_not_observed cmd.asset_id)
  emit cmd.processed_by (ConversationEvent.asset_processed cmd.asset_id cmd.status)

-- `observe_entity_state`
unfoldable pub observe_entity_state :
    ObserveEntityStateCommand → ConversationState → Result (List Emission)
observe_entity_state cmd state = do
  validate_conversation_exists state cmd.conversation_id
  validate_optional_actor state cmd.observed_by
  guard (contains cmd.entity_id state.linked_entities) (entity_not_linked cmd.entity_id)
  emit cmd.observed_by (ConversationEvent.entity_state_observed cmd.entity_id cmd.state_ref)

-- `query_entity`
unfoldable pub query_entity : QueryEntityCommand → ConversationState → Result (List Emission)
query_entity cmd state = do
  validate_conversation_exists state cmd.conversation_id
  validate_optional_actor state cmd.queried_by
  guard (contains cmd.entity_id state.linked_entities) (entity_not_linked cmd.entity_id)
  emit cmd.queried_by (ConversationEvent.entity_queried cmd.entity_id cmd.query cmd.result_ref)

-- ===== src/Conversation/Projector.antt =====
-- `ConversationProjector`: crates/conversation-kernel/src/projector.rs. A `bail!` is an `err` with
-- the identifiers that its message prints.
pub mod Replay
pub mod Timeline
pub mod Tombstone
pub mod Lifecycles
use connor_agent_core.Common.{
  String, Option, none, some, not, List, [], ◌∷◌, ◌++◌, ◌==◌, if◌then◌else◌, keep, last?, length,
}
use connor_agent_core.Common.Dict.{Dict, get, contains, insert, remove, update, map_value}
use connor_agent_core.Domain.Descriptors.{
  Time, SurfaceState, SurfaceLifecycleStatus, AssetProcessingStatus, attached_state,
}
use connor_agent_core.Domain.Action.{ActionResult}
use connor_agent_core.Conversation.Message.{Message, MessageContent}
use connor_agent_core.Conversation.Lifecycle.{
  AgentRunState, AgentRunStatus, run_requested, ConversationActionState, ConversationActionStatus,
  action_requested,
}
use connor_agent_core.Conversation.Event.{ConversationEvent, ConversationEventEnvelope}
use connor_agent_core.Conversation.State.{
  ConversationState, default_state, ConversationProjectionSnapshot, new_snapshot,
}
use connor_agent_core.Conversation.Changes.{
  push_thread, add_message, edit, edit_first, edit_message, set_run, approval_required_action,
  approved_action, denied_action, started_action, completed_action, failed_action,
}

-- `apply_event`; the source returns `Ok(())` on every branch, so the state alone is the result
unfoldable pub apply_event : ConversationState → ConversationEvent → ConversationState
unfolding add_message edit_message
apply_event state (ConversationEvent.conversation_created session) = record state {
  session = some session;
}
apply_event state (ConversationEvent.participant_added participant) = record state {
  participants = insert participant.id participant state.participants;
}
apply_event state (ConversationEvent.participant_removed participant_id) = record state {
  participants = remove participant_id state.participants;
}
apply_event state (ConversationEvent.message_appended message) = add_message message state
apply_event state (ConversationEvent.message_edited message_id new_content edited_at) =
    edit_message message_id new_content edited_at state
apply_event state (ConversationEvent.message_tombstoned message_id reason) = record state {
  messages = keep (λ m. not (m.id == message_id)) state.messages;
}
apply_event state (ConversationEvent.assistant_suggestion_created message trigger) =
    add_message message state
apply_event state (ConversationEvent.thread_started thread_id root_message_id) = record state {
  threads = push_thread thread_id root_message_id state.threads;
}
apply_event state (ConversationEvent.artifact_linked artifact) = record state {
  linked_artifacts = insert artifact.id artifact state.linked_artifacts;
}
apply_event state (ConversationEvent.artifact_unlinked artifact_id reason) = record state {
  linked_artifacts = remove artifact_id state.linked_artifacts;
}
apply_event state (ConversationEvent.surface_attached surface) = record state {
  attached_surfaces =
      insert surface.id (attached_state surface surface.created_at) state.attached_surfaces;
}
apply_event state (ConversationEvent.surface_updated surface) = record state {
  attached_surfaces =
      insert surface.id
        (record {
          descriptor = surface;
          status = SurfaceLifecycleStatus.updated;
          updated_at = surface.created_at;
        })
        state.attached_surfaces;
}
apply_event state (ConversationEvent.surface_closed surface_id reason) = record state {
  attached_surfaces =
      update surface_id (λ (s : SurfaceState). record s { status = SurfaceLifecycleStatus.closed })
        state.attached_surfaces;
}
apply_event state (ConversationEvent.asset_observed asset) = record state {
  observed_assets = insert asset.id asset state.observed_assets;
  asset_statuses = insert asset.id AssetProcessingStatus.observed state.asset_statuses;
}
apply_event state (ConversationEvent.asset_captured asset) = record state {
  observed_assets = insert asset.id asset state.observed_assets;
  asset_statuses = insert asset.id AssetProcessingStatus.captured state.asset_statuses;
}
apply_event state (ConversationEvent.asset_processed asset_id status) =
    if contains asset_id state.observed_assets
    then record state { asset_statuses = insert asset_id status state.asset_statuses }
    else state
apply_event state (ConversationEvent.entity_linked entity reason) = record state {
  linked_entities = insert entity.id entity state.linked_entities;
}
apply_event state (ConversationEvent.entity_unlinked entity_id reason) = record state {
  linked_entities = remove entity_id state.linked_entities;
}
apply_event state (ConversationEvent.agent_run_requested run_id trigger_message_id slice_id) =
    record state {
      agent_runs =
          insert run_id (run_requested run_id trigger_message_id slice_id) state.agent_runs;
    }
apply_event state (ConversationEvent.agent_run_started run_id) = record state {
  agent_runs = update run_id (set_run AgentRunStatus.started none none none none) state.agent_runs;
}
apply_event state (ConversationEvent.agent_run_completed run_id output_message_id) = record state {
  agent_runs =
      update run_id (set_run AgentRunStatus.completed (some output_message_id) none none none)
        state.agent_runs;
  completed_agent_runs = insert run_id output_message_id state.completed_agent_runs;
}
apply_event state (ConversationEvent.agent_run_failed run_id error_code error_message) =
    record state {
      agent_runs =
          update run_id
            (set_run AgentRunStatus.failed none (some error_code) (some error_message) none)
            state.agent_runs;
    }
apply_event state (ConversationEvent.agent_run_cancelled run_id reason) = record state {
  agent_runs =
      update run_id (set_run AgentRunStatus.cancelled none none none (some reason))
        state.agent_runs;
}
apply_event state (ConversationEvent.agent_run_timed_out run_id) = record state {
  agent_runs =
      update run_id (set_run AgentRunStatus.timed_out none none none none) state.agent_runs;
}
apply_event state (ConversationEvent.action_requested request) = record state {
  actions = insert request.action_id (action_requested request) state.actions;
}
apply_event state (ConversationEvent.action_approval_required action_id reason) = record state {
  actions = update action_id (approval_required_action reason) state.actions;
}
apply_event state (ConversationEvent.action_approved action_id approved_by) = record state {
  actions = update action_id (approved_action approved_by) state.actions;
}
apply_event state (ConversationEvent.action_denied action_id reason) = record state {
  actions = update action_id (denied_action reason) state.actions;
}
apply_event state (ConversationEvent.action_started action_id) = record state {
  actions = update action_id started_action state.actions;
}
apply_event state (ConversationEvent.action_completed action_id result) = record state {
  actions = update action_id (completed_action result) state.actions;
}
apply_event state (ConversationEvent.action_failed action_id error_message) = record state {
  actions = update action_id (failed_action error_message) state.actions;
}
apply_event state _ = state

unfoldable pub project_from : ConversationState → List ConversationEventEnvelope → ConversationState
project_from state [] = state
project_from state (envelope ∷ events) = project_from (apply_event state envelope.event) events

-- `project`
unfoldable pub project : List ConversationEventEnvelope → ConversationState
unfolding project_from
project events = project_from default_state events

pub data ProjectionError : Type 0 where
  foreign_event : (event_id found expected : String) → ProjectionError

pub data Projected {ℓ} (A : Type ℓ) : Type ℓ where
  ok : A → Projected A
  err : ProjectionError → Projected A

-- the loop of `snapshot` that looks for an event of another conversation
unfoldable pub first_foreign :
    String → List ConversationEventEnvelope → Option ConversationEventEnvelope
first_foreign conversation_id [] = none
first_foreign conversation_id (e ∷ events) =
    if e.conversation_id == conversation_id then first_foreign conversation_id events else some e

-- `snapshot`
unfoldable pub snapshot :
    String → List ConversationEventEnvelope → Time → Projected ConversationProjectionSnapshot
unfolding first_foreign
snapshot conversation_id events created_at = elim (first_foreign conversation_id events) [
  | some e ↦ err (foreign_event e.event_id e.conversation_id conversation_id)
  | none ↦ ok (
      new_snapshot conversation_id created_at
        (map_value (λ (e : ConversationEventEnvelope). e.event_id) (last? events)) (length events)
        (project events))
]

-- the loop of `project_from_snapshot`, which checks and applies each event in turn
unfoldable pub project_tail :
    String → ConversationState → List ConversationEventEnvelope → Projected ConversationState
project_tail conversation_id state [] = ok state
project_tail conversation_id state (e ∷ events) =
    if e.conversation_id == conversation_id
    then project_tail conversation_id (apply_event state e.event) events
    else err (foreign_event e.event_id e.conversation_id conversation_id)

-- `project_from_snapshot`
unfoldable pub project_from_snapshot :
    ConversationProjectionSnapshot → List ConversationEventEnvelope → Projected ConversationState
unfolding project_tail
project_from_snapshot s tail_events = project_tail s.conversation_id s.state tail_events

-- ===== src/Conversation/State.antt =====
-- The projected state and its snapshots: state.rs and snapshot.rs of
-- crates/conversation-kernel/src.
use connor_agent_core.Common.{ℕ, String, Option, none, List, []}
use connor_agent_core.Common.Dict.{Dict}
use connor_agent_core.Domain.Descriptors.{
  Time, EntityDescriptor, ArtifactDescriptor, SurfaceState, AssetMetadata, AssetProcessingStatus,
}
use connor_agent_core.Conversation.Message.{ConversationSession, Participant, Message}
use connor_agent_core.Conversation.Lifecycle.{AgentRunState, ConversationActionState}

pub record ConversationState : Type 0 where
  pub session : Option ConversationSession
  pub participants : Dict Participant
  pub messages : List Message
  pub messages_by_id : Dict Message
  pub threads : Dict (List String)
  pub linked_entities : Dict EntityDescriptor
  pub linked_artifacts : Dict ArtifactDescriptor
  pub attached_surfaces : Dict SurfaceState
  pub observed_assets : Dict AssetMetadata
  pub asset_statuses : Dict AssetProcessingStatus
  pub actions : Dict ConversationActionState
  pub agent_runs : Dict AgentRunState
  pub completed_agent_runs : Dict String

-- `ConversationState::default`
abbrev pub default_state : ConversationState
default_state = record {
  session = none;
  participants = [];
  messages = [];
  messages_by_id = [];
  threads = [];
  linked_entities = [];
  linked_artifacts = [];
  attached_surfaces = [];
  observed_assets = [];
  asset_statuses = [];
  actions = [];
  agent_runs = [];
  completed_agent_runs = [];
}

abbrev pub conversation_snapshot_version : ℕ
conversation_snapshot_version = 1

pub record ConversationProjectionSnapshot : Type 0 where
  pub snapshot_version : ℕ
  pub conversation_id : String
  pub created_at : Time
  pub last_event_id : Option String
  pub event_count : ℕ
  pub state : ConversationState

-- `ConversationProjectionSnapshot::new`
abbrev pub new_snapshot :
    String → Time → Option String → ℕ → ConversationState → ConversationProjectionSnapshot
new_snapshot conversation_id created_at last_event_id event_count state = record {
  snapshot_version = conversation_snapshot_version;
  conversation_id = conversation_id;
  created_at = created_at;
  last_event_id = last_event_id;
  event_count = event_count;
  state = state;
}

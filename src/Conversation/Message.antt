-- ===== src/Conversation/Message.antt =====
-- Sessions, participants and messages: session.rs, participant.rs, visibility.rs and message.rs of
-- crates/conversation-core/src.
use connor_agent_core.Common.{String, Bool, true, false, Option, List}
use connor_agent_core.Domain.Descriptors.{Time}

pub data ConversationKind : Type 0 where
  direct group agent_task mixed : ConversationKind

pub data ConversationStatus : Type 0 where
  active archived : ConversationStatus

pub record ConversationSession : Type 0 where
  pub id : String
  pub kind : ConversationKind
  pub title : Option String
  pub participants : List String
  pub created_at : Time
  pub updated_at : Time
  pub status : ConversationStatus

pub data ParticipantKind : Type 0 where
  human agent system integration : ParticipantKind

pub record Participant : Type 0 where
  pub id : String
  pub kind : ParticipantKind
  pub display_name : String

-- `ParticipantKind::is_foreground`
abbrev pub is_foreground : ParticipantKind → Bool
is_foreground human = true
is_foreground agent = true
is_foreground _ = false

-- `kind == ParticipantKind::Agent`
abbrev pub is_agent : ParticipantKind → Bool
is_agent agent = true
is_agent _ = false

pub data Visibility : Type 0 where
  conversation : Visibility
  private_to_user : String → Visibility
  agent_only : Visibility
  participants : List String → Visibility

pub record SuggestedAction : Type 0 where
  pub id : String
  pub label : String
  pub action_type : String

pub data MessageContent : Type 0 where
  text : String → MessageContent
  system_notice : String → MessageContent
  agent_suggestion : String → List SuggestedAction → MessageContent

pub record Message : Type 0 where
  pub id : String
  pub conversation_id : String
  pub sender_id : String
  pub content : MessageContent
  pub reply_to : Option String
  pub thread_id : Option String
  pub visibility : Visibility
  pub created_at : Time
  pub edited_at : Option Time

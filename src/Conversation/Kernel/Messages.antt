-- ===== src/Conversation/Kernel/Messages.antt =====
-- The message commands of crates/conversation-kernel/src/kernel.rs. A function decides a command in
-- the projected state: it answers the events to append with their actors, or the error. Identifiers
-- from `id_gen` and the time from `clock` are arguments.
use connor_agent_core.Common.{String, Option, none, some, List, [], ◌∷◌, ◌==◌, map, find}
use connor_agent_core.Common.Dict.{get, contains, values}
use connor_agent_core.Domain.Descriptors.{Time}
use connor_agent_core.Conversation.Message.{
  ConversationStatus, Participant, Visibility, MessageContent, is_foreground, is_agent,
}
use connor_agent_core.Conversation.Event.{ConversationEvent}
use connor_agent_core.Conversation.State.{ConversationState}
use connor_agent_core.Conversation.Kernel.Commands.{
  CreateConversationCommand, AppendMessageCommand, EditMessageCommand,
  CreateAssistantSuggestionCommand,
}
use connor_agent_core.Conversation.Kernel.Checks.{
  Result, ok, err, ◌>>=◌, ◌>>◌, guard, require, Emission, emit, is_active,
  validate_conversation_exists, validate_visibility, conversation_not_found,
  conversation_not_active, sender_not_participant, sender_not_foreground, reply_to_not_found,
  reply_to_other_conversation, thread_not_found, message_not_found, editor_not_participant,
  target_not_participant, no_agent_participant, no_participants,
}

-- the `ParticipantAdded` events of the loop in `create_conversation`
abbrev pub participant_events : Option String → List Participant → List Emission
participant_events actor_id [] = []
participant_events actor_id (p ∷ ps) =
    record { actor_id = actor_id; event = ConversationEvent.participant_added p }
    ∷ participant_events actor_id ps

-- `create_conversation`; the new identifier is an argument
unfoldable pub create_conversation :
    CreateConversationCommand → String → Time → Result (List Emission)
create_conversation cmd conversation_id now = elim cmd.participants [
  | [] ↦ err no_participants
  | p ∷ ps ↦ ok (
      record {
        actor_id = cmd.actor_id;
        event = ConversationEvent.conversation_created (record {
          id = conversation_id;
          kind = cmd.kind;
          title = cmd.title;
          participants = map (λ (q : Participant). q.id) (p ∷ ps);
          created_at = now;
          updated_at = now;
          status = ConversationStatus.active;
        });
      }
      ∷ participant_events cmd.actor_id (p ∷ ps))
]

-- the check of `reply_to` in `append_message`
unfoldable pub check_reply_to : ConversationState → String → Option String → Result (Unit {0})
check_reply_to state conversation_id none = ok tt
check_reply_to state conversation_id (some reply_to) = do
  replied_message ← require (get reply_to state.messages_by_id) (reply_to_not_found reply_to)
  guard (replied_message.conversation_id == conversation_id) (reply_to_other_conversation reply_to)

-- the check of `thread_id` in `append_message`
unfoldable pub check_thread : ConversationState → Option String → Result (Unit {0})
check_thread state none = ok tt
check_thread state (some thread_id) =
    guard (contains thread_id state.threads) (thread_not_found thread_id)

-- `append_message`
unfoldable pub append_message :
    AppendMessageCommand → String → Time → ConversationState → Result (List Emission)
unfolding check_reply_to check_thread
append_message cmd message_id now state = do
  session ← require state.session (conversation_not_found cmd.conversation_id)
  guard (is_active session.status) (conversation_not_active cmd.conversation_id)
  sender ← require (get cmd.sender_id state.participants) (sender_not_participant cmd.sender_id)
  guard (is_foreground sender.kind) (sender_not_foreground cmd.sender_id)
  check_reply_to state cmd.conversation_id cmd.reply_to
  check_thread state cmd.thread_id
  validate_visibility state cmd.visibility
  emit (some cmd.sender_id) (
      ConversationEvent.message_appended (record {
        id = message_id;
        conversation_id = cmd.conversation_id;
        sender_id = cmd.sender_id;
        content = cmd.content;
        reply_to = cmd.reply_to;
        thread_id = cmd.thread_id;
        visibility = cmd.visibility;
        created_at = now;
        edited_at = none;
      }))

-- `edit_message`
unfoldable pub edit_message : EditMessageCommand → Time → ConversationState → Result (List Emission)
edit_message cmd now state = do
  validate_conversation_exists state cmd.conversation_id
  guard (contains cmd.message_id state.messages_by_id) (message_not_found cmd.message_id)
  guard (contains cmd.edited_by state.participants) (editor_not_participant cmd.edited_by)
  emit (some cmd.edited_by) (ConversationEvent.message_edited cmd.message_id cmd.new_content now)

-- `create_assistant_suggestion`. The participants are a `HashMap`: of several agents the source takes
-- any one, the model the first in its list.
unfoldable pub create_assistant_suggestion :
    CreateAssistantSuggestionCommand → String → Time → ConversationState → Result (List Emission)
create_assistant_suggestion cmd message_id now state = do
  session ← require state.session (conversation_not_found cmd.conversation_id)
  guard (is_active session.status) (conversation_not_active cmd.conversation_id)
  guard (contains cmd.target_user_id state.participants) (target_not_participant cmd.target_user_id)
  agent_sender ←
      require (find (λ (p : Participant). is_agent p.kind) (values state.participants))
        no_agent_participant
  emit (some agent_sender.id) (
      ConversationEvent.assistant_suggestion_created
        (record {
          id = message_id;
          conversation_id = cmd.conversation_id;
          sender_id = agent_sender.id;
          content = MessageContent.agent_suggestion cmd.text cmd.actions;
          reply_to = none;
          thread_id = none;
          visibility = Visibility.private_to_user cmd.target_user_id;
          created_at = now;
          edited_at = none;
        })
        cmd.trigger)

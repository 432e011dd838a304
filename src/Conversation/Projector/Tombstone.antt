-- ===== src/Conversation/Projector/Tombstone.antt =====
-- What a tombstone takes off the timeline: crates/conversation-kernel/src/projector.rs.
use connor_agent_core.Common.{
  String, ◌≡◌, false, not, List, [], ◌∷◌, ◌++◌, arith, ◌==◌, keep, All, All-append, All-keep,
}
use connor_agent_core.Conversation.Message.{Message}
use connor_agent_core.Conversation.Event.{ConversationEvent, ConversationEventEnvelope}
use connor_agent_core.Conversation.State.{ConversationState, default_state}
use connor_agent_core.Conversation.Projector.Replay.{project_from-append}
use connor_agent_core.Conversation.Projector.{apply_event, project_from, project}
use connor_agent_core.Conversation.Projector.Timeline.{Without, edit_first-Without}

tombstone-Without : (id : String) (ms : List Message) → Without id (keep (λ m. not (m.id == id)) ms)
tombstone-Without id [] = tt
tombstone-Without id (m ∷ ms) = ground (arith, tombstone-Without id ms)

-- the event does not add a message of this identifier
abbrev pub AddsNo : String → ConversationEvent → Type 0
AddsNo id (ConversationEvent.message_appended m) = (m.id == id) ≡ false
AddsNo id (ConversationEvent.assistant_suggestion_created m trigger) = (m.id == id) ≡ false
AddsNo id _ = Unit

apply_event-Without :
    (id : String) (state : ConversationState) (event : ConversationEvent)
    → AddsNo id event
    → Without id state.messages
    → Without id (apply_event state event).messages
unfolding apply_event
apply_event-Without id state (ConversationEvent.message_appended m) a w =
    All-append _ state.messages (m ∷ []) w (a, tt)
apply_event-Without id state (ConversationEvent.assistant_suggestion_created m trigger) a w =
    All-append _ state.messages (m ∷ []) w (a, tt)
apply_event-Without id state (ConversationEvent.message_edited j content t) a w =
    ground (arith, edit_first-Without j content t id state.messages w)
apply_event-Without id state (ConversationEvent.message_tombstoned j reason) a w =
    All-keep _ (λ m. not (m.id == j)) state.messages w
apply_event-Without id state _ a w = ground arith

project_from-Without :
    (id : String) (state : ConversationState) (events : List ConversationEventEnvelope)
    → All (λ (e : ConversationEventEnvelope). AddsNo id e.event) events
    → Without id state.messages
    → Without id (project_from state events).messages
unfolding project_from
project_from-Without id state [] a w = w
project_from-Without id state (e ∷ events) a w =
    project_from-Without id (apply_event state e.event) events a.1
      (apply_event-Without id state e.event a.0 w)

-- A tombstone takes every message of its identifier off the timeline, and no later event, an edit
-- of that message included, brings one back, unless it adds a message of that identifier.
pub tombstone_final :
    (before after : List ConversationEventEnvelope) (e : ConversationEventEnvelope)
    (id reason : String)
    → e.event ≡ ConversationEvent.message_tombstoned id reason
    → All (λ (a : ConversationEventEnvelope). AddsNo id a.event) after
    → Without id (project (before ++ e ∷ after)).messages
unfolding project project_from
tombstone_final before after e id reason h a = rw project_from-append (
    rw h (
      project_from-Without id _ after a
        (unfold apply_event in tombstone-Without id (project_from default_state before).messages)))

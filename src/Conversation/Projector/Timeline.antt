-- ===== src/Conversation/Projector/Timeline.antt =====
-- The two copies of a message that the projector keeps, in `messages` and in `messages_by_id`:
-- crates/conversation-kernel/src/projector.rs.
use connor_agent_core.Common.{
  String, ◌≡◌, Bool, false, not, none, some, List, [], ◌∷◌, ◌++◌, arith, ◌==◌, eq_iff, keep, All,
  All-append, All-keep, eq_self,
}
use connor_agent_core.Common.Dict.{Dict, get, contains, insert, update, get-insert, get-update}
use connor_agent_core.Domain.Descriptors.{Time}
use connor_agent_core.Conversation.Message.{Message, MessageContent}
use connor_agent_core.Conversation.Event.{ConversationEvent, ConversationEventEnvelope}
use connor_agent_core.Conversation.State.{ConversationState, default_state}
use connor_agent_core.Conversation.Projector.{apply_event, project_from, project}
use connor_agent_core.Conversation.Changes.{add_message, edit, edit_first, edit_message}

-- no message of the list has this identifier
abbrev pub Without : String → List Message → Type 0
Without id = All (λ m. (m.id == id) ≡ false)

abbrev pub Distinct : List Message → Type 0
Distinct [] = Unit
Distinct (m ∷ ms) = Without m.id ms × Distinct ms

abbrev pub Indexed : Dict Message → List Message → Type 0
Indexed by_id = All (λ m. get m.id by_id ≡ some m)

pub record IsSynced (state : ConversationState) : Type 0 where
  pub distinct : Distinct state.messages
  pub indexed : Indexed state.messages_by_id state.messages

fresh-Without :
    (id : String) (by_id : Dict Message) (ms : List Message)
    → Indexed by_id ms
    → get id by_id ≡ none
    → Without id ms
fresh-Without id by_id [] h e = tt
fresh-Without id by_id (m ∷ ms) h e =
    ground (arith, fresh-Without id by_id ms h.1 e, eq_iff m.id id)

insert-Indexed :
    (m : Message) (by_id : Dict Message) (ms : List Message)
    → Indexed by_id ms
    → Without m.id ms
    → Indexed (insert m.id m by_id) ms
insert-Indexed m by_id [] h w = tt
insert-Indexed m by_id (x ∷ ms) h w = ground (
  arith,
  insert-Indexed m by_id ms h.1 w.1,
  get-insert m.id x.id m by_id,
  eq_iff m.id x.id,
  eq_iff x.id m.id,
)

append-Distinct :
    (m : Message) (ms : List Message) → Distinct ms → Without m.id ms → Distinct (ms ++ m ∷ [])
append-Distinct m [] d w = (tt, tt)
append-Distinct m (x ∷ ms) d w = (
  All-append (λ y. (y.id == x.id) ≡ false) ms (m ∷ []) d.0
      (ground (arith, eq_iff x.id m.id, eq_iff m.id x.id), tt),
  append-Distinct m ms d.1 w.1,
)

keep-Distinct : (p : Message → Bool) (ms : List Message) → Distinct ms → Distinct (keep p ms)
keep-Distinct p [] d = tt
keep-Distinct p (m ∷ ms) d =
    ground (arith, keep-Distinct p ms d.1, All-keep (λ y. (y.id == m.id) ≡ false) p ms d.0)

module _ (id : String) (content : MessageContent) (t : Time) where
  pub edit_first-Without :
      (j : String) (ms : List Message)
      → Without j ms
      → Without j (edit_first id (edit content t) ms)
  unfolding edit_first
  edit_first-Without j [] w = tt
  edit_first-Without j (m ∷ ms) w = ground (arith, edit_first-Without j ms w.1)

  edit_first-Distinct :
      (ms : List Message) → Distinct ms → Distinct (edit_first id (edit content t) ms)
  unfolding edit_first
  edit_first-Distinct [] d = tt
  edit_first-Distinct (m ∷ ms) d =
      ground (arith, edit_first-Distinct ms d.1, edit_first-Without m.id ms d.0)

  -- an edit of the index does not touch what the messages of other identifiers are
  update-Indexed_other :
      (by_id : Dict Message) (ms : List Message)
      → Indexed by_id ms
      → Without id ms
      → Indexed (update id (edit content t) by_id) ms
  update-Indexed_other by_id [] h w = tt
  update-Indexed_other by_id (m ∷ ms) h w = ground (
    arith,
    update-Indexed_other by_id ms h.1 w.1,
    get-update id m.id (edit content t) by_id,
    eq_iff id m.id,
    eq_iff m.id id,
  )

  edit-Indexed :
      (by_id : Dict Message) (ms : List Message)
      → Indexed by_id ms
      → Distinct ms
      → Indexed (update id (edit content t) by_id) (edit_first id (edit content t) ms)
  unfolding edit_first
  edit-Indexed by_id [] h d = tt
  edit-Indexed by_id (m ∷ ms) h d = ground (
    arith,
    edit-Indexed by_id ms h.1 d.1,
    update-Indexed_other by_id ms h.1,
    get-update id m.id (edit content t) by_id,
    eq_iff id m.id,
    eq_iff m.id id,
  )

add_message-IsSynced :
    (message : Message) (state : ConversationState)
    → contains message.id state.messages_by_id ≡ false
    → IsSynced state
    → IsSynced (add_message message state)
unfolding add_message contains
add_message-IsSynced message state new s =
    let absent : get message.id state.messages_by_id ≡ none = ground arith in
    let w : Without message.id state.messages =
      fresh-Without message.id state.messages_by_id state.messages s.indexed absent in
    record {
      distinct = append-Distinct message state.messages s.distinct w;
      indexed =
          All-append _ state.messages (message ∷ [])
            (insert-Indexed message state.messages_by_id state.messages s.indexed w)
            (
              ground (
                arith,
                get-insert message.id message.id message state.messages_by_id,
                eq_self message.id,
              ),
              tt,
            );
    }

edit_message-IsSynced :
    (id : String) (content : MessageContent) (t : Time) (state : ConversationState)
    → IsSynced state
    → IsSynced (edit_message id content t state)
unfolding edit_message
edit_message-IsSynced id content t state s = ground (
  arith,
  edit-Indexed id content t state.messages_by_id state.messages s.indexed s.distinct,
  edit_first-Distinct id content t state.messages s.distinct,
)

-- a message that an event adds has an identifier that the index does not hold yet
abbrev pub IsFresh : ConversationState → ConversationEvent → Type 0
IsFresh state (ConversationEvent.message_appended m) = contains m.id state.messages_by_id ≡ false
IsFresh state (ConversationEvent.assistant_suggestion_created m trigger) =
    contains m.id state.messages_by_id ≡ false
IsFresh state _ = Unit

pub apply_event-IsSynced :
    (state : ConversationState) (event : ConversationEvent)
    → IsFresh state event
    → IsSynced state
    → IsSynced (apply_event state event)
unfolding apply_event
apply_event-IsSynced state (ConversationEvent.message_appended m) new s =
    add_message-IsSynced m state new s
apply_event-IsSynced state (ConversationEvent.assistant_suggestion_created m trigger) new s =
    add_message-IsSynced m state new s
apply_event-IsSynced state (ConversationEvent.message_edited id content t) new s =
    edit_message-IsSynced id content t state s
apply_event-IsSynced state (ConversationEvent.message_tombstoned id reason) new s = record {
  distinct = keep-Distinct (λ m. not (m.id == id)) state.messages s.distinct;
  indexed = All-keep _ (λ m. not (m.id == id)) state.messages s.indexed;
}
apply_event-IsSynced state _ new s = ground arith

abbrev pub AreFresh : ConversationState → List ConversationEventEnvelope → Type 0
AreFresh state [] = Unit
AreFresh state (e ∷ events) = IsFresh state e.event × AreFresh (apply_event state e.event) events

project_from-IsSynced :
    (state : ConversationState) (events : List ConversationEventEnvelope)
    → AreFresh state events
    → IsSynced state
    → IsSynced (project_from state events)
unfolding project_from
project_from-IsSynced state [] new s = s
project_from-IsSynced state (e ∷ events) new s =
    project_from-IsSynced (apply_event state e.event) events new.1
      (apply_event-IsSynced state e.event new.0 s)

-- If every message that the journal adds has an identifier not used before in it, then after the
-- replay the timeline holds no two messages of one identifier, and each of its messages is the one
-- that the index holds under its identifier, edits included.
pub project-IsSynced :
    (events : List ConversationEventEnvelope)
    → AreFresh default_state events
    → IsSynced (project events)
unfolding project
project-IsSynced events new =
    project_from-IsSynced default_state events new (record { distinct = tt; indexed = tt })

-- ===== src/Conversation/Kernel/Journal.antt =====
-- The journal as the kernel sees it, and its in-memory implementation: the trait of
-- crates/conversation-journal/src/lib.rs and crates/conversation-journal/src/memory.rs.
use connor_agent_core.Common.{
  String, ◌≡◌, Option, none, some, List, [], ◌∷◌, ◌++◌, arith, ◌==◌, eq_iff, if◌then◌else◌,
}
use connor_agent_core.Common.Dict.{Dict, get, insert, get-insert}
use connor_agent_core.Conversation.Event.{ConversationEventEnvelope}
use connor_agent_core.Conversation.Kernel.Checks.{Result, ok}

-- `trait ConversationJournal`. An append that answers an error may leave anything; one that answers
-- `ok` has put the event at the end of its conversation, and has touched no other.
pub record ConversationJournal : Type 1 where
  pub Store : Type 0
  pub append : ConversationEventEnvelope → Store → Result (Unit {0}) × Store
  pub load : String → Store → Result (List ConversationEventEnvelope)
  pub load-append :
      (e : ConversationEventEnvelope) (s s' : Store) (id : String)
      (events : List ConversationEventEnvelope)
      → append e s ≡ (ok tt, s')
      → load id s ≡ ok events
      → load id s' ≡ ok (if e.conversation_id == id then events ++ e ∷ [] else events)

abbrev pub MemoryConversationJournal : Type 0
MemoryConversationJournal = Dict (List ConversationEventEnvelope)

-- `events.get(id).cloned().unwrap_or_default()`
abbrev pub or_empty : Option (List ConversationEventEnvelope) → List ConversationEventEnvelope
or_empty none = []
or_empty (some events) = events

-- `append`
unfoldable pub memory_append :
    ConversationEventEnvelope
    → MemoryConversationJournal
    → Result (Unit {0}) × MemoryConversationJournal
memory_append e m =
    (ok tt, insert e.conversation_id (or_empty (get e.conversation_id m) ++ e ∷ []) m)

-- `load`
unfoldable pub memory_load :
    String → MemoryConversationJournal → Result (List ConversationEventEnvelope)
memory_load id m = ok (or_empty (get id m))

pub memory_load-append :
    (e : ConversationEventEnvelope) (s s' : MemoryConversationJournal) (id : String)
    (events : List ConversationEventEnvelope)
    → memory_append e s ≡ (ok tt, s')
    → memory_load id s ≡ ok events
    → memory_load id s' ≡ ok (if e.conversation_id == id then events ++ e ∷ [] else events)
unfolding memory_append memory_load
memory_load-append e s s' id events h k = ground (
  arith,
  get-insert e.conversation_id id (or_empty (get e.conversation_id s) ++ e ∷ []) s,
  eq_iff e.conversation_id id,
)

-- `impl ConversationJournal for MemoryConversationJournal`
abbrev pub memory_journal : ConversationJournal
memory_journal = record {
  Store = MemoryConversationJournal;
  append = memory_append;
  load = memory_load;
  load-append = memory_load-append;
}

-- `MemoryConversationJournal::new`
abbrev pub new_journal : MemoryConversationJournal
new_journal = []

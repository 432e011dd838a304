-- ===== src/Conversation/Projector/Replay.antt =====
-- Replay of the journal by the projector of crates/conversation-kernel/src/projector.rs, from the
-- beginning and from a snapshot.
use connor_agent_core.Common.{String, ◌≡◌, refl, none, some, List, [], ◌∷◌, ◌++◌, arith}
use connor_agent_core.Domain.Descriptors.{Time}
use connor_agent_core.Conversation.Event.{ConversationEventEnvelope}
use connor_agent_core.Conversation.State.{
  ConversationState, ConversationProjectionSnapshot, default_state,
}
use connor_agent_core.Conversation.Projector.{
  apply_event, project_from, project, Projected, ok, err, foreign_event, first_foreign, snapshot,
  project_tail, project_from_snapshot,
}

pub project_from-append :
    (state : ConversationState) (xs ys : List ConversationEventEnvelope)
    → project_from state (xs ++ ys) ≡ project_from (project_from state xs) ys
unfolding project_from
project_from-append state [] ys = refl
project_from-append state (x ∷ xs) ys = project_from-append (apply_event state x.event) xs ys

-- what `project_from_snapshot` must answer on a tail, by the whole tail at once
abbrev pub checked :
    String → List ConversationEventEnvelope → ConversationState → Projected ConversationState
checked c events state = elim (first_foreign c events) [
  | none ↦ ok state
  | some e ↦ err (foreign_event e.event_id e.conversation_id c)
]

project_tail_lem :
    (c : String) (state : ConversationState) (events : List ConversationEventEnvelope)
    → project_tail c state events ≡ checked c events (project_from state events)
unfolding project_tail first_foreign project_from
project_tail_lem c state [] = refl
project_tail_lem c state (e ∷ events) =
    ground (arith, project_tail_lem c (apply_event state e.event) events)

-- A snapshot of a prefix, followed by the projection of any tail from it, gives the state that a
-- replay of prefix and tail gives from the beginning, if no event of the tail belongs to another
-- conversation; otherwise the first such event is reported.
pub project_from_snapshot-snapshot :
    (c : String) (pre tail : List ConversationEventEnvelope) (t : Time)
    (s : ConversationProjectionSnapshot)
    → snapshot c pre t ≡ ok s
    → project_from_snapshot s tail ≡ checked c tail (project (pre ++ tail))
unfolding snapshot project_from_snapshot project
project_from_snapshot-snapshot c pre tail t s h = ground (
  arith,
  project_tail_lem c (project_from default_state pre) tail,
  project_from-append default_state pre tail,
)

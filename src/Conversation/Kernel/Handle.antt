-- ===== src/Conversation/Kernel/Handle.antt =====
-- The kernel at work on a journal: loading and projecting, deciding, and appending the events one
-- after another, as every method of `ConversationKernel` does in
-- crates/conversation-kernel/src/kernel.rs. `ids` is the sequence of identifiers that `id_gen`
-- gives, and the world counts how many it has given.
use connor_agent_core.Common.{ℕ, ◌+◌, suc, String, List, [], ◌∷◌}
use connor_agent_core.Domain.Descriptors.{Time}
use connor_agent_core.Conversation.Event.{ConversationEventEnvelope, current_schema_version}
use connor_agent_core.Conversation.State.{ConversationState}
use connor_agent_core.Conversation.Projector.{project}
use connor_agent_core.Conversation.Kernel.Checks.{Result, ok, err, Emission}
use connor_agent_core.Conversation.Kernel.Commands.{CreateConversationCommand}
use connor_agent_core.Conversation.Kernel.Messages.{create_conversation}
use connor_agent_core.Conversation.Kernel.Decide.{Command, target, ids_taken, decide}
use connor_agent_core.Conversation.Kernel.Journal.{ConversationJournal}

abbrev pub envelope : String → Time → String → Emission → ConversationEventEnvelope
envelope conversation_id now event_id e = record {
  schema_version = current_schema_version;
  event_id = event_id;
  conversation_id = conversation_id;
  occurred_at = now;
  actor_id = e.actor_id;
  event = e.event;
}

-- `?` after an `await`: an error ends the command in the world that the call left
abbrev pub and_then {ℓ} :
    {W : Type ℓ} → Result (Unit {0}) → W → (W → Result (Unit {0}) × W) → Result (Unit {0}) × W
and_then (ok u) w rest = rest w
and_then (err e) w rest = (err e, w)

module _ (j : ConversationJournal) (ids : ℕ → String) where
  open j use {Store, append, load}

  pub record World : Type 0 where
    pub store : Store
    pub next_id : ℕ

  -- `load_state`
  unfoldable pub load_state : String → World → Result ConversationState
  load_state conversation_id w = elim (load conversation_id w.store) [
    | err e ↦ err e
    | ok events ↦ ok (project events)
  ]

  -- `append_envelope(…).await?` for each event in turn; the first failure ends the command
  unfoldable pub append_all : String → Time → List Emission → World → Result (Unit {0}) × World
  append_all conversation_id now [] w = (ok tt, w)
  append_all conversation_id now (e ∷ es) w =
      let rest = append_all conversation_id now es in
      let (result, store) = append (envelope conversation_id now (ids w.next_id) e) w.store in
      and_then result (record { store = store; next_id = suc w.next_id }) rest

  -- A command on an existing conversation. The id that some methods answer is left out: it is in the
  -- events.
  unfoldable pub handle : Command → Time → World → Result (Unit {0}) × World
  unfolding load_state append_all
  handle cmd now w = elim (load_state (target cmd) w) [
    | err e ↦ (err e, w)
    | ok state ↦ elim (decide cmd (ids w.next_id) (ids (suc w.next_id)) now state) [
      | err e ↦ (err e, w)
      | ok es ↦ append_all (target cmd) now es (record w { next_id = w.next_id + ids_taken cmd })
    ]
  ]

  -- `create_conversation`, which loads nothing; the identifier is drawn after the check
  unfoldable pub handle_create :
      CreateConversationCommand → Time → World → Result (Unit {0}) × World
  unfolding append_all create_conversation
  handle_create cmd now w = elim (create_conversation cmd (ids w.next_id) now) [
    | err e ↦ (err e, w)
    | ok es ↦ append_all (ids w.next_id) now es (record w { next_id = suc w.next_id })
  ]

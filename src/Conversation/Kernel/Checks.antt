-- ===== src/Conversation/Kernel/Checks.antt =====
-- The kernel's errors and the checks that its commands share: the private `validate_…` methods of
-- crates/conversation-kernel/src/kernel.rs. An error stands for its `bail!` or `with_context`
-- message, with the identifiers that the message prints.
use connor_agent_core.Common.{
  String, Bool, true, false, not, Option, none, some, List, [], ◌∷◌, if◌then◌else◌, any,
}
use connor_agent_core.Common.Dict.{get, contains, values}
use connor_agent_core.Conversation.Message.{ConversationStatus, Participant, Visibility, is_agent}
use connor_agent_core.Conversation.Lifecycle.{AgentRunStatus, ConversationActionState, is_terminal}
use connor_agent_core.Conversation.Event.{ConversationEvent}
use connor_agent_core.Conversation.State.{ConversationState}

pub data KernelError : Type 0 where
  no_participants : KernelError
  conversation_not_found conversation_not_active : String → KernelError
  sender_not_participant sender_not_foreground : String → KernelError
  reply_to_not_found reply_to_other_conversation thread_not_found : String → KernelError
  visibility_not_participant : String → KernelError
  no_agent_for_visibility : KernelError
  message_not_found editor_not_participant target_not_participant : String → KernelError
  no_agent_participant : KernelError
  actor_not_participant : String → KernelError
  entity_not_linked artifact_not_linked surface_not_attached asset_not_observed :
      String → KernelError
  agent_run_not_found agent_run_terminal output_message_not_found : String → KernelError
  action_not_found action_terminal action_not_awaiting_approval : String → KernelError
  action_requires_approval action_cannot_start action_not_started : String → KernelError
  journal_failed : String → KernelError

pub data Result {ℓ} (A : Type ℓ) : Type ℓ where
  ok : A → Result A
  err : KernelError → Result A

-- `?`: an error ends the command.
infixl 5 ◌>>=◌ ◌>>◌
abbrev pub ◌>>=◌ {ℓ₁ ℓ₂} : {X : Type ℓ₁} {Y : Type ℓ₂} → Result X → (X → Result Y) → Result Y
err refusal >>= next = err refusal
ok x >>= next = next x

-- `?` where the value is not used
abbrev pub ◌>>◌ {ℓ} : {Y : Type ℓ} → Result (Unit {0}) → Result Y → Result Y
check >> rest = check >>= λ _. rest

-- `if !test { bail!(…) }`
abbrev pub guard : Bool → KernelError → Result (Unit {0})
guard true e = ok tt
guard false e = err e

-- `.with_context(…)?` on an option
abbrev pub require {ℓ} : {A : Type ℓ} → Option A → KernelError → Result A
require none e = err e
require (some a) e = ok a

-- An event that a command produces, and the actor of its envelope.
pub record Emission : Type 0 where
  pub actor_id : Option String
  pub event : ConversationEvent

abbrev pub emit : Option String → ConversationEvent → Result (List Emission)
emit actor_id event = ok (record { actor_id = actor_id; event = event } ∷ [])

abbrev pub is_active : ConversationStatus → Bool
is_active ConversationStatus.active = true
is_active ConversationStatus.archived = false

unfoldable pub validate_conversation_exists : ConversationState → String → Result (Unit {0})
validate_conversation_exists state conversation_id = elim state.session [
  | none ↦ err (conversation_not_found conversation_id)
  | some s ↦ ok tt
]

unfoldable pub validate_optional_actor : ConversationState → Option String → Result (Unit {0})
validate_optional_actor state none = ok tt
validate_optional_actor state (some actor_id) =
    guard (contains actor_id state.participants) (actor_not_participant actor_id)

-- the loop over `participant_ids`
unfoldable pub validate_members : ConversationState → List String → Result (Unit {0})
validate_members state [] = ok tt
validate_members state (id ∷ ids) =
    if contains id state.participants
    then validate_members state ids
    else err (visibility_not_participant id)

unfoldable pub validate_visibility : ConversationState → Visibility → Result (Unit {0})
unfolding validate_members
validate_visibility state Visibility.conversation = ok tt
validate_visibility state (Visibility.private_to_user user_id) =
    guard (contains user_id state.participants) (visibility_not_participant user_id)
validate_visibility state Visibility.agent_only =
    guard (any (λ (p : Participant). is_agent p.kind) (values state.participants))
      no_agent_for_visibility
validate_visibility state (Visibility.participants ids) = validate_members state ids

unfoldable pub validate_action_exists :
    ConversationState → String → String → Result ConversationActionState
unfolding validate_conversation_exists
validate_action_exists state conversation_id action_id = do
  validate_conversation_exists state conversation_id
  require (get action_id state.actions) (action_not_found action_id)

unfoldable pub validate_action_not_terminal :
    ConversationState → String → String → Result ConversationActionState
unfolding validate_action_exists
validate_action_not_terminal state conversation_id action_id = do
  action ← validate_action_exists state conversation_id action_id
  guard (not (is_terminal action.status)) (action_terminal action_id)
  ok action

abbrev pub run_is_open : AgentRunStatus → Bool
run_is_open AgentRunStatus.requested = true
run_is_open AgentRunStatus.started = true
run_is_open _ = false

unfoldable pub validate_agent_run_transition :
    ConversationState → String → String → Result (Unit {0})
unfolding validate_conversation_exists
validate_agent_run_transition state conversation_id run_id = do
  validate_conversation_exists state conversation_id
  run ← require (get run_id state.agent_runs) (agent_run_not_found run_id)
  guard (run_is_open run.status) (agent_run_terminal run_id)

-- ===== src/Conversation/Tests.antt =====
-- Concrete conversations on which the theorems about crates/conversation-kernel apply.
use connor_agent_core.Common.{
  ℕ, String, ◌≡◌, refl, none, some, List, [], ◌∷◌, ◌++◌, ◌-◌, ◌^◌, arith,
}
use connor_agent_core.Common.Dict.{get, insert, contains, update, place}
use connor_agent_core.Domain.Action.{ActionRequest}
use connor_agent_core.Conversation.Message.{
  ConversationSession, ConversationKind, ConversationStatus, Participant, ParticipantKind, Message,
  MessageContent, Visibility,
}
use connor_agent_core.Conversation.Lifecycle.{
  ConversationActionState, ConversationActionStatus, action_requested, AgentRunState,
  AgentRunStatus, run_requested,
}
use connor_agent_core.Conversation.Event.{ConversationEvent, ConversationEventEnvelope}
use connor_agent_core.Conversation.State.{ConversationState, default_state, new_snapshot}
use connor_agent_core.Conversation.Projector.{
  apply_event, project, project_from, snapshot, project_from_snapshot, first_foreign,
}
use connor_agent_core.Conversation.Changes.{
  approval_required_action, denied_action, started_action, set_run,
}
use connor_agent_core.Conversation.Projector.Replay.{project_from_snapshot-snapshot, checked}
use connor_agent_core.Conversation.Projector.Timeline.{project-IsSynced, IsSynced, Without}
use connor_agent_core.Conversation.Projector.Tombstone.{tombstone_final}
use connor_agent_core.Conversation.Projector.Lifecycles.{
  project-HasValidLifecycles, HasValidLifecycles,
}
use connor_agent_core.Conversation.Kernel.Commands.{
  StartActionCommand, RequestActionCommand, StartAgentRunCommand,
}
use connor_agent_core.Conversation.Kernel.Checks.{ok, validate_optional_actor, Emission}
use connor_agent_core.Conversation.Kernel.Decide.{
  decide, after, start_action_cmd, request_action_cmd, start_agent_run_cmd,
}
use connor_agent_core.Conversation.Kernel.Journal.{
  memory_journal, memory_load, memory_append, or_empty,
}
use connor_agent_core.Conversation.Kernel.Handle.{
  World, handle, load_state, append_all, envelope as stamped,
}
use connor_agent_core.Conversation.Kernel.Refinement.{
  handle-IsHandled, memory_handle_lem, HandleOutcome, IsHandled,
}
use connor_agent_core.Conversation.Slice.{
  build_for_user, build_around_trigger, slice, recent_window, around_trigger, checks_on, checks_off,
  ok, panicked,
}
use connor_agent_core.Conversation.Slice.Window.{build_for_user-IsWindowFor, IsWindowFor}
use connor_agent_core.Conversation.Slice.Trigger.{build_around_trigger-IsAround, IsAround}
use connor_agent_core.Conversation.Kernel.ActionLifecycle.{decide-⟶, ◌⟶◌}
use connor_agent_core.Conversation.Kernel.RunLifecycle.{decide_run-⟶, ◌⟶◌ as ◌⇒◌}
use connor_agent_core.Conversation.Kernel.History.{
  Call, run, IsHeld, no_start_without_approval, terminal_action_survives, request_action_reopens,
}

abbrev session : ConversationSession
session = record {
  id = "c1";
  kind = ConversationKind.direct;
  title = none;
  participants = "alice" ∷ "bot" ∷ [];
  created_at = 10;
  updated_at = 10;
  status = ConversationStatus.active;
}

abbrev alice : Participant
alice = record { id = "alice"; kind = ParticipantKind.human; display_name = "Alice" }

abbrev hello : Message
hello = record {
  id = "m1";
  conversation_id = "c1";
  sender_id = "alice";
  content = MessageContent.text "hello";
  reply_to = none;
  thread_id = some "t1";
  visibility = Visibility.conversation;
  created_at = 11;
  edited_at = none;
}

abbrev secret : Message
secret = record hello { id = "m2"; visibility = Visibility.private_to_user "bob"; thread_id = none }

abbrev envelope : String → ConversationEvent → ConversationEventEnvelope
envelope id event = record {
  schema_version = 1;
  event_id = id;
  conversation_id = "c1";
  occurred_at = 12;
  actor_id = none;
  event = event;
}

abbrev request : ActionRequest
request = record {
  action_id = "act";
  action_kind = "send_mail";
  input = "{}";
  requested_by = "bot";
  conversation_id = some "c1";
  message_id = some "m1";
  requested_at = 13;
}

abbrev opening : List ConversationEventEnvelope
opening =
    envelope "e1" (ConversationEvent.conversation_created session)
    ∷ envelope "e2" (ConversationEvent.participant_added alice)
    ∷ envelope "e3" (ConversationEvent.message_appended hello)
    ∷ []

abbrev sequel : List ConversationEventEnvelope
sequel =
    envelope "e4" (ConversationEvent.message_edited "m1" (MessageContent.text "hi") 14)
    ∷ envelope "e5" (ConversationEvent.agent_run_requested "run" "m1" "slice")
    ∷ envelope "e6" (ConversationEvent.agent_run_completed "run" "m1")
    ∷ []

abbrev waiting : ConversationActionState
waiting = approval_required_action "needs consent" (action_requested request)

abbrev refused : ConversationActionState
refused = denied_action "no" (action_requested request)

abbrev with_action : ConversationActionState → ConversationState
with_action a = record default_state {
  session = some session;
  participants = ("alice", alice) ∷ [];
  actions = ("act", a) ∷ [];
}

abbrev start : StartActionCommand
start = record { conversation_id = "c1"; action_id = "act"; started_by = none }

abbrev start_call : Call
start_call = record { command = start_action_cmd start; first = "x1"; second = "x2"; now = 20 }

no_start_without_approval_example : IsHeld waiting.status
unfolding run decide apply_event get
no_start_without_approval_example =
    no_start_without_approval (start_call ∷ []) (with_action waiting) "act" waiting waiting
      ((tt, tt), tt) refl tt refl

terminal_action_survives_example :
    get "act" (run (with_action refused) (start_call ∷ [])).actions ≡ some refused
unfolding get
terminal_action_survives_example =
    terminal_action_survives (start_call ∷ []) (with_action refused) "act" refused (tt, tt) refl
      refl

abbrev again : RequestActionCommand
again = record { conversation_id = "c1"; action_request = request; requested_by = none }

request_action_reopens_example :
    get "act"
      (after
        (after
          (with_action refused)
          (decide (request_action_cmd again) "x1" "x2" 20 (with_action refused)))
        (decide (start_action_cmd start) "x1" "x2" 20 (
          after
            (with_action refused)
            (decide (request_action_cmd again) "x1" "x2" 20 (with_action refused))))).actions
    ≡ some (started_action (action_requested request))
request_action_reopens_example =
    request_action_reopens (with_action refused) session again start "x1" "x2" 20 refl refl refl
      refl

decide-⟶_example : ConversationActionStatus.requested ⟶ ConversationActionStatus.started
unfolding decide apply_event get update validate_optional_actor
decide-⟶_example =
    decide-⟶ (start_action_cmd start) "x1" "x2" 20 (with_action (action_requested request)) "act"
      (action_requested request) (started_action (action_requested request)) tt refl refl

abbrev with_run : AgentRunState → ConversationState
with_run r = record default_state {
  session = some session;
  participants = ("alice", alice) ∷ [];
  agent_runs = ("run", r) ∷ [];
}

abbrev start_run : StartAgentRunCommand
start_run = record { conversation_id = "c1"; run_id = "run"; started_by = "alice" }

abbrev asked : AgentRunState
asked = run_requested "run" "m1" "slice"

decide_run-⟶_example : AgentRunStatus.requested ⇒ AgentRunStatus.started
unfolding decide apply_event get update contains
decide_run-⟶_example =
    decide_run-⟶ (start_agent_run_cmd start_run) "x1" "x2" 20 (with_run asked) "run" asked
      (set_run AgentRunStatus.started none none none none asked) tt refl refl

project_from_snapshot-snapshot_example :
    project_from_snapshot (new_snapshot "c1" 30 (some "e3") 3 (project opening)) sequel
    ≡ checked "c1" sequel (project (opening ++ sequel))
unfolding snapshot first_foreign
project_from_snapshot-snapshot_example =
    project_from_snapshot-snapshot "c1" opening sequel 30
      (new_snapshot "c1" 30 (some "e3") 3 (project opening)) refl

project-HasValidLifecycles_example : HasValidLifecycles (project (opening ++ sequel))
project-HasValidLifecycles_example = project-HasValidLifecycles (opening ++ sequel)

project-IsSynced_example : IsSynced (project (opening ++ sequel))
unfolding contains apply_event get
project-IsSynced_example =
    project-IsSynced (opening ++ sequel) (tt, (tt, (refl, (tt, (tt, (tt, tt))))))

abbrev removal : ConversationEventEnvelope
removal = envelope "e7" (ConversationEvent.message_tombstoned "m1" "withdrawn")

tombstone_final_example : Without "m1" (project (opening ++ removal ∷ sequel)).messages
tombstone_final_example =
    tombstone_final opening sequel removal "m1" "withdrawn" refl (tt, (tt, (tt, tt)))

abbrev ids : ℕ → String
ids n = "fresh"

abbrev journal_events : List ConversationEventEnvelope
journal_events = opening ++ envelope "e8" (ConversationEvent.action_requested request) ∷ []

abbrev world : World memory_journal ids
world = record { store = ("c1", journal_events) ∷ []; next_id = 0 }

abbrev started : Emission
started = record { actor_id = none; event = ConversationEvent.action_started "act" }

abbrev world_after : World memory_journal ids
world_after = record {
  store = ("c1", journal_events ++ stamped "c1" 20 "fresh" started ∷ []) ∷ [];
  next_id = 1;
}

handle-IsHandled_example :
    (es : List Emission) × IsHandled memory_journal ids
      (start_action_cmd start)
      20
      world
      world_after
      journal_events
      es
unfolding handle load_state append_all decide project project_from apply_event get update insert
    contains place memory_load memory_append validate_optional_actor
handle-IsHandled_example =
    handle-IsHandled memory_journal ids (start_action_cmd start) 20 world world_after journal_events
      refl refl

memory_handle_lem_example :
    HandleOutcome memory_journal ids
      (start_action_cmd start)
      20
      world
      (or_empty (get "c1" world.store))
memory_handle_lem_example = memory_handle_lem ids (start_action_cmd start) 20 world

abbrev talk : ConversationState
talk = record default_state {
  session = some session;
  messages = hello ∷ secret ∷ [];
  messages_by_id = ("m1", hello) ∷ ("m2", secret) ∷ [];
  threads = ("t1", "m1" ∷ []) ∷ [];
}

build_for_user-IsWindowFor_example :
    (shown : List Message) × (build_for_user 5 "s1" talk "m1" "alice"
      ≡ ok (slice "s1" session "m1" shown recent_window))
    × IsWindowFor "alice" 5 talk.messages shown
build_for_user-IsWindowFor_example =
    build_for_user-IsWindowFor 5 "s1" talk session "m1" "alice" refl

-- A message for agents only is handed to a user.
for_agents_test :
    build_for_user 5 "s1"
      (record talk { messages = record hello { visibility = Visibility.agent_only } ∷ [] })
      "m1"
      "alice"
    ≡ ok (
        slice "s1" session "m1"
          (record hello { visibility = Visibility.agent_only } ∷ [])
          recent_window)
unfolding build_for_user
for_agents_test = refl

build_around_trigger-IsAround_example :
    (shown : List Message) × (build_around_trigger checks_off "s2" talk "m2" 1 1
      ≡ ok (slice "s2" session "m2" shown around_trigger))
    × IsAround "m2" 1 1 talk.messages shown
build_around_trigger-IsAround_example =
    build_around_trigger-IsAround checks_off "s2" talk session "m2" 1 1 refl refl (omega arith)

-- The greatest `usize` as `context_after` leaves the trigger out.
wrapped_test :
    build_around_trigger checks_off "s2" talk "m1" 1 (2 ^ 64 - 1)
    ≡ ok (slice "s2" session "m1" [] around_trigger)
unfolding build_around_trigger
wrapped_test = refl

overflow_test : build_around_trigger checks_on "s2" talk "m1" 1 (2 ^ 64 - 1) ≡ panicked
unfolding build_around_trigger
overflow_test = refl

-- A start behind the end.
reversed_test : build_around_trigger checks_off "s2" talk "m2" 0 (2 ^ 64 - 2) ≡ panicked
unfolding build_around_trigger
reversed_test = refl

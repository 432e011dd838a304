-- ===== src/Conversation/Projector/Lifecycles.antt =====
-- What the projector keeps true of every agent run and every action, whatever the journal holds:
-- crates/conversation-kernel/src/projector.rs.
use connor_agent_core.Common.{
  String, ◌≡◌, true, false, none, some, List, [], ◌∷◌, arith, eq_iff, ◌==◌, if_rule,
}
use connor_agent_core.Common.Dict.{
  Dict, get, contains, insert, get-insert, is_some, Entries, insert-Entries, update-Entries,
  update-Entries_both, get_nil,
}
use connor_agent_core.Conversation.Lifecycle.{
  AgentRunState, AgentRunStatus, ConversationActionState, ConversationActionStatus,
}
use connor_agent_core.Conversation.Event.{ConversationEvent, ConversationEventEnvelope}
use connor_agent_core.Conversation.State.{ConversationState, default_state}
use connor_agent_core.Conversation.Projector.{apply_event, project_from, project}
use connor_agent_core.Conversation.Changes.{set_run}

-- which optional fields a run of each status has, and its entry in `completed_agent_runs`
abbrev RunFields : Dict String → AgentRunState → AgentRunStatus → Type 0
RunFields index run AgentRunStatus.completed =
    (is_some run.output_message_id ≡ true)
    × (get run.run_id index ≡ run.output_message_id)
    × (run.error_code ≡ none)
    × (run.error_message ≡ none)
    × (run.cancel_reason ≡ none)
RunFields index run AgentRunStatus.failed =
    (run.output_message_id ≡ none)
    × (is_some run.error_code ≡ true)
    × (is_some run.error_message ≡ true)
    × (run.cancel_reason ≡ none)
RunFields index run AgentRunStatus.cancelled =
    (run.output_message_id ≡ none)
    × (run.error_code ≡ none)
    × (run.error_message ≡ none)
    × (is_some run.cancel_reason ≡ true)
RunFields index run _ =
    (run.output_message_id ≡ none)
    × (run.error_code ≡ none)
    × (run.error_message ≡ none)
    × (run.cancel_reason ≡ none)

abbrev RunIsValid : Dict String → String → AgentRunState → Type 0
RunIsValid index k run = (run.run_id ≡ k) × RunFields index run run.status

-- which optional fields an action of each status has
abbrev ActionFields : ConversationActionState → ConversationActionStatus → Type 0
ActionFields a ConversationActionStatus.requested =
    (a.result ≡ none) × (a.error_message ≡ none) × (a.denial_reason ≡ none)
ActionFields a ConversationActionStatus.approval_required =
    (is_some a.approval_required_reason ≡ true) × (a.result ≡ none) × (a.error_message ≡ none)
ActionFields a ConversationActionStatus.approved =
    (is_some a.approved_by ≡ true) × (a.denial_reason ≡ none) × (a.error_message ≡ none)
ActionFields a ConversationActionStatus.denied =
    (is_some a.denial_reason ≡ true) × (a.result ≡ none) × (a.error_message ≡ none)
ActionFields a ConversationActionStatus.started = (a.result ≡ none) × (a.error_message ≡ none)
ActionFields a ConversationActionStatus.completed =
    (is_some a.result ≡ true) × (a.error_message ≡ none)
ActionFields a ConversationActionStatus.failed =
    (a.result ≡ none) × (is_some a.error_message ≡ true)

abbrev ActionIsValid : String → ConversationActionState → Type 0
ActionIsValid k a = (a.action_id ≡ k) × ActionFields a a.status

completed_run :
    (id out : String) (index : Dict String) (run : AgentRunState)
    → run.run_id ≡ id
    → RunIsValid
        (insert id out index)
        id
        (set_run AgentRunStatus.completed (some out) none none none run)
completed_run id out index run h =
    ground (arith, get-insert id run.run_id out index, eq_iff id run.run_id)

other_run :
    (id out : String) (index : Dict String) (j : String) (run : AgentRunState)
    → (id == j) ≡ false
    → RunIsValid index j run
    → RunIsValid (insert id out index) j run
other_run id out index j run ne h =
    ground (arith, get-insert id run.run_id out index, eq_iff id run.run_id)

pub record HasValidLifecycles (state : ConversationState) : Type 0 where
  pub runs : Entries (RunIsValid state.completed_agent_runs) state.agent_runs
  pub actions : Entries ActionIsValid state.actions

apply_event-HasValidLifecycles :
    (state : ConversationState) (event : ConversationEvent)
    → HasValidLifecycles state
    → HasValidLifecycles (apply_event state event)
unfolding apply_event
apply_event-HasValidLifecycles state (ConversationEvent.agent_run_requested id m slice) v = record {
  runs = insert-Entries id _ state.agent_runs (ground arith) v.runs;
  actions = v.actions;
}
apply_event-HasValidLifecycles state (ConversationEvent.agent_run_started id) v = record {
  runs = update-Entries id _ state.agent_runs (λ run h. ground arith) v.runs;
  actions = v.actions;
}
apply_event-HasValidLifecycles state (ConversationEvent.agent_run_completed id out) v = record {
  runs =
      update-Entries_both {P = RunIsValid state.completed_agent_runs} id _ state.agent_runs
        (λ run h. completed_run id out state.completed_agent_runs run h.0)
        (λ j run ne h. other_run id out state.completed_agent_runs j run ne h) v.runs;
  actions = v.actions;
}
apply_event-HasValidLifecycles state (ConversationEvent.agent_run_failed id code message) v =
    record {
      runs = update-Entries id _ state.agent_runs (λ run h. ground arith) v.runs;
      actions = v.actions;
    }
apply_event-HasValidLifecycles state (ConversationEvent.agent_run_cancelled id reason) v = record {
  runs = update-Entries id _ state.agent_runs (λ run h. ground arith) v.runs;
  actions = v.actions;
}
apply_event-HasValidLifecycles state (ConversationEvent.agent_run_timed_out id) v = record {
  runs = update-Entries id _ state.agent_runs (λ run h. ground arith) v.runs;
  actions = v.actions;
}
apply_event-HasValidLifecycles state (ConversationEvent.action_requested request) v = record {
  runs = v.runs;
  actions = insert-Entries request.action_id _ state.actions (ground arith) v.actions;
}
apply_event-HasValidLifecycles state (ConversationEvent.action_approval_required id reason) v =
    record {
      runs = v.runs;
      actions = update-Entries id _ state.actions (λ a h. ground arith) v.actions;
    }
apply_event-HasValidLifecycles state (ConversationEvent.action_approved id approved_by) v = record {
  runs = v.runs;
  actions = update-Entries id _ state.actions (λ a h. ground arith) v.actions;
}
apply_event-HasValidLifecycles state (ConversationEvent.action_denied id reason) v = record {
  runs = v.runs;
  actions = update-Entries id _ state.actions (λ a h. ground arith) v.actions;
}
apply_event-HasValidLifecycles state (ConversationEvent.action_started id) v = record {
  runs = v.runs;
  actions = update-Entries id _ state.actions (λ a h. ground arith) v.actions;
}
apply_event-HasValidLifecycles state (ConversationEvent.action_completed id result) v = record {
  runs = v.runs;
  actions = update-Entries id _ state.actions (λ a h. ground arith) v.actions;
}
apply_event-HasValidLifecycles state (ConversationEvent.action_failed id message) v = record {
  runs = v.runs;
  actions = update-Entries id _ state.actions (λ a h. ground arith) v.actions;
}
apply_event-HasValidLifecycles state (ConversationEvent.message_edited id content t) v =
    ground (arith, v.runs, v.actions)
apply_event-HasValidLifecycles state (ConversationEvent.asset_processed id status) v =
    if_rule HasValidLifecycles (contains id state.observed_assets)
      (record { runs = v.runs; actions = v.actions }) v
apply_event-HasValidLifecycles state _ v = record { runs = v.runs; actions = v.actions }

project_from-HasValidLifecycles :
    (state : ConversationState) (events : List ConversationEventEnvelope)
    → HasValidLifecycles state
    → HasValidLifecycles (project_from state events)
unfolding project_from
project_from-HasValidLifecycles state [] v = v
project_from-HasValidLifecycles state (e ∷ events) v =
    project_from-HasValidLifecycles (apply_event state e.event) events
      (apply_event-HasValidLifecycles state e.event v)

-- After a replay of any journal, each agent run stands under its own identifier; it has an output
-- message exactly if it is completed, and `completed_agent_runs` then names that message; it has an
-- error exactly if it has failed and a reason exactly if it was cancelled. Each action stands under
-- its own identifier and has the fields of its status: a completed one has a result and no error, a
-- failed one an error and no result, a denied one a reason and neither, an approved one its
-- approver, and one that is requested, awaits approval or is started has neither result nor error.
pub project-HasValidLifecycles :
    (events : List ConversationEventEnvelope) → HasValidLifecycles (project events)
unfolding project
project-HasValidLifecycles events =
    project_from-HasValidLifecycles default_state events
      (record { runs = λ k run e. cc (get_nil k); actions = λ k a e. cc (get_nil k) })

-- ===== src/Runtime/ActionTests.antt =====
-- A concrete runtime on which the theorems about crates/action-runtime apply: a search is allowed
-- and counted by its executor, any other kind is not registered.
use connor_agent_core.Common.{ℕ, suc, ◌≡◌, refl, none, some, true, [], ◌∷◌, String}
use connor_agent_core.Common.Dict.{get, insert, contains, update, place}
use connor_agent_core.Domain.Action.{ActionResult, ActionStatus, ActionResultPayload}
use connor_agent_core.Conversation.Message.{
  ConversationSession, ConversationKind, ConversationStatus,
}
use connor_agent_core.Conversation.Event.{ConversationEvent, ConversationEventEnvelope}
use connor_agent_core.Conversation.Projector.{project, project_from, apply_event}
use connor_agent_core.Conversation.Kernel.Checks.{validate_optional_actor}
use connor_agent_core.Conversation.Kernel.Decide.{decide}
use connor_agent_core.Conversation.Kernel.Journal.{memory_journal, memory_load, memory_append}
use connor_agent_core.Conversation.Kernel.Handle.{handle, load_state, append_all}
use connor_agent_core.Policy.Capability.{ActionSchema, read_only}
use connor_agent_core.Policy.Capability.Evaluate.{default_safe, evaluate, evaluate_with_explanation}
use connor_agent_core.Audit.{memory_audit_sink}
use connor_agent_core.Runtime.ActionStore.{completed}
use connor_agent_core.Runtime.ActionRuntime.{
  ActionRuntime, ProcessActionRequest, ExecuteApprovedActionRequest, executed, build_audit_event,
}
use connor_agent_core.Runtime.ActionRuntime.Process.{Env, process, execute_approved}
use connor_agent_core.Runtime.ActionRuntime.Guarded.{
  process_executes_only_allowed, execute_approved_only, is_error,
}
use connor_agent_core.Runtime.ActionRuntime.Audited.{process_audits, IsAudited}

abbrev schema : ActionSchema
schema = record {
  kind = "search";
  display_name = "Search";
  description = "looks things up";
  side_effect = read_only;
  input_schema = none;
  output_schema = none;
}

abbrev result : ActionResult
result = record {
  status = ActionStatus.completed;
  payload = ActionResultPayload.empty;
  summary = "done";
  completed_at = 7;
}

abbrev runtime : ActionRuntime
runtime = record {
  journal = memory_journal;
  ids = λ n. "fresh";
  registry = ("search", schema) ∷ [];
  policy = default_safe;
  Executor = ℕ;
  execute = λ request n. (executed result, suc n);
  audit_log = memory_audit_sink;
  artifact_resolver = none;
  json_text = λ json. json;
}

abbrev session : ConversationSession
session = record {
  id = "c1";
  kind = ConversationKind.direct;
  title = none;
  participants = [];
  created_at = 1;
  updated_at = 1;
  status = ConversationStatus.active;
}

abbrev opening : ConversationEventEnvelope
opening = record {
  schema_version = 1;
  event_id = "e1";
  conversation_id = "c1";
  occurred_at = 1;
  actor_id = none;
  event = ConversationEvent.conversation_created session;
}

abbrev clock : ℕ → ℕ
clock n = n

abbrev idle : Env runtime clock
idle = record {
  world = record { store = ("c1", opening ∷ []) ∷ []; next_id = 0 };
  executor = 0;
  log = [];
}

abbrev asking : String → ProcessActionRequest
asking kind = record {
  conversation_id = "c1";
  action_request = record {
    action_id = "act";
    action_kind = kind;
    input = "{}";
    requested_by = "bot";
    conversation_id = some "c1";
    message_id = none;
    requested_at = 3;
  };
  requested_by = none;
  runtime_actor = none;
}

process_executes_only_allowed_example : (process runtime clock (asking "erase") idle).1.executor ≡ 0
unfolding get
process_executes_only_allowed_example =
    process_executes_only_allowed runtime clock (asking "erase") idle refl

process_audits_example :
    IsAudited runtime
      (asking "search").action_request
      (completed "act" result)
      []
      (process runtime clock (asking "search") idle).1.log
unfolding process evaluate evaluate_with_explanation get handle load_state append_all decide project
    project_from apply_event update insert contains place memory_load memory_append
    validate_optional_actor build_audit_event
process_audits_example =
    process_audits runtime clock (asking "search") idle
      (process runtime clock (asking "search") idle).1 (completed "act" result) refl

abbrev early : ExecuteApprovedActionRequest
early = record { conversation_id = "c1"; action_id = "act"; runtime_actor = none }

execute_approved_only_example :
    ((execute_approved runtime clock early idle).1 ≡ idle)
    × (is_error (execute_approved runtime clock early idle).0 ≡ true)
unfolding load_state memory_load project project_from apply_event get
execute_approved_only_example =
    execute_approved_only runtime clock early idle (project (opening ∷ [])) refl refl

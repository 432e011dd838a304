-- ===== src/Runtime/ActionRuntime.antt =====
-- The runtime that takes an action through the conversation, the policy, the executor and the audit
-- log: crates/action-runtime/src/lib.rs, with the executor's errors of
-- crates/action-core/src/lib.rs. The executor, which acts on a state of its own, the artifact
-- resolver and the audit log are parameters, as they are traits there. `clock` gives the times that
-- the calls of one request read, in their order. `json_text` writes a JSON value.
pub mod Process
pub mod Guarded
pub mod Audited
use connor_agent_core.Common.{
  ℕ, String, Bool, true, false, Option, none, some, List, [], ◌∷◌, if◌then◌else◌, leb, nat_eq,
}
use Prim.Native.String.{len, slice}
use connor_agent_core.Common.Dict.{get}
use connor_agent_core.Common.Format.{format}
use connor_agent_core.Domain.Descriptors.{Time, Json, ArtifactDescriptor}
use connor_agent_core.Domain.Action.{ActionRequest, ActionResult, ActionResultPayload}
use connor_agent_core.Conversation.Lifecycle.{ConversationActionState, ConversationActionStatus}
use connor_agent_core.Conversation.State.{ConversationState}
use connor_agent_core.Conversation.Kernel.Checks.{
  KernelError, Result, ok as kernel_ok, err as kernel_err,
}
use connor_agent_core.Conversation.Kernel.Commands.{
  RequestActionCommand, RequireActionApprovalCommand, DenyActionCommand, StartActionCommand,
  CompleteActionCommand, FailActionCommand, LinkArtifactCommand,
}
use connor_agent_core.Conversation.Kernel.Decide.{
  Command, request_action_cmd, require_action_approval_cmd, deny_action_cmd, start_action_cmd,
  complete_action_cmd, fail_action_cmd, link_artifact_cmd,
}
use connor_agent_core.Conversation.Kernel.Journal.{ConversationJournal}
use connor_agent_core.Conversation.Kernel.Handle.{World, handle, load_state}
use connor_agent_core.Policy.Capability.{
  ActionSchema, ActionRegistry, CapabilityPolicy, PolicyDecision, SideEffectKind, allow, ask, deny,
  debug_effect,
}
use connor_agent_core.Policy.Capability.Evaluate.{evaluate}
use connor_agent_core.Audit.{AuditEvent, AuditLog, AuditResult, ok as audit_ok, err as audit_err}
use connor_agent_core.Runtime.ActionStore.{
  ActionRuntimeOutcome, completed, approval_required, denied, failed,
}

pub data ActionExecutorError : Type 0 where
  not_supported execution_failed invalid_input : String → ActionExecutorError

-- `action_executor_error_message`: `Display` of `ActionExecutorError`
abbrev pub action_executor_error_message : ActionExecutorError → String
action_executor_error_message (not_supported kind) = format ("action not supported: " ∷ kind ∷ [])
action_executor_error_message (execution_failed reason) =
    format ("execution failed: " ∷ reason ∷ [])
action_executor_error_message (invalid_input reason) = format ("invalid input: " ∷ reason ∷ [])

pub data Execution : Type 0 where
  executed : ActionResult → Execution
  not_executed : ActionExecutorError → Execution

pub data RuntimeError : Type 0 where
  kernel_failed : KernelError → RuntimeError
  audit_failed resolver_failed : String → RuntimeError
  action_not_found action_not_approved missing_request not_registered : String → RuntimeError
  -- a panic, which ends the call as an error does
  panicked : RuntimeError

pub data RuntimeResult (A : Type 0) : Type 0 where
  ok : A → RuntimeResult A
  err : RuntimeError → RuntimeResult A

-- what the resolver answers
pub data Resolution : Type 0 where
  resolved : Option ArtifactDescriptor → Resolution
  unresolved : String → Resolution

pub record ProcessActionRequest : Type 0 where
  pub conversation_id : String
  pub action_request : ActionRequest
  pub requested_by : Option String
  pub runtime_actor : Option String

pub record ExecuteApprovedActionRequest : Type 0 where
  pub conversation_id : String
  pub action_id : String
  pub runtime_actor : Option String

pub record AuditRecordInput : Type 0 where
  pub request : ActionRequest
  pub side_effect : Option SideEffectKind
  pub policy_decision : String
  pub result_status : String
  pub result_summary : Option String
  pub approved_by : Option String

-- `summarize_input`: a text whose 200th byte lies inside a character makes the slice panic
abbrev pub summarize_text : String → Option String
summarize_text text =
    if leb (len text) 200
    then some text
    else if nat_eq (len (slice text 0 200)) 200
    then some (format (slice text 0 200 ∷ "…" ∷ []))
    else none

abbrev pub effect_text : Option SideEffectKind → String
effect_text none = "unknown"
effect_text (some effect) = debug_effect effect

abbrev pub event_with : AuditRecordInput → Time → Option String → Option AuditEvent
event_with i now none = none
event_with i now (some summary) = some (record {
  audit_id = format ("audit-" ∷ i.request.action_id ∷ "-" ∷ i.result_status ∷ []);
  action_id = i.request.action_id;
  action_kind = i.request.action_kind;
  requested_by = i.request.requested_by;
  approved_by = i.approved_by;
  input_summary = summary;
  side_effect = effect_text i.side_effect;
  policy_decision = i.policy_decision;
  result_status = i.result_status;
  result_summary = i.result_summary;
  conversation_id = i.request.conversation_id;
  message_id = i.request.message_id;
  timestamp = now;
})

-- `build_audit_event`
unfoldable pub build_audit_event : (Json → String) → AuditRecordInput → Time → Option AuditEvent
build_audit_event json_text i now = event_with i now (summarize_text (json_text i.request.input))

pub record ActionRuntime : Type 1 where
  pub journal : ConversationJournal
  pub ids : ℕ → String
  pub registry : ActionRegistry
  pub policy : CapabilityPolicy
  pub Executor : Type 0
  pub execute : ActionRequest → Executor → Execution × Executor
  pub audit_log : AuditLog
  pub artifact_resolver : Option (String → Resolution)
  pub json_text : Json → String

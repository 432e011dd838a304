-- ===== src/Runtime/ActionRuntime/Process.antt =====
-- `process` and `execute_approved` of crates/action-runtime/src/lib.rs.
use connor_agent_core.Common.{ℕ, suc, String, Option, none, some, [], ◌∷◌}
use connor_agent_core.Common.Dict.{get}
use connor_agent_core.Common.Format.{format}
use connor_agent_core.Domain.Descriptors.{Time}
use connor_agent_core.Domain.Action.{ActionRequest, ActionResultPayload}
use connor_agent_core.Conversation.Lifecycle.{ConversationActionStatus}
use connor_agent_core.Conversation.State.{ConversationState}
use connor_agent_core.Conversation.Kernel.Checks.{Result, ok as kernel_ok, err as kernel_err}
use connor_agent_core.Conversation.Kernel.Decide.{
  Command, request_action_cmd, require_action_approval_cmd, deny_action_cmd, start_action_cmd,
  complete_action_cmd, fail_action_cmd, link_artifact_cmd,
}
use connor_agent_core.Conversation.Kernel.Handle.{World, handle, load_state}
use connor_agent_core.Policy.Capability.{
  ActionSchema, PolicyDecision, SideEffectKind, allow, ask, deny,
}
use connor_agent_core.Policy.Capability.Evaluate.{evaluate}
use connor_agent_core.Audit.{AuditEvent, AuditResult, ok as audit_ok, err as audit_err}
use connor_agent_core.Runtime.ActionStore.{
  ActionRuntimeOutcome, completed, approval_required, denied, failed,
}
use connor_agent_core.Runtime.ActionRuntime.{
  ActionRuntime, Execution, executed, not_executed, action_executor_error_message, RuntimeError,
  kernel_failed, audit_failed, resolver_failed, action_not_found, action_not_approved,
  missing_request, not_registered, panicked, RuntimeResult, ok, err, Resolution, resolved,
  unresolved, ProcessActionRequest, ExecuteApprovedActionRequest, AuditRecordInput,
  build_audit_event,
}

module _ (R : ActionRuntime) (clock : ℕ → Time) where
  open R use {
    journal, ids, registry, policy, Executor, execute, audit_log, artifact_resolver, json_text,
  }
  open audit_log use {Log, log_event}

  -- what the calls change
  pub record Env : Type 0 where
    pub world : World journal ids
    pub executor : Executor
    pub log : Log

  abbrev pub Run : Type 0 → Type 0
  Run A = Env → RuntimeResult A × Env

  abbrev pub proceed : {A B : Type 0} → RuntimeResult A × Env → (A → Run B) → RuntimeResult B × Env
  proceed (ok a, e) next = next a e
  proceed (err x, e) next = (err x, e)

  -- `.await?`
  infixl 5 ◌>>=◌ ◌>>◌
  abbrev pub ◌>>=◌ : {A B : Type 0} → Run A → (A → Run B) → Run B
  step >>= next = λ e. proceed (step e) next

  abbrev pub ◌>>◌ : {B : Type 0} → Run (Unit {0}) → Run B → Run B
  step >> rest = step >>= λ _. rest

  abbrev pub answer : {A : Type 0} → A → Run A
  answer a = λ e. (ok a, e)

  abbrev pub fail_with : {A : Type 0} → RuntimeError → Run A
  fail_with x = λ e. (err x, e)

  abbrev pub kernel_answer :
      Result (Unit {0}) × World journal ids → Env → RuntimeResult (Unit {0}) × Env
  kernel_answer (kernel_ok u, w) e = (ok tt, record e { world = w })
  kernel_answer (kernel_err x, w) e = (err (kernel_failed x), record e { world = w })

  -- a command of the kernel
  abbrev pub command : Command → ℕ → Run (Unit {0})
  command cmd k = λ e. kernel_answer (handle journal ids cmd (clock k) e.world) e

  abbrev pub audit_answer : AuditResult (Unit {0}) × Log → Env → RuntimeResult (Unit {0}) × Env
  audit_answer (audit_ok u, l) e = (ok tt, record e { log = l })
  audit_answer (audit_err reason, l) e = (err (audit_failed reason), record e { log = l })

  abbrev pub write_event : Option AuditEvent → Run (Unit {0})
  write_event none = fail_with panicked
  write_event (some event) = λ e. audit_answer (log_event event e.log) e

  -- `record_audit`
  abbrev pub record_audit : AuditRecordInput → ℕ → Run (Unit {0})
  record_audit input k = write_event (build_audit_event json_text input (clock k))

  abbrev pub execution_answer : Execution × Executor → Env → RuntimeResult Execution × Env
  execution_answer (answered, x) e = (ok answered, record e { executor = x })

  -- `self.executor.execute(…).await`
  abbrev pub run_executor : ActionRequest → Run Execution
  run_executor request = λ e. execution_answer (execute request e.executor) e

  abbrev pub link_resolved : String → Option String → ℕ → Resolution → Run (Unit {0})
  link_resolved conversation_id linked_by k (unresolved reason) = fail_with (resolver_failed reason)
  link_resolved conversation_id linked_by k (resolved none) = answer tt
  link_resolved conversation_id linked_by k (resolved (some artifact)) =
      command
        (link_artifact_cmd (record {
          conversation_id = conversation_id;
          artifact = artifact;
          linked_by = linked_by;
        }))
        k

  abbrev pub link_reference :
      String → Option String → ℕ → Option (String → Resolution) → String → Run (Unit {0})
  link_reference conversation_id linked_by k none artifact_id = answer tt
  link_reference conversation_id linked_by k (some resolve) artifact_id =
      link_resolved conversation_id linked_by k (resolve artifact_id)

  -- `link_artifact_result_if_available`
  abbrev pub link_artifact_result_if_available :
      String → Option String → ℕ → ActionResultPayload → Run (Unit {0})
  link_artifact_result_if_available conversation_id linked_by k
        (ActionResultPayload.artifact_ref id) =
      link_reference conversation_id linked_by k artifact_resolver id
  link_artifact_result_if_available conversation_id linked_by k _ = answer tt

  abbrev pub audit_input :
      ActionRequest
      → Option SideEffectKind
      → String
      → String
      → Option String
      → Option String
      → AuditRecordInput
  audit_input request effect decision status summary approved_by = record {
    request = request;
    side_effect = effect;
    policy_decision = decision;
    result_status = status;
    result_summary = summary;
    approved_by = approved_by;
  }

  -- both arms of the `match` on what the executor answers; `decision` is the audit's text for the
  -- policy's decision, and `k` counts the times read before
  abbrev pub conclude :
      String
      → String
      → Option String
      → ActionRequest
      → SideEffectKind
      → String
      → Option String
      → ℕ
      → Execution
      → Run ActionRuntimeOutcome
  conclude conversation_id action_id actor request effect decision approved_by k (executed result) =
      do
        command
            (complete_action_cmd (record {
              conversation_id = conversation_id;
              action_id = action_id;
              result = result;
              completed_by = actor;
            }))
            k
        link_artifact_result_if_available conversation_id actor (suc k) result.payload
        record_audit
            (audit_input request (some effect) decision "completed" (some result.summary)
              approved_by)
            (suc (suc k))
        answer (completed action_id result)
  conclude conversation_id action_id actor request effect decision approved_by k
        (not_executed error) =
      do
        command
            (fail_action_cmd (record {
              conversation_id = conversation_id;
              action_id = action_id;
              error_message = action_executor_error_message error;
              failed_by = actor;
            }))
            k
        record_audit
            (audit_input request (some effect) decision "failed"
              (some (action_executor_error_message error)) approved_by)
            (suc k)
        answer (failed action_id (action_executor_error_message error))

  -- starting the action, executing it, and recording what came of it
  abbrev pub start_and_execute :
      String
      → String
      → Option String
      → ActionRequest
      → SideEffectKind
      → String
      → Option String
      → ℕ
      → Run ActionRuntimeOutcome
  start_and_execute conversation_id action_id actor request effect decision approved_by k = do
    command
        (start_action_cmd
          (record { conversation_id = conversation_id; action_id = action_id; started_by = actor }))
        k
    answered ← run_executor request
    conclude conversation_id action_id actor request effect decision approved_by (suc k) answered

  abbrev pub deny_and_audit :
      ProcessActionRequest → Option SideEffectKind → String → Run ActionRuntimeOutcome
  deny_and_audit req effect reason = do
    command
        (deny_action_cmd (record {
          conversation_id = req.conversation_id;
          action_id = req.action_request.action_id;
          reason = reason;
          denied_by = req.runtime_actor;
        }))
        1
    record_audit (audit_input req.action_request effect "deny" "denied" (some reason) none) 2
    answer (denied req.action_request.action_id reason)

  -- the `match` on the policy's decision
  abbrev pub follow :
      ProcessActionRequest → SideEffectKind → PolicyDecision → Run ActionRuntimeOutcome
  follow req effect allow =
      start_and_execute req.conversation_id req.action_request.action_id req.runtime_actor
        req.action_request effect "allow" none 1
  follow req effect (ask reason) = do
    command
        (require_action_approval_cmd (record {
          conversation_id = req.conversation_id;
          action_id = req.action_request.action_id;
          reason = reason;
          required_by = req.runtime_actor;
        }))
        1
    record_audit
        (audit_input req.action_request (some effect) "ask" "approval_required" (some reason) none)
        2
    answer (approval_required req.action_request.action_id reason)
  follow req effect (deny reason) = deny_and_audit req (some effect) reason

  abbrev pub judge : ProcessActionRequest → Option ActionSchema → Run ActionRuntimeOutcome
  judge req none =
      deny_and_audit req none
        (format ("action kind not registered: " ∷ req.action_request.action_kind ∷ []))
  judge req (some schema) =
      follow req schema.side_effect (evaluate policy req.action_request schema.side_effect)

  -- `process`
  unfoldable pub process : ProcessActionRequest → Run ActionRuntimeOutcome
  unfolding evaluate
  process req = do
    command
        (request_action_cmd (record {
          conversation_id = req.conversation_id;
          action_request = req.action_request;
          requested_by = req.requested_by;
        }))
        0
    judge req (get req.action_request.action_kind registry)

  abbrev pub load_answer : Result ConversationState → Env → RuntimeResult ConversationState × Env
  load_answer (kernel_ok state) e = (ok state, e)
  load_answer (kernel_err x) e = (err (kernel_failed x), e)

  abbrev pub load : String → Run ConversationState
  load conversation_id = λ e. load_answer (load_state journal ids conversation_id e.world) e

  abbrev pub found : {A : Type 0} → Option A → RuntimeError → Run A
  found none x = fail_with x
  found (some a) x = answer a

  -- `if action.status != ConversationActionStatus::Approved { bail!(…) }`
  abbrev pub check_approved : String → ConversationActionStatus → Run (Unit {0})
  check_approved action_id ConversationActionStatus.approved = answer tt
  check_approved action_id _ = fail_with (action_not_approved action_id)

  -- what follows the loading of the state
  abbrev pub execute_in :
      ExecuteApprovedActionRequest → ConversationState → Run ActionRuntimeOutcome
  execute_in req state = do
    action ← found (get req.action_id state.actions) (action_not_found req.action_id)
    check_approved req.action_id action.status
    request ← found action.request (missing_request req.action_id)
    schema ← found (get request.action_kind registry) (not_registered request.action_kind)
    start_and_execute req.conversation_id req.action_id req.runtime_actor request schema.side_effect
        "approved" action.approved_by 0

  -- `execute_approved`
  unfoldable pub execute_approved : ExecuteApprovedActionRequest → Run ActionRuntimeOutcome
  execute_approved req = do state ← load req.conversation_id; execute_in req state

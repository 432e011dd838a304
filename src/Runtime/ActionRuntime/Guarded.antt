-- ===== src/Runtime/ActionRuntime/Guarded.antt =====
-- When the executor is called: crates/action-runtime/src/lib.rs.
use connor_agent_core.Common.{ℕ, Bool, true, false, ◌≡◌, refl, subst⁻¹, ◌∙◌, Option, none, some}
use connor_agent_core.Common.Dict.{get}
use connor_agent_core.Domain.Descriptors.{Time}
use connor_agent_core.Domain.Action.{ActionRequest}
use connor_agent_core.Conversation.Lifecycle.{ConversationActionState, ConversationActionStatus}
use connor_agent_core.Conversation.State.{ConversationState}
use connor_agent_core.Conversation.Kernel.Checks.{Result, ok as kernel_ok, err as kernel_err}
use connor_agent_core.Conversation.Kernel.Decide.{Command}
use connor_agent_core.Conversation.Kernel.Handle.{World, handle, load_state}
use connor_agent_core.Policy.Capability.{
  ActionSchema, PolicyDecision, SideEffectKind, allow, ask, deny, is_allowed,
}
use connor_agent_core.Policy.Capability.Evaluate.{evaluate}
use connor_agent_core.Audit.{AuditEvent, AuditResult, ok as audit_ok, err as audit_err}
use connor_agent_core.Runtime.ActionStore.{ActionRuntimeOutcome}
use connor_agent_core.Runtime.ActionRuntime.{
  ActionRuntime, RuntimeResult, ok, err, ProcessActionRequest, ExecuteApprovedActionRequest,
  AuditRecordInput, action_not_found,
}
use connor_agent_core.Runtime.ActionRuntime.Process.{
  Env, Run, proceed, answer, kernel_answer, command, audit_answer, write_event, record_audit,
  follow, judge, process, found, check_approved, load_answer, execute_in, execute_approved,
}

-- the kind is registered, and the policy allows its side effect
abbrev pub permitted : ActionRuntime → ActionRequest → Option ActionSchema → Bool
permitted R request none = false
permitted R request (some schema) = is_allowed (evaluate (R.policy) request schema.side_effect)

abbrev pub is_approved : ConversationActionStatus → Bool
is_approved ConversationActionStatus.approved = true
is_approved _ = false

-- the action is recorded and approved
abbrev pub approved_in : Option ConversationActionState → Bool
approved_in none = false
approved_in (some action) = is_approved action.status

abbrev pub is_error : {A : Type 0} → RuntimeResult A → Bool
is_error (ok a) = false
is_error (err x) = true

true-ne-false : true ≡ false → ⊥
true-ne-false e = cc

module _ (R : ActionRuntime) (clock : ℕ → Time) where
  -- the step leaves the executor as it is
  abbrev Spares : {A : Type 0} → Run R clock A → Type 0
  Spares step = (e : Env R clock) → (step e).1.executor ≡ e.executor

  proceed-Spares :
      {A B : Type 0} (r : RuntimeResult A × Env R clock) (next : A → Run R clock B)
      → ((a : A) → Spares (next a))
      → (proceed R clock r next).1.executor ≡ r.1.executor
  proceed-Spares (ok a, e) next spares = spares a e
  proceed-Spares (err x, e) next spares = refl

  then-Spares :
      {A B : Type 0} (step : Run R clock A) (next : A → Run R clock B)
      → Spares step
      → ((a : A) → Spares (next a))
      → Spares (λ e. proceed R clock (step e) next)
  then-Spares step next first later e = proceed-Spares (step e) next later ∙ first e

  kernel_answer-Spares :
      (r : Result (Unit {0})) (w : World (R.journal) (R.ids)) (e : Env R clock)
      → (kernel_answer R clock (r, w) e).1.executor ≡ e.executor
  kernel_answer-Spares (kernel_ok u) w e = refl
  kernel_answer-Spares (kernel_err x) w e = refl

  command-Spares : (cmd : Command) (k : ℕ) → Spares (command R clock cmd k)
  command-Spares cmd k e =
      kernel_answer-Spares (handle (R.journal) (R.ids) cmd (clock k) e.world).0
        (handle (R.journal) (R.ids) cmd (clock k) e.world).1 e

  audit_answer-Spares :
      (r : AuditResult (Unit {0})) (l : R.audit_log.Log) (e : Env R clock)
      → (audit_answer R clock (r, l) e).1.executor ≡ e.executor
  audit_answer-Spares (audit_ok u) l e = refl
  audit_answer-Spares (audit_err x) l e = refl

  write_event-Spares : (event : Option AuditEvent) → Spares (write_event R clock event)
  write_event-Spares none e = refl
  write_event-Spares (some event) e =
      audit_answer-Spares (R.audit_log.log_event event e.log).0
        (R.audit_log.log_event event e.log).1 e

  -- a command, an audit event and the answer
  reply-Spares :
      (cmd : Command) (input : AuditRecordInput) (k l : ℕ) (o : ActionRuntimeOutcome)
      → Spares (λ e.
        proceed R clock
          (command R clock cmd k e)
          (λ u. λ f. proceed R clock (record_audit R clock input l f) (λ v. answer R clock o)))
  reply-Spares cmd input k l o =
      then-Spares (command R clock cmd k) _ (command-Spares cmd k)
        (λ u. then-Spares (record_audit R clock input l) _ (write_event-Spares _) (λ v e. refl))

  follow-Spares :
      (req : ProcessActionRequest) (effect : SideEffectKind) (d : PolicyDecision)
      → is_allowed d ≡ false
      → Spares (follow R clock req effect d)
  follow-Spares req effect allow h = absurd (true-ne-false h)
  follow-Spares req effect (ask reason) h = reply-Spares _ _ 1 2 _
  follow-Spares req effect (deny reason) h = reply-Spares _ _ 1 2 _

  judge-Spares :
      (req : ProcessActionRequest) (schema : Option ActionSchema)
      → permitted R req.action_request schema ≡ false
      → Spares (judge R clock req schema)
  judge-Spares req none h = reply-Spares _ _ 1 2 _
  judge-Spares req (some schema) h = follow-Spares req schema.side_effect _ h

  -- Whatever the kernel, the audit log and the resolver answer: if an action's kind is not
  -- registered, or the policy does not allow its side effect outright, processing a request for it
  -- leaves the executor untouched.
  pub process_executes_only_allowed :
      (req : ProcessActionRequest) (e : Env R clock)
      → permitted R req.action_request (get req.action_request.action_kind (R.registry)) ≡ false
      → (process R clock req e).1.executor ≡ e.executor
  unfolding process
  process_executes_only_allowed req e h =
      then-Spares (command R clock _ 0) _ (command-Spares _ 0) (λ u. judge-Spares req _ h) e

  check_approved-refused :
      (req : ExecuteApprovedActionRequest) (e : Env R clock) (status : ConversationActionStatus)
      (next : Unit {0} → Run R clock ActionRuntimeOutcome)
      → is_approved status ≡ false
      → ((proceed R clock (check_approved R clock req.action_id status e) next).1 ≡ e)
        × (is_error (proceed R clock (check_approved R clock req.action_id status e) next).0 ≡ true)
  check_approved-refused req e ConversationActionStatus.approved next h = absurd (true-ne-false h)
  check_approved-refused req e ConversationActionStatus.requested next h = (refl, refl)
  check_approved-refused req e ConversationActionStatus.approval_required next h = (refl, refl)
  check_approved-refused req e ConversationActionStatus.denied next h = (refl, refl)
  check_approved-refused req e ConversationActionStatus.started next h = (refl, refl)
  check_approved-refused req e ConversationActionStatus.completed next h = (refl, refl)
  check_approved-refused req e ConversationActionStatus.failed next h = (refl, refl)

  approved-refused :
      (req : ExecuteApprovedActionRequest) (e : Env R clock)
      (action : Option ConversationActionState)
      (next : ConversationActionState → Run R clock ActionRuntimeOutcome)
      → ((a : ConversationActionState)
          → is_approved a.status ≡ false
          → ((next a e).1 ≡ e) × (is_error (next a e).0 ≡ true))
      → approved_in action ≡ false
      → ((proceed R clock (found R clock action (action_not_found req.action_id) e) next).1 ≡ e)
        × (is_error
              (proceed R clock (found R clock action (action_not_found req.action_id) e) next).0
            ≡ true)
  approved-refused req e none next h unapproved = (refl, refl)
  approved-refused req e (some a) next h unapproved = h a unapproved

  -- An action that is not recorded as approved in the conversation is not executed: asking for its
  -- execution is answered with an error, and changes nothing at all.
  pub execute_approved_only :
      (req : ExecuteApprovedActionRequest) (e : Env R clock) (state : ConversationState)
      → load_state (R.journal) (R.ids) req.conversation_id e.world ≡ kernel_ok state
      → approved_in (get req.action_id state.actions) ≡ false
      → ((execute_approved R clock req e).1 ≡ e)
        × (is_error (execute_approved R clock req e).0 ≡ true)
  unfolding execute_approved
  execute_approved_only req e state loaded unapproved =
      subst⁻¹
        (λ (r : Result ConversationState).
          ((proceed R clock (load_answer R clock r e) (execute_in R clock req)).1 ≡ e)
          × (is_error (proceed R clock (load_answer R clock r e) (execute_in R clock req)).0
              ≡ true))
        loaded
        (approved-refused req e (get req.action_id state.actions) _
          (λ a not_approved. check_approved-refused req e a.status _ not_approved) unapproved)

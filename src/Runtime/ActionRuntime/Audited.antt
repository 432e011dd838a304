-- ===== src/Runtime/ActionRuntime/Audited.antt =====
-- That what is answered has been audited: crates/action-runtime/src/lib.rs.
use connor_agent_core.Common.{ℕ, suc, String, ◌≡◌, refl, sym, ap, ◌∙◌, subst, Option, none, some}
use mathlib.Core.Option.{some-injective}
use connor_agent_core.Domain.Descriptors.{Time}
use connor_agent_core.Domain.Action.{ActionRequest, ActionResultPayload}
use connor_agent_core.Conversation.Kernel.Checks.{Result, ok as kernel_ok, err as kernel_err}
use connor_agent_core.Conversation.Kernel.Decide.{Command}
use connor_agent_core.Conversation.Kernel.Handle.{World, handle}
use connor_agent_core.Policy.Capability.{
  ActionSchema, PolicyDecision, SideEffectKind, allow, ask, deny,
}
use connor_agent_core.Audit.{AuditEvent, AuditResult, ok as audit_ok, err as audit_err}
use connor_agent_core.Runtime.ActionStore.{
  ActionRuntimeOutcome, completed, approval_required, denied, failed,
}
use connor_agent_core.Runtime.ActionRuntime.{
  ActionRuntime, Execution, executed, not_executed, RuntimeError, RuntimeResult, ok, err,
  Resolution, resolved, unresolved, ProcessActionRequest, AuditRecordInput, build_audit_event,
  event_with, action_executor_error_message,
}
use connor_agent_core.Runtime.ActionRuntime.Process.{
  Env, Run, proceed, answer, kernel_answer, command, audit_answer, write_event, record_audit,
  run_executor, link_resolved, link_reference, link_artifact_result_if_available, conclude,
  start_and_execute, follow, judge, process,
}

-- the audit's text for an outcome
abbrev pub status_text : ActionRuntimeOutcome → String
status_text (completed id result) = "completed"
status_text (approval_required id reason) = "approval_required"
status_text (denied id reason) = "denied"
status_text (failed id message) = "failed"

-- One event has been written to the log, and it is about this request and its outcome.
pub record IsAudited (R : ActionRuntime) (request : ActionRequest) (o : ActionRuntimeOutcome)
    (before after : R.audit_log.Log) : Type 0 where
  pub event : AuditEvent
  pub written : R.audit_log.log_event event before ≡ (audit_ok tt, after)
  pub action : event.action_id ≡ request.action_id
  pub requester : event.requested_by ≡ request.requested_by
  pub status : event.result_status ≡ status_text o

ok-answer :
    {A E : Type 0} {a b : A} {e f : E}
    → ◌≡◌ {A = RuntimeResult A × E} (ok a, e) (ok b, f)
    → (a ≡ b) × (e ≡ f)
ok-answer h = (cc, cc)

ok-err :
    {A E : Type 0} {a : A} {x : RuntimeError} {e f : E}
    → ◌≡◌ {A = RuntimeResult A × E} (err x, e) (ok a, f)
    → ⊥
ok-err h = cc

module _ (R : ActionRuntime) (clock : ℕ → Time) where
  -- an answer of two steps is that of the second, after an answer of the first
  proceed-ok :
      {A B : Type 0} (r : RuntimeResult A × Env R clock) (next : A → Run R clock B) {b : B}
      {f : Env R clock}
      → proceed R clock r next ≡ (ok b, f)
      → (a : A) × (e : Env R clock) × (r ≡ (ok a, e)) × (next a e ≡ (ok b, f))
  proceed-ok (ok a, e) next h = (a, e, refl, h)
  proceed-ok (err x, e) next h = absurd (ok-err h)

  -- the step leaves the log as it is
  abbrev Silent : {A : Type 0} → Run R clock A → Type 0
  Silent {A} step = (e : Env R clock) → (step e).1.log ≡ e.log

  kernel_answer-Silent :
      (r : Result (Unit {0})) (w : World (R.journal) (R.ids)) (e : Env R clock)
      → (kernel_answer R clock (r, w) e).1.log ≡ e.log
  kernel_answer-Silent (kernel_ok u) w e = refl
  kernel_answer-Silent (kernel_err x) w e = refl

  command-Silent : (cmd : Command) (k : ℕ) → Silent (command R clock cmd k)
  command-Silent cmd k e =
      kernel_answer-Silent (handle (R.journal) (R.ids) cmd (clock k) e.world).0
        (handle (R.journal) (R.ids) cmd (clock k) e.world).1 e

  link_resolved-Silent :
      (id : String) (actor : Option String) (k : ℕ) (r : Resolution)
      → Silent (link_resolved R clock id actor k r)
  link_resolved-Silent id actor k (unresolved reason) e = refl
  link_resolved-Silent id actor k (resolved none) e = refl
  link_resolved-Silent id actor k (resolved (some artifact)) e = command-Silent _ k e

  link_reference-Silent :
      (id : String) (actor : Option String) (k : ℕ) (r : Option (String → Resolution))
      (artifact : String)
      → Silent (link_reference R clock id actor k r artifact)
  link_reference-Silent id actor k none artifact e = refl
  link_reference-Silent id actor k (some resolve) artifact e =
      link_resolved-Silent id actor k (resolve artifact) e

  link-Silent :
      (id : String) (actor : Option String) (k : ℕ) (p : ActionResultPayload)
      → Silent (link_artifact_result_if_available R clock id actor k p)
  link-Silent id actor k (ActionResultPayload.artifact_ref a) e =
      link_reference-Silent id actor k (R.artifact_resolver) a e
  link-Silent id actor k (ActionResultPayload.text t) e = refl
  link-Silent id actor k (ActionResultPayload.json t) e = refl
  link-Silent id actor k ActionResultPayload.empty e = refl

  -- the step, where it answers, has had this request audited with that answer
  abbrev pub Audits : ActionRequest → Run R clock ActionRuntimeOutcome → Type 0
  Audits request step =
      (e f : Env R clock) (o : ActionRuntimeOutcome)
      → step e ≡ (ok o, f)
      → IsAudited R request o e.log f.log

  after-Silent :
      {A : Type 0} (request : ActionRequest) (step : Run R clock A)
      (next : A → Run R clock ActionRuntimeOutcome)
      → Silent step
      → ((a : A) → Audits request (next a))
      → Audits request (λ e. proceed R clock (step e) next)
  after-Silent request step next quiet audits e f o h =
      let (a, g, first, second) = proceed-ok (step e) next h in
      subst (λ (l : R.audit_log.Log). IsAudited R request o l f.log)
        (sym (ap (λ p. p.1.log) first) ∙ quiet e) (audits a g f o second)

  event_with-fields :
      (i : AuditRecordInput) (now : Time) (s : Option String) (event : AuditEvent)
      → event_with i now s ≡ some event
      → (event.action_id ≡ i.request.action_id)
        × (event.requested_by ≡ i.request.requested_by)
        × (event.result_status ≡ i.result_status)
  event_with-fields i now none event h = cc
  event_with-fields i now (some summary) event h =
      let same = some-injective _ _ h in
      (
        ap (λ (v : AuditEvent). v.action_id) (sym same),
        ap (λ (v : AuditEvent). v.requested_by) (sym same),
        ap (λ (v : AuditEvent). v.result_status) (sym same),
      )

  audit_answer_lem :
      (r : AuditResult (Unit {0})) (l : R.audit_log.Log) (o p : ActionRuntimeOutcome)
      (e f : Env R clock)
      → proceed R clock (audit_answer R clock (r, l) e) (λ u. answer R clock o) ≡ (ok p, f)
      → (◌≡◌ {A = AuditResult (Unit {0}) × R.audit_log.Log} (r, l) (audit_ok tt, f.log)) × (o ≡ p)
  audit_answer_lem (audit_ok u) l o p e f h =
      let (same, ends) = ok-answer h in (ap (λ (v : Env R clock). (audit_ok tt, v.log)) ends, same)
  audit_answer_lem (audit_err reason) l o p e f h = absurd (ok-err h)

  written_lem :
      (x : Option AuditEvent) (o p : ActionRuntimeOutcome) (e f : Env R clock)
      → proceed R clock (write_event R clock x e) (λ u. answer R clock o) ≡ (ok p, f)
      → (event : AuditEvent) × (x ≡ some event)
        × (R.audit_log.log_event event e.log ≡ (audit_ok tt, f.log))
        × (o ≡ p)
  written_lem none o p e f h = absurd (ok-err h)
  written_lem (some event) o p e f h =
      let (put, same) =
        audit_answer_lem (R.audit_log.log_event event e.log).0 (R.audit_log.log_event event e.log).1
          o p e f h in
      (event, refl, put, same)

  reply-Audits :
      (i : AuditRecordInput) (k : ℕ) (o : ActionRuntimeOutcome)
      → i.result_status ≡ status_text o
      → Audits i.request (λ e. proceed R clock (record_audit R clock i k e) (λ u. answer R clock o))
  unfolding build_audit_event
  reply-Audits i k o named e f p h =
      let (event, made, put, same) =
        written_lem (build_audit_event (R.json_text) i (clock k)) o p e f h in
      let (about, by, status) = event_with-fields i (clock k) _ event made in
      record {
        event = event;
        written = put;
        action = about;
        requester = by;
        status = status ∙ named ∙ ap status_text same;
      }

  conclude-Audits :
      (id action : String) (actor : Option String) (request : ActionRequest)
      (effect : SideEffectKind) (decision : String) (approved_by : Option String) (k : ℕ)
      (x : Execution)
      → Audits request (conclude R clock id action actor request effect decision approved_by k x)
  conclude-Audits id action actor request effect decision approved_by k (executed result) =
      after-Silent request (command R clock _ k) _ (command-Silent _ k) (λ u.
        after-Silent request
          (link_artifact_result_if_available R clock id actor (suc k) result.payload) _
          (link-Silent id actor (suc k) result.payload)
          (λ v. reply-Audits _ (suc (suc k)) (completed action result) refl))
  conclude-Audits id action actor request effect decision approved_by k (not_executed x) =
      after-Silent request (command R clock _ k) _ (command-Silent _ k)
        (λ u. reply-Audits _ (suc k) (failed action (action_executor_error_message x)) refl)

  start_and_execute-Audits :
      (id action : String) (actor : Option String) (request : ActionRequest)
      (effect : SideEffectKind) (decision : String) (approved_by : Option String) (k : ℕ)
      → Audits request
          (start_and_execute R clock id action actor request effect decision approved_by k)
  start_and_execute-Audits id action actor request effect decision approved_by k =
      after-Silent request (command R clock _ k) _ (command-Silent _ k) (λ u.
        after-Silent request (run_executor R clock request) _ (λ e. refl)
          (conclude-Audits id action actor request effect decision approved_by (suc k)))

  follow-Audits :
      (req : ProcessActionRequest) (effect : SideEffectKind) (d : PolicyDecision)
      → Audits req.action_request (follow R clock req effect d)
  follow-Audits req effect allow = start_and_execute-Audits _ _ _ req.action_request effect _ _ 1
  follow-Audits req effect (ask reason) =
      after-Silent req.action_request (command R clock _ 1) _ (command-Silent _ 1)
        (λ u. reply-Audits _ 2 (approval_required req.action_request.action_id reason) refl)
  follow-Audits req effect (deny reason) =
      after-Silent req.action_request (command R clock _ 1) _ (command-Silent _ 1)
        (λ u. reply-Audits _ 2 (denied req.action_request.action_id reason) refl)

  judge-Audits :
      (req : ProcessActionRequest) (schema : Option ActionSchema)
      → Audits req.action_request (judge R clock req schema)
  judge-Audits req none =
      after-Silent req.action_request (command R clock _ 1) _ (command-Silent _ 1)
        (λ u. reply-Audits _ 2 (denied req.action_request.action_id _) refl)
  judge-Audits req (some schema) = follow-Audits req schema.side_effect _

  -- Whatever the kernel, the policy, the executor and the resolver do: a request that is answered
  -- with an outcome, be it completed, failed, denied or waiting for approval, has had exactly one
  -- event written to the audit log, with success, and the event is about this request and its
  -- requester, and states the status of the outcome.
  pub process_audits :
      (req : ProcessActionRequest) (e f : Env R clock) (o : ActionRuntimeOutcome)
      → process R clock req e ≡ (ok o, f)
      → IsAudited R req.action_request o e.log f.log
  unfolding process
  process_audits req e f o h =
      after-Silent req.action_request (command R clock _ 0) _ (command-Silent _ 0)
        (λ u. judge-Audits req _) e f o h

-- ===== src/Runtime/RunJournal/Recovery.antt =====
-- What the recovery report says of a run: `build_recovery_report` of
-- crates/agent-runtime/src/run_journal.rs.
use connor_agent_core.Common.{
  String, ◌≡◌, refl, Option, none, some, List, [], ◌∷◌, arith, keep, last?, find, ◌==◌, eq_iff, ◌∙◌,
  ap, subst, sym,
}
use connor_agent_core.Common.Dict.{
  Dict, get, map_value, insert, get-insert, IsUnique, insert-IsUnique,
}
use connor_agent_core.Runtime.RunJournal.{
  RunEvent, RunEventKind, run_requested, run_started, model_call_started, model_call_completed,
  model_call_failed, tool_call_requested, approval_requested, approval_granted, approval_denied,
  tool_call_started, tool_call_completed, tool_call_failed, assistant_output_delta,
  assistant_output_finalized, run_completed, run_failed, run_cancelled, run_timed_out,
  retry_scheduled, recovery_checkpointed, recovery_needed, RunRecoveryAction, resume,
  restore_pending_approval, needs_inspection, mark_cancelled_after_restart, recommended,
  RecoverableRun, recoverable, latest_by_run, recoverable_runs, build_recovery_report,
}

-- The later of two findings.
abbrev or_else : Option RunEvent → Option RunEvent → Option RunEvent
or_else none o = o
or_else (some e) o = some e

or_else-none : (o : Option RunEvent) → or_else o none ≡ o
or_else-none none = refl
or_else-none (some e) = refl

-- The last event of a run.
abbrev pub last_event : String → List RunEvent → Option RunEvent
last_event k es = last? (keep (λ e. e.run_id == k) es)

last?-cons : (e : RunEvent) (es : List RunEvent) → last? (e ∷ es) ≡ or_else (last? es) (some e)
last?-cons e [] = refl
last?-cons e (f ∷ []) = refl
last?-cons e (f ∷ (g ∷ es)) = ground (arith, last?-cons e (g ∷ es), last?-cons f (g ∷ es))

get-latest_by_run :
    (k : String) (es : List RunEvent) (m : Dict RunEvent)
    → get k (latest_by_run es m) ≡ or_else (last_event k es) (get k m)
unfolding latest_by_run
get-latest_by_run k [] m = refl
get-latest_by_run k (e ∷ es) m = ground (
  arith,
  get-latest_by_run k es (insert e.run_id e m),
  get-insert e.run_id k e m,
  last?-cons e (keep (λ e. e.run_id == k) es),
)

latest-IsUnique :
    (es : List RunEvent) (m : Dict RunEvent) → IsUnique m → IsUnique (latest_by_run es m)
unfolding latest_by_run
latest-IsUnique [] m u = u
latest-IsUnique (e ∷ es) m u =
    latest-IsUnique es (insert e.run_id e m) (insert-IsUnique e.run_id e m u)

-- What is said of a run whose last event is known.
abbrev entry_for : String → Option RunEvent → Option RecoverableRun
entry_for k none = none
entry_for k (some e) = recoverable k e

find-recoverable_runs :
    (k : String) (m : Dict RunEvent)
    → IsUnique m
    → find (λ (r : RecoverableRun). r.run_id == k) (recoverable_runs m) ≡ entry_for k (get k m)
unfolding recoverable_runs recoverable get
find-recoverable_runs k [] u = refl
find-recoverable_runs k ((i, e) ∷ m) u =
    ground (arith, find-recoverable_runs k m u.1, u.0, eq_iff i k)

-- The run has ended.
pub data IsEnded : RunEventKind → Type 0 where
  completion : IsEnded run_completed
  failure : IsEnded run_failed
  cancellation : IsEnded run_cancelled
  timeout : IsEnded run_timed_out

-- A tool call is on its way.
pub data IsUnclear : RunEventKind → Type 0 where
  call_requested : IsUnclear tool_call_requested
  call_granted : IsUnclear approval_granted
  call_started : IsUnclear tool_call_started

-- The run was at its start, in a model call or in its output.
pub data IsCutOff : RunEventKind → Type 0 where
  at_start : IsCutOff run_started
  in_model_call : IsCutOff model_call_started
  in_output : IsCutOff assistant_output_delta

-- The run was between two steps.
pub data IsBetween : RunEventKind → Type 0 where
  before_start : IsBetween run_requested
  model_answered : IsBetween model_call_completed
  model_refused : IsBetween model_call_failed
  approval_refused : IsBetween approval_denied
  call_completed : IsBetween tool_call_completed
  call_failed : IsBetween tool_call_failed
  output_finalized : IsBetween assistant_output_finalized
  retry_pending : IsBetween retry_scheduled
  at_checkpoint : IsBetween recovery_checkpointed
  at_recovery : IsBetween recovery_needed

-- What is to be done about a run whose last event has this kind.
pub data Advice : RunEventKind → Option RunRecoveryAction → Type 0 where
  nothing_to_do : {kind : RunEventKind} → IsEnded kind → Advice kind none
  ask_again : Advice approval_requested (some restore_pending_approval)
  look_into : {kind : RunEventKind} → IsUnclear kind → Advice kind (some needs_inspection)
  give_up : {kind : RunEventKind} → IsCutOff kind → Advice kind (some mark_cancelled_after_restart)
  go_on : {kind : RunEventKind} → IsBetween kind → Advice kind (some resume)

recommended-Advice : (kind : RunEventKind) → Advice kind (recommended kind)
unfolding recommended
recommended-Advice run_requested = go_on before_start
recommended-Advice run_started = give_up at_start
recommended-Advice model_call_started = give_up in_model_call
recommended-Advice model_call_completed = go_on model_answered
recommended-Advice model_call_failed = go_on model_refused
recommended-Advice tool_call_requested = look_into call_requested
recommended-Advice approval_requested = ask_again
recommended-Advice approval_granted = look_into call_granted
recommended-Advice approval_denied = go_on approval_refused
recommended-Advice tool_call_started = look_into call_started
recommended-Advice tool_call_completed = go_on call_completed
recommended-Advice tool_call_failed = go_on call_failed
recommended-Advice assistant_output_delta = give_up in_output
recommended-Advice assistant_output_finalized = go_on output_finalized
recommended-Advice run_completed = nothing_to_do completion
recommended-Advice run_failed = nothing_to_do failure
recommended-Advice run_cancelled = nothing_to_do cancellation
recommended-Advice run_timed_out = nothing_to_do timeout
recommended-Advice retry_scheduled = go_on retry_pending
recommended-Advice recovery_checkpointed = go_on at_checkpoint
recommended-Advice recovery_needed = go_on at_recovery

-- What the report says of a run, by the last event of the run.
pub data IsReported (k : String) : Option RunEvent → Option RecoverableRun → Type 0 where
  no_event : IsReported k none none
  left_out : {e : RunEvent} → Advice e.kind none → IsReported k (some e) none
  listed :
      {e : RunEvent} {action : RunRecoveryAction}
      → Advice e.kind (some action)
      → IsReported k
          (some e)
          (some record { run_id = k; last_kind = e.kind; recommended_action = action })

advised-IsReported :
    (k : String) (e : RunEvent) (o : Option RunRecoveryAction)
    → Advice e.kind o
    → IsReported k (some e) (
        map_value
          (λ (action : RunRecoveryAction). record {
            run_id = k;
            last_kind = e.kind;
            recommended_action = action;
          })
          o)
advised-IsReported k e none h = left_out h
advised-IsReported k e (some action) h = listed h

entry_for-IsReported : (k : String) (last : Option RunEvent) → IsReported k last (entry_for k last)
unfolding recoverable
entry_for-IsReported k none = no_event
entry_for-IsReported k (some e) =
    advised-IsReported k e (recommended e.kind) (recommended-Advice e.kind)

find_lem :
    (k : String) (es : List RunEvent)
    → find (λ (r : RecoverableRun). r.run_id == k) (build_recovery_report es)
      ≡ entry_for k (last_event k es)
unfolding build_recovery_report get
find_lem k es =
    find-recoverable_runs k (latest_by_run es []) (latest-IsUnique es [] tt)
    ∙ ap (entry_for k) (get-latest_by_run k es [] ∙ or_else-none (last_event k es))

-- Looking a run up in the recovery report finds nothing for a run without events, and for one whose
-- last event is that it completed, failed, was cancelled or timed out. For any other it finds the
-- kind of its last event, with one action: to restore the approval that is waited for; to inspect a
-- run whose tool call was requested, granted or started; to mark as cancelled a run that stopped
-- after its start, in a model call or in its output; and to resume in all other cases.
pub find-build_recovery_report :
    (k : String) (es : List RunEvent)
    → IsReported k
        (last_event k es)
        (find (λ (r : RecoverableRun). r.run_id == k) (build_recovery_report es))
find-build_recovery_report k es =
    subst (IsReported k (last_event k es)) (sym (find_lem k es))
      (entry_for-IsReported k (last_event k es))

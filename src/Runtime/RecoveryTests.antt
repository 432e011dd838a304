-- ===== src/Runtime/RecoveryTests.antt =====
-- Concrete journals, errors and checkpoints on which the theorems about recovery in
-- crates/agent-runtime apply.
use connor_agent_core.Common.{ℕ, ◌≡◌, refl, none, some, [], ◌∷◌, true, any, ◌≤◌, ◌<◌, find, ◌==◌}
use connor_agent_core.Common.Dict.{get, map_value}
use connor_agent_core.Runtime.RunJournal.{
  RunEvent, RunEventKind, RecoverableRun, MemoryRunJournal, events_after, latest_cursor, not_after,
  append_run_event, build_recovery_report,
}
use connor_agent_core.Runtime.RunJournal.Cursor.{append_all, events_after-latest_cursor}
use connor_agent_core.Runtime.RunJournal.Recovery.{
  find-build_recovery_report, IsReported, last_event,
}
use connor_agent_core.Domain.Action.{ActionRequest}
use connor_agent_core.Runtime.ToolLoop.{
  ToolLoopCheckpoint, tool_result_kind, ToolResultCheckpoint, from_checkpoints,
  should_skip_tool_call, completed_tool_result,
}
use connor_agent_core.Runtime.ToolLoop.Resume.{
  from_checkpoints_lem, results, first_result, allows_skip,
}
use connor_agent_core.Runtime.ActionStore.{
  ActionRecord, ActionRuntimeOutcome, MemoryActionStore, record_outcome, requested_record,
  ok as stored, status_from_outcome,
}
use connor_agent_core.Runtime.ActionStore.Final.{
  outcome_call, actions_after, record_outcome-again, answer,
}
use connor_agent_core.Runtime.RetryPolicy.{
  RetryErrorClass, default_config, classify_error, backoff_delay, is_retryable, saturating_mul,
  saturating_pow,
}
use connor_agent_core.Runtime.RetryPolicy.Backoff.{classify_error-retry}

abbrev event : ℕ → RunEventKind → RunEvent
event id kind = record {
  event_id = id;
  run_id = "r1";
  kind = kind;
  occurred_at = 5;
  conversation_id = none;
  trigger_message_id = none;
  actor = none;
  payload = "null";
}

abbrev begun : RunEvent
begun = event 1 RunEventKind.run_started

abbrev asked : RunEvent
asked = event 4 RunEventKind.approval_requested

abbrev journal_begun : MemoryRunJournal
journal_begun = record { events = begun ∷ []; event_ids = 1 ∷ []; checkpoints = [] }

abbrev journal_asked : MemoryRunJournal
journal_asked = record { events = begun ∷ asked ∷ []; event_ids = 4 ∷ 1 ∷ []; checkpoints = [] }

events_after-latest_cursor_example :
    events_after (latest_cursor journal_begun) journal_asked ≡ asked ∷ []
unfolding append_all append_run_event not_after
events_after-latest_cursor_example =
    events_after-latest_cursor (begun ∷ []) (asked ∷ []) journal_begun journal_asked refl refl

find-build_recovery_report_example :
    IsReported "r1"
      (last_event "r1" (begun ∷ asked ∷ []))
      (find (λ (r : RecoverableRun). r.run_id == "r1") (build_recovery_report (begun ∷ asked ∷ [])))
find-build_recovery_report_example = find-build_recovery_report "r1" (begun ∷ asked ∷ [])

classify_error-retry_example :
    (is_retryable RetryErrorClass.timeout ≡ true)
    × (0 < 2)
    × (2 < 3)
    × (500000000 ≤ 10000000000)
    × ◌≡◌ {A = ℕ} 2 2
    × (RetryErrorClass.timeout ≡ RetryErrorClass.timeout)
unfolding classify_error backoff_delay saturating_mul saturating_pow
classify_error-retry_example =
    classify_error-retry default_config RetryErrorClass.timeout 2 2 500000000
      RetryErrorClass.timeout refl

abbrev found_text : ToolResultCheckpoint
found_text = record {
  tool_call_id = "t1";
  action_id = "act";
  result_text = "three mails";
  read_only = true;
}

abbrev checkpoint : ToolLoopCheckpoint
checkpoint = record {
  run_id = "r1";
  turn = 1;
  kind = tool_result_kind;
  tool_result = some found_text;
  created_at = 6;
}

from_checkpoints_lem_example :
    (completed_tool_result (from_checkpoints (checkpoint ∷ [])) "t1"
      ≡ map_value
          (λ (r : ToolResultCheckpoint). r.result_text)
          (first_result "t1" (results (checkpoint ∷ []))))
    × (should_skip_tool_call (from_checkpoints (checkpoint ∷ [])) "t1"
        ≡ any (allows_skip "t1") (results (checkpoint ∷ [])))
from_checkpoints_lem_example = from_checkpoints_lem "t1" (checkpoint ∷ [])

abbrev mail_request : ActionRequest
mail_request = record {
  action_id = "act";
  action_kind = "send_mail";
  input = "{}";
  requested_by = "bot";
  conversation_id = none;
  message_id = none;
  requested_at = 3;
}

abbrev refusal : ActionRuntimeOutcome
refusal = ActionRuntimeOutcome.denied "act" "no"

abbrev fault : ActionRuntimeOutcome
fault = ActionRuntimeOutcome.failed "act" "offline"

abbrev refused_record : ActionRecord
refused_record = record (requested_record mail_request "a1" "i1" 3) {
  status = status_from_outcome refusal;
  outcome = some refusal;
  updated_at = 4;
}

abbrev refused_store : MemoryActionStore
refused_store = ("act", refused_record) ∷ []

record_outcome-again_example :
    ((record_outcome "act" refusal 12
        (actions_after (outcome_call "act" fault 9 ∷ []) refused_store)).0
      ≡ stored refused_record)
    × ((record_outcome "act" fault 12
          (actions_after (outcome_call "act" fault 9 ∷ []) refused_store)).0
        ≡ answer refused_record refusal fault)
unfolding get
record_outcome-again_example =
    record_outcome-again "act" refused_record refusal fault (outcome_call "act" fault 9 ∷ [])
      refused_store 12 refl refl

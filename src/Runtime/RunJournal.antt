-- ===== src/Runtime/RunJournal.antt =====
-- The journal of run events in memory: crates/agent-runtime/src/run_journal.rs. Event ids are
-- natural numbers without an upper bound. The journal over files is left out.
pub mod Cursor
pub mod Recovery
use connor_agent_core.Common.{
  ℕ, String, Bool, true, false, Option, none, some, List, [], ◌∷◌, ◌++◌, if◌then◌else◌, keep, any,
  last?, ltb, leb, nat_eq, ◌==◌,
}
use connor_agent_core.Common.Dict.{Dict, get, insert, map_value}
use connor_agent_core.Domain.Descriptors.{Time, Json}
use connor_agent_core.Runtime.RunStore.{DurableAgentRunStatus}

pub record RunJournalCursor : Type 0 where
  pub last_seen : Option ℕ

-- `RunJournalCursor::after`
abbrev pub cursor_after : ℕ → RunJournalCursor
cursor_after event_id = record { last_seen = some event_id }

pub data RunEventKind : Type 0 where
  run_requested run_started : RunEventKind
  model_call_started model_call_completed model_call_failed : RunEventKind
  tool_call_requested approval_requested approval_granted approval_denied : RunEventKind
  tool_call_started tool_call_completed tool_call_failed : RunEventKind
  assistant_output_delta assistant_output_finalized : RunEventKind
  run_completed run_failed run_cancelled run_timed_out : RunEventKind
  retry_scheduled recovery_checkpointed recovery_needed : RunEventKind

pub record RunEvent : Type 0 where
  pub event_id : ℕ
  pub run_id : String
  pub kind : RunEventKind
  pub occurred_at : Time
  pub conversation_id : Option String
  pub trigger_message_id : Option String
  pub actor : Option String
  pub payload : Json

pub record RunCheckpoint : Type 0 where
  pub run_id : String
  pub event_cursor : RunJournalCursor
  pub status : DurableAgentRunStatus
  pub checkpointed_at : Time
  pub payload : Json

pub data RunJournalError : Type 0 where
  already_exists : (event_id : ℕ) → RunJournalError
  non_monotonic_id : (last next : ℕ) → RunJournalError

pub data JournalResult {ℓ} (A : Type ℓ) : Type ℓ where
  ok : A → JournalResult A
  err : RunJournalError → JournalResult A

pub record MemoryRunJournal : Type 0 where
  pub events : List RunEvent
  pub event_ids : List ℕ
  pub checkpoints : Dict (List RunCheckpoint)

-- `MemoryRunJournal::new`
abbrev pub new_journal : MemoryRunJournal
new_journal = record { events = []; event_ids = []; checkpoints = [] }

-- `if let Some(last) = events.last() && event.event_id.0 <= last.event_id.0`
unfoldable pub not_after : Option RunEvent → RunEvent → Option ℕ
not_after none event = none
not_after (some last) event = if leb event.event_id last.event_id then some last.event_id else none

-- the end of `append_event_to_memory`, after its checks
abbrev pub pushed : RunEvent → MemoryRunJournal → MemoryRunJournal
pushed event j = record j {
  events = j.events ++ event ∷ [];
  event_ids = event.event_id ∷ j.event_ids;
}

-- `append_event_to_memory`
unfoldable pub append_run_event :
    RunEvent → MemoryRunJournal → JournalResult RunJournalCursor × MemoryRunJournal
unfolding not_after
append_run_event event j =
    if any (nat_eq event.event_id) j.event_ids
    then (err (already_exists event.event_id), j)
    else elim (not_after (last? j.events) event) [
      | some last ↦ (err (non_monotonic_id last event.event_id), j)
      | none ↦ (ok (cursor_after event.event_id), pushed event j)
    ]

-- `events_for_run`
unfoldable pub events_for_run : String → MemoryRunJournal → List RunEvent
events_for_run run_id j = keep (λ e. e.run_id == run_id) j.events

-- `last_seen.is_none_or(|last_seen| event.event_id.0 > last_seen)`
abbrev pub is_unseen : Option ℕ → RunEvent → Bool
is_unseen none e = true
is_unseen (some last_seen) e = ltb last_seen e.event_id

-- `cursor.and_then(|cursor| cursor.last_seen)`
abbrev pub seen_by_cursor : Option RunJournalCursor → Option ℕ
seen_by_cursor none = none
seen_by_cursor (some c) = c.last_seen

-- `events_after`
unfoldable pub events_after : Option RunJournalCursor → MemoryRunJournal → List RunEvent
events_after cursor j = keep (is_unseen (seen_by_cursor cursor)) j.events

-- `latest_cursor`
unfoldable pub latest_cursor : MemoryRunJournal → Option RunJournalCursor
latest_cursor j = map_value (λ (e : RunEvent). cursor_after e.event_id) (last? j.events)

abbrev pub or_none : Option (List RunCheckpoint) → List RunCheckpoint
or_none none = []
or_none (some cs) = cs

-- `checkpoint_run`
unfoldable pub checkpoint_run : RunCheckpoint → MemoryRunJournal → MemoryRunJournal
checkpoint_run c j = record j {
  checkpoints = insert c.run_id (or_none (get c.run_id j.checkpoints) ++ c ∷ []) j.checkpoints;
}

-- `checkpoints`
unfoldable pub checkpoints_of : String → MemoryRunJournal → List RunCheckpoint
checkpoints_of run_id j = or_none (get run_id j.checkpoints)

pub data RunRecoveryAction : Type 0 where
  resume restore_pending_approval needs_inspection : RunRecoveryAction
  mark_cancelled_after_restart ignore_terminal : RunRecoveryAction

pub record RecoverableRun : Type 0 where
  pub run_id : String
  pub last_kind : RunEventKind
  pub recommended_action : RunRecoveryAction

-- the `match` on the kind of the last event, which is `none` where the run has ended
unfoldable pub recommended : RunEventKind → Option RunRecoveryAction
recommended run_completed = none
recommended run_failed = none
recommended run_cancelled = none
recommended run_timed_out = none
recommended approval_requested = some restore_pending_approval
recommended tool_call_started = some needs_inspection
recommended tool_call_requested = some needs_inspection
recommended approval_granted = some needs_inspection
recommended run_started = some mark_cancelled_after_restart
recommended model_call_started = some mark_cancelled_after_restart
recommended assistant_output_delta = some mark_cancelled_after_restart
recommended run_requested = some resume
recommended model_call_completed = some resume
recommended model_call_failed = some resume
recommended approval_denied = some resume
recommended tool_call_completed = some resume
recommended tool_call_failed = some resume
recommended assistant_output_finalized = some resume
recommended retry_scheduled = some resume
recommended recovery_checkpointed = some resume
recommended recovery_needed = some resume

-- the closure of `filter_map`
unfoldable pub recoverable : String → RunEvent → Option RecoverableRun
unfolding recommended
recoverable run_id event =
    map_value
      (λ action. record { run_id = run_id; last_kind = event.kind; recommended_action = action })
      (recommended event.kind)

-- the loop over the events
unfoldable pub latest_by_run : List RunEvent → Dict RunEvent → Dict RunEvent
latest_by_run [] m = m
latest_by_run (e ∷ es) m = latest_by_run es (insert e.run_id e m)

-- `into_iter().filter_map(…).collect()`
unfoldable pub recoverable_runs : Dict RunEvent → List RecoverableRun
unfolding recoverable
recoverable_runs [] = []
recoverable_runs ((run_id, event) ∷ m) =
    let rest = recoverable_runs m in
    elim (recoverable run_id event) [ none ↦ rest | some r ↦ r ∷ rest ]

-- `build_recovery_report`
unfoldable pub build_recovery_report : List RunEvent → List RecoverableRun
unfolding latest_by_run recoverable_runs
build_recovery_report events = recoverable_runs (latest_by_run events [])

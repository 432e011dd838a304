-- ===== src/Runtime/RunStore/Transitions.antt =====
-- The transitions of a run, as a relation: `is_valid_transition` and `transition` of
-- crates/agent-runtime/src/run_store.rs.
use connor_agent_core.Common.{
  String, ◌≡◌, refl, true, false, none, some, Option, ◌↔◌, arith, eq_iff,
}
use connor_agent_core.Common.Dict.{get, get-insert, contains_lem, map_value}
use connor_agent_core.Domain.Descriptors.{Time}
use connor_agent_core.Runtime.RunStore.{
  DurableAgentRunStatus, AgentRunRecord, MemoryAgentRunStore, is_terminal, is_valid_transition,
  memory_transition, memory_insert, queued, running, waiting_for_approval, completed, failed,
  cancelled, timed_out, transition_record, write_back, transition_found, status_eq,
}

infix 40 ◌⟶◌
-- The moves that the lifecycle of a run has.
pub data ◌⟶◌ : DurableAgentRunStatus → DurableAgentRunStatus → Type 0 where
  stay : {s : DurableAgentRunStatus} → s ⟶ s
  lease : queued ⟶ running
  requeue : running ⟶ queued
  suspend : running ⟶ waiting_for_approval
  resume : waiting_for_approval ⟶ running
  complete : running ⟶ completed
  fail : running ⟶ failed
  cancel : {s : DurableAgentRunStatus} → is_terminal s ≡ false → s ⟶ cancelled
  time_out : {s : DurableAgentRunStatus} → is_terminal s ≡ false → s ⟶ timed_out

valid-⟶ : (s t : DurableAgentRunStatus) → is_valid_transition s t ≡ true → s ⟶ t
unfolding is_valid_transition
valid-⟶ s t h =
    grind (arith, stay, lease, requeue, suspend, resume, complete, fail, cancel, time_out)

status_eq_self : (s : DurableAgentRunStatus) → status_eq s s ≡ true
status_eq_self s = ground arith

⟶-valid : {s t : DurableAgentRunStatus} → s ⟶ t → is_valid_transition s t ≡ true
unfolding is_valid_transition
⟶-valid {s} stay = rw status_eq_self
⟶-valid lease = refl
⟶-valid requeue = refl
⟶-valid suspend = refl
⟶-valid resume = refl
⟶-valid complete = refl
⟶-valid fail = refl
⟶-valid {s} (cancel h) = ground arith
⟶-valid {s} (time_out h) = ground arith

-- `is_valid_transition` accepts exactly the moves of the lifecycle.
is_valid_transition_iff : (s t : DurableAgentRunStatus) → is_valid_transition s t ≡ true ↔ s ⟶ t
is_valid_transition_iff s t = (valid-⟶ s t, ⟶-valid)

-- The status of the record under an id.
abbrev pub status_of : String → MemoryAgentRunStore → Option DurableAgentRunStatus
status_of k m = map_value (λ r. r.status) (get k m)

terminal_stays :
    (s t : DurableAgentRunStatus) → is_terminal s ≡ true → is_valid_transition s t ≡ true → t ≡ s
unfolding is_valid_transition
terminal_stays s t h v = ground arith

-- No insertion takes the place of a record.
pub memory_insert-keeps_status :
    (k : String) (status : DurableAgentRunStatus) (r : AgentRunRecord) (m : MemoryAgentRunStore)
    → status_of k m ≡ some status
    → status_of k (memory_insert r m).1 ≡ some status
unfolding memory_insert
memory_insert-keeps_status k status r m h =
    ground (arith, contains_lem r.run_id m, get-insert r.run_id k r m, eq_iff r.run_id k)

found-keeps_status :
    (k run_id : String) (status to : DurableAgentRunStatus) (now : Time) (m : MemoryAgentRunStore)
    → is_terminal status ≡ true
    → status_of k m ≡ some status
    → (o : Option AgentRunRecord) → get run_id m ≡ o
    → status_of k (transition_found run_id to now m o).1 ≡ some status
unfolding transition_found transition_record write_back
found-keeps_status k run_id status to now m terminal h none e = h
found-keeps_status k run_id status to now m terminal h (some r) e =
    let moved : AgentRunRecord = record r { status = to; updated_at = now } in
    ground (arith, get-insert run_id k moved m, eq_iff run_id k, terminal_stays r.status to)

-- No transition moves a record out of a terminal status.
pub memory_transition-keeps_status :
    (k run_id : String) (status to : DurableAgentRunStatus) (now : Time) (m : MemoryAgentRunStore)
    → is_terminal status ≡ true
    → status_of k m ≡ some status
    → status_of k (memory_transition run_id to now m).1 ≡ some status
unfolding memory_transition
memory_transition-keeps_status k run_id status to now m terminal h =
    found-keeps_status k run_id status to now m terminal h (get run_id m) refl

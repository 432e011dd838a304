-- ===== src/Runtime/Tests.antt =====
-- Concrete stores and queues on which the theorems about crates/agent-runtime apply.
use connor_agent_core.Common.{String, ◌≡◌, ◌≢◌, refl, none, some, List, [], ◌∷◌, true, false}
use connor_agent_core.Common.Dict.{get, insert, contains, update, place, values}
use connor_agent_core.Common.JsonLines.{JsonLines}
use connor_agent_core.Runtime.RunStore.{
  AgentRunRecord, MemoryAgentRunStore, ok, queued, running, completed, is_valid_transition,
  open_store, memory_transition, transition_found, write_back, transition_record,
}
use connor_agent_core.Runtime.RunStore.Durable.{
  StoreCall, insert_call, transition_call, run_calls, empty_store, open_store-run_calls,
}
use connor_agent_core.Runtime.RunStore.Valid.{IsValidStore, empty-IsValidStore, put-IsValidStore}
use connor_agent_core.Runtime.RunQueue.{lease, lease_for, lease_found, oldest, oldest_from}
use connor_agent_core.Runtime.RunQueue.Listings.{active_leases, queued_run_ids}
use connor_agent_core.Runtime.RunQueue.Lease.{lease_lem, LeaseOutcome}
use connor_agent_core.Runtime.RunQueue.Exclusive.{lease_exclusive, ack_call, queue_run, queue_after}
use connor_agent_core.Runtime.ApprovalQueue.{
  ApprovalStatus, ApprovalRequest, ApprovalRecord, ApprovalDecision, approved_kind,
  MemoryApprovalQueue, pending_record, approve, decide, decide_record,
}
use connor_agent_core.Runtime.ApprovalQueue.Final.{
  approve_call, pending_call, decided_record_final, approve-IsDecided, IsDecided,
  queue_run as approvals_after,
}

-- Lines that are the records themselves.
abbrev plain : JsonLines AgentRunRecord
plain = record {
  Line = AgentRunRecord;
  encode = λ r. r;
  decode = λ r. some r;
  is_blank = λ r. false;
  decode-encode = λ r. refl;
  encode-is_blank = λ r. refl;
}

abbrev first_run : AgentRunRecord
first_run = record {
  run_id = "r1";
  conversation_id = "c1";
  trigger_message_id = "m1";
  requested_by = "alice";
  status = queued;
  created_at = 10;
  updated_at = 10;
  error_message = none;
}

abbrev second_run : AgentRunRecord
second_run = record first_run { run_id = "r2"; created_at = 9 }

abbrev calls : List StoreCall
calls =
    insert_call true first_run
    ∷ transition_call true "r1" running 11
    ∷ transition_call true "r1" completed 12
    ∷ []

open_store-run_calls_example :
    open_store plain (run_calls plain calls (empty_store plain)).lines
    ≡ ok (run_calls plain calls (empty_store plain))
open_store-run_calls_example = open_store-run_calls plain calls (refl, (refl, (refl, tt)))

abbrev two_runs : MemoryAgentRunStore
two_runs = ("r1", first_run) ∷ ("r2", second_run) ∷ []

two_runs-IsValidStore : IsValidStore two_runs
unfolding insert contains get update place
two_runs-IsValidStore =
    put-IsValidStore "r2" second_run (("r1", first_run) ∷ []) refl
      (put-IsValidStore "r1" first_run [] refl empty-IsValidStore)

lease_lem_example : LeaseOutcome 60 20 21 two_runs
lease_lem_example = lease_lem 60 20 21 two_runs two_runs-IsValidStore

queued_run_ids_test : queued_run_ids two_runs ≡ ok ("r2" ∷ "r1" ∷ [])
unfolding queued_run_ids values
queued_run_ids_test = refl

abbrev one_leased : MemoryAgentRunStore
one_leased =
    ("r1", first_run) ∷ ("r2", record second_run { status = running; updated_at = 20 }) ∷ []

active_leases_test : active_leases 60 one_leased ≡ ok (lease_for "r2" 60 20 ∷ [])
unfolding active_leases values insert contains get place
active_leases_test = refl

abbrev one_done : MemoryAgentRunStore
one_done =
    ("r1", record first_run { status = running; updated_at = 30 })
    ∷ ("r2", record second_run { status = completed; updated_at = 25 })
    ∷ []

lease_exclusive_example : ◌≢◌ {A = String} "r2" "r1"
unfolding lease lease_found oldest oldest_from values memory_transition transition_found
    transition_record write_back is_valid_transition get insert contains update queue_run
    queue_after
lease_exclusive_example =
    lease_exclusive 60 20 21 two_runs one_leased (lease_for "r2" 60 21) (ack_call "r2" 25 ∷ []) 60
      30 31 one_done (lease_for "r1" 60 31) two_runs-IsValidStore refl refl

abbrev late_run : AgentRunRecord
late_run = record second_run { status = running; updated_at = 30 }

abbrev both_running : MemoryAgentRunStore
both_running = ("r1", record first_run { status = running }) ∷ ("r2", late_run) ∷ []

abbrev ask : ApprovalRequest
ask = record {
  approval_id = "p1";
  action_id = "act";
  conversation_id = "c1";
  requested_by = "bot";
  reason = "sends mail";
  requested_at = 5;
  expires_at = some 50;
}

abbrev consent : ApprovalDecision
consent = record { kind = approved_kind; decided_by = "alice"; reason = "fine"; decided_at = 20 }

abbrev open_approvals : MemoryApprovalQueue
open_approvals = ("p1", pending_record ask 5) ∷ []

abbrev granted : ApprovalRecord
granted = record (pending_record ask 5) {
  status = ApprovalStatus.approved;
  decision = some consent;
  updated_at = 20;
}

decided_record_final_example :
    get "p1" (
      approvals_after
        (pending_call 60 61 ∷ approve_call "p1" consent 70 71 ∷ [])
        (("p1", granted) ∷ []))
    ≡ some granted
unfolding get
decided_record_final_example =
    decided_record_final "p1" granted (pending_call 60 61 ∷ approve_call "p1" consent 70 71 ∷ [])
      (("p1", granted) ∷ []) refl refl

approve-IsDecided_example :
    IsDecided "p1" ApprovalStatus.approved consent 19 open_approvals granted (("p1", granted) ∷ [])
unfolding approve decide decide_record get insert contains update
approve-IsDecided_example =
    approve-IsDecided "p1" consent 19 20 open_approvals (("p1", granted) ∷ []) granted refl

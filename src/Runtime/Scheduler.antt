-- ===== src/Runtime/Scheduler.antt =====
-- The scheduler, whose store is in memory: crates/scheduler/src/lib.rs. An operation that answers and writes is a
-- function to the answer and the store after it.
pub mod Polled
pub mod Settled
use connor_agent_core.Common.{
  ℕ, String, Bool, true, false, ◌&&◌, Option, none, some, List, [], ◌∷◌, leb, if◌then◌else◌,
}
use connor_agent_core.Common.Dict.{Dict, get, insert, update, contains, values}
use connor_agent_core.Domain.Descriptors.{Time}

pub data ScheduledJobStatus : Type 0 where
  pending fired cancelled : ScheduledJobStatus

pub record ScheduledJob : Type 0 where
  pub id : String
  pub reminder_id : String
  pub due_at : Time
  pub status : ScheduledJobStatus
  pub created_at : Time

pub data SchedulerError : Type 0 where
  not_found internal : String → SchedulerError

pub data SchedulerResult (A : Type 0) : Type 0 where
  ok : A → SchedulerResult A
  err : SchedulerError → SchedulerResult A

abbrev pub MemorySchedulerStore : Type 0
MemorySchedulerStore = Dict ScheduledJob

abbrev pub with_status : ScheduledJobStatus → ScheduledJob → ScheduledJob
with_status status job = record job { status = status }

-- `MemorySchedulerStore::save`
abbrev pub save : ScheduledJob → MemorySchedulerStore → MemorySchedulerStore
save job s = insert job.id job s

abbrev found : String → Option ScheduledJob → SchedulerResult ScheduledJob
found id none = err (not_found id)
found id (some job) = ok job

-- `get`
unfoldable pub get_job : String → MemorySchedulerStore → SchedulerResult ScheduledJob
get_job id s = found id (get id s)

-- `update_status`
unfoldable pub update_status :
    String
    → ScheduledJobStatus
    → MemorySchedulerStore
    → SchedulerResult (Unit {0}) × MemorySchedulerStore
update_status id status s =
    if contains id s then (ok tt, update id (with_status status) s) else (err (not_found id), s)

-- `schedule`
unfoldable pub schedule :
    String → String → (due_at created_at : Time) → MemorySchedulerStore → MemorySchedulerStore
schedule id reminder_id due_at created_at s =
    save
      record {
        id = id;
        reminder_id = reminder_id;
        due_at = due_at;
        status = pending;
        created_at = created_at;
      }
      s

-- `cancel`
unfoldable pub cancel :
    String → MemorySchedulerStore → SchedulerResult (Unit {0}) × MemorySchedulerStore
unfolding update_status
cancel id s = update_status id cancelled s

abbrev pub is_pending : ScheduledJobStatus → Bool
is_pending pending = true
is_pending fired = false
is_pending cancelled = false

abbrev pub is_due : Time → ScheduledJob → Bool
is_due now job = is_pending job.status && leb job.due_at now

-- the jobs that are returned and the store after it, or the panic of an `unwrap`
abbrev pub Polled : Type 0
Polled = Option (List ScheduledJob × MemorySchedulerStore)

abbrev pub push_job : ScheduledJob → Polled → Polled
push_job job none = none
push_job job (some (due, s)) = some (job ∷ due, s)

abbrev pub fire :
    ScheduledJob
    → SchedulerResult (Unit {0}) × MemorySchedulerStore
    → (MemorySchedulerStore → Polled)
    → Polled
fire job (ok tt, s) rest = push_job (with_status fired job) (rest s)
fire job (err e, s) rest = none

-- the loop of `poll_due_jobs`
abbrev pub poll_each : Time → List ScheduledJob → MemorySchedulerStore → Polled
unfolding update_status
poll_each now [] s = some ([], s)
poll_each now (job ∷ jobs) s =
    let rest = poll_each now jobs in
    if is_due now job then fire job (update_status job.id fired s) rest else rest s

-- `poll_due_jobs`. The store is a `HashMap`, which the source lists in any order, the model in that of
-- its list.
unfoldable pub poll_due_jobs : Time → MemorySchedulerStore → Polled
unfolding poll_each values
poll_due_jobs now s = poll_each now (values s) s

-- ===== src/Runtime/SchedulerTests.antt =====
-- A concrete store of crates/scheduler/src/lib.rs: one job is due, one is later, one is cancelled.
use connor_agent_core.Common.{String, ◌≡◌, refl, some, List, [], ◌∷◌}
use connor_agent_core.Common.Dict.{get, contains, update, values, insert, place}
use connor_agent_core.Domain.Descriptors.{Time}
use connor_agent_core.Runtime.Scheduler.{
  ScheduledJob, ScheduledJobStatus, MemorySchedulerStore, pending, fired, cancelled, poll_due_jobs,
}
use connor_agent_core.Runtime.Scheduler.Polled.{
  IsStore, empty-IsStore, save-IsStore, IsPolled, poll_due_jobs_lem,
}
use connor_agent_core.Runtime.Scheduler.Settled.{
  SchedulerCall, schedule_call, cancel_call, poll_call, calls, StaysSettled, settled_job_final,
}

abbrev job : String → Time → ScheduledJobStatus → ScheduledJob
job id due_at status = record {
  id = id;
  reminder_id = "r";
  due_at = due_at;
  status = status;
  created_at = 1;
}

abbrev jobs : MemorySchedulerStore
jobs = ("a", job "a" 5 pending) ∷ ("b", job "b" 50 pending) ∷ ("c", job "c" 5 cancelled) ∷ []

jobs-IsStore : IsStore jobs
unfolding insert place contains get
jobs-IsStore =
    save-IsStore (job "c" 5 cancelled) (("a", job "a" 5 pending) ∷ ("b", job "b" 50 pending) ∷ []) (
      save-IsStore (job "b" 50 pending) (("a", job "a" 5 pending) ∷ [])
        (save-IsStore (job "a" 5 pending) [] empty-IsStore))

poll_due_jobs_lem_example :
    (due : List ScheduledJob) × (s' : MemorySchedulerStore) × (poll_due_jobs 10 jobs
      ≡ some (due, s'))
    × IsPolled 10 jobs due s'
poll_due_jobs_lem_example = poll_due_jobs_lem 10 jobs jobs-IsStore

poll_once :
    poll_due_jobs 10 jobs
    ≡ some (
      job "a" 5 fired ∷ [],
      ("a", job "a" 5 fired) ∷ ("b", job "b" 50 pending) ∷ ("c", job "c" 5 cancelled) ∷ [],
    )
unfolding poll_due_jobs values contains get update
poll_once = refl

abbrev later_calls : List SchedulerCall
later_calls = poll_call 10 ∷ schedule_call "d" "r" 11 2 ∷ cancel_call "b" ∷ poll_call 60 ∷ []

settled_job_final_example : StaysSettled "c" (calls later_calls jobs)
unfolding get
settled_job_final_example =
    settled_job_final "c" later_calls jobs (tt, (refl, (tt, (tt, tt)))) jobs-IsStore refl

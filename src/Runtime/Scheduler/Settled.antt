-- ===== src/Runtime/Scheduler/Settled.antt =====
-- What a job of crates/scheduler/src/lib.rs cannot come back from.
use connor_agent_core.Common.{
  String, Bool, true, false, not, ◌||◌, ◌≡◌, refl, sym, ap, ◌∙◌, subst, Option, none, some, List,
  [], ◌∷◌, ◌++◌, map, keep, any, All, arith, ◌==◌, if◌then◌else◌, Bool-cases, inl, inr,
}
use connor_agent_core.Common.Members.{any-keep, any-append}
use connor_agent_core.Common.Dict.{get, contains, values, map_value, get-update, get-insert}
use connor_agent_core.Domain.Descriptors.{Time}
use connor_agent_core.Runtime.Scheduler.{
  ScheduledJob, MemorySchedulerStore, Polled, pending, with_status, fired, cancelled, is_pending,
  is_due, update_status, schedule, cancel, poll_due_jobs,
}
use connor_agent_core.Runtime.Scheduler.Polled.{
  IsStore, update-IsStore, save-IsStore, refire, due_found, any-values, poll_due_jobs_lem,
}

-- A call of the scheduler; a poll comes with what its clock reads.
pub data SchedulerCall : Type 0 where
  schedule_call : (id reminder_id : String) → (due_at created_at : Time) → SchedulerCall
  cancel_call : String → SchedulerCall
  poll_call : Time → SchedulerCall

unfoldable pub call : SchedulerCall → MemorySchedulerStore → Polled
unfolding schedule cancel poll_due_jobs
call (schedule_call id reminder_id due_at created_at) s =
    some ([], schedule id reminder_id due_at created_at s)
call (cancel_call id) s = some ([], (cancel id s).1)
call (poll_call now) s = poll_due_jobs now s

abbrev then_poll : Polled → (MemorySchedulerStore → Polled) → Polled
then_poll none rest = none
then_poll (some (due, s)) rest = elim (rest s) [
  | none ↦ none
  | some (more, t) ↦ some (due ++ more, t)
]

-- the jobs that the polls of these calls return, in turn
unfoldable pub calls : List SchedulerCall → MemorySchedulerStore → Polled
unfolding call
calls [] s = some ([], s)
calls (c ∷ cs) s = then_poll (call c s) (calls cs)

-- `id` is not scheduled
abbrev pub DoesNotSchedule : String → SchedulerCall → Type 0
DoesNotSchedule id (schedule_call k reminder_id due_at created_at) = (k == id) ≡ false
DoesNotSchedule id (cancel_call k) = Unit
DoesNotSchedule id (poll_call now) = Unit

abbrev pub is_settled : Option ScheduledJob → Bool
is_settled none = true
is_settled (some job) = not (is_pending job.status)

abbrev names : String → ScheduledJob → Bool
names id job = job.id == id

any-map_fired :
    (id : String) (jobs : List ScheduledJob)
    → any (names id) (map (with_status fired) jobs) ≡ any (names id) jobs
any-map_fired id [] = refl
any-map_fired id (j ∷ js) = ap (λ (b : Bool). (j.id == id) || b) (any-map_fired id js)

due_found-settled :
    (now : Time) (o : Option ScheduledJob) → is_settled o ≡ true → due_found now o ≡ false
due_found-settled now none h = refl
due_found-settled now (some job) h = ground (arith, h)

settled-refire :
    (b : Bool) (o : Option ScheduledJob) → is_settled o ≡ true → is_settled (refire b o) ≡ true
settled-refire true none h = refl
settled-refire true (some job) h = refl
settled-refire false o h = h

cancelled_settled :
    (b : Bool) (o : Option ScheduledJob)
    → is_settled o ≡ true
    → is_settled (if b then map_value (with_status cancelled) o else o) ≡ true
cancelled_settled true none h = refl
cancelled_settled true (some job) h = refl
cancelled_settled false o h = h

-- What one call does to a store in which `id` is settled.
abbrev pub StaysSettled : String → Polled → Type 0
StaysSettled id none = ⊥
StaysSettled id (some (due, s)) =
    IsStore s × ((is_settled (get id s) ≡ true) × (any (names id) due ≡ false))

polled_settled :
    (id : String) (now : Time) (s : MemorySchedulerStore)
    → IsStore s
    → is_settled (get id s) ≡ true
    → StaysSettled id (poll_due_jobs now s)
polled_settled id now s h t =
    let (due, s', runs, p) = poll_due_jobs_lem now s h in
    subst (StaysSettled id) (sym runs) (
      p.kept,
      (
        rw (p.left id) (settled-refire (due_found now (get id s)) (get id s) t),
        rw p.returned (
            any-map_fired id (keep (is_due now) (values s))
            ∙ any-keep (names id) (is_due now) (values s)
            ∙ any-values now id s h
            ∙ due_found-settled now (get id s) t),
      ),
    )

call_settled :
    (id : String) (c : SchedulerCall) (s : MemorySchedulerStore)
    → DoesNotSchedule id c
    → IsStore s
    → is_settled (get id s) ≡ true
    → StaysSettled id (call c s)
unfolding call schedule cancel update_status
call_settled id (schedule_call k reminder due_at created_at) s n h t =
    let job : ScheduledJob = record {
      id = k;
      reminder_id = reminder;
      due_at = due_at;
      status = pending;
      created_at = created_at;
    } in
    (save-IsStore job s h, (rw (get-insert k id job s, n) t, refl))
call_settled id (cancel_call k) s n h t = elim (Bool-cases (contains k s)) [
  | inl there ↦ rw there (
    update-IsStore k cancelled s h,
    (
      rw (get-update k id (with_status cancelled) s) (cancelled_settled (k == id) (get id s) t),
      refl,
    ),
  )
  | inr missing ↦ rw missing (h, (t, refl))
]
call_settled id (poll_call now) s n h t = polled_settled id now s h t

appended :
    (id : String) (due : List ScheduledJob) (p : Polled)
    → any (names id) due ≡ false
    → StaysSettled id p
    → StaysSettled id (then_poll (some (due, [])) (λ s. p))
appended id due none e h = h
appended id due (some (more, t)) e h = (h.0, (h.1.0, rw (any-append (names id) due more, e) h.1.1))

then_settled :
    (id : String) (p : Polled) (rest : MemorySchedulerStore → Polled)
    → StaysSettled id p
    → ((s : MemorySchedulerStore)
        → IsStore s
        → is_settled (get id s) ≡ true
        → StaysSettled id (rest s))
    → StaysSettled id (then_poll p rest)
then_settled id none rest h more = elim h [ ]
then_settled id (some (due, s)) rest h more = appended id due (rest s) h.1.1 (more s h.0 h.1.0)

-- In a store in which no id stands twice and every job stands under its id: once the job with an id
-- is fired or cancelled, or there is none, then whatever calls follow that do not schedule that id
-- again, no poll panics, no poll returns a job with that id, and the job is not pending after them.
pub settled_job_final :
    (id : String) (cs : List SchedulerCall) (s : MemorySchedulerStore)
    → All (DoesNotSchedule id) cs
    → IsStore s
    → is_settled (get id s) ≡ true
    → StaysSettled id (calls cs s)
unfolding calls
settled_job_final id [] s n h t = (h, (t, refl))
settled_job_final id (c ∷ cs) s n h t =
    then_settled id (call c s) (calls cs) (call_settled id c s n.0 h t)
      (λ s' h' t'. settled_job_final id cs s' n.1 h' t')

-- ===== src/Runtime/Scheduler/Polled.antt =====
-- What a poll of crates/scheduler/src/lib.rs returns and writes.
use connor_agent_core.Common.{
  String, Bool, true, false, ◌&&◌, ◌≡◌, refl, sym, ap, ◌∙◌, subst, Option, none, some, List, [],
  ◌∷◌, map, keep, any, All, arith, eq_iff, eq_self, ◌==◌, if◌then◌else◌, Bool-cases, inl, inr, ◌||◌,
}
use connor_agent_core.Common.Dict.{
  get, update, contains, values, IsUnique, Entries, map_value, is_some, get-update, contains_lem,
  update-IsUnique, insert-IsUnique, insert-Entries, update-Entries, All-values, get-cons,
}
use connor_agent_core.Domain.Descriptors.{Time}
use connor_agent_core.Runtime.Scheduler.{
  ScheduledJob, ScheduledJobStatus, MemorySchedulerStore, with_status, fired, is_due, poll_each,
  poll_due_jobs, save, update_status, push_job,
}

-- A store in which no id stands twice and every job stands under its id.
abbrev pub IsStore : MemorySchedulerStore → Type 0
IsStore s = IsUnique s × Entries (λ (id : String) (job : ScheduledJob). job.id ≡ id) s

-- the store after the due ones of these jobs are fired
abbrev pub fired_in : Time → List ScheduledJob → MemorySchedulerStore → MemorySchedulerStore
fired_in now [] s = s
fired_in now (job ∷ jobs) s =
    fired_in now jobs (if is_due now job then update job.id (with_status fired) s else s)

abbrev pub refire : Bool → Option ScheduledJob → Option ScheduledJob
refire b o = if b then map_value (with_status fired) o else o

is_some-refire : (b : Bool) (o : Option ScheduledJob) → is_some (refire b o) ≡ is_some o
is_some-refire b none = ground arith
is_some-refire true (some job) = refl
is_some-refire false (some job) = refl

refire-refire : (b a : Bool) (o : Option ScheduledJob) → refire a (refire b o) ≡ refire (b || a) o
refire-refire true true none = refl
refire-refire true true (some job) = refl
refire-refire true false o = refl
refire-refire false a o = refl

contains-update :
    (k id : String) (s : MemorySchedulerStore)
    → contains id (update k (with_status fired) s) ≡ contains id s
contains-update k id s =
    contains_lem id (update k (with_status fired) s)
    ∙ ap is_some (get-update k id (with_status fired) s)
    ∙ is_some-refire (k == id) (get id s)
    ∙ sym (contains_lem id s)

All-contains-update :
    (k : String) (jobs : List ScheduledJob) (s : MemorySchedulerStore)
    → All (λ (j : ScheduledJob). contains j.id s ≡ true) jobs
    → All (λ (j : ScheduledJob). contains j.id (update k (with_status fired) s) ≡ true) jobs
All-contains-update k [] s h = tt
All-contains-update k (j ∷ js) s h =
    (contains-update k j.id s ∙ h.0, All-contains-update k js s h.1)

poll_each_lem :
    (now : Time) (jobs : List ScheduledJob) (s : MemorySchedulerStore)
    → All (λ (j : ScheduledJob). contains j.id s ≡ true) jobs
    → poll_each now jobs s
      ≡ some (map (with_status fired) (keep (is_due now) jobs), fired_in now jobs s)
unfolding poll_each update_status
poll_each_lem now [] s h = refl
poll_each_lem now (j ∷ js) s h = elim (Bool-cases (is_due now j)) [
  | inl due ↦
      rw (due, h.0)
        (ap (push_job (with_status fired j)) (
          poll_each_lem now js (update j.id (with_status fired) s)
            (All-contains-update j.id js s h.1)))
  | inr later ↦ rw later (poll_each_lem now js s h.1)
]

abbrev pub due_as : Time → String → ScheduledJob → Bool
due_as now id job = is_due now job && (job.id == id)

get-fired_in :
    (now : Time) (id : String) (jobs : List ScheduledJob) (s : MemorySchedulerStore)
    → get id (fired_in now jobs s)
      ≡ (if any (due_as now id) jobs then map_value (with_status fired) (get id s) else get id s)
get-fired_in now id [] s = refl
get-fired_in now id (j ∷ js) s = elim (Bool-cases (is_due now j)) [
  | inl due ↦ rw due (
      get-fired_in now id js (update j.id (with_status fired) s)
      ∙ ap (refire (any (due_as now id) js)) (get-update j.id id (with_status fired) s)
      ∙ refire-refire (j.id == id) (any (due_as now id) js) (get id s))
  | inr later ↦ rw later (get-fired_in now id js s)
]

abbrev pub due_found : Time → Option ScheduledJob → Bool
due_found now none = false
due_found now (some job) = is_due now job

or_only : (b : Bool) → (b && true || false) ≡ b
or_only true = refl
or_only false = refl

and_only : (b c : Bool) → (b && false || c) ≡ c
and_only true c = refl
and_only false c = refl

pub any-values :
    (now : Time) (id : String) (s : MemorySchedulerStore)
    → IsStore s
    → any (due_as now id) (values s) ≡ due_found now (get id s)
unfolding get values
any-values now id [] h = refl
any-values now id ((k, j) ∷ m) h =
    let named : j.id ≡ k = h.1 k j (ground (arith, eq_self k)) in
    let rest = any-values now id m (
      h.0.1,
      λ (i : String) (v : ScheduledJob) (e : get i m ≡ some v).
          h.1 i v (get-cons k i j v m h.0.0 e),
    ) in
    elim (Bool-cases (k == id)) [
      | inl same ↦
          let gone : get id m ≡ none =
            subst (λ (i : String). get i m ≡ none) ((eq_iff k id).0 same) h.0.0 in
          rw (same, named, same, rest, gone) (or_only (is_due now j))
      | inr other ↦
          rw (other, named, other, rest) (and_only (is_due now j) (due_found now (get id m)))
    ]

nothing : {P : Type 0} (k : String) (v : ScheduledJob) → get k [] ≡ some v → P
unfolding get
nothing k v e = cc

pub empty-IsStore : IsStore []
empty-IsStore = (tt, λ (k : String) (v : ScheduledJob) (e : get k [] ≡ some v). nothing k v e)

pub save-IsStore :
    (job : ScheduledJob) (s : MemorySchedulerStore) → IsStore s → IsStore (save job s)
save-IsStore job s h = (insert-IsUnique job.id job s h.0, insert-Entries job.id job s refl h.1)

-- What a poll at `now` returned and left: the jobs that were due, as fired, and every other job as
-- it was.
pub record IsPolled (now : Time) (s : MemorySchedulerStore) (due : List ScheduledJob)
    (s' : MemorySchedulerStore) : Type 0 where
  pub returned : due ≡ map (with_status fired) (keep (is_due now) (values s))
  pub left : (id : String) → get id s' ≡ refire (due_found now (get id s)) (get id s)
  pub kept : IsStore s'

pub update-IsStore :
    (k : String) (status : ScheduledJobStatus) (s : MemorySchedulerStore)
    → IsStore s
    → IsStore (update k (with_status status) s)
update-IsStore k status s h = (
  update-IsUnique k (with_status status) s h.0,
  update-Entries k (with_status status) s (λ v e. e) h.1,
)

fired_in-IsStore :
    (now : Time) (jobs : List ScheduledJob) (s : MemorySchedulerStore)
    → IsStore s
    → IsStore (fired_in now jobs s)
fired_in-IsStore now [] s h = h
fired_in-IsStore now (j ∷ js) s h = elim (Bool-cases (is_due now j)) [
  | inl due ↦
      rw due (
        fired_in-IsStore now js (update j.id (with_status fired) s) (update-IsStore j.id fired s h))
  | inr later ↦ rw later (fired_in-IsStore now js s h)
]

-- On a store in which no id stands twice and every job stands under its id, a poll does not panic.
-- It returns the jobs that are pending and due, marked as fired; in the store after it the same
-- jobs are fired, every other one is as before, and each stands under its id still.
pub poll_due_jobs_lem :
    (now : Time) (s : MemorySchedulerStore)
    → IsStore s
    → (due : List ScheduledJob) × (s' : MemorySchedulerStore) × (poll_due_jobs now s
        ≡ some (due, s'))
      × IsPolled now s due s'
unfolding poll_due_jobs
poll_due_jobs_lem now s h = (
  map (with_status fired) (keep (is_due now) (values s)),
  fired_in now (values s) s,
  poll_each_lem now (values s) s (
      All-values (λ (j : ScheduledJob). contains j.id s ≡ true) s h.0
        (λ (k : String) (v : ScheduledJob) (e : get k s ≡ some v).
          rw (h.1 k v e) (contains_lem k s ∙ ap is_some e))),
  record {
    returned = refl;
    left = λ id.
        get-fired_in now id (values s) s
        ∙ ap (λ (b : Bool). refire b (get id s)) (any-values now id s h);
    kept = fired_in-IsStore now (values s) s h;
  },
)

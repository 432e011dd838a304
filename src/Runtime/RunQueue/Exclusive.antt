-- ===== src/Runtime/RunQueue/Exclusive.antt =====
-- Runs are not leased twice: `lease`, `ack` and `nack` of crates/agent-runtime/src/run_queue.rs.
use connor_agent_core.Common.{
  ℕ, String, ◌≡◌, ◌≢◌, refl, Option, none, some, arith, List, [], ◌∷◌, Bool, eq_iff, false, true,
  inl, inr, sym, ◌∙◌, ap, subst, subst⁻¹, eq_self,
}
use connor_agent_core.Common.Dict.{contains_lem, map_value, get, get-insert}
use connor_agent_core.Domain.Descriptors.{Time}
use connor_agent_core.Runtime.RunStore.{
  AgentRunRecord, MemoryAgentRunStore, transition_found, transition_record, write_back,
  memory_transition, memory_insert, ok, err, running, completed,
}
use connor_agent_core.Runtime.RunStore.Valid.{
  IsValidStore, put-IsValidStore, memory_insert-IsValidStore, memory_transition-IsValidStore,
}
use connor_agent_core.Runtime.RunQueue.{
  enqueue, discard, QueueResult, AgentRunLease, lease, ack, is_queued,
}
use connor_agent_core.Runtime.RunQueue.Lease.{lease_lem}

-- Whether the run is recorded, and queued.
abbrev pub queued_now : String → MemoryAgentRunStore → Option Bool
queued_now k m = map_value is_queued (get k m)

no_lease :
    {m m' : MemoryAgentRunStore} {l : AgentRunLease}
    → ◌≡◌ {A = QueueResult (Option AgentRunLease)} (ok none, m) (ok (some l), m')
    → ⊥
no_lease e = cc

-- The run that `lease` returned was queued, and is queued no more.
taken :
    (timeout : ℕ) (now later : Time) (m m' : MemoryAgentRunStore) (l : AgentRunLease)
    → IsValidStore m
    → lease timeout now later m ≡ (ok (some l), m')
    → (queued_now l.run_id m ≡ some true) × (queued_now l.run_id m' ≡ some false)
taken timeout now later m m' l v e = elim (lease_lem timeout now later m v) [
  | inl (e', _) ↦ absurd (no_lease (sym e' ∙ e))
  | inr (r, h, e') ↦
      let both = sym e' ∙ e in
      let moved : AgentRunRecord = record r { status = running; updated_at = now } in
      (
        ground (arith, both, h.found, h.queued),
        ground (arith, both, get-insert r.run_id r.run_id moved m, eq_self r.run_id),
      )
]

-- The calls of a worker that neither gives a run back nor recovers leases.
pub data WorkerCall : Type 0 where
  enqueue_call : AgentRunRecord → WorkerCall
  lease_call : ℕ → (now later : Time) → WorkerCall
  ack_call : String → Time → WorkerCall

unfoldable pub queue_after : WorkerCall → MemoryAgentRunStore → MemoryAgentRunStore
unfolding enqueue lease ack
queue_after (enqueue_call r) m = (enqueue r m).1
queue_after (lease_call timeout now later) m = (lease timeout now later m).1
queue_after (ack_call k now) m = (ack k now m).1

unfoldable pub queue_run : List WorkerCall → MemoryAgentRunStore → MemoryAgentRunStore
unfolding queue_after
queue_run [] m = m
queue_run (c ∷ cs) m = queue_run cs (queue_after c m)

lease_after :
    (timeout : ℕ) (now later : Time) (k : String) (m : MemoryAgentRunStore)
    → IsValidStore m
    → IsValidStore (lease timeout now later m).1
      × (queued_now k m ≡ some false → queued_now k (lease timeout now later m).1 ≡ some false)
lease_after timeout now later k m v = elim (lease_lem timeout now later m v) [
  | inl (e, _) ↦
      subst⁻¹
        (λ (p : QueueResult (Option AgentRunLease)).
          IsValidStore p.1 × (queued_now k m ≡ some false → queued_now k p.1 ≡ some false))
        e (v, λ h. h)
  | inr (r, h, e) ↦
      let moved : AgentRunRecord = record r { status = running; updated_at = now } in
      subst⁻¹
        (λ (p : QueueResult (Option AgentRunLease)).
          IsValidStore p.1 × (queued_now k m ≡ some false → queued_now k p.1 ≡ some false))
        e
        (
          put-IsValidStore r.run_id moved m refl v,
          λ h. ground (arith, get-insert r.run_id k moved m, eq_iff r.run_id k),
        )
]

ack_after :
    (j : String) (now : Time) (k : String) (m : MemoryAgentRunStore)
    → queued_now k m ≡ some false
    → (o : Option AgentRunRecord) → get j m ≡ o
    → queued_now k (transition_found j completed now m o).1 ≡ some false
unfolding transition_found transition_record write_back
ack_after j now k m h none e = h
ack_after j now k m h (some r) e =
    let moved : AgentRunRecord = record r { status = completed; updated_at = now } in
    ground (arith, get-insert j k moved m, eq_iff j k)

discard_store : (p : QueueResult AgentRunRecord) → (discard p).1 ≡ p.1
discard_store (ok r, m) = refl
discard_store (err e, m) = refl

enqueue_after :
    (r : AgentRunRecord) (k : String) (m : MemoryAgentRunStore)
    → queued_now k m ≡ some false
    → queued_now k (memory_insert r m).1 ≡ some false
unfolding memory_insert
enqueue_after r k m h =
    ground (arith, contains_lem r.run_id m, get-insert r.run_id k r m, eq_iff r.run_id k)

-- Valid stores stay valid, and a run that is not queued does not become so.
abbrev Leaves : String → (m m' : MemoryAgentRunStore) → Type 0
Leaves k m m' = IsValidStore m' × (queued_now k m ≡ some false → queued_now k m' ≡ some false)

after_call :
    (c : WorkerCall) (k : String) (m : MemoryAgentRunStore)
    → IsValidStore m
    → Leaves k m (queue_after c m)
unfolding queue_after enqueue ack memory_transition
after_call (lease_call timeout now later) k m v = lease_after timeout now later k m v
after_call (enqueue_call r) k m v = (memory_insert-IsValidStore r m v, enqueue_after r k m)
after_call (ack_call j now) k m v =
    subst⁻¹ (Leaves k m) (discard_store (memory_transition j completed now m)) (
      memory_transition-IsValidStore j completed now m v,
      λ h. ack_after j now k m h (get j m) refl,
    )

after_calls :
    (cs : List WorkerCall) (k : String) (m : MemoryAgentRunStore)
    → IsValidStore m
    → Leaves k m (queue_run cs m)
unfolding queue_run
after_calls [] k m v = (v, λ h. h)
after_calls (c ∷ cs) k m v =
    let first = after_call c k m v in
    let rest = after_calls cs k (queue_after c m) first.0 in (rest.0, λ h. rest.1 (first.1 h))

differ :
    (k j : String) (m : MemoryAgentRunStore)
    → queued_now k m ≡ some false
    → queued_now j m ≡ some true
    → k ≢ j
differ k j m h i e = ground (arith, e)

-- On a store whose ids are unique and whose records stand under their own ids, once `lease` has
-- returned a run, no later `lease` returns the same run, however many runs are enqueued, leased and
-- acknowledged between the two, as long as none is given back by `nack` or recovered.
pub lease_exclusive :
    (timeout : ℕ) (now later : Time) (m m' : MemoryAgentRunStore) (first : AgentRunLease)
    (cs : List WorkerCall) (timeout' : ℕ) (now' later' : Time) (m'' : MemoryAgentRunStore)
    (second : AgentRunLease)
    → IsValidStore m
    → lease timeout now later m ≡ (ok (some first), m')
    → lease timeout' now' later' (queue_run cs m') ≡ (ok (some second), m'')
    → first.run_id ≢ second.run_id
lease_exclusive timeout now later m m' first cs timeout' now' later' m'' second v e e' =
    let valid =
      subst IsValidStore (ap (λ (p : QueueResult (Option AgentRunLease)). p.1) e)
        (lease_after timeout now later first.run_id m v).0 in
    let kept = after_calls cs first.run_id m' valid in
    differ first.run_id second.run_id (queue_run cs m')
      (kept.1 (taken timeout now later m m' first v e).1)
      (taken timeout' now' later' (queue_run cs m') m'' second kept.0 e').0

-- ===== src/Runtime/RunQueue.antt =====
-- The run queue: crates/agent-runtime/src/run_queue.rs, over the store in memory of run_store.rs.
-- `lease` holds the lease lock from its reading to its writing, so no two leases interleave; each
-- operation is one step, and what another operation could do between its reading and its writing is
-- left out. Each time that `Utc::now()` gives is an argument. Times and durations are natural
-- numbers without an upper bound, so an overflow of the sum is left out.
pub mod Lease
pub mod Exclusive
pub mod Recovery
pub mod Listings
use connor_agent_core.Common.{
  ℕ, String, Bool, true, false, Option, none, some, List, [], ◌∷◌, if◌then◌else◌, keep, map, ◌+◌,
  ltb, leb, nat_eq, text_lt, ◌||◌, ◌&&◌,
}
use connor_agent_core.Domain.Descriptors.{Time}
use connor_agent_core.Runtime.RunStore.{
  AgentRunRecord, AgentRunStoreError, MemoryAgentRunStore, StoreResult, ok, err, status_eq, queued,
  running, completed, memory_insert, memory_list, memory_transition,
}

pub record AgentRunLease : Type 0 where
  pub run_id : String
  pub leased_at : Time
  pub expires_at : Time

-- A refused call of the store is the only error that the operations below return.
abbrev pub QueueResult : Type 0 → Type 0
QueueResult A = StoreResult A × MemoryAgentRunStore

abbrev pub is_queued : AgentRunRecord → Bool
is_queued r = status_eq r.status queued

abbrev pub is_running : AgentRunRecord → Bool
is_running r = status_eq r.status running

-- The record that `min_by` compares as less: by the time of creation, then by the id.
abbrev pub is_before : AgentRunRecord → AgentRunRecord → Bool
is_before l r =
    ltb l.created_at r.created_at || nat_eq l.created_at r.created_at && text_lt l.run_id r.run_id

-- `min_by`, which keeps the first of equals
unfoldable pub oldest_from : AgentRunRecord → List AgentRunRecord → AgentRunRecord
oldest_from best [] = best
oldest_from best (r ∷ rs) = oldest_from (if is_before r best then r else best) rs

unfoldable pub oldest : List AgentRunRecord → Option AgentRunRecord
unfolding oldest_from
oldest [] = none
oldest (r ∷ rs) = some (oldest_from r rs)

-- `enqueue`
unfoldable pub enqueue : AgentRunRecord → MemoryAgentRunStore → QueueResult (Unit {0})
enqueue = memory_insert

-- `lease_for`
abbrev pub lease_for : String → ℕ → Time → AgentRunLease
lease_for run_id timeout now = record {
  run_id = run_id;
  leased_at = now;
  expires_at = now + timeout;
}

-- the end of `lease`, after the transition
abbrev pub leased : AgentRunLease → QueueResult AgentRunRecord → QueueResult (Option AgentRunLease)
leased l (ok r, m) = (ok (some l), m)
leased l (err e, m) = (err e, m)

-- `lease`, after the search
unfoldable pub lease_found :
    ℕ
    → (now later : Time) → MemoryAgentRunStore
    → Option AgentRunRecord
    → QueueResult (Option AgentRunLease)
lease_found timeout now later m none = (ok none, m)
lease_found timeout now later m (some r) =
    leased (lease_for r.run_id timeout later) (memory_transition r.run_id running now m)

-- `lease`
unfoldable pub lease :
    ℕ → (now later : Time) → MemoryAgentRunStore → QueueResult (Option AgentRunLease)
unfolding lease_found
lease timeout now later m =
    lease_found timeout now later m (oldest (keep is_queued (memory_list m)))

abbrev pub discard : QueueResult AgentRunRecord → QueueResult (Unit {0})
discard (ok r, m) = (ok tt, m)
discard (err e, m) = (err e, m)

-- `ack`
unfoldable pub ack : String → Time → MemoryAgentRunStore → QueueResult (Unit {0})
ack run_id now m = discard (memory_transition run_id completed now m)

-- `nack`
unfoldable pub nack : String → Time → MemoryAgentRunStore → QueueResult (Unit {0})
nack run_id now m = discard (memory_transition run_id queued now m)

-- the test of `recover_expired_leases`: a running record whose lease has run out
abbrev pub is_overdue : ℕ → Time → AgentRunRecord → Bool
is_overdue timeout now r = is_running r && leb (r.updated_at + timeout) now

abbrev pub recovered_first : String → QueueResult (List String) → QueueResult (List String)
recovered_first run_id (ok ids, m) = (ok (run_id ∷ ids), m)
recovered_first run_id (err e, m) = (err e, m)

-- the end of the body of the loop of `recover_expired_leases`, and the rest of the loop
abbrev pub then_recover :
    String
    → (MemoryAgentRunStore → QueueResult (List String))
    → QueueResult AgentRunRecord
    → QueueResult (List String)
then_recover run_id rest (err e, m) = (err e, m)
then_recover run_id rest (ok r, m) = recovered_first run_id (rest m)

-- the body of the loop, by whether the record is overdue, and the rest of the loop
abbrev pub recover_step :
    Bool
    → Time
    → AgentRunRecord
    → (MemoryAgentRunStore → QueueResult (List String))
    → MemoryAgentRunStore
    → QueueResult (List String)
recover_step true later r rest m =
    then_recover r.run_id rest (memory_transition r.run_id queued later m)
recover_step false later r rest m = rest m

-- the loop of `recover_expired_leases` over the records listed at its start; `later` is the time
-- that the transitions write
unfoldable pub recover_loop :
    ℕ → (now later : Time) → List AgentRunRecord → MemoryAgentRunStore → QueueResult (List String)
recover_loop timeout now later [] m = (ok [], m)
recover_loop timeout now later (r ∷ rs) m =
    recover_step (is_overdue timeout now r) later r (recover_loop timeout now later rs) m

-- `sort` on texts
unfoldable pub insert_sorted : String → List String → List String
insert_sorted x [] = x ∷ []
insert_sorted x (y ∷ ys) =
    let rest = insert_sorted x ys in if text_lt y x then y ∷ rest else x ∷ y ∷ ys

unfoldable pub sort : List String → List String
unfolding insert_sorted
sort [] = []
sort (x ∷ xs) = insert_sorted x (sort xs)

abbrev pub sort_ids : QueueResult (List String) → QueueResult (List String)
sort_ids (ok ids, m) = (ok (sort ids), m)
sort_ids (err e, m) = (err e, m)

-- `recover_expired_leases`
unfoldable pub recover_expired_leases :
    ℕ → (now later : Time) → MemoryAgentRunStore → QueueResult (List String)
unfolding recover_loop
recover_expired_leases timeout now later m =
    sort_ids (recover_loop timeout now later (memory_list m) m)

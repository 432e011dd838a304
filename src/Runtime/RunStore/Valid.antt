-- ===== src/Runtime/RunStore/Valid.antt =====
-- What the operations of the store in memory keep: crates/agent-runtime/src/run_store.rs.
use connor_agent_core.Common.{String, ◌≡◌, refl, arith, Option, none, some, [], if_rule}
use connor_agent_core.Common.Dict.{
  get, get_nil, contains, insert, IsUnique, insert-IsUnique, Entries, insert-Entries,
}
use connor_agent_core.Domain.Descriptors.{Time}
use connor_agent_core.Runtime.RunStore.{
  AgentRunRecord, DurableAgentRunStatus, MemoryAgentRunStore, memory_insert, memory_transition,
  transition_found, transition_record, StoreResult, write_back, is_valid_transition,
}

-- A store that its own operations make: no id twice, each record under its own id.
pub record IsValidStore (m : MemoryAgentRunStore) : Type 0 where
  pub unique : IsUnique m
  pub keyed : Entries (λ k r. r.run_id ≡ k) m

pub empty-IsValidStore : IsValidStore []
empty-IsValidStore = record {
  unique = tt;
  keyed = λ k r e. grind (arith, get_nil {V = AgentRunRecord} k);
}

pub put-IsValidStore :
    (k : String) (r : AgentRunRecord) (m : MemoryAgentRunStore)
    → r.run_id ≡ k
    → IsValidStore m
    → IsValidStore (insert k r m)
put-IsValidStore k r m e v = record {
  unique = insert-IsUnique k r m v.unique;
  keyed = insert-Entries k r m e v.keyed;
}

-- `insert` keeps ids unique and records under their own ids.
pub memory_insert-IsValidStore :
    (r : AgentRunRecord) (m : MemoryAgentRunStore)
    → IsValidStore m
    → IsValidStore (memory_insert r m).1
unfolding memory_insert
memory_insert-IsValidStore r m v =
    if_rule (λ (o : StoreResult (Unit {0}) × MemoryAgentRunStore). IsValidStore o.1)
      (contains r.run_id m) v (put-IsValidStore r.run_id r m refl v)

found-IsValidStore :
    (k : String) (to : DurableAgentRunStatus) (now : Time) (m : MemoryAgentRunStore)
    → IsValidStore m
    → (o : Option AgentRunRecord) → get k m ≡ o
    → IsValidStore (transition_found k to now m o).1
unfolding transition_found transition_record write_back
found-IsValidStore k to now m v none e = v
found-IsValidStore k to now m v (some r) e =
    let moved : AgentRunRecord = record r { status = to; updated_at = now } in
    if_rule (λ o. IsValidStore (write_back k m o).1) (is_valid_transition r.status to)
      (put-IsValidStore k moved m (v.keyed k r e) v) v

-- `transition` keeps ids unique and records under their own ids.
pub memory_transition-IsValidStore :
    (k : String) (to : DurableAgentRunStatus) (now : Time) (m : MemoryAgentRunStore)
    → IsValidStore m
    → IsValidStore (memory_transition k to now m).1
unfolding memory_transition
memory_transition-IsValidStore k to now m v = found-IsValidStore k to now m v (get k m) refl

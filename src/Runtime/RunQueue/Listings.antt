-- ===== src/Runtime/RunQueue/Listings.antt =====
-- What the run queue lists: `active_leases` and `queued_run_ids` of
-- crates/agent-runtime/src/run_queue.rs.
use connor_agent_core.Common.{
  ℕ, String, Bool, ◌≡◌, refl, ap, ◌∙◌, List, [], ◌∷◌, if◌then◌else◌, keep, map, any, ◌+◌, ◌||◌,
  ◌&&◌, ◌==◌, arith,
}
use connor_agent_core.Common.Members.{any-keep}
use connor_agent_core.Common.Dict.{Dict, insert, values}
use connor_agent_core.Runtime.RunStore.{
  AgentRunRecord, MemoryAgentRunStore, StoreResult, ok, memory_list,
}
use connor_agent_core.Runtime.RunQueue.{AgentRunLease, is_queued, is_running, is_before}

abbrev lease_from_record : ℕ → AgentRunRecord → String × AgentRunLease
lease_from_record timeout r = (
  r.run_id,
  record { run_id = r.run_id; leased_at = r.updated_at; expires_at = r.updated_at + timeout },
)

-- `collect` into a `BTreeMap`
abbrev collect : List (String × AgentRunLease) → Dict AgentRunLease → Dict AgentRunLease
collect [] m = m
collect ((k, l) ∷ ls) m = collect ls (insert k l m)

-- `active_leases`
unfoldable pub active_leases : ℕ → MemoryAgentRunStore → StoreResult (List AgentRunLease)
active_leases timeout m =
    ok (values (collect (map (lease_from_record timeout) (keep is_running (memory_list m))) []))

-- `sort` on pairs of the time of creation and the id
abbrev place_run : AgentRunRecord → List AgentRunRecord → List AgentRunRecord
place_run r [] = r ∷ []
place_run r (q ∷ qs) = let rest = place_run r qs in if is_before q r then q ∷ rest else r ∷ q ∷ qs

abbrev sort_runs : List AgentRunRecord → List AgentRunRecord
sort_runs [] = []
sort_runs (r ∷ rs) = place_run r (sort_runs rs)

-- `queued_run_ids`
unfoldable pub queued_run_ids : MemoryAgentRunStore → StoreResult (List String)
queued_run_ids m =
    ok (map (λ (r : AgentRunRecord). r.run_id) (sort_runs (keep is_queued (memory_list m))))

any-place_run :
    (p : AgentRunRecord → Bool) (r : AgentRunRecord) (rs : List AgentRunRecord)
    → any p (place_run r rs) ≡ (p r || any p rs)
any-place_run p r [] = refl
any-place_run p r (q ∷ qs) = ground (arith, any-place_run p r qs)

any-sort_runs :
    (p : AgentRunRecord → Bool) (rs : List AgentRunRecord) → any p (sort_runs rs) ≡ any p rs
any-sort_runs p [] = refl
any-sort_runs p (r ∷ rs) =
    any-place_run p r (sort_runs rs) ∙ ap (λ (b : Bool). p r || b) (any-sort_runs p rs)

any-map_run_id :
    (id : String) (rs : List AgentRunRecord)
    → any (λ (k : String). k == id) (map (λ (r : AgentRunRecord). r.run_id) rs)
      ≡ any (λ (r : AgentRunRecord). r.run_id == id) rs
any-map_run_id id [] = refl
any-map_run_id id (r ∷ rs) = ap (λ (b : Bool). (r.run_id == id) || b) (any-map_run_id id rs)

-- The ids that are listed as queued are those of the queued records.
any-queued_run_ids :
    (id : String) (m : MemoryAgentRunStore)
    → (ids : List String) × (queued_run_ids m ≡ ok ids)
      × (any (λ (k : String). k == id) ids
          ≡ any (λ (r : AgentRunRecord). is_queued r && (r.run_id == id)) (memory_list m))
unfolding queued_run_ids
any-queued_run_ids id m = (
  map (λ (r : AgentRunRecord). r.run_id) (sort_runs (keep is_queued (memory_list m))),
  refl,
  any-map_run_id id (sort_runs (keep is_queued (memory_list m)))
      ∙ any-sort_runs (λ (r : AgentRunRecord). r.run_id == id) (keep is_queued (memory_list m))
      ∙ any-keep (λ (r : AgentRunRecord). r.run_id == id) is_queued (memory_list m),
)

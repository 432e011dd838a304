-- ===== src/Runtime/RunQueue/Lease.antt =====
-- What `lease` of crates/agent-runtime/src/run_queue.rs takes.
use connor_agent_core.Common.{
  ℕ, String, ◌≡◌, refl, true, false, none, some, List, [], ◌∷◌, arith, keep, All, All-keep,
  All-keep_self, ◌≤◌, ◌⊎◌, inl, inr, subst, sym, ap, ◌∙◌, if◌then◌else◌, if_rule, keep-none,
  All-of_keep,
}
use connor_agent_core.Common.Dict.{get, values, values-get, All-values, insert}
use connor_agent_core.Domain.Descriptors.{Time}
use connor_agent_core.Runtime.RunStore.{
  AgentRunRecord, MemoryAgentRunStore, ok, running, memory_transition, transition_found,
  transition_record, write_back, is_valid_transition,
}
use connor_agent_core.Runtime.RunStore.Valid.{IsValidStore}
use connor_agent_core.Runtime.RunQueue.{
  is_queued, is_before, oldest_from, oldest, lease_for, lease_found, lease,
}

oldest_from-All :
    (P : AgentRunRecord → Type 0) (best : AgentRunRecord) (rs : List AgentRunRecord)
    → P best
    → All P rs
    → P (oldest_from best rs)
unfolding oldest_from
oldest_from-All P best [] p h = p
oldest_from-All P best (r ∷ rs) p h =
    let next = if is_before r best then r else best in
    oldest_from-All P next rs (if_rule P (is_before r best) h.0 p) h.1

-- The chosen record was created no later than the first.
oldest_from-le :
    (best : AgentRunRecord) (rs : List AgentRunRecord)
    → (oldest_from best rs).created_at ≤ best.created_at
unfolding oldest_from
oldest_from-le best [] = omega arith
oldest_from-le best (r ∷ rs) = ground (arith, oldest_from-le r rs, oldest_from-le best rs)

oldest_from-least :
    (best : AgentRunRecord) (rs : List AgentRunRecord)
    → All (λ r. (oldest_from best rs).created_at ≤ r.created_at) rs
unfolding oldest_from
oldest_from-least best [] = tt
oldest_from-least best (r ∷ rs) =
    let next = if is_before r best then r else best in
    let head : (oldest_from next rs).created_at ≤ r.created_at =
      ground (arith, oldest_from-le next rs) in
    (head, oldest_from-least next rs)

-- The record is queued, and no queued record was created before it.
pub record IsOldestQueued (r : AgentRunRecord) (m : MemoryAgentRunStore) : Type 0 where
  pub found : get r.run_id m ≡ some r
  pub queued : is_queued r ≡ true
  pub least :
      (k : String) (o : AgentRunRecord)
      → get k m ≡ some o
      → is_queued o ≡ true
      → r.created_at ≤ o.created_at

-- The two outcomes of `lease`.
abbrev pub LeaseOutcome : ℕ → (now later : Time) → MemoryAgentRunStore → Type 0
LeaseOutcome timeout now later m =
    ((lease timeout now later m ≡ (ok none, m))
      × ((k : String) (r : AgentRunRecord) → get k m ≡ some r → is_queued r ≡ false))
    ⊎ ((r : AgentRunRecord) × IsOldestQueued r m
        × (lease timeout now later m ≡ (
          ok (some (lease_for r.run_id timeout later)),
          insert r.run_id (record r { status = running; updated_at = now }) m,
        )))

-- A queued record that the store holds is leased.
lease_found-lem :
    (timeout : ℕ) (now later : Time) (m : MemoryAgentRunStore) (r : AgentRunRecord)
    → get r.run_id m ≡ some r
    → is_queued r ≡ true
    → lease_found timeout now later m (some r) ≡ (
      ok (some (lease_for r.run_id timeout later)),
      insert r.run_id (record r { status = running; updated_at = now }) m,
    )
unfolding lease_found memory_transition transition_found transition_record write_back
    is_valid_transition
lease_found-lem timeout now later m r e q = ground arith

pub stored-All :
    (m : MemoryAgentRunStore) → IsValidStore m → All (λ r. get r.run_id m ≡ some r) (values m)
stored-All m v =
    All-values (λ r. get r.run_id m ≡ some r) m v.unique
      (λ k r e. subst (λ j. get j m ≡ some r) (sym (v.keyed k r e)) e)

-- The outcome, by what the filter keeps.
lease_by :
    (timeout : ℕ) (now later : Time) (m : MemoryAgentRunStore)
    → IsValidStore m
    → (xs : List AgentRunRecord) → keep is_queued (values m) ≡ xs
    → LeaseOutcome timeout now later m
unfolding lease lease_found oldest
lease_by timeout now later m v [] e =
    let nothing = keep-none is_queued (values m) e in
    inl (
      ap (λ xs. lease_found timeout now later m (oldest xs)) e,
      λ k r. values-get (λ o. is_queued o ≡ false) k r m nothing,
    )
lease_by timeout now later m v (x ∷ xs) e =
    let r = oldest_from x xs in
    let stored =
      subst (All (λ o. get o.run_id m ≡ some o)) e
        (All-keep (λ o. get o.run_id m ≡ some o) is_queued (values m) (stored-All m v)) in
    let passed = subst (All (λ o. is_queued o ≡ true)) e (All-keep_self is_queued (values m)) in
    let found = oldest_from-All (λ o. get o.run_id m ≡ some o) x xs stored.0 stored.1 in
    let is_q = oldest_from-All (λ o. is_queued o ≡ true) x xs passed.0 passed.1 in
    let least : All (λ o. r.created_at ≤ o.created_at) (keep is_queued (values m)) =
      subst (All (λ o. r.created_at ≤ o.created_at)) (sym e)
        (oldest_from-le x xs, oldest_from-least x xs) in
    let all_least = All-of_keep (λ o. r.created_at ≤ o.created_at) is_queued (values m) least in
    inr (
      r,
      record {
        found = found;
        queued = is_q;
        least = λ k o.
            values-get (λ o. is_queued o ≡ true → r.created_at ≤ o.created_at) k o m all_least;
      },
      ap (λ ys. lease_found timeout now later m (oldest ys)) e
          ∙ lease_found-lem timeout now later m r found is_q,
    )

-- On a store whose ids are unique and whose records stand under their own ids, `lease` never
-- reports an error: either no record is queued and nothing changes, or it takes a queued record
-- that no other queued record was created before, returns its lease, and only makes that record
-- run.
pub lease_lem :
    (timeout : ℕ) (now later : Time) (m : MemoryAgentRunStore)
    → IsValidStore m
    → LeaseOutcome timeout now later m
lease_lem timeout now later m v = lease_by timeout now later m v (keep is_queued (values m)) refl

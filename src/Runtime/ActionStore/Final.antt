-- ===== src/Runtime/ActionStore/Final.antt =====
-- An outcome is recorded once: crates/agent-runtime/src/action_store.rs.
use connor_agent_core.Common.{
  ℕ, String, ◌≡◌, refl, true, Option, none, some, List, [], ◌∷◌, arith, eq_iff, eq_self, nat_eq,
  if◌then◌else◌, ◌∙◌, ap,
}
use connor_agent_core.Common.Dict.{get, get-insert, contains_lem}
use connor_agent_core.Domain.Descriptors.{Time}
use connor_agent_core.Domain.Action.{ActionResultPayload}
use connor_agent_core.Runtime.ActionStore.{
  ActionRuntimeOutcome, ActionRecord, MemoryActionStore, StoreResult, ok, err, insert_request,
  record_outcome, outcome_found, apply_outcome, apply_over, write_back, outcome_eq, payload_eq,
  status_index, status_from_outcome, completed, approval_required, denied, failed,
  action_already_completed,
}

-- A call of the store.
pub data ActionCall : Type 0 where
  insert_call : ActionRecord → ActionCall
  outcome_call : String → ActionRuntimeOutcome → Time → ActionCall

unfoldable pub actions_after : List ActionCall → MemoryActionStore → MemoryActionStore
unfolding insert_request record_outcome
actions_after [] m = m
actions_after (insert_call r ∷ cs) m = actions_after cs (insert_request r m).1
actions_after (outcome_call k o now ∷ cs) m = actions_after cs (record_outcome k o now m).1

insert_request-keeps :
    (k : String) (r q : ActionRecord) (m : MemoryActionStore)
    → get k m ≡ some r
    → get k (insert_request q m).1 ≡ some r
unfolding insert_request
insert_request-keeps k r q m h =
    ground (arith, contains_lem q.action_id m, get-insert q.action_id k q m, eq_iff q.action_id k)

over-keeps :
    (k j : String) (r q : ActionRecord) (o existing : ActionRuntimeOutcome) (now : Time)
    (m : MemoryActionStore)
    → get k m ≡ some r
    → r.outcome ≡ some existing
    → get j m ≡ some q
    → (p : Option ActionRuntimeOutcome) → q.outcome ≡ p
    → get k (write_back j m (apply_over p q o now)).1 ≡ some r
unfolding write_back
over-keeps k j r q o existing now m h e f (some x) g =
    ground (arith, get-insert j k q m, eq_iff j k, outcome_eq x o)
over-keeps k j r q o existing now m h e f none g = ground (
  arith,
  get-insert j k (record q { status = status_from_outcome o; outcome = some o; updated_at = now })
      m,
  eq_iff j k,
)

found-keeps :
    (k j : String) (r : ActionRecord) (o existing : ActionRuntimeOutcome) (now : Time)
    (m : MemoryActionStore)
    → get k m ≡ some r
    → r.outcome ≡ some existing
    → (found : Option ActionRecord) → get j m ≡ found
    → get k (outcome_found j o now m found).1 ≡ some r
unfolding outcome_found apply_outcome write_back
found-keeps k j r o existing now m h e none f = h
found-keeps k j r o existing now m h e (some q) f =
    over-keeps k j r q o existing now m h e f q.outcome refl

-- Whatever calls follow, an action whose outcome is recorded keeps its record: no later call changes
-- its outcome, its status or its times.
recorded_outcome_final :
    (k : String) (r : ActionRecord) (o : ActionRuntimeOutcome) (cs : List ActionCall)
    (m : MemoryActionStore)
    → get k m ≡ some r
    → r.outcome ≡ some o
    → get k (actions_after cs m) ≡ some r
unfolding actions_after record_outcome
recorded_outcome_final k r o [] m h e = h
recorded_outcome_final k r o (insert_call q ∷ cs) m h e =
    recorded_outcome_final k r o cs (insert_request q m).1 (insert_request-keeps k r q m h) e
recorded_outcome_final k r o (outcome_call j p now ∷ cs) m h e =
    recorded_outcome_final k r o cs (record_outcome j p now m).1
      (found-keeps k j r p o now m h e (get j m) refl) e

nat_eq_self : (n : ℕ) → nat_eq n n ≡ true
nat_eq_self n = ground arith

payload_eq_self : (p : ActionResultPayload) → payload_eq p p ≡ true
payload_eq_self (ActionResultPayload.text a) = eq_self a
payload_eq_self (ActionResultPayload.json a) = eq_self a
payload_eq_self (ActionResultPayload.artifact_ref a) = eq_self a
payload_eq_self ActionResultPayload.empty = refl

outcome_eq_self : (o : ActionRuntimeOutcome) → outcome_eq o o ≡ true
outcome_eq_self (completed i a) = ground (
  arith,
  eq_self i,
  eq_self a.summary,
  payload_eq_self a.payload,
  nat_eq_self (status_index a.status),
  nat_eq_self a.completed_at,
)
outcome_eq_self (approval_required i a) = ground (arith, eq_self i, eq_self a)
outcome_eq_self (denied i a) = ground (arith, eq_self i, eq_self a)
outcome_eq_self (failed i a) = ground (arith, eq_self i, eq_self a)

-- What recording an outcome answers where one is recorded.
abbrev pub answer :
    ActionRecord → ActionRuntimeOutcome → ActionRuntimeOutcome → StoreResult ActionRecord
answer r o p = if outcome_eq o p then ok r else err (action_already_completed r.action_id)

over-answer :
    (k : String) (o p : ActionRuntimeOutcome) (later : Time) (m : MemoryActionStore)
    (r : ActionRecord) (existing : Option ActionRuntimeOutcome)
    → r.outcome ≡ some o
    → r.outcome ≡ existing
    → (write_back k m (apply_over existing r p later)).0 ≡ answer r o p
unfolding write_back
over-answer k o p later m r none e g = ground (arith, e, g)
over-answer k o p later m r (some x) e g = ground (arith, e, g)

found-answer :
    (k : String) (o p : ActionRuntimeOutcome) (later : Time) (m : MemoryActionStore)
    (r : ActionRecord)
    → get k m ≡ some r
    → r.outcome ≡ some o
    → (record_outcome k p later m).0 ≡ answer r o p
unfolding record_outcome outcome_found apply_outcome
found-answer k o p later m r h e =
    ap (λ found. (outcome_found k p later m found).0) h
    ∙ over-answer k o p later m r r.outcome e refl

-- Once an outcome of an action is recorded, then after any calls, recording the same outcome again
-- answers with the record as it is; recording any outcome answers so if the two compare equal, and
-- is refused as already completed if not.
pub record_outcome-again :
    (k : String) (r : ActionRecord) (o p : ActionRuntimeOutcome) (cs : List ActionCall)
    (m : MemoryActionStore) (later : Time)
    → get k m ≡ some r
    → r.outcome ≡ some o
    → ((record_outcome k o later (actions_after cs m)).0 ≡ ok r)
      × ((record_outcome k p later (actions_after cs m)).0 ≡ answer r o p)
record_outcome-again k r o p cs m later h e =
    let kept = recorded_outcome_final k r o cs m h e in
    let same = found-answer k o o later (actions_after cs m) r kept e in
    let refusal : StoreResult ActionRecord = err (action_already_completed r.action_id) in
    (
      same ∙ ap (λ b. if b then ok r else refusal) (outcome_eq_self o),
      found-answer k o p later (actions_after cs m) r kept e,
    )

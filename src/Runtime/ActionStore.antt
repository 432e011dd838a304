-- ===== src/Runtime/ActionStore.antt =====
-- The action store in memory: crates/agent-runtime/src/action_store.rs, with the outcomes of
-- crates/action-runtime/src/lib.rs. The store over a file is left out.
pub mod Final
use connor_agent_core.Common.{
  ℕ, String, Bool, true, false, ◌&&◌, Option, none, some, List, [], ◌∷◌, if◌then◌else◌, nat_eq,
  ◌==◌,
}
use connor_agent_core.Common.Dict.{Dict, get, contains, insert, values}
use connor_agent_core.Domain.Descriptors.{Time}
use connor_agent_core.Domain.Action.{ActionStatus, ActionResultPayload, ActionResult, ActionRequest}

pub data ActionRuntimeOutcome : Type 0 where
  completed : (action_id : String) → ActionResult → ActionRuntimeOutcome
  approval_required denied : (action_id reason : String) → ActionRuntimeOutcome
  failed : (action_id error_message : String) → ActionRuntimeOutcome

-- the derived `==` of `ActionStatus`, by the place of the constructor
abbrev pub status_index : ActionStatus → ℕ
status_index ActionStatus.pending = 0
status_index ActionStatus.approval_required = 1
status_index ActionStatus.running = 2
status_index ActionStatus.completed = 3
status_index ActionStatus.failed = 4
status_index ActionStatus.denied = 5
status_index ActionStatus.cancelled = 6

-- the derived `==` of `ActionResultPayload`
abbrev pub payload_eq : ActionResultPayload → ActionResultPayload → Bool
payload_eq (ActionResultPayload.text a) (ActionResultPayload.text b) = a == b
payload_eq (ActionResultPayload.json a) (ActionResultPayload.json b) = a == b
payload_eq (ActionResultPayload.artifact_ref a) (ActionResultPayload.artifact_ref b) = a == b
payload_eq ActionResultPayload.empty ActionResultPayload.empty = true
payload_eq _ _ = false

-- the derived `==` of `ActionResult`
abbrev pub result_eq : ActionResult → ActionResult → Bool
result_eq a b =
    nat_eq (status_index a.status) (status_index b.status)
    && payload_eq a.payload b.payload
    && a.summary == b.summary
    && nat_eq a.completed_at b.completed_at

-- the derived `==` of `ActionRuntimeOutcome`
abbrev pub outcome_eq : ActionRuntimeOutcome → ActionRuntimeOutcome → Bool
outcome_eq (completed i a) (completed j b) = i == j && result_eq a b
outcome_eq (approval_required i a) (approval_required j b) = i == j && a == b
outcome_eq (denied i a) (denied j b) = i == j && a == b
outcome_eq (failed i a) (failed j b) = i == j && a == b
outcome_eq _ _ = false

pub record ActionRecord : Type 0 where
  pub action_id : String
  pub request : ActionRequest
  pub status : ActionStatus
  pub outcome : Option ActionRuntimeOutcome
  pub audit_correlation_id : String
  pub idempotency_key : String
  pub requested_at : Time
  pub updated_at : Time

-- `ActionRecord::requested`
abbrev pub requested_record : ActionRequest → String → String → Time → ActionRecord
requested_record request audit_correlation_id idempotency_key now = record {
  action_id = request.action_id;
  request = request;
  status = ActionStatus.pending;
  outcome = none;
  audit_correlation_id = audit_correlation_id;
  idempotency_key = idempotency_key;
  requested_at = now;
  updated_at = now;
}

pub data ActionStoreError : Type 0 where
  not_found already_exists action_already_completed : String → ActionStoreError

pub data StoreResult {ℓ} (A : Type ℓ) : Type ℓ where
  ok : A → StoreResult A
  err : ActionStoreError → StoreResult A

abbrev pub MemoryActionStore : Type 0
MemoryActionStore = Dict ActionRecord

-- `insert_request`
unfoldable pub insert_request :
    ActionRecord → MemoryActionStore → StoreResult (Unit {0}) × MemoryActionStore
insert_request r m =
    if contains r.action_id m
    then (err (already_exists r.action_id), m)
    else (ok tt, insert r.action_id r m)

-- `status_from_outcome`
abbrev pub status_from_outcome : ActionRuntimeOutcome → ActionStatus
status_from_outcome (completed _ _) = ActionStatus.completed
status_from_outcome (approval_required _ _) = ActionStatus.approval_required
status_from_outcome (denied _ _) = ActionStatus.denied
status_from_outcome (failed _ _) = ActionStatus.failed

-- `apply_outcome`, by the outcome that the record has
abbrev pub apply_over :
    Option ActionRuntimeOutcome
    → ActionRecord
    → ActionRuntimeOutcome
    → Time
    → StoreResult ActionRecord
apply_over (some existing) r outcome now =
    if outcome_eq existing outcome then ok r else err (action_already_completed r.action_id)
apply_over none r outcome now =
    ok (record r { status = status_from_outcome outcome; outcome = some outcome; updated_at = now })

-- `apply_outcome`
unfoldable pub apply_outcome : ActionRecord → ActionRuntimeOutcome → Time → StoreResult ActionRecord
apply_outcome r outcome now = apply_over r.outcome r outcome now

unfoldable pub write_back :
    String
    → MemoryActionStore
    → StoreResult ActionRecord
    → StoreResult ActionRecord × MemoryActionStore
write_back action_id m (ok r) = (ok r, insert action_id r m)
write_back action_id m (err e) = (err e, m)

-- `record_outcome`, after `get_mut`
unfoldable pub outcome_found :
    String
    → ActionRuntimeOutcome
    → Time
    → MemoryActionStore
    → Option ActionRecord
    → StoreResult ActionRecord × MemoryActionStore
unfolding apply_outcome write_back
outcome_found action_id outcome now m none = (err (not_found action_id), m)
outcome_found action_id outcome now m (some r) =
    write_back action_id m (apply_outcome r outcome now)

-- `record_outcome`
unfoldable pub record_outcome :
    String
    → ActionRuntimeOutcome
    → Time
    → MemoryActionStore
    → StoreResult ActionRecord × MemoryActionStore
unfolding outcome_found
record_outcome action_id outcome now m = outcome_found action_id outcome now m (get action_id m)

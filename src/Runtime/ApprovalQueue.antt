-- ===== src/Runtime/ApprovalQueue.antt =====
-- The approval queue in memory: crates/agent-runtime/src/approval_queue.rs. A mutex is held for a
-- whole operation, so each is one step. An operation takes the time `now` at which it tests the
-- expiry and the time `later` that it writes. The queue over a file, which adds a line per call, is
-- left out.
pub mod Final
use connor_agent_core.Common.{
  String, Bool, true, false, Option, none, some, List, [], ◌∷◌, if◌then◌else◌, keep, leb, ◌&&◌,
}
use connor_agent_core.Common.Dict.{Dict, get, contains, insert, values}
use connor_agent_core.Domain.Descriptors.{Time}

pub data ApprovalStatus : Type 0 where
  pending approved denied revoked expired : ApprovalStatus

-- `ApprovalStatus::is_terminal`
abbrev pub is_terminal : ApprovalStatus → Bool
is_terminal pending = false
is_terminal approved = true
is_terminal denied = true
is_terminal revoked = true
is_terminal expired = true

-- `== ApprovalStatus::Pending`
abbrev pub is_pending : ApprovalStatus → Bool
is_pending pending = true
is_pending _ = false

pub data ApprovalDecisionKind : Type 0 where
  approved_kind denied_kind revoked_kind : ApprovalDecisionKind

pub record ApprovalDecision : Type 0 where
  pub kind : ApprovalDecisionKind
  pub decided_by : String
  pub reason : String
  pub decided_at : Time

-- `ApprovalDecision::revoked`
abbrev pub revoked_decision : String → Time → ApprovalDecision
revoked_decision reason now = record {
  kind = revoked_kind;
  decided_by = "system";
  reason = reason;
  decided_at = now;
}

pub record ApprovalRequest : Type 0 where
  pub approval_id : String
  pub action_id : String
  pub conversation_id : String
  pub requested_by : String
  pub reason : String
  pub requested_at : Time
  pub expires_at : Option Time

pub record ApprovalRecord : Type 0 where
  pub approval_id : String
  pub request : ApprovalRequest
  pub status : ApprovalStatus
  pub decision : Option ApprovalDecision
  pub updated_at : Time

-- `ApprovalRecord::pending`
abbrev pub pending_record : ApprovalRequest → Time → ApprovalRecord
pending_record request now = record {
  approval_id = request.approval_id;
  request = request;
  status = pending;
  decision = none;
  updated_at = now;
}

pub data ApprovalQueueError : Type 0 where
  not_found already_exists already_decided approval_expired : String → ApprovalQueueError

pub data ApprovalResult {ℓ} (A : Type ℓ) : Type ℓ where
  ok : A → ApprovalResult A
  err : ApprovalQueueError → ApprovalResult A

abbrev pub MemoryApprovalQueue : Type 0
MemoryApprovalQueue = Dict ApprovalRecord

abbrev pub QueueStep : Type 0 → Type 0
QueueStep A = ApprovalResult A × MemoryApprovalQueue

abbrev pub reached : Option Time → Time → Bool
reached none now = false
reached (some expires_at) now = leb expires_at now

-- `is_expired`
abbrev pub is_expired : Time → ApprovalRecord → Bool
is_expired now r = reached r.request.expires_at now

-- `enqueue`
unfoldable pub enqueue : ApprovalRequest → Time → MemoryApprovalQueue → QueueStep ApprovalRecord
enqueue request now m =
    let r = pending_record request now in
    if contains r.approval_id m
    then (err (already_exists r.approval_id), m)
    else (ok r, insert r.approval_id r m)

-- `decide`, where the record was found
unfoldable pub decide_record :
    String
    → ApprovalStatus
    → ApprovalDecision
    → (now later : Time) → MemoryApprovalQueue
    → ApprovalRecord
    → QueueStep ApprovalRecord
decide_record approval_id status decision now later m r =
    let lapsed : ApprovalRecord = record r { status = expired; updated_at = later } in
    let decided : ApprovalRecord = record r {
      status = status;
      decision = some decision;
      updated_at = later;
    } in
    if is_terminal r.status
    then (err (already_decided approval_id), m)
    else if is_expired now r
    then (err (approval_expired approval_id), insert approval_id lapsed m)
    else (ok decided, insert approval_id decided m)

abbrev pub decide_found :
    String
    → ApprovalStatus
    → ApprovalDecision
    → (now later : Time) → MemoryApprovalQueue
    → Option ApprovalRecord
    → QueueStep ApprovalRecord
decide_found approval_id status decision now later m none = (err (not_found approval_id), m)
decide_found approval_id status decision now later m (some r) =
    decide_record approval_id status decision now later m r

-- `decide`
unfoldable pub decide :
    String
    → ApprovalStatus
    → ApprovalDecision
    → (now later : Time) → MemoryApprovalQueue
    → QueueStep ApprovalRecord
unfolding decide_record
decide approval_id status decision now later m =
    decide_found approval_id status decision now later m (get approval_id m)

-- `approve`
unfoldable pub approve :
    String → ApprovalDecision → (now later : Time) → MemoryApprovalQueue → QueueStep ApprovalRecord
approve approval_id decision = decide approval_id approved decision

-- `deny`
unfoldable pub deny :
    String → ApprovalDecision → (now later : Time) → MemoryApprovalQueue → QueueStep ApprovalRecord
deny approval_id decision = decide approval_id denied decision

-- `revoke`
unfoldable pub revoke :
    String → String → (now later : Time) → MemoryApprovalQueue → QueueStep ApprovalRecord
revoke approval_id reason now later =
    decide approval_id revoked (revoked_decision reason now) now later

-- the body of the loop of `expire_pending_records`
abbrev pub expire_record : (now later : Time) → ApprovalRecord → ApprovalRecord
expire_record now later r =
    if is_pending r.status && is_expired now r
    then record r { status = expired; updated_at = later }
    else r

-- `expire_pending_records`
unfoldable pub expire_pending_records :
    (now later : Time) → MemoryApprovalQueue → MemoryApprovalQueue
expire_pending_records now later [] = []
expire_pending_records now later ((k, r) ∷ m) =
    (k, expire_record now later r) ∷ expire_pending_records now later m

-- `pending`
unfoldable pub list_pending :
    (now later : Time) → MemoryApprovalQueue → List ApprovalRecord × MemoryApprovalQueue
unfolding expire_pending_records
list_pending now later m =
    let after = expire_pending_records now later m in
    (keep (λ r. is_pending r.status) (values after), after)

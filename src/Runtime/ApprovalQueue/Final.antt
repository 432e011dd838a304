-- ===== src/Runtime/ApprovalQueue/Final.antt =====
-- What an approval cannot come back from: crates/agent-runtime/src/approval_queue.rs.
use connor_agent_core.Common.{
  String, true, false, Option, none, some, List, [], ◌∷◌, ◌≡◌, refl, arith, eq_iff, eq_self, All,
  All-keep_if,
}
use connor_agent_core.Common.Dict.{get, values, get-insert, contains_lem, map_value}
use connor_agent_core.Domain.Descriptors.{Time}
use connor_agent_core.Runtime.ApprovalQueue.{
  ApprovalStatus, ApprovalDecision, ApprovalRequest, ApprovalRecord, MemoryApprovalQueue, QueueStep,
  ApprovalQueueError, pending, approved, denied, ok, err, is_terminal, is_expired, enqueue,
  decide_record, decide_found, decide, approve, deny, revoke, revoked, revoked_decision,
  expire_record, expire_pending_records, list_pending, is_pending, pending_record,
}

-- A call of the queue, with its times.
pub data QueueCall : Type 0 where
  enqueue_call : ApprovalRequest → Time → QueueCall
  approve_call deny_call : String → ApprovalDecision → (now later : Time) → QueueCall
  revoke_call : String → String → (now later : Time) → QueueCall
  pending_call : (now later : Time) → QueueCall

unfoldable pub queue_after : QueueCall → MemoryApprovalQueue → MemoryApprovalQueue
unfolding enqueue approve deny revoke list_pending
queue_after (enqueue_call request now) m = (enqueue request now m).1
queue_after (approve_call k d now later) m = (approve k d now later m).1
queue_after (deny_call k d now later) m = (deny k d now later m).1
queue_after (revoke_call k reason now later) m = (revoke k reason now later m).1
queue_after (pending_call now later) m = (list_pending now later m).1

unfoldable pub queue_run : List QueueCall → MemoryApprovalQueue → MemoryApprovalQueue
unfolding queue_after
queue_run [] m = m
queue_run (c ∷ cs) m = queue_run cs (queue_after c m)

-- What `decide` does to a record that is found decided or undecided.
found_final :
    (k j : String) (r : ApprovalRecord) (status : ApprovalStatus) (d : ApprovalDecision)
    (now later : Time) (m : MemoryApprovalQueue)
    → is_terminal r.status ≡ true
    → get k m ≡ some r
    → (o : Option ApprovalRecord) → get j m ≡ o
    → get k (decide_found j status d now later m o).1 ≡ some r
unfolding decide_record
found_final k j r status d now later m t h none e = h
found_final k j r status d now later m t h (some q) e =
    let lapsed : ApprovalRecord = record q {
      status = ApprovalStatus.expired;
      updated_at = later;
    } in
    let decided : ApprovalRecord = record q {
      status = status;
      decision = some d;
      updated_at = later;
    } in
    ground (arith, get-insert j k lapsed m, get-insert j k decided m, eq_iff j k)

get-expire :
    (now later : Time) (k : String) (m : MemoryApprovalQueue)
    → get k (expire_pending_records now later m) ≡ map_value (expire_record now later) (get k m)
unfolding expire_pending_records get
get-expire now later k [] = refl
get-expire now later k ((j, r) ∷ m) = ground (arith, get-expire now later k m)

after_final :
    (k : String) (r : ApprovalRecord) (c : QueueCall) (m : MemoryApprovalQueue)
    → is_terminal r.status ≡ true
    → get k m ≡ some r
    → get k (queue_after c m) ≡ some r
unfolding queue_after enqueue approve deny revoke decide list_pending
after_final k r (enqueue_call q now) m t h =
    let fresh = pending_record q now in
    ground (
      arith,
      contains_lem q.approval_id m,
      get-insert q.approval_id k fresh m,
      eq_iff q.approval_id k,
    )
after_final k r (approve_call j d now later) m t h =
    found_final k j r approved d now later m t h (get j m) refl
after_final k r (deny_call j d now later) m t h =
    found_final k j r denied d now later m t h (get j m) refl
after_final k r (revoke_call j reason now later) m t h =
    found_final k j r revoked (revoked_decision reason now) now later m t h (get j m) refl
after_final k r (pending_call now later) m t h = ground (arith, get-expire now later k m)

-- Whatever calls follow, an approval that is approved, denied, revoked or expired keeps its record:
-- its status, its decision and its times.
pub decided_record_final :
    (k : String) (r : ApprovalRecord) (cs : List QueueCall) (m : MemoryApprovalQueue)
    → is_terminal r.status ≡ true
    → get k m ≡ some r
    → get k (queue_run cs m) ≡ some r
unfolding queue_run
decided_record_final k r [] m t h = h
decided_record_final k r (c ∷ cs) m t h =
    decided_record_final k r cs (queue_after c m) t (after_final k r c m t h)

-- What `decide` returned a record for: an undecided record, in time.
pub record IsDecided (k : String) (status : ApprovalStatus) (d : ApprovalDecision) (now : Time)
    (m : MemoryApprovalQueue) (r' : ApprovalRecord) (m' : MemoryApprovalQueue) : Type 0 where
  pub was : ApprovalRecord
  pub found : get k m ≡ some was
  pub undecided : was.status ≡ pending
  pub in_time : is_expired now was ≡ false
  pub status_is : r'.status ≡ status
  pub decision_is : r'.decision ≡ some d
  pub request_is : r'.request ≡ was.request
  pub stored : get k m' ≡ some r'

not_ok :
    {m m' : MemoryApprovalQueue} {r : ApprovalRecord} {e : ApprovalQueueError}
    → ◌≡◌ {A = QueueStep ApprovalRecord} (err e, m) (ok r, m')
    → ⊥
not_ok e = cc

found-IsDecided :
    (k : String) (status : ApprovalStatus) (d : ApprovalDecision) (now later : Time)
    (m m' : MemoryApprovalQueue) (r' : ApprovalRecord)
    → (o : Option ApprovalRecord) → get k m ≡ o
    → decide_found k status d now later m o ≡ (ok r', m')
    → IsDecided k status d now m r' m'
unfolding decide_record
found-IsDecided k status d now later m m' r' none h e = absurd (not_ok e)
found-IsDecided k status d now later m m' r' (some r) h e =
    let decided : ApprovalRecord = record r {
      status = status;
      decision = some d;
      updated_at = later;
    } in
    record {
      was = r;
      found = h;
      undecided = ground (arith, e);
      in_time = ground (arith, e);
      status_is = ground (arith, e);
      decision_is = ground (arith, e);
      request_is = ground (arith, e);
      stored = ground (arith, e, get-insert k k decided m, eq_self k);
    }

-- `approve` returns a record only for an approval that is recorded, that nobody has decided and
-- that has not expired; the record returned is then approved, carries the decision and the same
-- request, and is the one stored.
pub approve-IsDecided :
    (k : String) (d : ApprovalDecision) (now later : Time) (m m' : MemoryApprovalQueue)
    (r' : ApprovalRecord)
    → approve k d now later m ≡ (ok r', m')
    → IsDecided k approved d now m r' m'
unfolding approve decide
approve-IsDecided k d now later m m' r' e =
    found-IsDecided k approved d now later m m' r' (get k m) refl e

expire_record_lem :
    (now later : Time) (r : ApprovalRecord)
    → is_pending (expire_record now later r).status ≡ true
    → ((expire_record now later r).status ≡ pending)
      × (is_expired now (expire_record now later r) ≡ false)
expire_record_lem now later r h = ground arith

expired-Listed :
    (now later : Time) (m : MemoryApprovalQueue)
    → All
        (λ r. is_pending r.status ≡ true → (r.status ≡ pending) × (is_expired now r ≡ false))
        (values (expire_pending_records now later m))
unfolding expire_pending_records values
expired-Listed now later [] = tt
expired-Listed now later ((k, r) ∷ m) = (expire_record_lem now later r, expired-Listed now later m)

-- Each approval that `pending` lists is undecided, and not expired at the time of the call.
list_pending_lem :
    (now later : Time) (m : MemoryApprovalQueue)
    → All (λ r. (r.status ≡ pending) × (is_expired now r ≡ false)) (list_pending now later m).0
unfolding list_pending
list_pending_lem now later m =
    All-keep_if (λ r. (r.status ≡ pending) × (is_expired now r ≡ false)) (λ r. is_pending r.status)
      (values (expire_pending_records now later m)) (expired-Listed now later m)

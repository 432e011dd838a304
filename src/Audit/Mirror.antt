-- ===== src/Audit/Mirror.antt =====
-- The log that sends what it records to an enterprise sink in batches: `EnterpriseMirrorAuditLog` of
-- crates/audit-log/src/lib.rs, with the sink in memory. `display` writes a number. A call of
-- `log_event` takes the time `now` at which a failed delivery is noted; calls follow one another.
use connor_agent_core.Common.{
  ℕ, String, Bool, true, false, Option, none, some, List, [], ◌∷◌, ◌++◌, if◌then◌else◌, map, max,
  leb, length,
}
use connor_agent_core.Common.Format.{format}
use connor_agent_core.Domain.Descriptors.{Time}
use connor_agent_core.Audit.{AuditEvent, AuditResult, AuditLog, ok, err}

pub record EnterpriseAuditBatch : Type 0 where
  pub batch_id : String
  pub events : List AuditEvent
  pub created_at : Time

-- `EnterpriseAuditBatch::audit_ids`
abbrev pub audit_ids : List AuditEvent → List String
audit_ids events = map (λ (e : AuditEvent). e.audit_id) events

pub data EnterpriseAuditSinkStatus : Type 0 where
  accepted partially_accepted rejected transient_failure : EnterpriseAuditSinkStatus

-- `{:?}` of `EnterpriseAuditSinkStatus`
abbrev pub debug_status : EnterpriseAuditSinkStatus → String
debug_status accepted = "Accepted"
debug_status partially_accepted = "PartiallyAccepted"
debug_status rejected = "Rejected"
debug_status transient_failure = "TransientFailure"

abbrev is_transient_failure : EnterpriseAuditSinkStatus → Bool
is_transient_failure transient_failure = true
is_transient_failure _ = false

pub record EnterpriseAuditSinkResult : Type 0 where
  pub accepted_count : ℕ
  pub status : EnterpriseAuditSinkStatus
  pub message : Option String

pub data EnterpriseAuditError : Type 0 where
  permanent transient : String → EnterpriseAuditError

-- `EnterpriseAuditError::reason`
abbrev pub reason_of : EnterpriseAuditError → String
reason_of (permanent reason) = reason
reason_of (transient reason) = reason

-- `EnterpriseAuditError::is_transient`
abbrev pub is_transient : EnterpriseAuditError → Bool
is_transient (permanent reason) = false
is_transient (transient reason) = true

pub data SinkAnswer : Type 0 where
  delivered : EnterpriseAuditSinkResult → SinkAnswer
  failed : EnterpriseAuditError → SinkAnswer

-- `trait EnterpriseAuditSink`
pub record EnterpriseAuditSink : Type 1 where
  pub Sink : Type 0
  pub send_batch : EnterpriseAuditBatch → Sink → SinkAnswer × Sink

pub record MemoryEnterpriseAuditSink : Type 0 where
  pub batches : List EnterpriseAuditBatch
  pub failure : Option EnterpriseAuditError
  pub status : Option EnterpriseAuditSinkStatus

abbrev status_or_accepted : Option EnterpriseAuditSinkStatus → EnterpriseAuditSinkStatus
status_or_accepted none = accepted
status_or_accepted (some status) = status

abbrev send_unless :
    Option EnterpriseAuditError
    → EnterpriseAuditBatch
    → MemoryEnterpriseAuditSink
    → SinkAnswer × MemoryEnterpriseAuditSink
send_unless (some error) batch s = (failed error, s)
send_unless none batch s = (
  delivered (record {
    accepted_count = length batch.events;
    status = status_or_accepted s.status;
    message = none;
  }),
  record s { batches = s.batches ++ batch ∷ [] },
)

-- `impl EnterpriseAuditSink for MemoryEnterpriseAuditSink`
abbrev pub memory_sink : EnterpriseAuditSink
memory_sink = record {
  Sink = MemoryEnterpriseAuditSink;
  send_batch = λ batch s. send_unless s.failure batch s;
}

pub record EnterpriseAuditDeliveryFailure : Type 0 where
  pub batch_id : String
  pub failed_ids : List String
  pub reason : String
  pub transient_cause : Bool
  pub failed_at : Time

-- a failure to note, where the answer is one
abbrev reason_or : Option String → EnterpriseAuditSinkStatus → String
reason_or none status = format ("enterprise audit sink returned " ∷ debug_status status ∷ [])
reason_or (some message) status = message

abbrev failure_record :
    EnterpriseAuditBatch → String → Bool → Time → List EnterpriseAuditDeliveryFailure
failure_record batch reason transient_cause now =
    record {
      batch_id = batch.batch_id;
      failed_ids = audit_ids batch.events;
      reason = reason;
      transient_cause = transient_cause;
      failed_at = now;
    }
    ∷ []

abbrev failures_of_status :
    EnterpriseAuditSinkStatus
    → Option String
    → EnterpriseAuditBatch
    → Time
    → List EnterpriseAuditDeliveryFailure
failures_of_status accepted message batch now = []
failures_of_status status message batch now =
    failure_record batch (reason_or message status) (is_transient_failure status) now

-- the `match` in `send_enterprise_batch`
abbrev pub failures_of :
    SinkAnswer → EnterpriseAuditBatch → Time → List EnterpriseAuditDeliveryFailure
failures_of (delivered result) batch now = failures_of_status result.status result.message batch now
failures_of (failed error) batch now =
    failure_record batch (reason_of error) (is_transient error) now

module _ (display : ℕ → String) where
  -- `enterprise_batch_id`
  abbrev pub enterprise_batch_id : List AuditEvent → String
  enterprise_batch_id [] = format ("enterprise-batch-empty-" ∷ display 0 ∷ [])
  enterprise_batch_id (e ∷ es) =
      format ("enterprise-batch-" ∷ e.audit_id ∷ "-" ∷ display (length (e ∷ es)) ∷ [])

  -- `EnterpriseAuditBatch::new`
  abbrev pub new_batch : List AuditEvent → AuditResult EnterpriseAuditBatch
  new_batch [] = err "enterprise audit batch cannot be empty"
  new_batch (e ∷ es) = ok (record {
    batch_id = enterprise_batch_id (e ∷ es);
    events = e ∷ es;
    created_at = e.timestamp;
  })

  module _ (L : AuditLog) (K : EnterpriseAuditSink) where
    open L use {Log}
    open K use {Sink, send_batch}

    pub record EnterpriseMirrorAuditLog : Type 0 where
      pub local : Log
      pub enterprise : Sink
      pub batch_size : ℕ
      pub pending : List AuditEvent
      pub delivery_failures : List EnterpriseAuditDeliveryFailure

    -- `EnterpriseMirrorAuditLog::new`
    abbrev pub new_mirror : Log → Sink → ℕ → EnterpriseMirrorAuditLog
    new_mirror local enterprise batch_size = record {
      local = local;
      enterprise = enterprise;
      batch_size = max batch_size 1;
      pending = [];
      delivery_failures = [];
    }

    abbrev pub noted :
        EnterpriseAuditBatch
        → Time
        → SinkAnswer × Sink
        → EnterpriseMirrorAuditLog
        → EnterpriseMirrorAuditLog
    noted batch now (answer, sink) m = record m {
      enterprise = sink;
      delivery_failures = m.delivery_failures ++ failures_of answer batch now;
    }

    -- `send_enterprise_batch`
    abbrev pub send_enterprise_batch :
        EnterpriseAuditBatch → Time → EnterpriseMirrorAuditLog → EnterpriseMirrorAuditLog
    send_enterprise_batch batch now m = noted batch now (send_batch batch m.enterprise) m

    abbrev sent :
        AuditResult EnterpriseAuditBatch
        → Time
        → EnterpriseMirrorAuditLog
        → AuditResult (Unit {0}) × EnterpriseMirrorAuditLog
    sent (err reason) now m = (err reason, m)
    sent (ok batch) now m = (ok tt, send_enterprise_batch batch now m)

    -- the batch that is full, or none
    abbrev pub flush :
        List AuditEvent
        → Time
        → EnterpriseMirrorAuditLog
        → AuditResult (Unit {0}) × EnterpriseMirrorAuditLog
    flush pending now m =
        if leb m.batch_size (length pending)
        then sent (new_batch pending) now (record m { pending = [] })
        else (ok tt, record m { pending = pending })

    abbrev mirrored :
        AuditEvent
        → Time
        → AuditResult (Unit {0}) × Log
        → EnterpriseMirrorAuditLog
        → AuditResult (Unit {0}) × EnterpriseMirrorAuditLog
    mirrored event now (err reason, local) m = (err reason, record m { local = local })
    mirrored event now (ok u, local) m =
        flush (m.pending ++ event ∷ []) now (record m { local = local })

    -- `record` of `EnterpriseMirrorAuditLog`
    unfoldable pub mirror_record :
        AuditEvent
        → Time
        → EnterpriseMirrorAuditLog
        → AuditResult (Unit {0}) × EnterpriseMirrorAuditLog
    mirror_record event now m = mirrored event now (L.log_event event m.local) m

-- ===== src/Audit/Delivery.antt =====
-- That the mirroring log loses no event: crates/audit-log/src/lib.rs.
use connor_agent_core.Common.{ℕ, ◌<◌, String, ◌≡◌, Option, none, some, List, [], ◌∷◌, ◌++◌, length}
use connor_agent_core.Domain.Descriptors.{Time}
use connor_agent_core.Audit.{AuditEvent, memory_audit_sink}
use connor_agent_core.Audit.Mirror.{
  EnterpriseAuditBatch, EnterpriseAuditError, EnterpriseAuditDeliveryFailure, enterprise_batch_id,
  EnterpriseMirrorAuditLog, memory_sink, audit_ids, send_enterprise_batch, mirror_record,
}

abbrev batch_events : List EnterpriseAuditBatch → List AuditEvent
batch_events [] = []
batch_events (b ∷ bs) = b.events ++ batch_events bs

abbrev failure_ids : List EnterpriseAuditDeliveryFailure → List String
failure_ids [] = []
failure_ids (f ∷ fs) = f.failed_ids ++ failure_ids fs

module _ (display : ℕ → String) where
  abbrev pub Mirror : Type 0
  Mirror = EnterpriseMirrorAuditLog display memory_audit_sink memory_sink

  abbrev send : EnterpriseAuditBatch → Time → Mirror → Mirror
  send b now m = send_enterprise_batch display memory_audit_sink memory_sink b now m

  -- recording events one after another, each with its time
  abbrev pub record_all : List (AuditEvent × Time) → Mirror → Mirror
  record_all [] m = m
  record_all ((e, now) ∷ es) m =
      record_all es (mirror_record display memory_audit_sink memory_sink e now m).1

  -- the identifiers of what has left the queue: taken by the sink, or noted as failed if it fails
  abbrev pub settled : Mirror → Option EnterpriseAuditError → List String
  settled m none = audit_ids (batch_events m.enterprise.batches)
  settled m (some error) = failure_ids m.delivery_failures

  -- Every recorded event has been settled, once and in order, or is pending; and what is pending is
  -- less than a batch.
  pub record IsComplete (m : Mirror) : Type 0 where
    pub has_room : 0 < m.batch_size
    pub is_short : length m.pending < m.batch_size
    pub covers : settled m m.enterprise.failure ++ audit_ids m.pending ≡ audit_ids m.local

  abbrev batch_of : AuditEvent → List AuditEvent → EnterpriseAuditBatch
  batch_of e es = record {
    batch_id = enterprise_batch_id display (e ∷ es);
    events = e ∷ es;
    created_at = e.timestamp;
  }

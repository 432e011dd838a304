-- ===== src/Audit.antt =====
-- Audit events and the logs that keep them: crates/audit-log/src/lib.rs.
pub mod Integrity
pub mod Chain
pub mod Tamper
pub mod Mirror
pub mod Delivery
mod Tests
use connor_agent_core.Common.{String, Option, List, [], ◌∷◌, ◌++◌}
use connor_agent_core.Domain.Descriptors.{Time}

pub record AuditEvent : Type 0 where
  pub audit_id : String
  pub action_id : String
  pub action_kind : String
  pub requested_by : String
  pub approved_by : Option String
  pub input_summary : String
  pub side_effect : String
  pub policy_decision : String
  pub result_status : String
  pub result_summary : Option String
  pub conversation_id : Option String
  pub message_id : Option String
  pub timestamp : Time

pub data AuditResult {ℓ} (A : Type ℓ) : Type ℓ where
  ok : A → AuditResult A
  err : String → AuditResult A

-- `trait AuditLog`
pub record AuditLog : Type 1 where
  pub Log : Type 0
  pub log_event : AuditEvent → Log → AuditResult (Unit {0}) × Log
  pub list : Log → AuditResult (List AuditEvent)

-- `impl AuditLog for MemoryAuditSink`
abbrev pub memory_audit_sink : AuditLog
memory_audit_sink = record {
  Log = List AuditEvent;
  log_event = λ event events. (ok tt, events ++ event ∷ []);
  list = λ events. ok events;
}

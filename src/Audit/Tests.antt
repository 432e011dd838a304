-- ===== src/Audit/Tests.antt =====
-- Concrete logs on which the theorems about crates/audit-log apply.
use connor_agent_core.Common.{◌≡◌, refl, none, some, true, false, [], ◌∷◌, String, map}
use connor_agent_core.Audit.{AuditEvent, ok}
use connor_agent_core.Audit.Integrity.{
  AuditCodec, AuditLine, envelope_line, AuditFile, verify, list, new_envelope, lines_of,
}
use connor_agent_core.Audit.Chain.{chain, recorded, recorded_log_verifies}
use connor_agent_core.Audit.Tamper.{as_current, envelopes, verified_log_is_chain}

abbrev plain_codec : AuditCodec
plain_codec = record {
  Line = AuditLine;
  sha256_hex = λ text. text;
  event_json = λ (e : AuditEvent). e.audit_id;
  encode = envelope_line;
  parse = λ line. line;
  is_blank = λ line. false;
  contents = λ lines. "";
  parse-encode = λ e. refl;
  encode-is_blank = λ e. refl;
}

abbrev event : String → AuditEvent
event id = record {
  audit_id = id;
  action_id = "act";
  action_kind = "knowledge.search";
  requested_by = "alice";
  approved_by = none;
  input_summary = "{}";
  side_effect = "ReadOnly";
  policy_decision = "allow";
  result_status = "completed";
  result_summary = none;
  conversation_id = none;
  message_id = none;
  timestamp = 5;
}

recorded_log_verifies_example :
    ((verify plain_codec (recorded plain_codec (event "a" ∷ event "b" ∷ []))).verified ≡ true)
    × ((verify plain_codec (recorded plain_codec (event "a" ∷ event "b" ∷ []))).event_count ≡ 2)
    × (list plain_codec (recorded plain_codec (event "a" ∷ event "b" ∷ []))
        ≡ ok (event "a" ∷ event "b" ∷ []))
recorded_log_verifies_example = recorded_log_verifies plain_codec (event "a" ∷ event "b" ∷ [])

abbrev one_line : AuditFile plain_codec
one_line = some (envelope_line (new_envelope plain_codec (event "a") none) ∷ [])

verified_log_is_chain_example :
    map as_current (envelopes plain_codec (lines_of plain_codec one_line))
    ≡ chain plain_codec none (event "a" ∷ [])
unfolding verify list
verified_log_is_chain_example =
    verified_log_is_chain plain_codec one_line (event "a" ∷ []) refl refl

-- ===== src/Audit/Integrity.antt =====
-- The hash chain of the JSONL audit log: `AuditIntegrityEnvelope` and `JsonlAuditSink` of
-- crates/audit-log/src/lib.rs. Each call of `log_event`, `list` and `verify` meets a file that can be
-- read and written.
use connor_agent_core.Common.{
  ℕ, suc, String, Bool, true, false, not, Option, none, some, List, [], ◌∷◌, ◌++◌, if◌then◌else◌,
  ◌==◌, ◌≡◌, keep, length, reverse,
}
use connor_agent_core.Common.Format.{format}
use connor_agent_core.Audit.{AuditEvent, AuditResult, ok, err}

abbrev pub current_audit_integrity_schema_version : ℕ
current_audit_integrity_schema_version = 1

pub record AuditIntegrityEnvelope : Type 0 where
  pub schema_version : ℕ
  pub event : AuditEvent
  pub event_hash : String
  pub previous_event_hash : Option String
  pub chain_hash : String

-- what `parse_audit_line` answers
pub data AuditLine : Type 0 where
  envelope_line : AuditIntegrityEnvelope → AuditLine
  legacy_line : AuditEvent → AuditLine
  unreadable : String → AuditLine

-- What the sink takes from the libraries: SHA-256 of a text as hexadecimal digits, `serde_json`,
-- and the test for blank lines.
pub record AuditCodec : Type 1 where
  pub Line : Type 0
  pub sha256_hex : String → String
  -- `serde_json::to_string` of an event
  pub event_json : AuditEvent → String
  pub encode : AuditIntegrityEnvelope → Line
  pub parse : Line → AuditLine
  pub is_blank : Line → Bool
  -- the bytes of a file
  pub contents : List Line → String
  pub parse-encode : (e : AuditIntegrityEnvelope) → parse (encode e) ≡ envelope_line e
  pub encode-is_blank : (e : AuditIntegrityEnvelope) → is_blank (encode e) ≡ false

pub data AuditIntegrityIssue : Type 0 where
  parse_error : ℕ → String → AuditIntegrityIssue
  legacy_event_without_integrity : ℕ → String → AuditIntegrityIssue
  event_hash_mismatch : (audit_id expected actual : String) → AuditIntegrityIssue
  previous_hash_mismatch :
      (audit_id : String) (expected actual : Option String) → AuditIntegrityIssue
  chain_hash_mismatch : (audit_id expected actual : String) → AuditIntegrityIssue

pub record AuditSegmentChecksum : Type 0 where
  pub event_count : ℕ
  pub checksum : String

pub record AuditIntegrityReport : Type 0 where
  pub verified : Bool
  pub event_count : ℕ
  pub segment_checksum : Option AuditSegmentChecksum
  pub issues : List AuditIntegrityIssue

-- `issues.is_empty()`
abbrev pub is_empty : List AuditIntegrityIssue → Bool
is_empty [] = true
is_empty (i ∷ is) = false

-- `AuditIntegrityReport::clean`
abbrev pub clean_report : ℕ → Option AuditSegmentChecksum → AuditIntegrityReport
clean_report event_count checksum = record {
  verified = true;
  event_count = event_count;
  segment_checksum = checksum;
  issues = [];
}

-- `AuditIntegrityReport::with_issues`
abbrev pub with_issues :
    ℕ → Option AuditSegmentChecksum → List AuditIntegrityIssue → AuditIntegrityReport
with_issues event_count checksum issues = record {
  verified = is_empty issues;
  event_count = event_count;
  segment_checksum = checksum;
  issues = issues;
}

-- `==` of optional texts
abbrev pub same_option : Option String → Option String → Bool
same_option none none = true
same_option none (some b) = false
same_option (some a) none = false
same_option (some a) (some b) = a == b

-- `unwrap_or("")`
abbrev pub or_blank : Option String → String
or_blank none = ""
or_blank (some hash) = hash

abbrev pub unless : Bool → AuditIntegrityIssue → List AuditIntegrityIssue
unless true issue = []
unless false issue = issue ∷ []

abbrev pub with_event : AuditEvent → AuditResult (List AuditEvent) → AuditResult (List AuditEvent)
with_event event (ok events) = ok (event ∷ events)
with_event event (err reason) = err reason

module _ (C : AuditCodec) where
  open C use {Line, sha256_hex, event_json, encode, parse, is_blank, contents}

  -- a file, if it exists
  abbrev pub AuditFile : Type 0
  AuditFile = Option (List Line)

  -- `AuditEvent::compute_hash`
  abbrev pub compute_hash : AuditEvent → String
  compute_hash event = sha256_hex (event_json event)

  abbrev pub compute_chain_hash : Option String → String → String
  compute_chain_hash previous event_hash =
      sha256_hex (format (or_blank previous ∷ "\n" ∷ event_hash ∷ []))

  -- `AuditIntegrityEnvelope::new`
  abbrev pub new_envelope : AuditEvent → Option String → AuditIntegrityEnvelope
  new_envelope event previous = record {
    schema_version = current_audit_integrity_schema_version;
    event = event;
    event_hash = compute_hash event;
    previous_event_hash = previous;
    chain_hash = compute_chain_hash previous (compute_hash event);
  }

  -- `AuditIntegrityEnvelope::verify`
  abbrev pub verify_envelope : Option String → AuditIntegrityEnvelope → List AuditIntegrityIssue
  verify_envelope expected e =
      unless (e.event_hash == compute_hash e.event)
        (event_hash_mismatch e.event.audit_id e.event_hash (compute_hash e.event))
      ++ (unless (same_option e.previous_event_hash expected)
            (previous_hash_mismatch e.event.audit_id expected e.previous_event_hash)
          ++ unless (e.chain_hash == compute_chain_hash e.previous_event_hash e.event_hash) (
              chain_hash_mismatch e.event.audit_id e.chain_hash
                (compute_chain_hash e.previous_event_hash e.event_hash)))

  -- one round of the loop of `verify`; `rest` is the loop from the next line on
  abbrev pub verify_line :
      ℕ
      → Option String
      → AuditLine
      → (Option String → ℕ × List AuditIntegrityIssue)
      → ℕ × List AuditIntegrityIssue
  verify_line n previous (envelope_line e) rest =
      let (count, issues) = rest (some e.chain_hash) in
      (suc count, verify_envelope previous e ++ issues)
  verify_line n previous (legacy_line event) rest =
      let (count, issues) = rest none in
      (suc count, legacy_event_without_integrity n event.audit_id ∷ issues)
  verify_line n previous (unreadable reason) rest =
      let (count, issues) = rest previous in (count, parse_error n reason ∷ issues)

  -- the loop of `verify`: the count and the issues from a line on, and the number before it
  abbrev pub verify_lines : ℕ → Option String → List Line → ℕ × List AuditIntegrityIssue
  verify_lines n previous [] = (0, [])
  verify_lines n previous (l ∷ ls) =
      let rest = (λ (p : Option String). verify_lines (suc n) p ls) in
      if is_blank l then rest previous else verify_line (suc n) previous (parse l) rest

  unfoldable pub compute_segment_checksum : AuditFile → AuditSegmentChecksum
  compute_segment_checksum none = record { event_count = 0; checksum = sha256_hex "" }
  compute_segment_checksum (some ls) = record {
    event_count = length (keep (λ l. not (is_blank l)) ls);
    checksum = sha256_hex (contents ls);
  }

  -- `JsonlAuditSink::verify`
  unfoldable pub verify : AuditFile → AuditIntegrityReport
  unfolding compute_segment_checksum
  verify none = clean_report 0 (some (compute_segment_checksum none))
  verify (some ls) =
      let (count, issues) = verify_lines 0 none ls in
      with_issues count (some (compute_segment_checksum (some ls))) issues

  abbrev pub chain_hash_of : AuditLine → Option String
  chain_hash_of (envelope_line e) = some e.chain_hash
  chain_hash_of (legacy_line event) = none
  chain_hash_of (unreadable reason) = none

  -- the loop of `previous_chain_hash`, over the lines from the last one back
  abbrev pub last_chain_hash : List Line → Option String
  last_chain_hash [] = none
  last_chain_hash (l ∷ ls) = if is_blank l then last_chain_hash ls else chain_hash_of (parse l)

  abbrev pub lines_of : AuditFile → List Line
  lines_of none = []
  lines_of (some ls) = ls

  abbrev pub previous_chain_hash : AuditFile → Option String
  previous_chain_hash file = last_chain_hash (reverse (lines_of file))

  -- `JsonlAuditSink::record`
  unfoldable pub log_event : AuditEvent → AuditFile → AuditFile
  log_event event file =
      some (lines_of file ++ encode (new_envelope event (previous_chain_hash file)) ∷ [])

  abbrev pub list_line : AuditLine → AuditResult (List AuditEvent) → AuditResult (List AuditEvent)
  list_line (envelope_line e) rest = with_event e.event rest
  list_line (legacy_line event) rest = with_event event rest
  list_line (unreadable reason) rest = err reason

  -- the loop of `list`
  abbrev pub list_lines : List Line → AuditResult (List AuditEvent)
  list_lines [] = ok []
  list_lines (l ∷ ls) =
      let rest = list_lines ls in if is_blank l then rest else list_line (parse l) rest

  -- `JsonlAuditSink::list`
  unfoldable pub list : AuditFile → AuditResult (List AuditEvent)
  list file = list_lines (lines_of file)

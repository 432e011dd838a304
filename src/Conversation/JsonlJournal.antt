-- ===== src/Conversation/JsonlJournal.antt =====
-- The journal of a conversation over segment files: crates/conversation-journal/src/jsonl.rs. A
-- directory holds the manifest and the segment files; the file of a segment is found by its index,
-- as its name is made of the index alone. Files that exist can be read; a write happens as a whole.
-- An error stands for its message. A directory is found by the id of its conversation: ids that the
-- source's path would lead to one directory, such as those with `..`, are left out.
pub mod Append
pub mod Grown
pub mod Loaded
pub mod Kept
pub mod Replayed
use connor_agent_core.Common.{
  ℕ, suc, ◌+◌, ◌≡◌, String, Bool, true, false, not, ◌&&◌, Option, none, some, List, [], ◌∷◌, ◌++◌,
  if◌then◌else◌, nat_eq, ltb, leb, max, ◌==◌, any, find, length,
}
use connor_agent_core.Common.Dict.{Dict, get, insert, is_some}
use connor_agent_core.Conversation.Event.{ConversationEventEnvelope}
use connor_agent_core.Conversation.Kernel.Checks.{Result, ok, err, journal_failed, ◌>>=◌}

pub record SegmentMetadata : Type 0 where
  pub index : ℕ
  pub event_count : ℕ
  pub bytes : ℕ
  pub checksum_sha256 : Option String
  pub previous_segment_checksum_sha256 : Option String

-- `SegmentMetadata::new`
abbrev pub new_segment : ℕ → SegmentMetadata
new_segment index = record {
  index = index;
  event_count = 0;
  bytes = 0;
  checksum_sha256 = none;
  previous_segment_checksum_sha256 = none;
}

pub record JournalManifest : Type 0 where
  pub version : ℕ
  pub max_segment_bytes : ℕ
  pub active_segment_index : ℕ
  pub total_events : ℕ
  pub segments : List SegmentMetadata

-- `JournalManifest::new`
abbrev pub new_manifest : ℕ → JournalManifest
new_manifest max_segment_bytes = record {
  version = 1;
  max_segment_bytes = max_segment_bytes;
  active_segment_index = 0;
  total_events = 0;
  segments = new_segment 0 ∷ [];
}

-- `active_segment`, without its `expect`
abbrev pub active_segment : JournalManifest → Option SegmentMetadata
active_segment m = find (λ (s : SegmentMetadata). nat_eq s.index m.active_segment_index) m.segments

-- `roll_segment`
abbrev pub roll_segment : JournalManifest → JournalManifest
roll_segment m = record m {
  active_segment_index = m.active_segment_index + 1;
  segments = m.segments ++ new_segment (m.active_segment_index + 1) ∷ [];
}

-- `has_integrity_metadata`
abbrev pub has_integrity_metadata : JournalManifest → Bool
has_integrity_metadata m = any (λ (s : SegmentMetadata). is_some s.checksum_sha256) m.segments

-- `sort_by_key(|segment| segment.index)`, which is stable
abbrev pub place_segment : SegmentMetadata → List SegmentMetadata → List SegmentMetadata
place_segment s [] = s ∷ []
place_segment s (t ∷ ts) =
    let rest = place_segment s ts in if leb s.index t.index then s ∷ t ∷ ts else t ∷ rest

abbrev pub sort_segments : List SegmentMetadata → List SegmentMetadata
sort_segments [] = []
sort_segments (s ∷ ss) = place_segment s (sort_segments ss)

pub data JournalIntegrityIssue : Type 0 where
  missing_segment : ℕ → JournalIntegrityIssue
  segment_byte_mismatch segment_event_count_mismatch :
      (segment expected actual : ℕ) → JournalIntegrityIssue
  segment_checksum_mismatch : ℕ → (expected actual : String) → JournalIntegrityIssue
  total_event_count_mismatch : (expected actual : ℕ) → JournalIntegrityIssue
  corrupted_event_line : (segment line_number : ℕ) → JournalIntegrityIssue
  hash_chain_mismatch : ℕ → String → Option String → JournalIntegrityIssue

-- What the journal takes from the libraries: `serde_json` and SHA-256. A line ends with its line
-- break, so its bytes are at least one.
pub record JournalCodec : Type 1 where
  pub Line : Type 0
  pub encode : ConversationEventEnvelope → Line
  pub decode : Line → Option ConversationEventEnvelope
  pub is_blank : Line → Bool
  pub line_bytes : Line → ℕ
  -- `sha256_hex` of the bytes of a file
  pub checksum : List Line → String
  pub decode-encode : (e : ConversationEventEnvelope) → decode (encode e) ≡ some e
  pub encode-is_blank : (e : ConversationEventEnvelope) → is_blank (encode e) ≡ false

abbrev pub when_not : Bool → JournalIntegrityIssue → List JournalIntegrityIssue
when_not true issue = []
when_not false issue = issue ∷ []

abbrev checksum_issues : ℕ → Option String → String → List JournalIntegrityIssue
checksum_issues index none actual = []
checksum_issues index (some expected) actual =
    when_not (expected == actual) (segment_checksum_mismatch index expected actual)

abbrev same_as : String → Option String → Bool
same_as expected none = false
same_as expected (some actual) = expected == actual

abbrev pub chain_issues : ℕ → Option String → Option String → List JournalIntegrityIssue
chain_issues index none previous = []
chain_issues index (some expected) previous =
    when_not (same_as expected previous) (hash_chain_mismatch index expected previous)

abbrev pub no_issues : List JournalIntegrityIssue → Bool
no_issues [] = true
no_issues (i ∷ is) = false

module _ (J : JournalCodec) where
  open J use {Line, encode, decode, is_blank, line_bytes, checksum}

  pub record Directory : Type 0 where
    pub manifest : Option JournalManifest
    pub files : ℕ → Option (List Line)

  abbrev pub new_directory : Directory
  new_directory = record { manifest = none; files = λ i. none }

  -- `bytes.len()` of a file
  abbrev pub size : List Line → ℕ
  size [] = 0
  size (l ∷ ls) = line_bytes l + size ls

  abbrev count_line :
      ℕ
      → ℕ
      → Option ConversationEventEnvelope
      → ℕ × List JournalIntegrityIssue
      → ℕ × List JournalIntegrityIssue
  count_line segment n (some e) (count, issues) = (suc count, issues)
  count_line segment n none (count, issues) = (count, corrupted_event_line segment n ∷ issues)

  -- `verify_jsonl_event_lines`, after `n` lines
  abbrev pub verify_event_lines : ℕ → ℕ → List Line → ℕ × List JournalIntegrityIssue
  verify_event_lines segment n [] = (0, [])
  verify_event_lines segment n (l ∷ ls) =
      let rest = verify_event_lines segment (suc n) ls in
      if is_blank l then rest else count_line segment (suc n) (decode l) rest

  -- the body of the loop of `verify` for a file that exists
  abbrev pub verify_file :
      SegmentMetadata → Option String → List Line → ℕ × List JournalIntegrityIssue
  verify_file s previous ls =
      let (count, parse_issues) = verify_event_lines s.index 0 ls in
      (
        count,
        when_not (nat_eq (size ls) s.bytes) (segment_byte_mismatch s.index s.bytes (size ls))
            ++ (checksum_issues s.index s.checksum_sha256 (checksum ls)
                ++ (chain_issues s.index s.previous_segment_checksum_sha256 previous
                    ++ (parse_issues
                        ++ when_not (nat_eq count s.event_count)
                            (segment_event_count_mismatch s.index s.event_count count)))),
      )

  -- the counts and the issues of one segment and of those after it
  abbrev pub together :
      ℕ × List JournalIntegrityIssue
      → ℕ × List JournalIntegrityIssue
      → ℕ × List JournalIntegrityIssue
  together (own, found) (count, issues) = (own + count, found ++ issues)

  abbrev pub verify_segment :
      SegmentMetadata
      → Option String
      → Option (List Line)
      → (Option String → ℕ × List JournalIntegrityIssue)
      → ℕ × List JournalIntegrityIssue
  verify_segment s previous none rest =
      let (count, issues) = rest none in (count, missing_segment s.index ∷ issues)
  verify_segment s previous (some ls) rest =
      together (verify_file s previous ls) (rest (some (checksum ls)))

  -- the loop of `verify`: the events verified and the issues
  abbrev pub verify_segments :
      (ℕ → Option (List Line))
      → Option String
      → List SegmentMetadata
      → ℕ × List JournalIntegrityIssue
  verify_segments files previous [] = (0, [])
  verify_segments files previous (s ∷ ss) =
      let rest = (λ (p : Option String). verify_segments files p ss) in
      verify_segment s previous (files s.index) rest

  -- `verify` of a manifest: the issues of its report
  unfoldable pub verify_issues :
      JournalManifest → (ℕ → Option (List Line)) → List JournalIntegrityIssue
  verify_issues m files =
      let (count, issues) = verify_segments files none (sort_segments m.segments) in
      issues
      ++ when_not (nat_eq count m.total_events) (total_event_count_mismatch m.total_events count)

  abbrev push_event :
      Option ConversationEventEnvelope
      → Result (List ConversationEventEnvelope)
      → Result (List ConversationEventEnvelope)
  push_event none rest = err (journal_failed "corrupted event")
  push_event (some e) rest = rest >>= λ es. ok (e ∷ es)

  -- `load_events_from_file`
  abbrev pub load_events : List Line → Result (List ConversationEventEnvelope)
  load_events [] = ok []
  load_events (l ∷ ls) =
      let rest = load_events ls in if is_blank l then rest else push_event (decode l) rest

  abbrev load_file : SegmentMetadata → Option (List Line) → Result (List ConversationEventEnvelope)
  load_file s none = ok []
  load_file s (some ls) =
      if nat_eq (size ls) s.bytes
      then load_events ls
      else err (journal_failed "segment byte count mismatch")

  -- the loop of `load`
  abbrev pub load_segments :
      (ℕ → Option (List Line)) → List SegmentMetadata → Result (List ConversationEventEnvelope)
  load_segments files [] = ok []
  load_segments files (s ∷ ss) =
      let rest = load_segments files ss in
      load_file s (files s.index) >>= λ es. rest >>= λ fs. ok (es ++ fs)

  abbrev pub check_total :
      JournalManifest → List ConversationEventEnvelope → Result (List ConversationEventEnvelope)
  check_total m events =
      if nat_eq (length events) m.total_events
      then ok events
      else err (journal_failed "total_events mismatch")

  -- `load` of a manifest
  abbrev pub load_manifest :
      JournalManifest → (ℕ → Option (List Line)) → Result (List ConversationEventEnvelope)
  load_manifest m files =
      if has_integrity_metadata m && not (no_issues (verify_issues m files))
      then err (journal_failed "verification failed")
      else load_segments files (sort_segments m.segments) >>= check_total m

  abbrev pub load_directory : Option Directory → Result (List ConversationEventEnvelope)
  load_directory none = ok []
  load_directory (some d) = elim d.manifest [ none ↦ ok [] | some m ↦ load_manifest m d.files ]

  -- `load`
  unfoldable pub jsonl_load : String → Dict Directory → Result (List ConversationEventEnvelope)
  unfolding verify_issues
  jsonl_load id store = load_directory (get id store)

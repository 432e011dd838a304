-- ===== src/Conversation/JsonlJournal/Append.antt =====
-- `append` of crates/conversation-journal/src/jsonl.rs.
use connor_agent_core.Common.{
  ℕ, ◌+◌, String, Bool, false, ◌&&◌, Option, none, some, List, [], ◌∷◌, ◌++◌, if◌then◌else◌, nat_eq,
  ltb, find,
}
use connor_agent_core.Common.Dict.{Dict, get, insert}
use connor_agent_core.Conversation.Event.{ConversationEventEnvelope}
use connor_agent_core.Conversation.Kernel.Checks.{Result, ok, err, journal_failed}
use connor_agent_core.Conversation.JsonlJournal.{
  SegmentMetadata, JournalManifest, JournalCodec, Directory, new_directory, new_manifest,
  active_segment, roll_segment,
}

-- how far the writes of an append get
pub data Writes : Type 0 where
  all_written line_not_written manifest_not_saved : Writes

-- `lines` of a file that may not exist
abbrev pub lines_in {ℓ} : {L : Type ℓ} → Option (List L) → List L
lines_in none = []
lines_in (some ls) = ls

abbrev pub checksum_in : Option SegmentMetadata → Option String
checksum_in none = none
checksum_in (some s) = s.checksum_sha256

-- the checksum of the segment before the active one
abbrev pub previous_checksum : JournalManifest → Option String
previous_checksum m =
    if ltb 0 m.active_segment_index
    then checksum_in
        (find (λ (s : SegmentMetadata). nat_eq (s.index + 1) m.active_segment_index) m.segments)
    else none

-- the writes through `active_segment_mut`
abbrev pub update_segment :
    ℕ → (SegmentMetadata → SegmentMetadata) → List SegmentMetadata → List SegmentMetadata
update_segment index f [] = []
update_segment index f (s ∷ ss) =
    let rest = update_segment index f ss in if nat_eq s.index index then f s ∷ ss else s ∷ rest

abbrev pub grown : ℕ → String → Option String → SegmentMetadata → SegmentMetadata
grown line_bytes checksum previous s = record s {
  event_count = s.event_count + 1;
  bytes = s.bytes + line_bytes;
  checksum_sha256 = some checksum;
  previous_segment_checksum_sha256 = previous;
}

-- the manifest after a line of `line_bytes` bytes in the active segment, whose file has `checksum`
abbrev pub counted : JournalManifest → ℕ → String → JournalManifest
counted m line_bytes checksum = record m {
  segments =
      update_segment m.active_segment_index (grown line_bytes checksum (previous_checksum m))
        m.segments;
  total_events = m.total_events + 1;
}

abbrev pub rolls : Option SegmentMetadata → ℕ → ℕ → Bool
rolls none line_bytes limit = false
rolls (some s) line_bytes limit = ltb 0 s.bytes && ltb limit (s.bytes + line_bytes)

-- the manifest with a new segment, if the line does not fit
abbrev pub with_room : ℕ → JournalManifest → JournalManifest
with_room line_bytes m =
    if rolls (active_segment m) line_bytes m.max_segment_bytes then roll_segment m else m

abbrev pub manifest_or_new : ℕ → Option JournalManifest → JournalManifest
manifest_or_new limit none = new_manifest limit
manifest_or_new limit (some m) = m

module _ (J : JournalCodec) where
  open J use {Line, encode, line_bytes, checksum}

  -- `load_or_create_manifest`
  abbrev pub start_manifest : ℕ → Directory J → JournalManifest
  start_manifest limit d = manifest_or_new limit d.manifest

  abbrev pub written : ℕ → Line → (ℕ → Option (List Line)) → ℕ → Option (List Line)
  written k l files i = if nat_eq i k then some (lines_in (files k) ++ l ∷ []) else files i

  -- the writes of an append that get as far as `w`, with the manifest that has room
  abbrev pub write_line :
      Writes → Line → JournalManifest → Directory J → Result (Unit {0}) × Directory J
  write_line line_not_written l m d = (err (journal_failed "line not written"), d)
  write_line manifest_not_saved l m d = (
    err (journal_failed "manifest not saved"),
    record d { files = written m.active_segment_index l d.files },
  )
  write_line all_written l m d =
      let files = written m.active_segment_index l d.files in
      let saved = counted m (line_bytes l) (checksum (lines_in (files m.active_segment_index))) in
      (ok tt, record { manifest = some saved; files = files })

  -- `append` in the directory of the conversation
  abbrev pub append_in :
      ℕ → Writes → ConversationEventEnvelope → Directory J → Result (Unit {0}) × Directory J
  append_in limit w e d =
      write_line w (encode e) (with_room (line_bytes (encode e)) (start_manifest limit d)) d

  abbrev pub directory_or_new : Option (Directory J) → Directory J
  directory_or_new none = new_directory J
  directory_or_new (some d) = d

  -- `append` of `JsonlConversationJournal`, whose limit is `max_segment_bytes`
  unfoldable pub jsonl_append :
      ℕ
      → Writes
      → ConversationEventEnvelope
      → Dict (Directory J)
      → Result (Unit {0}) × Dict (Directory J)
  jsonl_append limit w e store =
      let (result, d) = append_in limit w e (directory_or_new (get e.conversation_id store)) in
      (result, insert e.conversation_id d store)

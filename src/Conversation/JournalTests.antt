-- ===== src/Conversation/JournalTests.antt =====
-- A concrete journal of crates/conversation-journal/src/jsonl.rs, with segments of one line.
use connor_agent_core.Common.{String, true, false, ◌≡◌, refl, none, some, [], ◌∷◌, map}
use connor_agent_core.Common.Format.{format}
use connor_agent_core.Common.Dict.{Dict, get, insert, contains, place}
use connor_agent_core.Conversation.Event.{ConversationEvent, ConversationEventEnvelope}
use connor_agent_core.Conversation.Kernel.Checks.{ok, err, journal_failed}
use connor_agent_core.Conversation.JsonlJournal.{JournalCodec, Directory, jsonl_load, verify_issues}
use connor_agent_core.Conversation.JsonlJournal.Append.{
  jsonl_append, all_written, manifest_not_saved,
}
use connor_agent_core.Conversation.JsonlJournal.Replayed.{jsonl_appends, jsonl_load-appends}

abbrev ended : String → String → ConversationEventEnvelope
ended conversation_id event_id = record {
  schema_version = 1;
  event_id = event_id;
  conversation_id = conversation_id;
  occurred_at = 12;
  actor_id = none;
  event = ConversationEvent.agent_run_completed "run" "m1";
}

abbrev codec : JournalCodec
codec = record {
  Line = ConversationEventEnvelope;
  encode = λ e. e;
  decode = λ l. some l;
  is_blank = λ l. false;
  line_bytes = λ l. 100;
  checksum = λ ls. format (map (λ (l : ConversationEventEnvelope). l.event_id) ls);
  decode-encode = λ e. refl;
  encode-is_blank = λ e. refl;
}

jsonl_load-appends_example :
    jsonl_load codec "c1" (
      jsonl_appends codec 150
        ((true, ended "c1" "e1")
          ∷ (true, ended "c2" "e2")
          ∷ (false, ended "c1" "e3")
          ∷ (true, ended "c1" "e4")
          ∷ [])
        [])
    ≡ ok (ended "c1" "e1" ∷ ended "c1" "e4" ∷ [])
jsonl_load-appends_example =
    jsonl_load-appends codec 150
      ((true, ended "c1" "e1")
        ∷ (true, ended "c2" "e2")
        ∷ (false, ended "c1" "e3")
        ∷ (true, ended "c1" "e4")
        ∷ [])
      "c1"

-- one line whose manifest is saved, one whose manifest is not, and one more append that succeeds
abbrev torn : Dict (Directory codec)
unfolding jsonl_append
torn =
    (jsonl_append codec 150 all_written (ended "c1" "e3")
      (jsonl_append codec 500 manifest_not_saved (ended "c1" "e2")
        (jsonl_append codec 500 all_written (ended "c1" "e1") []).1).1).1

torn_append_is_final : jsonl_load codec "c1" torn ≡ err (journal_failed "verification failed")
unfolding torn jsonl_load verify_issues get insert contains place
torn_append_is_final = refl

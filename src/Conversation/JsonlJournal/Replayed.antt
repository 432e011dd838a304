-- ===== src/Conversation/JsonlJournal/Replayed.antt =====
-- Appends and loads of crates/conversation-journal/src/jsonl.rs in turn, and the journal as an
-- implementation of the trait.
use connor_agent_core.Common.{
  ℕ, String, Bool, true, false, ◌≡◌, refl, sym, ap, ◌∙◌, subst, Option, none, some, List, [], ◌∷◌,
  ◌++◌, keep, ◌==◌, eq_iff, ◌⊎◌, inl, inr, Bool-cases, if◌then◌else◌, length, arith,
}
use mathlib.Core.List.{append_assoc, append-nil}
use connor_agent_core.Common.Dict.{Dict, get, get-insert}
use connor_agent_core.Conversation.Event.{ConversationEventEnvelope}
use connor_agent_core.Conversation.Kernel.Checks.{Result, ok, err}
use connor_agent_core.Conversation.Kernel.Journal.{ConversationJournal}
use connor_agent_core.Conversation.JsonlJournal.{
  JournalManifest, JournalCodec, Directory, load_manifest, load_directory, jsonl_load,
}
use connor_agent_core.Conversation.JsonlJournal.Append.{
  Writes, all_written, line_not_written, with_room, start_manifest, append_in, directory_or_new,
  jsonl_append,
}
use connor_agent_core.Conversation.JsonlJournal.Grown.{Events}
use connor_agent_core.Conversation.JsonlJournal.Loaded.{load_manifest-chunks}
use connor_agent_core.Conversation.JsonlJournal.Kept.{
  IsKept, IsFresh, IsReady, fresh-IsReady, kept-IsReady, write_line-IsKept,
}

-- An append of which the line is written and the manifest saved, or neither.
abbrev Attempt : Type 0
Attempt = Bool × ConversationEventEnvelope

abbrev writes : Bool → Writes
writes true = all_written
writes false = line_not_written

-- the events that were appended, without those whose line was not written
abbrev pub stored : List Attempt → Events
stored [] = []
stored ((b, e) ∷ rest) = if b then e ∷ stored rest else stored rest

module _ (J : JournalCodec) where
  open J use {encode, line_bytes}

  -- The directory holds these events, or is new and there are none.
  abbrev Holds : Directory J → Events → Type 0
  Holds d es = IsFresh J d es ⊎ IsKept J d es

  abbrev Keeps : Dict (Directory J) → String → Events → Type 0
  Keeps store id es = Holds (directory_or_new J (get id store)) es

  load_directory-or_new :
      (o : Option (Directory J))
      → load_directory J o ≡ load_directory J (some (directory_or_new J o))
  load_directory-or_new none = refl
  load_directory-or_new (some d) = refl

  abbrev load_saved : (ℕ → Option (List J.Line)) → Option JournalManifest → Result Events
  load_saved files o = elim o [ none ↦ ok [] | some m ↦ load_manifest J m files ]

  load_directory-Holds :
      (d : Directory J) (es : Events) → Holds d es → load_directory J (some d) ≡ ok es
  load_directory-Holds d es (inl h) = ap (load_saved d.files) h.0 ∙ ap ok (sym h.1.0)
  load_directory-Holds d es (inr k) =
      ap (load_saved d.files) k.has_manifest
      ∙ load_manifest-chunks J k.saved d.files (k.front ++ k.last ∷ []) k.listed
          (k.total ∙ ap length (sym k.gathered)) k.held
      ∙ ap ok k.gathered

  jsonl_load-Keeps :
      (id : String) (store : Dict (Directory J)) (es : Events)
      → Keeps store id es
      → jsonl_load J id store ≡ ok es
  unfolding jsonl_load
  jsonl_load-Keeps id store es h =
      load_directory-or_new (get id store)
      ∙ load_directory-Holds (directory_or_new J (get id store)) es h

  with_room-IsReady :
      (limit n : ℕ) (d : Directory J) (es : Events)
      → Holds d es
      → IsReady J (with_room n (start_manifest J limit d)) d es
  with_room-IsReady limit n d es (inl h) = fresh-IsReady J limit n d es h
  with_room-IsReady limit n d es (inr k) = kept-IsReady J limit n d es k

  append_in-Holds :
      (limit : ℕ) (b : Bool) (e : ConversationEventEnvelope) (d : Directory J) (es : Events)
      → Holds d es
      → Holds (append_in J limit (writes b) e d).1 (if b then es ++ e ∷ [] else es)
  append_in-Holds limit false e d es h = h
  append_in-Holds limit true e d es h =
      let m = with_room (line_bytes (encode e)) (start_manifest J limit d) in
      inr (write_line-IsKept J m d es e (with_room-IsReady limit (line_bytes (encode e)) d es h))

  -- An append adds its event to its conversation, and leaves the others.
  jsonl_append-Keeps :
      (limit : ℕ) (b : Bool) (e : ConversationEventEnvelope) (store : Dict (Directory J))
      (id : String) (es : Events)
      → Keeps store id es
      → Keeps
          (jsonl_append J limit (writes b) e store).1
          id
          (if e.conversation_id == id then (if b then es ++ e ∷ [] else es) else es)
  unfolding jsonl_append
  jsonl_append-Keeps limit b e store id es h =
      let d =
        (append_in J limit (writes b) e (directory_or_new J (get e.conversation_id store))).1 in
      elim (Bool-cases (e.conversation_id == id)) [
        | inl same ↦
            let own : Keeps store e.conversation_id es =
              subst (λ (i : String). Keeps store i es) (sym ((eq_iff e.conversation_id id).0 same))
                h in
            rw (get-insert e.conversation_id id d store, same)
              (append_in-Holds limit b e (directory_or_new J (get e.conversation_id store)) es own)
        | inr other ↦ rw (get-insert e.conversation_id id d store, other) h
      ]

  -- `append` of each in turn
  abbrev pub jsonl_appends : ℕ → List Attempt → Dict (Directory J) → Dict (Directory J)
  unfolding jsonl_append
  jsonl_appends limit [] store = store
  jsonl_appends limit ((b, e) ∷ rest) store =
      jsonl_appends limit rest (jsonl_append J limit (writes b) e store).1

  stored-keep :
      (id : String) (b : Bool) (e : ConversationEventEnvelope) (rest : List Attempt) (es : Events)
      → (if e.conversation_id == id then (if b then es ++ e ∷ [] else es) else es)
          ++ keep (λ (x : ConversationEventEnvelope). x.conversation_id == id) (stored rest)
        ≡ es
          ++ keep
              (λ (x : ConversationEventEnvelope). x.conversation_id == id)
              (stored ((b, e) ∷ rest))
  stored-keep id b e rest es = ground (
    arith,
    append_assoc es (e ∷ [])
        (keep (λ (x : ConversationEventEnvelope). x.conversation_id == id) (stored rest)),
  )

  jsonl_appends-Keeps :
      (limit : ℕ) (attempts : List Attempt) (store : Dict (Directory J)) (id : String) (es : Events)
      → Keeps store id es
      → Keeps (jsonl_appends limit attempts store) id (
          es ++ keep (λ (x : ConversationEventEnvelope). x.conversation_id == id) (stored attempts))
  unfolding jsonl_appends
  jsonl_appends-Keeps limit [] store id es h = subst (Keeps store id) (sym (append-nil es)) h
  jsonl_appends-Keeps limit ((b, e) ∷ rest) store id es h =
      subst (Keeps (jsonl_appends limit ((b, e) ∷ rest) store) id) (stored-keep id b e rest es) (
        jsonl_appends-Keeps limit rest (jsonl_append J limit (writes b) e store).1 id
          (if e.conversation_id == id then (if b then es ++ e ∷ [] else es) else es)
          (jsonl_append-Keeps limit b e store id es h))

  -- After any appends to an empty store, each of which writes its line and saves the manifest or
  -- does neither, whatever the segment limit, loading a conversation passes the integrity check
  -- and gives the events whose line was written, those of that conversation, in the order of the
  -- appends.
  pub jsonl_load-appends :
      (limit : ℕ) (attempts : List Attempt) (id : String)
      → jsonl_load J id (jsonl_appends limit attempts [])
        ≡ ok (keep (λ (x : ConversationEventEnvelope). x.conversation_id == id) (stored attempts))
  unfolding get
  jsonl_load-appends limit attempts id =
      jsonl_load-Keeps id (jsonl_appends limit attempts [])
        (keep (λ (x : ConversationEventEnvelope). x.conversation_id == id) (stored attempts))
        (jsonl_appends-Keeps limit attempts [] id [] (inl (refl, (refl, λ i. refl))))

  -- A store that the journal alone has written, with the events that it holds.
  record KeptStore : Type 0 where
    store : Dict (Directory J)
    events : String → Events
    keeps : (id : String) → Keeps store id (events id)

  abbrev keep_append : ℕ → ConversationEventEnvelope → KeptStore → Result (Unit {0}) × KeptStore
  keep_append limit e s =
      let (result, store) = jsonl_append J limit all_written e s.store in
      (
        result,
        record {
          store = store;
          events = λ id. if e.conversation_id == id then s.events id ++ e ∷ [] else s.events id;
          keeps = λ id. jsonl_append-Keeps limit true e s.store id (s.events id) (s.keeps id);
        },
      )

  abbrev keep_load : String → KeptStore → Result Events
  keep_load id s = jsonl_load J id s.store

  keep_load_lem : (id : String) (s : KeptStore) → keep_load id s ≡ ok (s.events id)
  keep_load_lem id s = jsonl_load-Keeps id s.store (s.events id) (s.keeps id)

  loaded : Result Events → Events
  loaded (ok es) = es
  loaded (err e) = []

  loaded-injective : {es fs : Events} → ◌≡◌ {A = Result Events} (ok es) (ok fs) → es ≡ fs
  unfolding loaded
  loaded-injective h = ap loaded h

  keep_load-append :
      (limit : ℕ) (e : ConversationEventEnvelope) (s s' : KeptStore) (id : String) (es : Events)
      → keep_append limit e s ≡ (ok tt, s')
      → keep_load id s ≡ ok es
      → keep_load id s' ≡ ok (if e.conversation_id == id then es ++ e ∷ [] else es)
  keep_load-append limit e s s' id es h k =
      let same : s.events id ≡ es = loaded-injective (sym (keep_load_lem id s) ∙ k) in
      ap (λ r. keep_load id r.1) (sym h)
      ∙ keep_load_lem id (keep_append limit e s).1
      ∙ ap (λ (v : Events). ok (if e.conversation_id == id then v ++ e ∷ [] else v)) same

  -- `impl ConversationJournal for JsonlConversationJournal`, on stores that it alone has written
  abbrev jsonl_journal : ℕ → ConversationJournal
  jsonl_journal limit = record {
    Store = KeptStore;
    append = keep_append limit;
    load = keep_load;
    load-append = keep_load-append limit;
  }

-- ===== src/Conversation/JsonlJournal/Kept.antt =====
-- That the journal over files gives back what was appended:
-- crates/conversation-journal/src/jsonl.rs.
use connor_agent_core.Common.{
  ℕ, suc, ◌+◌, ◌<◌, Bool, true, false, ◌≡◌, refl, sym, ap, ◌∙◌, subst, Option, none, some, List, [],
  ◌∷◌, ◌++◌, arith, nat_eq, length, length-append, if◌then◌else◌,
}
use mathlib.Core.List.{append_assoc, append-nil}
use connor_agent_core.Conversation.Event.{ConversationEventEnvelope}
use connor_agent_core.Conversation.JsonlJournal.{
  SegmentMetadata, JournalManifest, JournalCodec, Directory, new_segment, active_segment,
  roll_segment,
}
use connor_agent_core.Conversation.JsonlJournal.Append.{
  all_written, with_room, written, write_line, start_manifest, rolls, manifest_or_new, lines_in,
  counted,
}
use connor_agent_core.Conversation.JsonlJournal.Grown.{
  Events, lines_of, lines_of-append, metadata, metadata_all, last_checksum, metadata_all-append,
  IsOpen, counted-segments,
}
use connor_agent_core.Conversation.JsonlJournal.Loaded.{events_in, FilesHold}

events_in-append : (cs : List Events) (c : Events) → events_in (cs ++ c ∷ []) ≡ events_in cs ++ c
events_in-append [] c = append-nil c
events_in-append (d ∷ cs) c =
    ap (λ (v : Events). d ++ v) (events_in-append cs c) ∙ sym (append_assoc d (events_in cs) c)

module _ (J : JournalCodec) where
  open J use {Line, encode, line_bytes, checksum}

  FilesHold-append :
      (files : ℕ → Option (List Line)) (i k : ℕ) (cs : List Events) (c : Events)
      → i ≡ k + length cs
      → FilesHold J files k cs
      → files i ≡ some (lines_of J c)
      → FilesHold J files k (cs ++ c ∷ [])
  FilesHold-append files i k [] c h held own = (ap files (omega (arith, h)) ∙ own, tt)
  FilesHold-append files i k (d ∷ cs) c h held own =
      (held.0, FilesHold-append files i (suc k) cs c (omega (arith, h)) held.1 own)

  FilesHold-front :
      (files : ℕ → Option (List Line)) (i k : ℕ) (cs : List Events) (c : Events)
      → i ≡ k + length cs
      → FilesHold J files k (cs ++ c ∷ [])
      → FilesHold J files k cs × (files i ≡ some (lines_of J c))
  FilesHold-front files i k [] c h held = (tt, ap files (omega (arith, h)) ∙ held.0)
  FilesHold-front files i k (d ∷ cs) c h held =
      let (front, own) = FilesHold-front files i (suc k) cs c (omega (arith, h)) held.1 in
      ((held.0, front), own)

  -- a write behind the chunks leaves their files
  FilesHold-written :
      (files : ℕ → Option (List Line)) (l : Line) (i k : ℕ) (cs : List Events)
      → i ≡ k + length cs
      → FilesHold J files k cs
      → FilesHold J (written J i l files) k cs
  FilesHold-written files l i k [] h held = tt
  FilesHold-written files l i k (d ∷ cs) h held =
      let other : nat_eq k i ≡ false = ground (arith, h) in
      (rw other held.0, FilesHold-written files l i (suc k) cs (omega (arith, h)) held.1)

  -- The directory holds these events: the manifest describes the chunks, their files hold them, and
  -- there is no file behind them.
  pub record IsKept (d : Directory J) (es : Events) : Type 0 where
    pub saved : JournalManifest
    pub front : List Events
    pub last : Events
    pub has_manifest : d.manifest ≡ some saved
    pub listed : saved.segments ≡ metadata_all J 0 none (front ++ last ∷ [])
    pub at_end : saved.active_segment_index ≡ length front
    pub total : saved.total_events ≡ length es
    pub gathered : events_in (front ++ last ∷ []) ≡ es
    pub held : FilesHold J d.files 0 (front ++ last ∷ [])
    pub beyond : (i : ℕ) → length front < i → d.files i ≡ none

  -- A directory that is ready for a line: see `IsOpen` for its manifest.
  pub record IsReady (m : JournalManifest) (d : Directory J) (es : Events) : Type 0 where
    front : List Events
    last : Events
    segment : SegmentMetadata
    is_open : IsOpen J m front last segment
    total : m.total_events ≡ length es
    gathered : events_in front ++ last ≡ es
    held : FilesHold J d.files 0 front
    own : lines_in (d.files (length front)) ≡ lines_of J last
    beyond : (i : ℕ) → length front < i → d.files i ≡ none

  -- The line extends the last chunk.
  pub write_line-IsKept :
      (m : JournalManifest) (d : Directory J) (es : Events) (e : ConversationEventEnvelope)
      → IsReady m d es
      → IsKept (write_line J all_written (encode e) m d).1 (es ++ e ∷ [])
  write_line-IsKept m d es e r =
      let k = length r.front in
      let files = written J m.active_segment_index (encode e) d.files in
      let at : files ≡ written J k (encode e) d.files =
        ap (λ (n : ℕ). written J n (encode e) d.files) r.is_open.at_end in
      let hit : nat_eq k k ≡ true = ground arith in
      let own : written J k (encode e) d.files k ≡ some (lines_of J (r.last ++ e ∷ [])) = rw hit (
        ap (λ (ls : List Line). some (ls ++ encode e ∷ [])) r.own
        ∙ ap some (sym (lines_of-append J r.last e))) in
      let own_lines : lines_in (files m.active_segment_index) ≡ lines_of J (r.last ++ e ∷ []) =
        rw r.is_open.at_end (ap lines_in own) in
      record {
        saved =
            counted m (line_bytes (encode e)) (checksum (lines_in (files m.active_segment_index)));
        front = r.front;
        last = r.last ++ e ∷ [];
        has_manifest = refl;
        listed =
            ap (λ (ls : List Line). (counted m (line_bytes (encode e)) (checksum ls)).segments)
              own_lines
            ∙ counted-segments J m r.front r.last r.segment e r.is_open;
        at_end = r.is_open.at_end;
        total = omega (arith, r.total, length-append es (e ∷ []));
        gathered =
            events_in-append r.front (r.last ++ e ∷ [])
            ∙ sym (append_assoc (events_in r.front) r.last (e ∷ []))
            ∙ ap (λ (v : Events). v ++ e ∷ []) r.gathered;
        held =
            subst (λ f. FilesHold J f 0 (r.front ++ (r.last ++ e ∷ []) ∷ [])) (sym at)
              (FilesHold-append (written J k (encode e) d.files) k 0 r.front (r.last ++ e ∷ [])
                (omega arith)
                (FilesHold-written d.files (encode e) k 0 r.front (omega arith) r.held) own);
        beyond = λ i h.
            let other : nat_eq i m.active_segment_index ≡ false =
              ground (arith, h, r.is_open.at_end) in
            rw other (r.beyond i h);
      }

  abbrev pub IsFresh : Directory J → Events → Type 0
  IsFresh d es = (d.manifest ≡ none) × ((es ≡ []) × ((i : ℕ) → d.files i ≡ none))

  pub fresh-IsReady :
      (limit : ℕ) (n : ℕ) (d : Directory J) (es : Events)
      → IsFresh d es
      → IsReady (with_room n (start_manifest J limit d)) d es
  fresh-IsReady limit n d es h =
      rw (h.0, h.1.0)
        record {
          front = [];
          last = [];
          segment = new_segment 0;
          is_open = record {
            listed = refl;
            at_end = refl;
            indexed = refl;
            events = refl;
            sized = refl;
          };
          total = refl;
          gathered = refl;
          held = tt;
          own = ap lines_in (h.1.1 0);
          beyond = λ i _. h.1.1 i;
        }

  -- A directory that is kept is ready, whether or not the segment is rolled.
  rolled-IsReady :
      (d : Directory J) (es : Events) (k : IsKept d es) (b : Bool)
      → IsReady (if b then roll_segment k.saved else k.saved) d es
  rolled-IsReady d es k true = record {
    front = k.front ++ k.last ∷ [];
    last = [];
    segment = new_segment (k.saved.active_segment_index + 1);
    is_open = record {
      listed =
          ap
            (λ (v : List SegmentMetadata). v ++ new_segment (k.saved.active_segment_index + 1) ∷ [])
            k.listed;
      at_end = omega (arith, k.at_end, length-append k.front (k.last ∷ []));
      indexed = omega (arith, k.at_end, length-append k.front (k.last ∷ []));
      events = refl;
      sized = refl;
    };
    total = k.total;
    gathered = append-nil (events_in (k.front ++ k.last ∷ [])) ∙ k.gathered;
    held = k.held;
    own = ap lines_in (
        k.beyond (length (k.front ++ k.last ∷ []))
          (omega (arith, length-append k.front (k.last ∷ []))));
    beyond = λ i h. k.beyond i (omega (arith, h, length-append k.front (k.last ∷ [])));
  }
  rolled-IsReady d es k false =
      let (front_held, own_held) =
        FilesHold-front d.files (length k.front) 0 k.front k.last (omega arith) k.held in
      record {
        front = k.front;
        last = k.last;
        segment = metadata J (length k.front) (last_checksum J none k.front) k.last;
        is_open = record {
          listed =
              k.listed ∙ metadata_all-append J (length k.front) 0 none k.front k.last (omega arith);
          at_end = k.at_end;
          indexed = refl;
          events = refl;
          sized = refl;
        };
        total = k.total;
        gathered = sym (events_in-append k.front k.last) ∙ k.gathered;
        held = front_held;
        own = ap lines_in own_held;
        beyond = k.beyond;
      }

  start_lem :
      {es : Events} (limit : ℕ) (d : Directory J) (k : IsKept d es)
      → start_manifest J limit d ≡ k.saved
  start_lem limit d k = ap (manifest_or_new limit) k.has_manifest

  pub kept-IsReady :
      (limit : ℕ) (n : ℕ) (d : Directory J) (es : Events)
      → IsKept d es
      → IsReady (with_room n (start_manifest J limit d)) d es
  kept-IsReady limit n d es k =
      subst (λ (m : JournalManifest). IsReady (with_room n m) d es) (sym (start_lem limit d k))
        (rolled-IsReady d es k (rolls (active_segment k.saved) n k.saved.max_segment_bytes))

-- ===== src/Conversation/JsonlJournal/Loaded.antt =====
-- What loading finds in the directories that appending makes:
-- crates/conversation-journal/src/jsonl.rs.
use connor_agent_core.Common.{
  ℕ, suc, String, Bool, true, false, ◌≡◌, refl, ap, ◌∙◌, Option, none, some, List, [], ◌∷◌, ◌++◌,
  arith, nat_eq, length, length-append, eq_self, leb, ◌&&◌,
}
use connor_agent_core.Conversation.Kernel.Checks.{ok}
use connor_agent_core.Conversation.JsonlJournal.{
  JournalManifest, JournalCodec, size, verify_event_lines, verify_file, verify_segment, together,
  verify_segments, verify_issues, sort_segments, place_segment, load_events, load_segments,
  load_manifest, chain_issues, has_integrity_metadata,
}
use connor_agent_core.Conversation.JsonlJournal.Grown.{Events, lines_of, metadata, metadata_all}

and_false : (b : Bool) → (b && false) ≡ false
and_false true = refl
and_false false = refl

nat_eq_self : (n : ℕ) → nat_eq n n ≡ true
nat_eq_self n = ground arith

-- the events of all the chunks
abbrev pub events_in : List Events → Events
events_in [] = []
events_in (c ∷ cs) = c ++ events_in cs

chain_issues_self : (k : ℕ) (p : Option String) → chain_issues k p p ≡ []
chain_issues_self k none = refl
chain_issues_self k (some c) = rw (eq_self c) refl

module _ (J : JournalCodec) where
  open J use {Line, encode, decode, is_blank, line_bytes, checksum, decode-encode, encode-is_blank}

  -- the files of the chunks, from index `k` on
  abbrev pub FilesHold : (ℕ → Option (List Line)) → ℕ → List Events → Type 0
  FilesHold files k [] = Unit
  FilesHold files k (c ∷ cs) = (files k ≡ some (lines_of J c)) × FilesHold files (suc k) cs

  place_segment-first :
      (k : ℕ) (p q : Option String) (c : Events) (cs : List Events)
      → place_segment (metadata J k p c) (metadata_all J (suc k) q cs)
        ≡ metadata J k p c ∷ metadata_all J (suc k) q cs
  place_segment-first k p q c [] = refl
  place_segment-first k p q c (d ∷ ds) =
      let before : leb k (suc k) ≡ true = ground arith in rw before refl

  sort_segments-metadata_all :
      (k : ℕ) (p : Option String) (cs : List Events)
      → sort_segments (metadata_all J k p cs) ≡ metadata_all J k p cs
  sort_segments-metadata_all k p [] = refl
  sort_segments-metadata_all k p (c ∷ cs) =
      rw (sort_segments-metadata_all (suc k) (some (checksum (lines_of J c))) cs)
        (place_segment-first k p (some (checksum (lines_of J c))) c cs)

  verify_event_lines-lines_of :
      (k n : ℕ) (es : Events) → verify_event_lines J k n (lines_of J es) ≡ (length es, [])
  verify_event_lines-lines_of k n [] = refl
  verify_event_lines-lines_of k n (e ∷ es) =
      rw (encode-is_blank e, decode-encode e, verify_event_lines-lines_of k (suc n) es) refl

  verify_file-metadata :
      (k : ℕ) (p : Option String) (es : Events)
      → verify_file J (metadata J k p es) p (lines_of J es) ≡ (length es, [])
  verify_file-metadata k p es =
      rw
        (
          verify_event_lines-lines_of k 0 es,
          nat_eq_self (size J (lines_of J es)),
          eq_self (checksum (lines_of J es)),
          chain_issues_self k p,
          nat_eq_self (length es),
        )
        refl

  verify_segments-metadata_all :
      (files : ℕ → Option (List Line)) (k : ℕ) (p : Option String) (cs : List Events)
      → FilesHold files k cs
      → verify_segments J files p (metadata_all J k p cs) ≡ (length (events_in cs), [])
  verify_segments-metadata_all files k p [] h = refl
  verify_segments-metadata_all files k p (c ∷ cs) h =
      ap
        (λ (o : Option (List Line)). verify_segment J (metadata J k p c) p o (λ q.
          verify_segments J files q (metadata_all J (suc k) (some (checksum (lines_of J c))) cs)))
        h.0
      ∙ ap
          (λ r. together J r (
            verify_segments J files (some (checksum (lines_of J c)))
              (metadata_all J (suc k) (some (checksum (lines_of J c))) cs)))
          (verify_file-metadata k p c)
      ∙ ap (λ r. together J (length c, []) r)
          (verify_segments-metadata_all files (suc k) (some (checksum (lines_of J c))) cs h.1)
      ∙ rw (length-append c (events_in cs)) refl

  load_events-lines_of : (es : Events) → load_events J (lines_of J es) ≡ ok es
  load_events-lines_of [] = refl
  load_events-lines_of (e ∷ es) =
      rw (encode-is_blank e, decode-encode e, load_events-lines_of es) refl

  load_segments-metadata_all :
      (files : ℕ → Option (List Line)) (k : ℕ) (p : Option String) (cs : List Events)
      → FilesHold files k cs
      → load_segments J files (metadata_all J k p cs) ≡ ok (events_in cs)
  load_segments-metadata_all files k p [] h = refl
  load_segments-metadata_all files k p (c ∷ cs) h =
      rw
        (
          h.0,
          nat_eq_self (size J (lines_of J c)),
          load_events-lines_of c,
          load_segments-metadata_all files (suc k) (some (checksum (lines_of J c))) cs h.1,
        )
        refl

  module _ (m : JournalManifest) (files : ℕ → Option (List Line)) (cs : List Events)
      (listed : m.segments ≡ metadata_all J 0 none cs)
      (total : m.total_events ≡ length (events_in cs)) (held : FilesHold files 0 cs) where
    pub verify_issues-chunks : verify_issues J m files ≡ []
    unfolding verify_issues
    verify_issues-chunks =
        rw
          (
            listed,
            sort_segments-metadata_all 0 none cs,
            verify_segments-metadata_all files 0 none cs held,
            total,
            nat_eq_self (length (events_in cs)),
          )
          refl

    pub load_manifest-chunks : load_manifest J m files ≡ ok (events_in cs)
    load_manifest-chunks =
        rw (verify_issues-chunks, and_false (has_integrity_metadata m))
          (rw
            (
              listed,
              sort_segments-metadata_all 0 none cs,
              load_segments-metadata_all files 0 none cs held,
              total,
              nat_eq_self (length (events_in cs)),
            )
            refl)

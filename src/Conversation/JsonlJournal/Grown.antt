-- ===== src/Conversation/JsonlJournal/Grown.antt =====
-- The manifests that appending makes: crates/conversation-journal/src/jsonl.rs. A journal is seen
-- as its chunks, the events of each segment in turn.
use connor_agent_core.Common.{
  ℕ, suc, ◌+◌, String, true, false, ◌≡◌, refl, sym, ap, ◌∙◌, Option, none, some, List, [], ◌∷◌,
  ◌++◌, map, arith, nat_eq, ltb, find, length, length-append, if◌then◌else◌,
}
use connor_agent_core.Conversation.Event.{ConversationEventEnvelope}
use connor_agent_core.Conversation.JsonlJournal.{
  SegmentMetadata, JournalManifest, JournalCodec, size,
}
use connor_agent_core.Conversation.JsonlJournal.Append.{checksum_in, update_segment, grown, counted}

abbrev pub Events : Type 0
Events = List ConversationEventEnvelope

module _ (J : JournalCodec) where
  open J use {Line, encode, line_bytes, checksum}

  abbrev pub lines_of : Events → List Line
  lines_of es = map encode es

  -- the metadata of a segment with these events
  abbrev pub metadata : ℕ → Option String → Events → SegmentMetadata
  metadata k previous es = record {
    index = k;
    event_count = length es;
    bytes = size J (lines_of es);
    checksum_sha256 = some (checksum (lines_of es));
    previous_segment_checksum_sha256 = previous;
  }

  -- the metadata of segments with these chunks, from index `k` on
  abbrev pub metadata_all : ℕ → Option String → List Events → List SegmentMetadata
  metadata_all k previous [] = []
  metadata_all k previous (c ∷ cs) =
      metadata k previous c ∷ metadata_all (suc k) (some (checksum (lines_of c))) cs

  -- the checksum of the last chunk
  abbrev pub last_checksum : Option String → List Events → Option String
  last_checksum previous [] = previous
  last_checksum previous (c ∷ cs) = last_checksum (some (checksum (lines_of c))) cs

  pub lines_of-append :
      (es : Events) (e : ConversationEventEnvelope)
      → lines_of (es ++ e ∷ []) ≡ lines_of es ++ encode e ∷ []
  lines_of-append [] e = refl
  lines_of-append (x ∷ xs) e = ap (λ (v : List Line). encode x ∷ v) (lines_of-append xs e)

  size-append : (xs : List Line) (l : Line) → size J (xs ++ l ∷ []) ≡ size J xs + line_bytes l
  size-append [] l = omega arith
  size-append (x ∷ xs) l = omega (arith, size-append xs l)

  cons_segment :
      (x : SegmentMetadata) {ss ts : List SegmentMetadata}
      → ss ≡ ts
      → ◌≡◌ {A = List SegmentMetadata} (x ∷ ss) (x ∷ ts)
  cons_segment x e = ap (λ (v : List SegmentMetadata). x ∷ v) e

  pub metadata_all-append :
      (i k : ℕ) (p : Option String) (cs : List Events) (c : Events)
      → i ≡ k + length cs
      → metadata_all k p (cs ++ c ∷ [])
        ≡ metadata_all k p cs ++ metadata i (last_checksum p cs) c ∷ []
  metadata_all-append i k p [] c h = ap (λ (n : ℕ). metadata n p c ∷ []) (omega (arith, h))
  metadata_all-append i k p (d ∷ cs) c h =
      cons_segment (metadata k p d)
        (metadata_all-append i (suc k) (some (checksum (lines_of d))) cs c (omega (arith, h)))

  -- updating the segment behind the chunks changes it alone
  pub update_segment-last :
      (i k : ℕ) (p : Option String) (cs : List Events) (x : SegmentMetadata)
      (f : SegmentMetadata → SegmentMetadata)
      → i ≡ k + length cs
      → x.index ≡ i
      → update_segment i f (metadata_all k p cs ++ x ∷ []) ≡ metadata_all k p cs ++ f x ∷ []
  update_segment-last i k p [] x f h e =
      let hit : nat_eq x.index i ≡ true = ground (arith, e) in rw hit refl
  update_segment-last i k p (d ∷ cs) x f h e =
      let miss : nat_eq k i ≡ false = ground (arith, h) in
      rw miss (
        cons_segment (metadata k p d) (
          update_segment-last i (suc k) (some (checksum (lines_of d))) cs x f (omega (arith, h)) e))

  -- the active segment is the one behind the chunks
  pub find-active :
      (i k : ℕ) (p : Option String) (cs : List Events) (x : SegmentMetadata)
      → i ≡ k + length cs
      → x.index ≡ i
      → find (λ (s : SegmentMetadata). nat_eq s.index i) (metadata_all k p cs ++ x ∷ []) ≡ some x
  find-active i k p [] x h e = let hit : nat_eq x.index i ≡ true = ground (arith, e) in rw hit refl
  find-active i k p (d ∷ cs) x h e =
      let miss : nat_eq k i ≡ false = ground (arith, h) in
      rw miss (find-active i (suc k) (some (checksum (lines_of d))) cs x (omega (arith, h)) e)

  -- the segment before it is the last chunk's
  pub find-previous :
      (i k : ℕ) (p : Option String) (cs : List Events) (x : SegmentMetadata)
      → i ≡ k + length cs
      → x.index ≡ i
      → checksum_in
          (find (λ (s : SegmentMetadata). nat_eq (s.index + 1) i) (metadata_all k p cs ++ x ∷ []))
        ≡ last_checksum none cs
  find-previous i k p [] x h e =
      let miss : nat_eq (x.index + 1) i ≡ false = ground (arith, e) in rw miss refl
  find-previous i k p (d ∷ []) x h e =
      let hit : nat_eq (k + 1) i ≡ true = ground (arith, h) in rw hit refl
  find-previous i k p (d ∷ (c ∷ cs)) x h e =
      let miss : nat_eq (k + 1) i ≡ false = ground (arith, h) in
      rw miss
        (find-previous i (suc k) (some (checksum (lines_of d))) (c ∷ cs) x (omega (arith, h)) e)

  -- What an append finds once there is room: the chunks before the active segment, and its events.
  pub record IsOpen (m : JournalManifest) (front : List Events) (last : Events)
      (x : SegmentMetadata) : Type 0 where
    pub listed : m.segments ≡ metadata_all 0 none front ++ x ∷ []
    pub at_end : m.active_segment_index ≡ length front
    pub indexed : x.index ≡ length front
    pub events : x.event_count ≡ length last
    pub sized : x.bytes ≡ size J (lines_of last)

  previous_behind :
      (front : List Events) (x : SegmentMetadata)
      → x.index ≡ length front
      → (if ltb 0 (length front)
          then checksum_in (
              find
                (λ (s : SegmentMetadata). nat_eq (s.index + 1) (length front))
                (metadata_all 0 none front ++ x ∷ []))
          else none)
        ≡ last_checksum none front
  previous_behind [] x e = refl
  previous_behind (d ∷ cs) x e =
      let later : ltb 0 (length (d ∷ cs)) ≡ true = ground arith in
      rw later (find-previous (length (d ∷ cs)) 0 none (d ∷ cs) x (omega arith) e)

  grown_lem :
      {m : JournalManifest} (front : List Events) (last : Events) (x : SegmentMetadata)
      (e : ConversationEventEnvelope)
      → IsOpen m front last x
      → grown
          (line_bytes (encode e))
          (checksum (lines_of (last ++ e ∷ [])))
          (last_checksum none front)
          x
        ≡ metadata (length front) (last_checksum none front) (last ++ e ∷ [])
  grown_lem front last x e h =
      let counts : x.event_count + 1 ≡ length (last ++ e ∷ []) =
        omega (arith, h.events, length-append last (e ∷ [])) in
      let grows : x.bytes + line_bytes (encode e) ≡ size J (lines_of (last ++ e ∷ [])) =
        ap (λ (n : ℕ). n + line_bytes (encode e)) h.sized
        ∙ sym (size-append (lines_of last) (encode e))
        ∙ ap (size J) (sym (lines_of-append last e)) in
      let named = h.indexed in cc

  -- Counting one more event makes the manifest of the longer chunk.
  pub counted-segments :
      (m : JournalManifest) (front : List Events) (last : Events) (x : SegmentMetadata)
      (e : ConversationEventEnvelope)
      → IsOpen m front last x
      → (counted m (line_bytes (encode e)) (checksum (lines_of (last ++ e ∷ [])))).segments
        ≡ metadata_all 0 none (front ++ (last ++ e ∷ []) ∷ [])
  counted-segments m front last x e h =
      let f = grown (line_bytes (encode e)) (checksum (lines_of (last ++ e ∷ []))) in
      rw (h.at_end, h.listed, previous_behind front x h.indexed)
        (update_segment-last (length front) 0 none front x (f (last_checksum none front))
            (omega arith) h.indexed
          ∙ ap (λ (y : SegmentMetadata). metadata_all 0 none front ++ y ∷ [])
              (grown_lem front last x e h)
          ∙ sym (metadata_all-append (length front) 0 none front (last ++ e ∷ []) (omega arith)))

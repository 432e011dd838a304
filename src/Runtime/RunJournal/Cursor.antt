-- ===== src/Runtime/RunJournal/Cursor.antt =====
-- What a reader of the run journal sees from its cursor on: crates/agent-runtime/src/run_journal.rs.
use connor_agent_core.Common.{
  ℕ, ◌≡◌, refl, Option, none, some, List, [], ◌∷◌, ◌++◌, arith, ◌<◌, ◌≤◌, All, All-append, keep,
  keep-append, last?, last?-append, ap, ◌∙◌, sym, Option-cases, inl, inr, subst, subst⁻¹,
}
use mathlib.Core.List.{append_assoc, append-nil}
use mathlib.Core.Option.{some-injective}
use connor_agent_core.Common.Dict.{map_value}
use connor_agent_core.Runtime.RunJournal.{
  RunEvent, MemoryRunJournal, JournalResult, ok, err, not_after, append_run_event, pushed,
  events_after, latest_cursor, is_unseen, seen_by_cursor, new_journal, cursor_after,
}

-- Appends in a row, up to the first error.
unfoldable pub append_all : List RunEvent → MemoryRunJournal → JournalResult MemoryRunJournal
unfolding append_run_event
append_all [] j = ok j
append_all (e ∷ es) j =
    let (result, after) = append_run_event e j in
    elim result [ err problem ↦ err problem | ok _ ↦ append_all es after ]

-- The last event has the greatest id.
abbrev pub IsOrdered : MemoryRunJournal → Type 0
IsOrdered j =
    (last : RunEvent) → last? j.events ≡ some last → All (λ e. e.event_id ≤ last.event_id) j.events

-- An event that is appended is later than the last.
append_lem :
    (e : RunEvent) (es : List RunEvent) (j j' : MemoryRunJournal)
    → append_all (e ∷ es) j ≡ ok j'
    → (append_all es (pushed e j) ≡ ok j')
      × ((last : RunEvent) → last? j.events ≡ some last → last.event_id < e.event_id)
unfolding append_all append_run_event not_after
append_lem e es j j' h = (ground arith, λ last k. ground arith)

All-weaken :
    (m n : ℕ) (es : List RunEvent)
    → m < n
    → All (λ e. n < e.event_id) es
    → All (λ e. m < e.event_id) es
All-weaken m n [] lt h = tt
All-weaken m n (e ∷ es) lt h = (omega (arith, h.0), All-weaken m n es lt h.1)

later :
    (es : List RunEvent) (j j' : MemoryRunJournal) (last : RunEvent)
    → append_all es j ≡ ok j'
    → last? j.events ≡ some last
    → All (λ e. last.event_id < e.event_id) es
later [] j j' last h k = tt
later (e ∷ es) j j' last h k =
    let (rest, above) = append_lem e es j j' h in
    (
      above last k,
      All-weaken last.event_id e.event_id es (above last k)
          (later es (pushed e j) j' e rest (last?-append j.events e)),
    )

append_nil_lem : (j j' : MemoryRunJournal) → append_all [] j ≡ ok j' → j' ≡ j
unfolding append_all
append_nil_lem j j' h = ground arith

events-append_all :
    (es : List RunEvent) (j j' : MemoryRunJournal)
    → append_all es j ≡ ok j'
    → j'.events ≡ j.events ++ es
events-append_all [] j j' h =
    ap (λ (k : MemoryRunJournal). k.events) (append_nil_lem j j' h) ∙ sym (append-nil j.events)
events-append_all (e ∷ es) j j' h =
    events-append_all es (pushed e j) j' (append_lem e es j j' h).0
    ∙ append_assoc j.events (e ∷ []) es

keep-seen :
    (n : ℕ) (es : List RunEvent) → All (λ e. e.event_id ≤ n) es → keep (is_unseen (some n)) es ≡ []
keep-seen n [] h = refl
keep-seen n (e ∷ es) h = ground (arith, keep-seen n es h.1, h.0)

keep-unseen :
    (n : ℕ) (es : List RunEvent) → All (λ e. n < e.event_id) es → keep (is_unseen (some n)) es ≡ es
keep-unseen n [] h = refl
keep-unseen n (e ∷ es) h = ground (arith, keep-unseen n es h.1, h.0)

keep-all : (es : List RunEvent) → keep (is_unseen none) es ≡ es
keep-all [] = refl
keep-all (e ∷ es) = ap (λ rest. e ∷ rest) (keep-all es)

cons-ne-nil : {e : RunEvent} {es : List RunEvent} → e ∷ es ≡ [] → ⊥
cons-ne-nil h = cc

last?-none : (es : List RunEvent) → last? es ≡ none → es ≡ []
last?-none [] h = refl
last?-none (e ∷ []) h = cc
last?-none (e ∷ (f ∷ es)) h = absurd (cons-ne-nil (last?-none (f ∷ es) h))

weaken_le :
    (m n : ℕ) (es : List RunEvent)
    → m < n
    → All (λ e. e.event_id ≤ m) es
    → All (λ e. e.event_id ≤ n) es
weaken_le m n [] lt h = tt
weaken_le m n (e ∷ es) lt h = (omega (arith, h.0), weaken_le m n es lt h.1)

-- All ids before the new event are at most its own.
below :
    (e : RunEvent) (es : List RunEvent)
    → ((last : RunEvent)
        → last? es ≡ some last
        → (last.event_id < e.event_id) × All (λ f. f.event_id ≤ last.event_id) es)
    → All (λ f. f.event_id ≤ e.event_id) es
below e es h = elim (Option-cases (last? es)) [
  | inl empty ↦ subst⁻¹ (All (λ f. f.event_id ≤ e.event_id)) (last?-none es empty) tt
  | inr (last, k) ↦ weaken_le last.event_id e.event_id es (h last k).0 (h last k).1
]

pushed-IsOrdered :
    (e : RunEvent) (j : MemoryRunJournal)
    → IsOrdered j
    → ((last : RunEvent) → last? j.events ≡ some last → last.event_id < e.event_id)
    → IsOrdered (pushed e j)
pushed-IsOrdered e j ordered above last k =
    let all_below = below e j.events (λ l m. (above l m, ordered l m)) in
    let at_end =
      All-append (λ f. f.event_id ≤ e.event_id) j.events (e ∷ []) all_below (omega arith, tt) in
    subst (λ (l : RunEvent). All (λ f. f.event_id ≤ l.event_id) (j.events ++ e ∷ []))
      (some-injective e last (sym (last?-append j.events e) ∙ k)) at_end

append_all-IsOrdered :
    (es : List RunEvent) (j j' : MemoryRunJournal)
    → IsOrdered j
    → append_all es j ≡ ok j'
    → IsOrdered j'
append_all-IsOrdered [] j j' ordered h = subst⁻¹ IsOrdered (append_nil_lem j j' h) ordered
append_all-IsOrdered (e ∷ es) j j' ordered h =
    let (rest, above) = append_lem e es j j' h in
    append_all-IsOrdered es (pushed e j) j' (pushed-IsOrdered e j ordered above) rest

new-IsOrdered : IsOrdered new_journal
new-IsOrdered last k = cc

seen_from :
    (es : List RunEvent) (j j' : MemoryRunJournal)
    → IsOrdered j
    → append_all es j ≡ ok j'
    → (o : Option RunEvent) → last? j.events ≡ o
    → keep
        (is_unseen (seen_by_cursor (map_value (λ (e : RunEvent). cursor_after e.event_id) o)))
        j'.events
      ≡ es
seen_from es j j' ordered h none k =
    keep-all j'.events
    ∙ events-append_all es j j' h
    ∙ ap (λ front. front ++ es) (last?-none j.events k)
seen_from es j j' ordered h (some last) k =
    let n = last.event_id in
    ap (keep (is_unseen (some n))) (events-append_all es j j' h)
    ∙ keep-append (is_unseen (some n)) j.events es
    ∙ ap (λ front. front ++ keep (is_unseen (some n)) es) (keep-seen n j.events (ordered last k))
    ∙ keep-unseen n es (later es j j' last h k)

-- A reader that takes the latest cursor of a journal, and later asks for the events after it, gets
-- exactly the events appended in between, each once and in their order, whatever was appended
-- before it took the cursor.
pub events_after-latest_cursor :
    (before es : List RunEvent) (j j' : MemoryRunJournal)
    → append_all before new_journal ≡ ok j
    → append_all es j ≡ ok j'
    → events_after (latest_cursor j) j' ≡ es
unfolding events_after latest_cursor
events_after-latest_cursor before es j j' first second =
    seen_from es j j' (append_all-IsOrdered before new_journal j new-IsOrdered first) second
      (last? j.events) refl

-- ===== src/Conversation/Kernel/Refinement.antt =====
-- The kernel on any journal does what the decision on the projected state says:
-- crates/conversation-kernel/src/kernel.rs over crates/conversation-journal/src/lib.rs.
use connor_agent_core.Common.{
  ℕ, suc, ◌+◌, String, ◌≡◌, refl, ap, subst, sym, ◌∙◌, List, [], ◌∷◌, ◌++◌, arith, ◌==◌, eq_self,
  if◌then◌else◌, ◌⊎◌, inl, inr,
}
use mathlib.Core.List.{append_assoc, append-nil}
use connor_agent_core.Domain.Descriptors.{Time}
use connor_agent_core.Conversation.Event.{ConversationEventEnvelope}
use connor_agent_core.Conversation.State.{ConversationState, default_state}
use connor_agent_core.Conversation.Projector.{project, project_from, apply_event}
use connor_agent_core.Conversation.Projector.Replay.{project_from-append}
use connor_agent_core.Conversation.Kernel.Checks.{KernelError, Result, ok, err, Emission}
use connor_agent_core.Conversation.Kernel.Decide.{
  Command, target, ids_taken, decide, apply_emissions,
}
use connor_agent_core.Conversation.Kernel.Journal.{
  ConversationJournal, memory_journal, memory_append, memory_load, or_empty,
}
use connor_agent_core.Common.Dict.{get}
use connor_agent_core.Conversation.Kernel.Handle.{
  World, and_then, envelope, load_state, append_all, handle,
}

-- the envelopes of a command's events, with identifiers from the `n`-th on
abbrev pub envelopes :
    (ℕ → String) → String → Time → ℕ → List Emission → List ConversationEventEnvelope
envelopes ids c now n [] = []
envelopes ids c now n (e ∷ es) = envelope c now (ids n) e ∷ envelopes ids c now (suc n) es

project_from-envelopes :
    (ids : ℕ → String) (c : String) (now : Time) (n : ℕ) (es : List Emission)
    (s : ConversationState)
    → project_from s (envelopes ids c now n es) ≡ apply_emissions s es
unfolding project_from
project_from-envelopes ids c now n [] s = refl
project_from-envelopes ids c now n (e ∷ es) s =
    project_from-envelopes ids c now (suc n) es (apply_event s e.event)

-- what a conversation holds after new events of conversation `c`
abbrev pub extended :
    String
    → String
    → List ConversationEventEnvelope
    → List ConversationEventEnvelope
    → List ConversationEventEnvelope
extended c id old new = if c == id then old ++ new else old

extended-nil : (c id : String) (old : List ConversationEventEnvelope) → extended c id old [] ≡ old
extended-nil c id old = ground (arith, append-nil old)

extended-cons :
    (c id : String) (x : ConversationEventEnvelope) (old new : List ConversationEventEnvelope)
    → extended c id (extended c id old (x ∷ [])) new ≡ extended c id old (x ∷ new)
extended-cons c id x old new = ground (arith, append_assoc old (x ∷ []) new)

projected_after :
    (c : String) (ids : ℕ → String) (now : Time) (n : ℕ) (old : List ConversationEventEnvelope)
    (es : List Emission)
    → project (extended c c old (envelopes ids c now n es)) ≡ apply_emissions (project old) es
unfolding project
projected_after c ids now n old es = rw (eq_self c) (
    project_from-append default_state old (envelopes ids c now n es)
    ∙ project_from-envelopes ids c now n es (project_from default_state old))

ok_not_err : {e : KernelError} → ◌≡◌ {A = Result (Unit {0})} (err e) (ok tt) → ⊥
ok_not_err h = cc

memory_append_all :
    (ids : ℕ → String) (c : String) (now : Time) (es : List Emission) (w : World memory_journal ids)
    → (append_all memory_journal ids c now es w).0 ≡ ok tt
unfolding append_all memory_append
memory_append_all ids c now [] w = refl
memory_append_all ids c now (e ∷ es) w = memory_append_all ids c now es _

module _ (j : ConversationJournal) (ids : ℕ → String) where
  open j use {Store, append, load, load-append}

  append_step :
      (c : String) (x : ConversationEventEnvelope) (new : List ConversationEventEnvelope) (n : ℕ)
      (s : Store) (w' : World j ids) (rest : World j ids → Result (Unit {0}) × World j ids)
      (id : String) (old : List ConversationEventEnvelope)
      → x.conversation_id ≡ c
      → ((t : Store)
          → rest (record { store = t; next_id = n }) ≡ (ok tt, w')
          → load id t ≡ ok (extended c id old (x ∷ []))
          → load id w'.store ≡ ok (extended c id (extended c id old (x ∷ [])) new))
      → (r : Result (Unit {0})) (t : Store) → append x s ≡ (r, t)
      → and_then r (record { store = t; next_id = n }) rest ≡ (ok tt, w')
      → load id s ≡ ok old
      → load id w'.store ≡ ok (extended c id old (x ∷ new))
  append_step c x new n s w' rest id old own ih (err e) t a q k =
      absurd (ok_not_err (ap (λ p. p.0) q))
  append_step c x new n s w' rest id old own ih (ok u) t a q k =
      ih t q (rw (← own) (load-append x s t id old a k)) ∙ ap ok (extended-cons c id x old new)

  append_all-extends :
      (c : String) (now : Time) (es : List Emission) (w w' : World j ids) (id : String)
      (old : List ConversationEventEnvelope)
      → append_all j ids c now es w ≡ (ok tt, w')
      → load id w.store ≡ ok old
      → load id w'.store ≡ ok (extended c id old (envelopes ids c now w.next_id es))
  unfolding append_all
  append_all-extends c now [] w w' id old h k =
      subst (λ (v : World j ids). load id v.store ≡ ok (extended c id old [])) (ap (λ p. p.1) h)
        (k ∙ ap ok (sym (extended-nil c id old)))
  append_all-extends c now (e ∷ es) w w' id old h k =
      append_step c (envelope c now (ids w.next_id) e) (envelopes ids c now (suc w.next_id) es)
        (suc w.next_id) w.store w' (append_all j ids c now es) id old refl
        (λ t q l.
          append_all-extends c now es (record { store = t; next_id = suc w.next_id }) w' id _ q l)
        (append (envelope c now (ids w.next_id) e) w.store).0
        (append (envelope c now (ids w.next_id) e) w.store).1 refl h k

  load_state_lem :
      (w : World j ids) (id : String) (events : List ConversationEventEnvelope)
      → load id w.store ≡ ok events
      → load_state j ids id w ≡ ok (project events)
  unfolding load_state
  load_state_lem w id events h = rw (h, load_state)

  -- the rest of a command once its conversation is loaded
  abbrev conclude :
      Command → Time → World j ids → Result (List Emission) → Result (Unit {0}) × World j ids
  conclude cmd now w (err e) = (err e, w)
  conclude cmd now w (ok es) =
      append_all j ids (target cmd) now es (record w { next_id = w.next_id + ids_taken cmd })

  handle_lem :
      (cmd : Command) (now : Time) (w : World j ids) (old : List ConversationEventEnvelope)
      → load (target cmd) w.store ≡ ok old
      → handle j ids cmd now w
        ≡ conclude cmd now w (decide cmd (ids w.next_id) (ids (suc w.next_id)) now (project old))
  unfolding handle load_state
  handle_lem cmd now w old h = rw (h, handle, load_state) refl

  -- On any journal, a command on a conversation that can be loaded, which the decision on the
  -- projected state refuses, is answered with that error, and leaves the journal and the
  -- identifiers as they were.
  handle_refused :
      (cmd : Command) (now : Time) (w : World j ids) (old : List ConversationEventEnvelope)
      (e : KernelError)
      → load (target cmd) w.store ≡ ok old
      → decide cmd (ids w.next_id) (ids (suc w.next_id)) now (project old) ≡ err e
      → handle j ids cmd now w ≡ (err e, w)
  handle_refused cmd now w old e h d = handle_lem cmd now w old h ∙ ap (conclude cmd now w) d

  -- what an accepted command has done: its events are those of the decision; every conversation
  -- that could be loaded holds them at its end if it is the command's, and is unchanged if not;
  -- and the command's conversation projects to the state that the decision's events lead to
  pub record IsHandled (cmd : Command) (now : Time) (w w' : World j ids)
      (old : List ConversationEventEnvelope) (es : List Emission) : Type 0 where
    pub decided : decide cmd (ids w.next_id) (ids (suc w.next_id)) now (project old) ≡ ok es
    pub appended :
        (id : String) (events : List ConversationEventEnvelope)
        → load id w.store ≡ ok events
        → load id w'.store
          ≡ ok (
              extended
                (target cmd)
                id
                events
                (envelopes ids (target cmd) now (w.next_id + ids_taken cmd) es))
    pub projected : load_state j ids (target cmd) w' ≡ ok (apply_emissions (project old) es)

  conclude-IsHandled :
      (cmd : Command) (now : Time) (w w' : World j ids) (old : List ConversationEventEnvelope)
      (r : Result (List Emission))
      → load (target cmd) w.store ≡ ok old
      → decide cmd (ids w.next_id) (ids (suc w.next_id)) now (project old) ≡ r
      → conclude cmd now w r ≡ (ok tt, w')
      → (es : List Emission) × IsHandled cmd now w w' old es
  conclude-IsHandled cmd now w w' old (err e) l d h = absurd (ok_not_err (ap (λ p. p.0) h))
  conclude-IsHandled cmd now w w' old (ok es) l d h = (
    es,
    record {
      decided = d;
      appended = λ id events k.
          append_all-extends (target cmd) now es (record w { next_id = w.next_id + ids_taken cmd })
            w' id events h k;
      projected =
          load_state_lem w' (target cmd) _ (
            append_all-extends (target cmd) now es
              (record w { next_id = w.next_id + ids_taken cmd }) w' (target cmd) old h l)
          ∙ ap ok (projected_after (target cmd) ids now (w.next_id + ids_taken cmd) old es);
    },
  )

  -- On any journal that keeps the law of the interface, a command that is answered with success on
  -- a conversation that can be loaded was accepted by the decision on the projected state; the
  -- events of the decision stand at the end of its conversation, in their order and each with an
  -- identifier of its own from the generator's sequence; every other conversation that could be
  -- loaded is unchanged; and its conversation now projects to the state that the decision's events
  -- lead to.
  pub handle-IsHandled :
      (cmd : Command) (now : Time) (w w' : World j ids) (old : List ConversationEventEnvelope)
      → load (target cmd) w.store ≡ ok old
      → handle j ids cmd now w ≡ (ok tt, w')
      → (es : List Emission) × IsHandled cmd now w w' old es
  handle-IsHandled cmd now w w' old l h =
      conclude-IsHandled cmd now w w' old _ l refl (sym (handle_lem cmd now w old l) ∙ h)

-- The two outcomes of a command on a conversation that holds the events `old`.
abbrev pub HandleOutcome :
    (j : ConversationJournal) (ids : ℕ → String)
    → Command
    → Time
    → World j ids
    → List ConversationEventEnvelope
    → Type 0
HandleOutcome j ids cmd now w old =
    ((w' : World j ids) × (es : List Emission) × (handle j ids cmd now w ≡ (ok tt, w'))
      × IsHandled j ids cmd now w w' old es)
    ⊎ ((e : KernelError) × (decide cmd (ids w.next_id) (ids (suc w.next_id)) now (project old)
          ≡ err e)
        × (handle j ids cmd now w ≡ (err e, w)))

result_lem : {W : Type 0} (p : Result (Unit {0}) × W) → p.0 ≡ ok tt → p ≡ (ok tt, p.1)
result_lem p h = ap (λ r. (r, p.1)) h

memory_by :
    (ids : ℕ → String) (cmd : Command) (now : Time) (w : World memory_journal ids)
    → (r : Result (List Emission))
    → decide cmd
        (ids w.next_id)
        (ids (suc w.next_id))
        now
        (project (or_empty (get (target cmd) w.store)))
      ≡ r
    → HandleOutcome memory_journal ids cmd now w (or_empty (get (target cmd) w.store))
unfolding memory_load
memory_by ids cmd now w (err e) d = inr (
  e,
  d,
  handle_refused memory_journal ids cmd now w (or_empty (get (target cmd) w.store)) e refl d,
)
memory_by ids cmd now w (ok es) d =
    let old = or_empty (get (target cmd) w.store) in
    let start : World memory_journal ids = record w { next_id = w.next_id + ids_taken cmd } in
    let p = append_all memory_journal ids (target cmd) now es start in
    let runs : handle memory_journal ids cmd now w ≡ (ok tt, p.1) =
      handle_lem memory_journal ids cmd now w old refl
      ∙ ap (conclude memory_journal ids cmd now w) d
      ∙ result_lem p (memory_append_all ids (target cmd) now es start) in
    let (done, is) = handle-IsHandled memory_journal ids cmd now w p.1 old refl runs in
    inl (p.1, done, runs, is)

-- On the in-memory journal every command but the creation of a conversation has one of two outcomes.
-- Where the decision on the projected state refuses it, it is answered with that error and changes
-- nothing. Else it is answered with success, the decision's events stand at the end of its
-- conversation, each with an identifier of its own from the generator's sequence, every other
-- conversation is unchanged, and the conversation projects to the state that the events lead to.
pub memory_handle_lem :
    (ids : ℕ → String) (cmd : Command) (now : Time) (w : World memory_journal ids)
    → HandleOutcome memory_journal ids cmd now w (or_empty (get (target cmd) w.store))
memory_handle_lem ids cmd now w =
    memory_by ids cmd now w
      (decide cmd (ids w.next_id) (ids (suc w.next_id)) now
        (project (or_empty (get (target cmd) w.store))))
      refl

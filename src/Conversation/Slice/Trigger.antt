-- ===== src/Conversation/Slice/Trigger.antt =====
-- The slice around a trigger message: `build_around_trigger` of
-- crates/conversation-kernel/src/slice_builder.rs.
use connor_agent_core.Common.{
  ℕ, zero, suc, ◌+◌, ◌-◌, ◌≤◌, ◌<◌, min, String, ◌≡◌, true, some, List, [], ◌∷◌, arith, length,
  length-take, length-drop, take-drop, take, drop, any, ◌==◌, Bool-cases, inl, inr, refl, ap, ◌∙◌,
  ◌++◌, ◌^◌, ltb, leb,
}
use connor_agent_core.Conversation.Message.{Message, ConversationSession}
use connor_agent_core.Conversation.State.{ConversationState}
use connor_agent_core.Conversation.Slice.{
  OverflowChecks, checks_on, checks_off, add_usize, slice, around_trigger, ok, build_around_trigger,
  position, range_of,
}

abbrev pub Holds : String → List Message → Type 0
Holds id ms = any (λ (m : Message). m.id == id) ms ≡ true

position_bound : (id : String) (ms : List Message) (i : ℕ) → position id ms ≡ some i → i < length ms
unfolding position
position_bound id [] i h = cc
position_bound id (m ∷ ms) zero h = omega arith
position_bound id (m ∷ ms) (suc i) h = ground (arith, position_bound id ms i)

take-Holds :
    (id : String) (ms : List Message) (n i : ℕ)
    → position id ms ≡ some i
    → i < n
    → Holds id (take n ms)
unfolding position
take-Holds id [] n i h lt = cc
take-Holds id (m ∷ ms) zero i h lt = absurd (omega arith)
take-Holds id (m ∷ ms) (suc n) zero h lt = ground arith
take-Holds id (m ∷ ms) (suc n) (suc i) h lt = ground (arith, take-Holds id ms n i)

range-Holds :
    (id : String) (ms : List Message) (start n i : ℕ)
    → position id ms ≡ some i
    → start ≤ i
    → i < start + n
    → Holds id (take n (drop start ms))
unfolding position
range-Holds id ms zero n i h le lt = take-Holds id ms n i h (omega arith)
range-Holds id [] (suc start) n i h le lt = cc
range-Holds id (m ∷ ms) (suc start) n zero h le lt = absurd (omega arith)
range-Holds id (m ∷ ms) (suc start) n (suc i) h le lt = ground (arith, range-Holds id ms start n i)

position-Holds :
    (id : String) (ms : List Message) → Holds id ms → (i : ℕ) × (position id ms ≡ some i)
unfolding position
position-Holds id [] h = cc
position-Holds id (m ∷ ms) h = elim (Bool-cases (m.id == id)) [
  | inl same ↦ (zero, rw same refl)
  | inr other ↦
      let (i, e) = position-Holds id ms (ground (arith, h, other)) in (suc i, rw (other, e) refl)
]

-- The timeline `ms` is cut into `front`, the messages shown and `back`, around its first message
-- with the trigger's id, which is the `i`-th.
pub record IsAround (trigger : String) (before after : ℕ) (ms shown : List Message) : Type 0 where
  pub i : ℕ
  pub first : position trigger ms ≡ some i
  pub front : List Message
  pub back : List Message
  pub split : front ++ (shown ++ back) ≡ ms
  pub skipped : length front ≡ i - before
  pub shown_length : length shown ≡ min (i + after + 1) (length ms) - (i - before)
  pub holds : Holds trigger shown

range-IsAround :
    (trigger : String) (before after : ℕ) (ms : List Message) (i : ℕ)
    → position trigger ms ≡ some i
    → IsAround trigger before after ms
        (take (min (i + after + 1) (length ms) - (i - before)) (drop (i - before) ms))
range-IsAround trigger before after ms i e =
    let start : ℕ = i - before in
    let n : ℕ = min (i + after + 1) (length ms) - start in
    let bound : i < length ms = position_bound trigger ms i e in
    record {
      i = i;
      first = e;
      front = take start ms;
      back = drop n (drop start ms);
      split =
          ap (λ (v : List Message). take start ms ++ v) (take-drop n (drop start ms))
          ∙ take-drop start ms;
      skipped = omega (arith, length-take start ms, bound);
      shown_length = omega (arith, length-take n (drop start ms), length-drop start ms, bound);
      holds = range-Holds trigger ms start n i e (omega arith) (omega (arith, bound));
    }

-- a sum in range, whether or not overflows are checked
add_usize-ok :
    (checks : OverflowChecks) (a b : ℕ) → a + b < 2 ^ 64 → add_usize checks a b ≡ ok (a + b)
add_usize-ok checks_on a b h =
    let fits : ltb (a + b) (2 ^ 64) ≡ true = ground (arith, h) in rw fits refl
add_usize-ok checks_off a b h = ap ok (omega (arith, h))

range_of-ok :
    (start stop : ℕ) (ms : List Message)
    → start ≤ stop
    → range_of start stop ms ≡ ok (take (stop - start) (drop start ms))
range_of-ok start stop ms h = let fits : leb start stop ≡ true = ground (arith, h) in rw fits refl

-- Where the timeline holds the trigger message, and the length of the timeline and `context_after`
-- together lie in the range of `usize`, then whether or not overflows are checked, the slice around
-- the trigger is built. Its messages are a run of the timeline that holds the trigger: it leaves
-- out what stands more than `context_before` places before the first message with the trigger's
-- id, and ends `context_after` places behind that message, or with the timeline.
pub build_around_trigger-IsAround :
    (checks : OverflowChecks) (id : String) (s : ConversationState) (session : ConversationSession)
    (trigger : String) (before after : ℕ)
    → s.session ≡ some session
    → Holds trigger s.messages
    → length s.messages + after < 2 ^ 64
    → (shown : List Message) × (build_around_trigger checks id s trigger before after
        ≡ ok (slice id session trigger shown around_trigger))
      × IsAround trigger before after s.messages shown
build_around_trigger-IsAround checks id s session trigger before after given held fits =
    let (i, e) = position-Holds trigger s.messages held in
    let bound : i < length s.messages = position_bound trigger s.messages i e in
    (
      take (min (i + after + 1) (length s.messages) - (i - before)) (drop (i - before) s.messages),
      unfold build_around_trigger in
          rw
            (
              given,
              e,
              add_usize-ok checks i after (omega (arith, bound, fits)),
              add_usize-ok checks (i + after) 1 (omega (arith, bound, fits)),
              range_of-ok (i - before) (min (i + after + 1) (length s.messages)) s.messages
                  (omega (arith, bound)),
            )
            refl,
      range-IsAround trigger before after s.messages i e,
    )

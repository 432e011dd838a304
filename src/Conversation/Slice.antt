-- ===== src/Conversation/Slice.antt =====
-- `ConversationSliceBuilder`: crates/conversation-kernel/src/slice_builder.rs, with the slice type
-- of crates/conversation-core/src/slice.rs. The random identifier of a slice is an argument. The sums
-- of `build_around_trigger` are those of a `usize` of 64 bits: they panic where overflow checks are
-- on, as in a debug build, and wrap around where they are off, as in a release build.
pub mod Window
pub mod Trigger
use connor_agent_core.Common.{
  ℕ, zero, suc, ◌+◌, ◌-◌, min, String, Bool, true, false, ◌||◌, Option, none, some, List, [], ◌∷◌,
  ◌==◌, ltb, leb, ◌%◌, ◌^◌, if◌then◌else◌, keep, any, length, take, drop, find,
}
use connor_agent_core.Common.Dict.{Dict, get}
use connor_agent_core.Conversation.Message.{Message, Visibility, ConversationSession}
use connor_agent_core.Conversation.State.{ConversationState}
use connor_agent_core.Conversation.Kernel.Runs.{recent}

pub data SliceBuildReason : Type 0 where
  recent_window current_thread around_trigger assistant_suggestion_accepted : SliceBuildReason

pub record ConversationSlice : Type 0 where
  pub id : String
  pub conversation_id : String
  pub trigger_message_id : String
  pub messages : List Message
  pub reason : SliceBuildReason

pub data SliceError : Type 0 where
  no_session trigger_not_found not_in_thread thread_not_found trigger_not_in_list : SliceError

pub data Built {ℓ} (A : Type ℓ) : Type ℓ where
  ok : A → Built A
  err : SliceError → Built A
  panicked : Built A

-- `?`: an error ends the builder.
infixl 5 ◌>>=◌
abbrev pub ◌>>=◌ {ℓ₁ ℓ₂} : {X : Type ℓ₁} {Y : Type ℓ₂} → Built X → (X → Built Y) → Built Y
err reason >>= next = err reason
panicked >>= next = panicked
ok x >>= next = next x

-- `ok_or_else(…)?`
abbrev pub ok_or {ℓ} : {A : Type ℓ} → Option A → SliceError → Built A
ok_or none e = err e
ok_or (some a) e = ok a

abbrev pub slice :
    String → ConversationSession → String → List Message → SliceBuildReason → ConversationSlice
slice id session trigger_message_id messages reason = record {
  id = id;
  conversation_id = session.id;
  trigger_message_id = trigger_message_id;
  messages = messages;
  reason = reason;
}

-- the filter of `build_recent_window`
abbrev pub in_window : Message → Bool
in_window m = elim m.visibility [
  | Visibility.conversation ↦ true
  | Visibility.agent_only ↦ true
  | _ ↦ false
]

-- `build_recent_window`; `max` is the builder's `max_recent_messages`
unfoldable pub build_recent_window :
    (max : ℕ) (id : String) → ConversationState → String → Built ConversationSlice
unfolding recent
build_recent_window max id state trigger_message_id = do
  session ← ok_or state.session no_session
  ok (
      slice id session trigger_message_id (recent max (keep in_window state.messages))
        recent_window)

-- `filter_map(|id| messages_by_id.get(id))`
unfoldable pub lookup_all : Dict Message → List String → List Message
lookup_all by_id [] = []
lookup_all by_id (id ∷ ids) =
    let rest = lookup_all by_id ids in elim (get id by_id) [ none ↦ rest | some m ↦ m ∷ rest ]

-- `build_current_thread`
unfoldable pub build_current_thread :
    (id : String) → ConversationState → String → Built ConversationSlice
unfolding lookup_all
build_current_thread id state trigger_message_id = do
  session ← ok_or state.session no_session
  trigger ← ok_or (get trigger_message_id state.messages_by_id) trigger_not_found
  thread_id ← ok_or trigger.thread_id not_in_thread
  ids ← ok_or (get thread_id state.threads) thread_not_found
  ok (slice id session trigger_message_id (lookup_all state.messages_by_id ids) current_thread)

-- `messages.iter().position(|m| m.id == id)`
unfoldable pub position : String → List Message → Option ℕ
position id [] = none
position id (m ∷ ms) =
    let rest : Option ℕ = elim (position id ms) [ none ↦ none | some n ↦ some (suc n) ] in
    if m.id == id then some zero else rest

pub data OverflowChecks : Type 0 where
  checks_on checks_off : OverflowChecks

-- the numbers of a `usize` are below it
abbrev pub usize_range : ℕ
usize_range = 2 ^ 64

-- `+` on `usize`
abbrev pub add_usize : OverflowChecks → ℕ → ℕ → Built ℕ
add_usize checks_on a b = if ltb (a + b) usize_range then ok (a + b) else panicked
add_usize checks_off a b = ok ((a + b) % usize_range)

-- `messages[start..end]`, for an end that is no greater than the length
abbrev pub range_of : ℕ → ℕ → List Message → Built (List Message)
range_of start end_ ms =
    if leb start end_ then ok (take (end_ - start) (drop start ms)) else panicked

-- `build_around_trigger`
unfoldable pub build_around_trigger :
    OverflowChecks
    → (id : String) → ConversationState
    → String
    → (context_before context_after : ℕ) → Built ConversationSlice
unfolding position
build_around_trigger checks id state trigger_message_id context_before context_after = do
  session ← ok_or state.session no_session
  trigger_idx ← ok_or (position trigger_message_id state.messages) trigger_not_in_list
  last ← add_usize checks trigger_idx context_after
  end_ ← add_usize checks last 1
  messages ←
      range_of (trigger_idx - context_before) (min end_ (length state.messages)) state.messages
  ok (slice id session trigger_message_id messages around_trigger)

-- the filter of `build_for_user`
abbrev pub seen_by : String → Message → Bool
seen_by user_id m = elim m.visibility [
  | Visibility.conversation ↦ true
  | Visibility.agent_only ↦ true
  | Visibility.private_to_user uid ↦ uid == user_id
  | Visibility.participants ids ↦ any (λ i. i == user_id) ids
]

-- `build_for_user`
unfoldable pub build_for_user :
    (max : ℕ) (id : String) → ConversationState → String → String → Built ConversationSlice
unfolding recent
build_for_user max id state trigger_message_id user_id = do
  session ← ok_or state.session no_session
  ok (
      slice id session trigger_message_id (recent max (keep (seen_by user_id) state.messages))
        recent_window)

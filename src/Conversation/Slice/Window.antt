-- ===== src/Conversation/Slice/Window.antt =====
-- Who can see the messages of a slice, and how many there are:
-- crates/conversation-kernel/src/slice_builder.rs.
use connor_agent_core.Common.{
  ℕ, zero, suc, eq_iff, ◌≤◌, ◌-◌, String, ◌≡◌, refl, true, List, [], ◌∷◌, arith, length, drop,
  length-drop, take-drop, keep, ◌==◌, any, ◌⊎◌, inl, inr, take, ◌++◌, ap, sym, ◌∙◌, subst, Bool,
  false, some, if◌then◌else◌,
}
use connor_agent_core.Conversation.Message.{Message, Visibility, ConversationSession}
use connor_agent_core.Conversation.Event.{ConversationEvent}
use connor_agent_core.Conversation.State.{ConversationState}
use connor_agent_core.Conversation.Projector.{apply_event}
use connor_agent_core.Conversation.Kernel.Runs.{recent}
use connor_agent_core.Conversation.Slice.{
  slice, recent_window, ok, build_for_user, build_current_thread, seen_by,
}

drop_none : (n : ℕ) (ms : List Message) → n ≡ 0 → drop n ms ≡ ms
drop_none zero ms e = refl
drop_none (suc n) ms e = absurd (omega arith)

-- `recent` is the last `max` members, or all of them
recent_lem :
    (max : ℕ) (ms : List Message)
    → (length (recent max ms) ≤ max) × (recent max ms ≡ drop (length ms - max) ms)
unfolding recent
recent_lem max ms = ground (arith, length-drop (length ms - max) ms, drop_none (length ms - max) ms)

abbrev pub IsListed : String → List String → Type 0
IsListed user [] = ⊥
IsListed user (id ∷ ids) = (id ≡ user) ⊎ IsListed user ids

-- The user whom a visibility lets see a message as a human participant: crates/conversation-core
-- says of the messages for agents that they are not visible to human participants.
abbrev pub MaySee : String → Visibility → Type 0
MaySee user Visibility.conversation = Unit
MaySee user Visibility.agent_only = ⊥
MaySee user (Visibility.private_to_user uid) = uid ≡ user
MaySee user (Visibility.participants ids) = IsListed user ids

-- The visibilities of the messages that `build_for_user` hands on: those with which the user may
-- see a message, and that of the messages for agents.
abbrev pub IsHandedOn : String → Visibility → Type 0
IsHandedOn user v = MaySee user v ⊎ (v ≡ Visibility.agent_only)

IsListed-any :
    (user : String) (ids : List String) → IsListed user ids → any (λ i. i == user) ids ≡ true
IsListed-any user [] h = absurd h
IsListed-any user (id ∷ ids) (inl e) = ground (arith, eq_iff id user, e)
IsListed-any user (id ∷ ids) (inr h) = ground (arith, IsListed-any user ids h)

any-IsListed :
    (user : String) (ids : List String) → any (λ i. i == user) ids ≡ true → IsListed user ids
any-IsListed user [] h = cc
any-IsListed user (id ∷ ids) h = ground (arith, any-IsListed user ids, eq_iff id user)

abbrev sees : String → Visibility → Bool
sees user v = elim v [
  | Visibility.conversation ↦ true
  | Visibility.agent_only ↦ true
  | Visibility.private_to_user uid ↦ uid == user
  | Visibility.participants ids ↦ any (λ i. i == user) ids
]

sees-IsHandedOn : (user : String) (v : Visibility) → sees user v ≡ true → IsHandedOn user v
sees-IsHandedOn user Visibility.conversation h = inl tt
sees-IsHandedOn user Visibility.agent_only h = inr refl
sees-IsHandedOn user (Visibility.private_to_user uid) h = inl ((eq_iff uid user).0 h)
sees-IsHandedOn user (Visibility.participants ids) h = inl (any-IsListed user ids h)

IsHandedOn-sees : (user : String) (v : Visibility) → IsHandedOn user v → sees user v ≡ true
IsHandedOn-sees user Visibility.conversation h = refl
IsHandedOn-sees user Visibility.agent_only h = refl
IsHandedOn-sees user (Visibility.private_to_user uid) (inl e) = (eq_iff uid user).1 e
IsHandedOn-sees user (Visibility.private_to_user uid) (inr e) = cc
IsHandedOn-sees user (Visibility.participants ids) (inl h) = IsListed-any user ids h
IsHandedOn-sees user (Visibility.participants ids) (inr e) = cc

-- The second list is made of the members of the first that satisfy `P`, in their order.
pub data Filtered (P : Message → Type 0) : List Message → List Message → Type 0 where
  at_end : Filtered P [] []
  with_it :
      {m : Message} {ms ns : List Message} → P m → Filtered P ms ns → Filtered P (m ∷ ms) (m ∷ ns)
  without_it :
      {m : Message} {ms ns : List Message} → ¬ P m → Filtered P ms ns → Filtered P (m ∷ ms) ns

abbrev pub IsFor : String → Message → Type 0
IsFor user m = IsHandedOn user m.visibility

cons-Filtered :
    (user : String) (m : Message) (ms ns : List Message) (b : Bool)
    → seen_by user m ≡ b
    → Filtered (IsFor user) ms ns
    → Filtered (IsFor user) (m ∷ ms) (if b then m ∷ ns else ns)
cons-Filtered user m ms ns true e rest = with_it (sees-IsHandedOn user m.visibility e) rest
cons-Filtered user m ms ns false e rest =
    without_it
      (λ (h : IsHandedOn user m.visibility).
        let clash : true ≡ false = sym (IsHandedOn-sees user m.visibility h) ∙ e in cc)
      rest

keep-Filtered :
    (user : String) (ms : List Message) → Filtered (IsFor user) ms (keep (seen_by user) ms)
keep-Filtered user [] = at_end
keep-Filtered user (m ∷ ms) =
    cons-Filtered user m ms (keep (seen_by user) ms) (seen_by user m) refl (keep-Filtered user ms)

-- What a user's slice shows of a timeline: the last of the messages that are handed on, as many as
-- fit, or all.
pub record IsWindowFor (user : String) (max : ℕ) (ms shown : List Message) : Type 0 where
  pub older : List Message
  pub handed_on : Filtered (IsFor user) ms (older ++ shown)
  pub fits : length shown ≤ max
  pub full : (older ≡ []) ⊎ (length shown ≡ max)

full_lem :
    (n max : ℕ) (ms : List Message)
    → n ≡ length ms - max
    → (take n ms ≡ []) ⊎ (length (drop n ms) ≡ max)
full_lem zero max ms e = inl refl
full_lem (suc n) max ms e = inr (omega (arith, length-drop (suc n) ms, e))

recent-IsWindowFor :
    (user : String) (max : ℕ) (ms : List Message)
    → IsWindowFor user max ms (recent max (keep (seen_by user) ms))
recent-IsWindowFor user max ms =
    let all : List Message = keep (seen_by user) ms in
    let n : ℕ = length all - max in
    let (short, is) = recent_lem max all in
    record {
      older = take n all;
      handed_on =
          subst (Filtered (IsFor user) ms)
            (sym (ap (λ (v : List Message). take n all ++ v) is ∙ take-drop n all))
            (keep-Filtered user ms);
      fits = short;
      full =
          subst (λ (v : List Message). (take n all ≡ []) ⊎ (length v ≡ max)) (sym is)
            (full_lem n max all refl);
    }

-- With a session, the slice for a user is built. Of the timeline it holds, in their order, the last
-- `max_recent_messages` messages, or all if they are fewer, among those that are handed on: the
-- messages of the whole conversation, those private to that user, those for a list of participants
-- that the user is on, and also every message that is for agents only. It holds no other.
pub build_for_user-IsWindowFor :
    (max : ℕ) (id : String) (s : ConversationState) (session : ConversationSession)
    (trigger user : String)
    → s.session ≡ some session
    → (shown : List Message) × (build_for_user max id s trigger user
        ≡ ok (slice id session trigger shown recent_window))
      × IsWindowFor user max s.messages shown
unfolding build_for_user
build_for_user-IsWindowFor max id s session trigger user given = (
  recent max (keep (seen_by user) s.messages),
  rw given refl,
  recent-IsWindowFor user max s.messages,
)

-- A tombstone of any message leaves what `build_current_thread` answers as it is, so that a message
-- that was handed on with its thread still is after it has been deleted.
build_current_thread-tombstone :
    (id : String) (s : ConversationState) (trigger message_id reason : String)
    → build_current_thread id
        (apply_event s (ConversationEvent.message_tombstoned message_id reason))
        trigger
      ≡ build_current_thread id s trigger
unfolding build_current_thread apply_event
build_current_thread-tombstone id s trigger message_id reason = refl

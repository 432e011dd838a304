-- ===== src/Conversation/Kernel/History.antt =====
-- Histories of commands on one conversation, each decided in the state that the ones before it
-- left: crates/conversation-kernel/src/kernel.rs.
use connor_agent_core.Common.{
  String, ◌≡◌, true, false, some, none, List, [], ◌∷◌, arith, ◌==◌, eq_iff, inl, inr, All,
  Option-cases, eq_self,
}
use connor_agent_core.Common.Dict.{get, insert, get-insert, get-update}
use connor_agent_core.Domain.Descriptors.{Time}
use connor_agent_core.Conversation.Message.{ConversationSession}
use connor_agent_core.Conversation.Lifecycle.{
  ConversationActionState, ConversationActionStatus, action_requested, is_terminal,
}
use connor_agent_core.Conversation.State.{ConversationState}
use connor_agent_core.Conversation.Projector.{apply_event}
use connor_agent_core.Conversation.Changes.{
  approval_required_action, approved_action, denied_action, started_action, completed_action,
  failed_action,
}
use connor_agent_core.Conversation.Kernel.Checks.{validate_optional_actor}
use connor_agent_core.Conversation.Kernel.Commands.{RequestActionCommand, StartActionCommand}
use connor_agent_core.Conversation.Kernel.Decide.{
  Command, decide, after, request_action_cmd, require_action_approval_cmd, approve_action_cmd,
  deny_action_cmd, start_action_cmd, complete_action_cmd, fail_action_cmd,
}
use connor_agent_core.Conversation.Kernel.ActionLifecycle.{
  RequestsNo, decide-keeps_action, terminal_action_final,
}

-- a command with the identifiers and the time that the kernel draws for it
pub record Call : Type 0 where
  pub command : Command
  pub first : String
  pub second : String
  pub now : Time

abbrev pub call : ConversationState → Call → ConversationState
call s c = after s (decide c.command c.first c.second c.now s)

unfoldable pub run : ConversationState → List Call → ConversationState
run s [] = s
run s (c ∷ cs) = run (call s c) cs

abbrev pub ApprovesNo : String → Command → Type 0
ApprovesNo id (approve_action_cmd c) = (c.action_id == id) ≡ false
ApprovesNo id _ = Unit

abbrev pub IsHeld : ConversationActionStatus → Type 0
IsHeld ConversationActionStatus.approval_required = Unit
IsHeld ConversationActionStatus.denied = Unit
IsHeld _ = ⊥

decide-IsHeld :
    (cmd : Command) (first second : String) (now : Time) (s : ConversationState) (id : String)
    (a b : ConversationActionState)
    → RequestsNo id cmd
    → ApprovesNo id cmd
    → get id s.actions ≡ some a
    → IsHeld a.status
    → get id (after s (decide cmd first second now s)).actions ≡ some b
    → IsHeld b.status
unfolding decide apply_event
decide-IsHeld (request_action_cmd c) first second now s id a b r p h held k =
    ground (
      arith,
      get-insert c.action_request.action_id id (action_requested c.action_request) s.actions,
    )
decide-IsHeld (require_action_approval_cmd c) first second now s id a b r p h held k = ground (
  arith,
  eq_iff c.action_id id,
  get-update c.action_id id (approval_required_action c.reason) s.actions,
)
decide-IsHeld (approve_action_cmd c) first second now s id a b r p h held k = ground (
  arith,
  eq_iff c.action_id id,
  get-update c.action_id id (approved_action c.approved_by) s.actions,
)
decide-IsHeld (deny_action_cmd c) first second now s id a b r p h held k =
    ground
      (arith, eq_iff c.action_id id, get-update c.action_id id (denied_action c.reason) s.actions)
decide-IsHeld (start_action_cmd c) first second now s id a b r p h held k =
    ground (arith, eq_iff c.action_id id, get-update c.action_id id started_action s.actions)
decide-IsHeld (complete_action_cmd c) first second now s id a b r p h held k =
    ground (
      arith,
      eq_iff c.action_id id,
      get-update c.action_id id (completed_action c.result) s.actions,
    )
decide-IsHeld (fail_action_cmd c) first second now s id a b r p h held k = ground (
  arith,
  eq_iff c.action_id id,
  get-update c.action_id id (failed_action c.error_message) s.actions,
)
decide-IsHeld _ first second now s id a b r p h held k = ground arith

-- If an action awaits approval, or is denied, then after any history of commands that does not
-- approve it and does not request an action under its identifier, it still awaits approval or is
-- denied: it has not been started, completed or failed.
pub no_start_without_approval :
    (cs : List Call) (s : ConversationState) (id : String) (a b : ConversationActionState)
    → All (λ (c : Call). RequestsNo id c.command × ApprovesNo id c.command) cs
    → get id s.actions ≡ some a
    → IsHeld a.status
    → get id (run s cs).actions ≡ some b
    → IsHeld b.status
unfolding run
no_start_without_approval [] s id a b p h held k = ground arith
no_start_without_approval (c ∷ cs) s id a b p h held k =
    elim (Option-cases (get id (call s c).actions)) [
      | inl gone ↦ cc (decide-keeps_action c.command c.first c.second c.now s id a h)
      | inr (m, e) ↦
          no_start_without_approval cs (call s c) id m b p.1 e
            (decide-IsHeld c.command c.first c.second c.now s id a m p.0.0 p.0.1 h held e) k
    ]

-- After any history that does not request an action under its identifier again, an action that is
-- denied, completed or failed is exactly as it was.
pub terminal_action_survives :
    (cs : List Call) (s : ConversationState) (id : String) (a : ConversationActionState)
    → All (λ (c : Call). RequestsNo id c.command) cs
    → get id s.actions ≡ some a
    → is_terminal a.status ≡ true
    → get id (run s cs).actions ≡ some a
unfolding run
terminal_action_survives [] s id a r h t = h
terminal_action_survives (c ∷ cs) s id a r h t =
    terminal_action_survives cs (call s c) id a r.1
      (terminal_action_final c.command c.first c.second c.now s id a r.0 h t) t

-- In a conversation that exists, a request that names no requester, for an action under any
-- identifier, and then a start of it that names no starter, are both carried out and leave the
-- action started as a new one, whatever was recorded under its identifier before: a denial does not
-- keep it from being started.
pub request_action_reopens :
    (s : ConversationState) (session : ConversationSession) (r : RequestActionCommand)
    (t : StartActionCommand) (first second : String) (now : Time)
    → s.session ≡ some session
    → r.requested_by ≡ none
    → t.started_by ≡ none
    → t.action_id ≡ r.action_request.action_id
    → get t.action_id
        (after (after s (decide (request_action_cmd r) first second now s)) (
          decide
            (start_action_cmd t)
            first
            second
            now
            (after s (decide (request_action_cmd r) first second now s)))).actions
      ≡ some (started_action (action_requested r.action_request))
unfolding decide apply_event validate_optional_actor
request_action_reopens s session r t first second now e a b i = ground (
  arith,
  get-insert r.action_request.action_id t.action_id (action_requested r.action_request) s.actions,
  eq_iff r.action_request.action_id t.action_id,
  get-update t.action_id t.action_id started_action
      (insert r.action_request.action_id (action_requested r.action_request) s.actions),
  eq_self t.action_id,
)

-- ===== src/Conversation/Lifecycle.antt =====
-- The projected state of agent runs and actions: agent_run.rs and action_lifecycle.rs of
-- crates/conversation-core/src.
use connor_agent_core.Common.{String, Bool, true, false, Option, none, some}
use connor_agent_core.Domain.Action.{ActionRequest, ActionResult}

pub data AgentRunStatus : Type 0 where
  requested started completed failed cancelled timed_out : AgentRunStatus

pub record AgentRunState : Type 0 where
  pub run_id : String
  pub trigger_message_id : String
  pub context_slice_id : String
  pub status : AgentRunStatus
  pub output_message_id : Option String
  pub error_code : Option String
  pub error_message : Option String
  pub cancel_reason : Option String

-- `AgentRunState::requested`
abbrev pub run_requested : String → String → String → AgentRunState
run_requested run_id trigger_message_id context_slice_id = record {
  run_id = run_id;
  trigger_message_id = trigger_message_id;
  context_slice_id = context_slice_id;
  status = requested;
  output_message_id = none;
  error_code = none;
  error_message = none;
  cancel_reason = none;
}

pub data ConversationActionStatus : Type 0 where
  requested approval_required approved denied started completed failed : ConversationActionStatus

-- `ConversationActionStatus::is_terminal`
abbrev pub is_terminal : ConversationActionStatus → Bool
is_terminal denied = true
is_terminal completed = true
is_terminal failed = true
is_terminal _ = false

pub record ConversationActionState : Type 0 where
  pub action_id : String
  pub action_kind : String
  pub status : ConversationActionStatus
  pub request : Option ActionRequest
  pub approved_by : Option String
  pub denial_reason : Option String
  pub approval_required_reason : Option String
  pub result : Option ActionResult
  pub error_message : Option String

-- `ConversationActionState::requested`
abbrev pub action_requested : ActionRequest → ConversationActionState
action_requested request = record {
  action_id = request.action_id;
  action_kind = request.action_kind;
  status = requested;
  request = some request;
  approved_by = none;
  denial_reason = none;
  approval_required_reason = none;
  result = none;
  error_message = none;
}

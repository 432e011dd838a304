-- ===== src/Domain/Action.antt =====
-- Action requests and results: crates/action-core/src/lib.rs.
use connor_agent_core.Common.{String, Option}
use connor_agent_core.Domain.Descriptors.{Time, Json}

pub data ActionStatus : Type 0 where
  pending approval_required running completed failed denied cancelled : ActionStatus

pub data ActionResultPayload : Type 0 where
  text : String → ActionResultPayload
  json : Json → ActionResultPayload
  artifact_ref : String → ActionResultPayload
  empty : ActionResultPayload

pub record ActionResult : Type 0 where
  pub status : ActionStatus
  pub payload : ActionResultPayload
  pub summary : String
  pub completed_at : Time

pub record ActionRequest : Type 0 where
  pub action_id : String
  pub action_kind : String
  pub input : Json
  pub requested_by : String
  pub conversation_id : Option String
  pub message_id : Option String
  pub requested_at : Time

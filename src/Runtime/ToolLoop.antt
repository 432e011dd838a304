-- ===== src/Runtime/ToolLoop.antt =====
-- The checkpoints of a tool loop and the plan to resume it from them:
-- crates/agent-runtime/src/tool_loop_checkpoint.rs. The error of a poisoned lock is left out.
pub mod Resume
use connor_agent_core.Common.{
  ℕ, String, Bool, true, false, Option, none, some, List, [], ◌∷◌, ◌++◌, if◌then◌else◌, max, any,
  ◌==◌,
}
use connor_agent_core.Common.Dict.{Dict, get, contains, insert, map_value}
use connor_agent_core.Domain.Descriptors.{Time}

pub record ToolResultCheckpoint : Type 0 where
  pub tool_call_id : String
  pub action_id : String
  pub result_text : String
  pub read_only : Bool

pub data ToolLoopCheckpointKind : Type 0 where
  before_model_call after_model_call tool_result_kind : ToolLoopCheckpointKind

pub record ToolLoopCheckpoint : Type 0 where
  pub run_id : String
  pub turn : ℕ
  pub kind : ToolLoopCheckpointKind
  pub tool_result : Option ToolResultCheckpoint
  pub created_at : Time

abbrev pub MemoryToolLoopCheckpointStore : Type 0
MemoryToolLoopCheckpointStore = Dict (List ToolLoopCheckpoint)

abbrev pub or_empty : Option (List ToolLoopCheckpoint) → List ToolLoopCheckpoint
or_empty none = []
or_empty (some cs) = cs

-- `append`
unfoldable pub append :
    ToolLoopCheckpoint → MemoryToolLoopCheckpointStore → MemoryToolLoopCheckpointStore
append c m = insert c.run_id (or_empty (get c.run_id m) ++ c ∷ []) m

-- `list`
unfoldable pub list : String → MemoryToolLoopCheckpointStore → List ToolLoopCheckpoint
list run_id m = or_empty (get run_id m)

-- The set of skippable calls is a list, of which only membership is used.
pub record ToolLoopResumePlan : Type 0 where
  pub completed_tool_results : Dict ToolResultCheckpoint
  pub skippable_tool_calls : List String
  pub last_started_turn : Option ℕ
  pub last_completed_model_turn : Option ℕ

-- `ToolLoopResumePlan::default`
abbrev pub empty_plan : ToolLoopResumePlan
empty_plan = record {
  completed_tool_results = [];
  skippable_tool_calls = [];
  last_started_turn = none;
  last_completed_model_turn = none;
}

-- `map_or(turn, |last| last.max(turn))`
abbrev pub later_turn : Option ℕ → ℕ → ℕ
later_turn none turn = turn
later_turn (some last) turn = max last turn

-- `entry(tool_call_id).or_insert(result)`
unfoldable pub insert_if_absent :
    String → ToolResultCheckpoint → Dict ToolResultCheckpoint → Dict ToolResultCheckpoint
insert_if_absent k r m = if contains k m then m else insert k r m

-- the arm of a tool's result
unfoldable pub add_result : ToolResultCheckpoint → ToolLoopResumePlan → ToolLoopResumePlan
unfolding insert_if_absent
add_result r p = record p {
  skippable_tool_calls =
      if r.read_only then r.tool_call_id ∷ p.skippable_tool_calls else p.skippable_tool_calls;
  completed_tool_results = insert_if_absent r.tool_call_id r p.completed_tool_results;
}

abbrev pub add_result_if_any : Option ToolResultCheckpoint → ToolLoopResumePlan → ToolLoopResumePlan
add_result_if_any none p = p
add_result_if_any (some r) p = add_result r p

abbrev pub add_kind :
    ToolLoopCheckpointKind → ToolLoopCheckpoint → ToolLoopResumePlan → ToolLoopResumePlan
add_kind before_model_call c p = record p {
  last_started_turn = some (later_turn p.last_started_turn c.turn);
}
add_kind after_model_call c p = record p {
  last_completed_model_turn = some (later_turn p.last_completed_model_turn c.turn);
}
add_kind tool_result_kind c p = add_result_if_any c.tool_result p

-- the body of the loop of `from_checkpoints`
unfoldable pub add_checkpoint : ToolLoopCheckpoint → ToolLoopResumePlan → ToolLoopResumePlan
unfolding add_result
add_checkpoint c p = add_kind c.kind c p

-- the loop of `from_checkpoints`
unfoldable pub plan_from : List ToolLoopCheckpoint → ToolLoopResumePlan → ToolLoopResumePlan
unfolding add_checkpoint
plan_from [] p = p
plan_from (c ∷ cs) p = plan_from cs (add_checkpoint c p)

-- `from_checkpoints`
unfoldable pub from_checkpoints : List ToolLoopCheckpoint → ToolLoopResumePlan
unfolding plan_from
from_checkpoints cs = plan_from cs empty_plan

-- `should_skip_tool_call`
unfoldable pub should_skip_tool_call : ToolLoopResumePlan → String → Bool
should_skip_tool_call p tool_call_id = any (λ i. i == tool_call_id) p.skippable_tool_calls

-- `completed_tool_result`
unfoldable pub completed_tool_result : ToolLoopResumePlan → String → Option String
completed_tool_result p tool_call_id =
    map_value (λ (r : ToolResultCheckpoint). r.result_text)
      (get tool_call_id p.completed_tool_results)

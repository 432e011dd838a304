-- ===== src/Runtime/ToolLoop/Resume.antt =====
-- Which tool calls a resumed loop skips, and with what result:
-- crates/agent-runtime/src/tool_loop_checkpoint.rs.
use connor_agent_core.Common.{
  String, ◌≡◌, refl, Bool, true, Option, none, some, List, [], ◌∷◌, arith, any, find, ◌==◌, eq_iff,
  ◌∙◌, ap, ◌&&◌, ◌||◌, sym,
}
use connor_agent_core.Common.Dict.{get, get-insert, contains_lem, map_value, is_some}
use connor_agent_core.Runtime.ToolLoop.{
  ToolResultCheckpoint, ToolLoopCheckpointKind, ToolLoopCheckpoint, ToolLoopResumePlan,
  before_model_call, after_model_call, tool_result_kind, add_checkpoint, add_result,
  insert_if_absent, plan_from, from_checkpoints, should_skip_tool_call, completed_tool_result,
  empty_plan, add_kind, add_result_if_any,
}

-- The result that a checkpoint records, if it is a checkpoint of a tool's result.
abbrev pub result_of_kind :
    ToolLoopCheckpointKind → Option ToolResultCheckpoint → Option ToolResultCheckpoint
result_of_kind tool_result_kind r = r
result_of_kind _ r = none

abbrev cons_result :
    Option ToolResultCheckpoint → List ToolResultCheckpoint → List ToolResultCheckpoint
cons_result none rs = rs
cons_result (some r) rs = r ∷ rs

-- The results recorded by checkpoints, in their order.
unfoldable pub results : List ToolLoopCheckpoint → List ToolResultCheckpoint
results [] = []
results (c ∷ cs) = cons_result (result_of_kind c.kind c.tool_result) (results cs)

-- The first result recorded for a call.
abbrev pub first_result : String → List ToolResultCheckpoint → Option ToolResultCheckpoint
first_result k rs = find (λ r. r.tool_call_id == k) rs

abbrev or_else :
    Option ToolResultCheckpoint → Option ToolResultCheckpoint → Option ToolResultCheckpoint
or_else (some r) o = some r
or_else none o = o

or_else-none : (o : Option ToolResultCheckpoint) → o ≡ or_else o none
or_else-none none = refl
or_else-none (some r) = refl

add_result-get :
    (k : String) (r : ToolResultCheckpoint) (rs : List ToolResultCheckpoint)
    (p : ToolLoopResumePlan)
    → or_else (get k (add_result r p).completed_tool_results) (first_result k rs)
      ≡ or_else (get k p.completed_tool_results) (first_result k (r ∷ rs))
unfolding add_result insert_if_absent
add_result-get k r rs p = ground (
  arith,
  contains_lem r.tool_call_id p.completed_tool_results,
  get-insert r.tool_call_id k r p.completed_tool_results,
  eq_iff r.tool_call_id k,
)

add_kind-get :
    (k : String) (kind : ToolLoopCheckpointKind) (c : ToolLoopCheckpoint)
    (o : Option ToolResultCheckpoint) (rs : List ToolResultCheckpoint) (p : ToolLoopResumePlan)
    → c.tool_result ≡ o
    → or_else (get k (add_kind kind c p).completed_tool_results) (first_result k rs)
      ≡ or_else
          (get k p.completed_tool_results)
          (first_result k (cons_result (result_of_kind kind o) rs))
add_kind-get k before_model_call c o rs p e = refl
add_kind-get k after_model_call c o rs p e = refl
add_kind-get k tool_result_kind c none rs p e =
    ap (λ t. or_else (get k (add_result_if_any t p).completed_tool_results) (first_result k rs)) e
add_kind-get k tool_result_kind c (some r) rs p e =
    ap (λ t. or_else (get k (add_result_if_any t p).completed_tool_results) (first_result k rs)) e
    ∙ add_result-get k r rs p

get-plan_from :
    (k : String) (cs : List ToolLoopCheckpoint) (p : ToolLoopResumePlan)
    → get k (plan_from cs p).completed_tool_results
      ≡ or_else (get k p.completed_tool_results) (first_result k (results cs))
unfolding plan_from results add_checkpoint
get-plan_from k [] p = or_else-none (get k p.completed_tool_results)
get-plan_from k (c ∷ cs) p =
    get-plan_from k cs (add_checkpoint c p)
    ∙ add_kind-get k c.kind c c.tool_result (results cs) p refl

-- A result after which its call need not be made again.
abbrev pub allows_skip : String → ToolResultCheckpoint → Bool
allows_skip k r = r.read_only && r.tool_call_id == k

add_kind-skip :
    (k : String) (kind : ToolLoopCheckpointKind) (c : ToolLoopCheckpoint)
    (o : Option ToolResultCheckpoint) (rs : List ToolResultCheckpoint) (p : ToolLoopResumePlan)
    → c.tool_result ≡ o
    → (should_skip_tool_call (add_kind kind c p) k || any (allows_skip k) rs)
      ≡ (should_skip_tool_call p k || any (allows_skip k) (cons_result (result_of_kind kind o) rs))
unfolding should_skip_tool_call add_result
add_kind-skip k before_model_call c o rs p e = refl
add_kind-skip k after_model_call c o rs p e = refl
add_kind-skip k tool_result_kind c none rs p e = ground (arith, e)
add_kind-skip k tool_result_kind c (some r) rs p e = ground (arith, e)

skip-plan_from :
    (k : String) (cs : List ToolLoopCheckpoint) (p : ToolLoopResumePlan)
    → should_skip_tool_call (plan_from cs p) k
      ≡ (should_skip_tool_call p k || any (allows_skip k) (results cs))
unfolding plan_from results add_checkpoint
skip-plan_from k [] p = ground arith
skip-plan_from k (c ∷ cs) p =
    skip-plan_from k cs (add_checkpoint c p)
    ∙ add_kind-skip k c.kind c c.tool_result (results cs) p refl

-- The plan made from any checkpoints answers, for each tool call, the text of the first result that
-- the checkpoints record for it, and skips the call exactly if some result recorded for it is
-- marked read-only.
pub from_checkpoints_lem :
    (k : String) (cs : List ToolLoopCheckpoint)
    → (completed_tool_result (from_checkpoints cs) k
        ≡ map_value (λ (r : ToolResultCheckpoint). r.result_text) (first_result k (results cs)))
      × (should_skip_tool_call (from_checkpoints cs) k ≡ any (allows_skip k) (results cs))
unfolding from_checkpoints completed_tool_result should_skip_tool_call get
from_checkpoints_lem k cs = (
  ap (map_value (λ (r : ToolResultCheckpoint). r.result_text)) (get-plan_from k cs empty_plan),
  skip-plan_from k cs empty_plan,
)

skip_found :
    (k : String) (rs : List ToolResultCheckpoint)
    → any (allows_skip k) rs ≡ true
    → is_some (map_value (λ (r : ToolResultCheckpoint). r.result_text) (first_result k rs)) ≡ true
skip_found k [] h = cc
skip_found k (r ∷ rs) h = ground (arith, skip_found k rs)

-- A resumed loop that skips a tool call has a result for it.
skip_has_result :
    (k : String) (cs : List ToolLoopCheckpoint)
    → should_skip_tool_call (from_checkpoints cs) k ≡ true
    → is_some (completed_tool_result (from_checkpoints cs) k) ≡ true
skip_has_result k cs h =
    let (text, skip) = from_checkpoints_lem k cs in
    ap is_some text ∙ skip_found k (results cs) (sym skip ∙ h)

-- ===== src/Graph.antt =====
-- The graph of an agent run (src/hisiem_soc_copilot/agent/graph/builder.py) with what its nodes
-- write into the state for the routing (src/hisiem_soc_copilot/agent/graph/nodes.py). The runtime
-- of LangGraph is a sequence of visits, as many as its recursion limit allows. What a node reads at a visit is an answer: the time, the
-- status of the investigation, the model's reply, the execution of the tool, and whether a command,
-- an adapter or the configuration of the model raises. The rows that the nodes write, the tool and
-- its arguments, the alert context and the texts of errors are left out.
mod Termination
mod Completion
mod Examples
use hisiem_soc_copilot.Prelude.{
  ℕ, zero, suc, ◌+◌, ◌*◌, String, str_eq, Option, none, some, Bool, true, false, ◌&&◌, leb, not,
  if◌then◌else◌, or_else,
}
use hisiem_soc_copilot.Shared.{BudgetLimits}
use hisiem_soc_copilot.Budget.{
  RuntimeBudget, BudgetState, from_state, to_updates, deadline_exceeded, can_call_llm,
  can_consult_decide, can_take_step, can_execute_tool, consume_llm_call, consume_step,
  consume_tool_call,
}

pub data ToolStatus : Type 0 where
  success no_data rejected unavailable : ToolStatus

pub record ToolOutcome : Type 0 where
  pub status : ToolStatus
  pub retryable : Bool

-- The values of `next_action`: EXECUTE_TOOL, CONVERGE and "decide_next".
pub data Action : Type 0 where
  execute_tool converge decide_again : Action

pub record GraphState : Type 0 where
  pub budget : BudgetState
  pub next_action : Option Action
  pub previous_tool_outcome : Option ToolOutcome
  pub failing_call_fingerprint : Option String
  pub same_call_retries : ℕ
  -- The fingerprint of the pending request.
  pub pending_tool_request : Option String
  -- Whether there is a stop reason.
  pub stopped : Bool

pub data Reply : Type 0 where
  no_reply : Reply
  finalize : Reply
  -- The name of the tool and the fingerprint of the call.
  continue_with : String → String → Reply

pub data Execution : Type 0 where
  failed : Execution
  executed : ToolStatus → Execution

pub data Loaded : Type 0 where
  missing not_running running : Loaded

pub record Answer : Type 0 where
  pub now : ℕ
  pub loaded : Loaded
  pub reply : Reply
  pub execution : Execution
  pub raises : Bool

pub data Node : Type 0 where
  load_node hydrate_node plan_node decide_node tool_node assess_node finalize_node : Node
  complete_node : Node

-- Where a run stands: before a visit, at the end, or after an exception.
pub data Position : Type 0 where
  before : Node → GraphState → Position
  ended : GraphState → Position
  raised : Position

-- A time is in microseconds.
abbrev deadline_of : BudgetLimits → ℕ → ℕ
deadline_of limits now = now + limits.max_duration_seconds * 1000000

unfoldable pub seeded : BudgetLimits → ℕ → BudgetState → BudgetState
seeded limits now b = record {
  budget_remaining_steps = some (or_else b.budget_remaining_steps limits.max_steps);
  budget_remaining_tool_calls = some (or_else b.budget_remaining_tool_calls limits.max_tool_calls);
  budget_remaining_llm_calls = some (or_else b.budget_remaining_llm_calls limits.max_llm_calls);
  budget_deadline_at = some (or_else b.budget_deadline_at (deadline_of limits now));
}

unfoldable pub visit_load_investigation : BudgetLimits → ℕ → GraphState → GraphState
unfolding seeded
visit_load_investigation limits now s = record s {
  budget = seeded limits now s.budget;
  next_action = none;
  pending_tool_request = none;
  stopped = false;
}

-- The investigation has a status other than RUNNING.
unfoldable pub visit_load_terminal : BudgetLimits → ℕ → GraphState → GraphState
visit_load_terminal limits now s = record s {
  budget = record {
    budget_remaining_steps = some 0;
    budget_remaining_tool_calls = some 0;
    budget_remaining_llm_calls = some 0;
    budget_deadline_at = some (deadline_of limits now);
  };
  stopped = true;
}

unfoldable pub spent : ℕ → RuntimeBudget → RuntimeBudget
unfolding can_call_llm
spent now b = if can_call_llm now b then consume_llm_call b else b

-- The budget that plan, assess and finalize_result leave.
unfoldable pub visit_consulting : ℕ → GraphState → GraphState
unfolding spent from_state to_updates
visit_consulting now s = record s { budget = to_updates (spent now (from_state s.budget)) s.budget }

unfoldable repeat_budget_for : GraphState → String → ℕ
repeat_budget_for s fingerprint = elim s.failing_call_fingerprint [
  | none ↦ 0
  | some current ↦ if str_eq current fingerprint then s.same_call_retries else 0
]

unfoldable exceeded_repeat_budget : ℕ → Bool
exceeded_repeat_budget used = leb 2 used

unfoldable is_repeated : GraphState → String → Bool
unfolding exceeded_repeat_budget repeat_budget_for
is_repeated s fingerprint = elim s.previous_tool_outcome [
  | none ↦ false
  | some o ↦ o.retryable && exceeded_repeat_budget (repeat_budget_for s fingerprint)
]

-- The return of a node that converges, with the budget.
unfoldable pub converging : RuntimeBudget → GraphState → GraphState
unfolding to_updates
converging b s = record s { budget = to_updates b s.budget; next_action = some converge }

unfoldable pub scheduled : RuntimeBudget → String → GraphState → GraphState
unfolding to_updates
scheduled b fingerprint s = record s {
  budget = to_updates (consume_tool_call (consume_step b)) s.budget;
  next_action = some execute_tool;
  pending_tool_request = some fingerprint;
  previous_tool_outcome = none;
}

unfoldable pub after_model : RuntimeBudget → GraphState → Reply → GraphState
unfolding converging scheduled is_repeated
after_model b s no_reply = converging b s
after_model b s finalize = converging b s
after_model b s (continue_with tool_name fingerprint) =
    if not (str_eq tool_name "") && can_take_step b && can_execute_tool b
    then if is_repeated s fingerprint
      then record (converging b s) { previous_tool_outcome = none }
      else scheduled b fingerprint s
    else converging b s

unfoldable pub visit_decide_next : ℕ → Reply → GraphState → GraphState
unfolding can_consult_decide from_state after_model
visit_decide_next now reply s =
    if can_consult_decide now (from_state s.budget)
    then after_model (consume_llm_call (from_state s.budget)) s reply
    else record s { next_action = some converge }

-- The graph converges after a tool.
unfoldable pub stopped_with : Option ToolOutcome → GraphState → GraphState
stopped_with o s = record s { next_action = some converge; previous_tool_outcome = o }

unfoldable pub after_tool : String → Execution → GraphState → GraphState
unfolding stopped_with from_state repeat_budget_for
after_tool fingerprint failed s =
    stopped_with (some (record { status = rejected; retryable = false })) s
after_tool fingerprint (executed rejected) s =
    stopped_with (some (record { status = rejected; retryable = false })) s
after_tool fingerprint (executed unavailable) s =
    if can_take_step (from_state s.budget)
    then record s {
      next_action = some decide_again;
      previous_tool_outcome = some (record { status = unavailable; retryable = true });
      failing_call_fingerprint = some fingerprint;
      same_call_retries = suc (repeat_budget_for s fingerprint);
      pending_tool_request = none;
    }
    else stopped_with (some (record { status = unavailable; retryable = true })) s
after_tool fingerprint (executed success) s = record s {
  next_action = some decide_again;
  previous_tool_outcome = none;
  failing_call_fingerprint = none;
  same_call_retries = 0;
  pending_tool_request = none;
}
after_tool fingerprint (executed no_data) s = record s {
  next_action = some decide_again;
  previous_tool_outcome = some (record { status = no_data; retryable = false });
  failing_call_fingerprint = none;
  same_call_retries = 0;
  pending_tool_request = none;
}

-- The node on the pending request.
unfoldable pub execute_pending : ℕ → Execution → GraphState → Option String → GraphState
unfolding stopped_with after_tool deadline_exceeded from_state
execute_pending now execution s none = stopped_with none s
execute_pending now execution s (some fingerprint) =
    if deadline_exceeded now (from_state s.budget)
    then stopped_with none s
    else after_tool fingerprint execution s

unfoldable pub visit_execute_and_ingest : ℕ → Execution → GraphState → GraphState
unfolding execute_pending
visit_execute_and_ingest now execution s = execute_pending now execution s s.pending_tool_request

unfoldable pub route_after_load : GraphState → Position
route_after_load s = if s.stopped then ended s else before hydrate_node s

-- A marker that has no edge raises.
unfoldable pub route_decide : GraphState → Position
route_decide s = elim s.next_action [
  | none ↦ before assess_node s
  | some converge ↦ before assess_node s
  | some execute_tool ↦ before tool_node s
  | some decide_again ↦ raised
]

unfoldable pub route_after_tool : GraphState → Position
route_after_tool s = elim s.next_action [
  | none ↦ before decide_node s
  | some converge ↦ before assess_node s
  | some execute_tool ↦ before decide_node s
  | some decide_again ↦ before decide_node s
]

unfoldable pub loaded_from : BudgetLimits → Answer → GraphState → Loaded → Position
unfolding route_after_load visit_load_investigation visit_load_terminal
loaded_from limits a s missing = raised
loaded_from limits a s not_running = route_after_load (visit_load_terminal limits a.now s)
loaded_from limits a s running = route_after_load (visit_load_investigation limits a.now s)

-- A node that does not raise, and the edge that is taken.
unfoldable pub visit_node : BudgetLimits → Answer → Node → GraphState → Position
unfolding loaded_from visit_consulting visit_decide_next visit_execute_and_ingest route_decide
    route_after_tool
visit_node limits a load_node s = loaded_from limits a s a.loaded
visit_node limits a hydrate_node s = before plan_node s
visit_node limits a plan_node s = before decide_node (visit_consulting a.now s)
visit_node limits a decide_node s = route_decide (visit_decide_next a.now a.reply s)
visit_node limits a tool_node s = route_after_tool (visit_execute_and_ingest a.now a.execution s)
visit_node limits a assess_node s = before finalize_node (visit_consulting a.now s)
visit_node limits a finalize_node s = before complete_node (visit_consulting a.now s)
visit_node limits a complete_node s = ended (record s { stopped = true })

unfoldable pub advance : BudgetLimits → Answer → Position → Position
unfolding visit_node
advance limits a (before n s) = if a.raises then raised else visit_node limits a n s
advance limits a (ended s) = ended s
advance limits a raised = raised

-- So many visits; `answers k` is for the one that k visits follow.
unfoldable pub run_graph : BudgetLimits → (ℕ → Answer) → ℕ → Position → Position
unfolding advance
run_graph limits answers zero p = p
run_graph limits answers (suc k) p = run_graph limits answers k (advance limits (answers k) p)

-- A run that stands before another visit raises GraphRecursionError.
unfoldable pub within_limit : Position → Position
within_limit (before n s) = raised
within_limit (ended s) = ended s
within_limit raised = raised

-- `graph.ainvoke`, under the recursion limit of the configuration: so many visits and no more.
-- `thread_config` leaves it to the default of LangGraph, which is an argument.
unfoldable pub ainvoke : BudgetLimits → (ℕ → Answer) → ℕ → GraphState → Position
unfolding within_limit run_graph
ainvoke limits answers recursion_limit s =
    within_limit (run_graph limits answers recursion_limit (before load_node s))

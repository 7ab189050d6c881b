-- ===== src/Budget.antt =====
-- The runtime budget of an agent run (src/hisiem_soc_copilot/agent/graph/budget.py) and what the
-- nodes of the graph spend of it (src/hisiem_soc_copilot/agent/graph/nodes.py: the plan, decide,
-- assess and verdict consults, and the tool that decide schedules). The counters of the state are
-- not negative: they start from positive limits. A time is a number of microseconds.
pub mod Spending
mod Examples
use hisiem_soc_copilot.Prelude.{
  ℕ, suc, ◌-◌, Option, none, some, Bool, true, false, List, [], ◌∷◌, ◌&&◌, leb, ltb, not,
  if◌then◌else◌, or_else,
}

abbrev convergence_llm_reserve : ℕ
convergence_llm_reserve = 2

pub record RuntimeBudget : Type 0 where
  pub steps : ℕ
  pub tool_calls : ℕ
  pub llm_calls : ℕ
  pub deadline_at : Option ℕ

-- The counters of the checkpointed state, where they are set.
pub record BudgetState : Type 0 where
  pub budget_remaining_steps : Option ℕ
  pub budget_remaining_tool_calls : Option ℕ
  pub budget_remaining_llm_calls : Option ℕ
  pub budget_deadline_at : Option ℕ

unfoldable pub from_state : BudgetState → RuntimeBudget
from_state s = record {
  steps = or_else s.budget_remaining_steps 0;
  tool_calls = or_else s.budget_remaining_tool_calls 0;
  llm_calls = or_else s.budget_remaining_llm_calls 0;
  deadline_at = s.budget_deadline_at;
}

unfoldable pub to_updates : RuntimeBudget → BudgetState → BudgetState
to_updates b s = record s {
  budget_remaining_steps = some b.steps;
  budget_remaining_tool_calls = some b.tool_calls;
  budget_remaining_llm_calls = some b.llm_calls;
}

unfoldable pub deadline_exceeded : ℕ → RuntimeBudget → Bool
deadline_exceeded now b = elim b.deadline_at [ none ↦ false | some at ↦ leb at now ]

unfoldable pub can_call_llm : ℕ → RuntimeBudget → Bool
unfolding deadline_exceeded
can_call_llm now b = ltb 0 b.llm_calls && not (deadline_exceeded now b)

unfoldable pub can_consult_decide : ℕ → RuntimeBudget → Bool
unfolding deadline_exceeded
can_consult_decide now b = ltb convergence_llm_reserve b.llm_calls && not (deadline_exceeded now b)

abbrev pub can_execute_tool : RuntimeBudget → Bool
can_execute_tool b = ltb 0 b.tool_calls

abbrev pub can_take_step : RuntimeBudget → Bool
can_take_step b = ltb 0 b.steps

abbrev pub consume_llm_call : RuntimeBudget → RuntimeBudget
consume_llm_call b = record b { llm_calls = b.llm_calls - 1 }

abbrev pub consume_tool_call : RuntimeBudget → RuntimeBudget
consume_tool_call b = record b { tool_calls = b.tool_calls - 1 }

abbrev pub consume_step : RuntimeBudget → RuntimeBudget
consume_step b = record b { steps = b.steps - 1 }

-- What the model answers to decide: nothing, finalize, or a tool, which the guard against
-- repeated failures refuses or not.
pub data Reply : Type 0 where
  unavailable finalize : Reply
  continue_with : Bool → Reply

-- The budget with the consults of the model and the scheduled tools so far.
pub record Tally : Type 0 where
  pub budget : RuntimeBudget
  pub consults : ℕ
  pub tools : ℕ

-- A visit of a node, at a time: plan, assess or verdict, or decide with the model's reply.
pub data Visit : Type 0 where
  consulting : ℕ → Visit
  deciding : ℕ → Reply → Visit

-- `if budget.can_call_llm(): budget = budget.consume_llm_call()`, in three nodes.
unfoldable pub consult : ℕ → Tally → Tally
unfolding can_call_llm
consult now t =
    if can_call_llm now t.budget
    then record t { budget = consume_llm_call t.budget; consults = suc t.consults }
    else t

abbrev schedule_tool : Tally → Tally
schedule_tool t =
    if can_take_step t.budget && can_execute_tool t.budget
    then record t { budget = consume_tool_call (consume_step t.budget); tools = suc t.tools }
    else t

abbrev after_reply : Reply → Tally → Tally
after_reply unavailable t = t
after_reply finalize t = t
after_reply (continue_with true) t = t
after_reply (continue_with false) t = schedule_tool t

unfoldable pub decide_next : ℕ → Reply → Tally → Tally
unfolding can_consult_decide
decide_next now reply t =
    if can_consult_decide now t.budget
    then after_reply reply
        (record t { budget = consume_llm_call t.budget; consults = suc t.consults })
    else t

unfoldable pub visit : Visit → Tally → Tally
unfolding consult decide_next
visit (consulting now) t = consult now t
visit (deciding now reply) t = decide_next now reply t

unfoldable pub visits : List Visit → Tally → Tally
unfolding visit
visits [] t = t
visits (v ∷ vs) t = visits vs (visit v t)

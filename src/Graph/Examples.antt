-- ===== src/Graph/Examples.antt =====
-- A run with a model that always wants the same tool, which is unavailable, and the theorems at it.
use hisiem_soc_copilot.Prelude.{arith, ℕ, ◌+◌, ◌*◌, ◌≡◌, refl, none, true, false}
use hisiem_soc_copilot.Shared.{default_limits}
use hisiem_soc_copilot.Graph.{
  GraphState, Answer, continue_with, executed, unavailable, running, load_node, before, ended,
  ainvoke, within_limit, raised, success, run_graph, ainvoke, within_limit, raised, success,
}
use hisiem_soc_copilot.Graph.Termination.{is_over, run_graph-is_over}
use hisiem_soc_copilot.Graph.Completion.{is_found, ainvoke-stops}

abbrev fresh : GraphState
fresh = record {
  budget = record {
    budget_remaining_steps = none;
    budget_remaining_tool_calls = none;
    budget_remaining_llm_calls = none;
    budget_deadline_at = none;
  };
  next_action = none;
  previous_tool_outcome = none;
  failing_call_fingerprint = none;
  same_call_retries = 0;
  pending_tool_request = none;
  stopped = false;
}

abbrev stubborn : ℕ → Answer
stubborn k = record {
  now = 5;
  loaded = running;
  reply = continue_with "hisiem.search_events" "f00d";
  execution = executed unavailable;
  raises = false;
}

run_graph-is_over_example :
    is_over (run_graph default_limits stubborn (2 * 20 + 7) (before load_node fresh)) ≡ true
run_graph-is_over_example = run_graph-is_over default_limits stubborn fresh

ainvoke-stops_example :
    (t : GraphState) × (ainvoke default_limits stubborn 47 fresh ≡ ended t) × (t.stopped ≡ true)
ainvoke-stops_example =
    ainvoke-stops default_limits stubborn 47 fresh (omega arith)
      (λ n lt. (refl, unfold is_found in refl))

-- A model that goes on with new calls, at a tool that answers.
abbrev busy : ℕ → Answer
busy k = record (stubborn k) { execution = executed success }

-- Under a recursion limit of 25 the run with the default budget is cut short.
cut_short : ainvoke default_limits busy 25 fresh ≡ raised
unfolding ainvoke within_limit run_graph
cut_short = refl

-- ===== src/Graph/Termination.antt =====
-- Every run of the graph comes to an end, within a number of visits that the steps of the budget
-- give (src/hisiem_soc_copilot/agent/graph/builder.py, nodes.py).
use hisiem_soc_copilot.Prelude.{
  ℕ, zero, suc, ◌+◌, ◌-◌, ◌*◌, ◌≤◌, ◌<◌, ◌≡◌, refl, Option, none, some, Bool, true, false, String,
  arith, or_else, Bool-cases, inl, inr,
}
use hisiem_soc_copilot.Shared.{BudgetLimits}
use hisiem_soc_copilot.Budget.{
  RuntimeBudget, consume_llm_call, from_state, to_updates, deadline_exceeded, can_consult_decide,
}
use hisiem_soc_copilot.Graph.{
  GraphState, Reply, no_reply, finalize, continue_with, Execution, failed, executed, success,
  no_data, rejected, unavailable, Loaded, missing, not_running, running, Answer, Node, load_node,
  hydrate_node, plan_node, decide_node, tool_node, assess_node, finalize_node, complete_node,
  Position, before, ended, raised, seeded, visit_load_investigation, visit_load_terminal,
  visit_consulting, spent, converging, scheduled, after_model, visit_decide_next, stopped_with,
  after_tool, visit_execute_and_ingest, route_after_load, route_decide, route_after_tool,
  loaded_from, visit_node, advance, run_graph, execute_pending,
}

-- The steps that are left, as the nodes after the load read them.
abbrev steps_left : GraphState → ℕ
steps_left s = or_else s.budget.budget_remaining_steps 0

-- A bound on the visits that follow.
unfoldable visits_left : BudgetLimits → Position → ℕ
visits_left limits (before load_node s) =
    2 * or_else s.budget.budget_remaining_steps limits.max_steps + 7
visits_left limits (before hydrate_node s) = 2 * steps_left s + 6
visits_left limits (before plan_node s) = 2 * steps_left s + 5
visits_left limits (before decide_node s) = 2 * steps_left s + 4
visits_left limits (before tool_node s) = 2 * steps_left s + 5
visits_left limits (before assess_node s) = 3
visits_left limits (before finalize_node s) = 2
visits_left limits (before complete_node s) = 1
visits_left limits (ended s) = 0
visits_left limits raised = 0

loads_less :
    (limits : BudgetLimits) (a : Answer) (s : GraphState) (l : Loaded)
    → visits_left limits (loaded_from limits a s l) < visits_left limits (before load_node s)
unfolding visits_left loaded_from route_after_load visit_load_investigation visit_load_terminal
    seeded
loads_less limits a s missing = omega arith
loads_less limits a s not_running = omega arith
loads_less limits a s running = omega arith

replied_less :
    (limits : BudgetLimits) (b : RuntimeBudget) (s : GraphState) (reply : Reply)
    → b.steps ≡ steps_left s
    → visits_left limits (route_decide (after_model b s reply)) < 2 * steps_left s + 4
unfolding visits_left route_decide after_model converging scheduled to_updates
replied_less limits b s no_reply e = ground arith
replied_less limits b s finalize e = ground arith
replied_less limits b s (continue_with tool_name fingerprint) e = ground arith

decides_less :
    (limits : BudgetLimits) (now : ℕ) (reply : Reply) (s : GraphState)
    → visits_left limits (route_decide (visit_decide_next now reply s)) < 2 * steps_left s + 4
unfolding visit_decide_next
decides_less limits now reply s = elim (Bool-cases (can_consult_decide now (from_state s.budget))) [
  | inl t ↦ rw t (
      replied_less limits (consume_llm_call (from_state s.budget)) s reply
        (unfold from_state in refl))
  | inr t ↦ rw t (unfold visits_left route_decide in omega arith)
]

tools_less :
    (limits : BudgetLimits) (fingerprint : String) (e : Execution) (s : GraphState)
    → visits_left limits (route_after_tool (after_tool fingerprint e s)) < 2 * steps_left s + 5
unfolding visits_left route_after_tool after_tool stopped_with
tools_less limits fingerprint failed s = omega arith
tools_less limits fingerprint (executed success) s = omega arith
tools_less limits fingerprint (executed no_data) s = omega arith
tools_less limits fingerprint (executed rejected) s = omega arith
tools_less limits fingerprint (executed unavailable) s = ground arith

executes_less :
    (limits : BudgetLimits) (now : ℕ) (e : Execution) (s : GraphState) (o : Option String)
    → visits_left limits (route_after_tool (execute_pending now e s o)) < 2 * steps_left s + 5
unfolding execute_pending
executes_less limits now e s none = unfold visits_left route_after_tool stopped_with in omega arith
executes_less limits now e s (some f) =
    elim (Bool-cases (deadline_exceeded now (from_state s.budget))) [
      | inl t ↦ rw t (unfold visits_left route_after_tool stopped_with in omega arith)
      | inr t ↦ rw t (tools_less limits f e s)
    ]

visit_less :
    (limits : BudgetLimits) (a : Answer) (n : Node) (s : GraphState)
    → visits_left limits (visit_node limits a n s) < visits_left limits (before n s)
visit_less limits a load_node s = unfold visit_node in (loads_less limits a s a.loaded)
visit_less limits a hydrate_node s = unfold visit_node visits_left in omega arith
visit_less limits a plan_node s =
    unfold visit_node visits_left visit_consulting spent from_state to_updates in ground arith
visit_less limits a decide_node s =
    unfold visit_node visits_left in (decides_less limits a.now a.reply s)
visit_less limits a tool_node s =
    unfold visit_node visit_execute_and_ingest visits_left in
    (executes_less limits a.now a.execution s s.pending_tool_request)
visit_less limits a assess_node s = unfold visit_node visits_left in omega arith
visit_less limits a finalize_node s = unfold visit_node visits_left in omega arith
visit_less limits a complete_node s = unfold visit_node visits_left in omega arith

advance_less :
    (limits : BudgetLimits) (a : Answer) (p : Position)
    → visits_left limits (advance limits a p) ≤ visits_left limits p - 1
advance_less limits a (before n s) = elim (Bool-cases a.raises) [
  | inl t ↦ unfold advance in rw t (unfold visits_left in omega arith)
  | inr t ↦ unfold advance in rw t (let l = visit_less limits a n s in omega (arith, l))
]
advance_less limits a (ended s) = unfold advance visits_left in omega arith
advance_less limits a raised = unfold advance visits_left in omega arith

run_less :
    (limits : BudgetLimits) (answers : ℕ → Answer) (k : ℕ) (p : Position)
    → visits_left limits (run_graph limits answers k p) ≤ visits_left limits p - k
unfolding run_graph
run_less limits answers zero p = omega arith
run_less limits answers (suc k) p =
    let rest = run_less limits answers k (advance limits (answers k) p) in
    let l = advance_less limits (answers k) p in omega (arith, rest, l)

unfoldable pub is_over : Position → Bool
is_over (before n s) = false
is_over (ended s) = true
is_over raised = true

over_at_zero : (limits : BudgetLimits) (p : Position) → visits_left limits p ≤ 0 → is_over p ≡ true
over_at_zero limits (before load_node s) h = absurd (unfold visits_left in omega (arith, h))
over_at_zero limits (before hydrate_node s) h = absurd (unfold visits_left in omega (arith, h))
over_at_zero limits (before plan_node s) h = absurd (unfold visits_left in omega (arith, h))
over_at_zero limits (before decide_node s) h = absurd (unfold visits_left in omega (arith, h))
over_at_zero limits (before tool_node s) h = absurd (unfold visits_left in omega (arith, h))
over_at_zero limits (before assess_node s) h = absurd (unfold visits_left in omega (arith, h))
over_at_zero limits (before finalize_node s) h = absurd (unfold visits_left in omega (arith, h))
over_at_zero limits (before complete_node s) h = absurd (unfold visits_left in omega (arith, h))
over_at_zero limits (ended s) h = unfold is_over in refl
over_at_zero limits raised h = unfold is_over in refl

-- A run of at least so many visits is over.
pub over_within :
    (limits : BudgetLimits) (answers : ℕ → Answer) (n : ℕ) (s : GraphState)
    → 2 * or_else s.budget.budget_remaining_steps limits.max_steps + 7 ≤ n
    → is_over (run_graph limits answers n (before load_node s)) ≡ true
over_within limits answers n s h =
    let l = run_less limits answers n (before load_node s) in
    over_at_zero limits (run_graph limits answers n (before load_node s))
      (unfold visits_left in omega (arith, l, h))

-- Whatever the model, the tools and the clock answer, a run of the graph is over, at the end or by
-- an exception, after seven visits of nodes and two more for each step that the state or else the
-- limits grant.
pub run_graph-is_over :
    (limits : BudgetLimits) (answers : ℕ → Answer) (s : GraphState)
    → is_over (
        run_graph limits answers
          (2 * or_else s.budget.budget_remaining_steps limits.max_steps + 7)
          (before load_node s))
      ≡ true
run_graph-is_over limits answers s =
    over_within limits answers (2 * or_else s.budget.budget_remaining_steps limits.max_steps + 7) s
      (omega arith)

-- ===== src/Graph/Completion.antt =====
-- A run of the graph in which nothing raises stops with a reason
-- (src/hisiem_soc_copilot/agent/graph/builder.py, nodes.py).
use hisiem_soc_copilot.Prelude.{
  ℕ, zero, suc, ◌+◌, ◌*◌, ◌≤◌, ◌<◌, ◌≡◌, refl, ap, Option, none, some, Bool, true, false, arith,
  or_else, Bool-cases, inl, inr,
}
use hisiem_soc_copilot.Shared.{BudgetLimits}
use hisiem_soc_copilot.Budget.{RuntimeBudget, from_state, consume_llm_call, can_consult_decide}
use hisiem_soc_copilot.Graph.{
  GraphState, Reply, no_reply, finalize, continue_with, Loaded, missing, not_running, running,
  Answer, Node, load_node, hydrate_node, plan_node, decide_node, tool_node, assess_node,
  finalize_node, complete_node, Position, before, ended, raised, execute_tool, converge,
  decide_again, Action, visit_load_investigation, visit_load_terminal, converging, scheduled,
  after_model, visit_decide_next, visit_execute_and_ingest, route_after_load, route_decide,
  route_after_tool, loaded_from, visit_node, advance, run_graph, ainvoke, within_limit,
}
use hisiem_soc_copilot.Graph.Termination.{is_over, over_within}

-- A position of a run without an exception, which ends with a stop reason.
unfoldable IsSound : Position → Type 0
IsSound (before n s) = Unit
IsSound (ended s) = s.stopped ≡ true
IsSound raised = ⊥

unfoldable pub is_found : Loaded → Bool
is_found missing = false
is_found not_running = true
is_found running = true

loaded-IsSound :
    (limits : BudgetLimits) (a : Answer) (s : GraphState) (l : Loaded)
    → is_found l ≡ true
    → IsSound (loaded_from limits a s l)
unfolding is_found IsSound loaded_from route_after_load visit_load_investigation visit_load_terminal
loaded-IsSound limits a s missing h = ground (arith, h)
loaded-IsSound limits a s not_running h = refl
loaded-IsSound limits a s running h = tt

replied-IsSound :
    (b : RuntimeBudget) (s : GraphState) (reply : Reply)
    → IsSound (route_decide (after_model b s reply))
unfolding IsSound route_decide after_model converging scheduled
replied-IsSound b s no_reply = tt
replied-IsSound b s finalize = tt
replied-IsSound b s (continue_with tool_name fingerprint) = ground arith

decides-IsSound :
    (now : ℕ) (reply : Reply) (s : GraphState)
    → IsSound (route_decide (visit_decide_next now reply s))
unfolding visit_decide_next
decides-IsSound now reply s = elim (Bool-cases (can_consult_decide now (from_state s.budget))) [
  | inl t ↦ rw t (replied-IsSound (consume_llm_call (from_state s.budget)) s reply)
  | inr t ↦ rw t (unfold IsSound route_decide in tt)
]

routed-IsSound : (s : GraphState) → IsSound (route_after_tool s)
routed-IsSound s = unfold IsSound route_after_tool in go s.next_action
  where
    go :
        (o : Option Action)
        → IsSound (elim o as (λ x. Position) [
          | none ↦ before decide_node s
          | some converge ↦ before assess_node s
          | some execute_tool ↦ before decide_node s
          | some decide_again ↦ before decide_node s
        ])
    go none = unfold IsSound in tt
    go (some converge) = unfold IsSound in tt
    go (some execute_tool) = unfold IsSound in tt
    go (some decide_again) = unfold IsSound in tt

visit-IsSound :
    (limits : BudgetLimits) (a : Answer) (n : Node) (s : GraphState)
    → is_found a.loaded ≡ true
    → IsSound (visit_node limits a n s)
unfolding visit_node
visit-IsSound limits a load_node s h = loaded-IsSound limits a s a.loaded h
visit-IsSound limits a hydrate_node s h = unfold IsSound in tt
visit-IsSound limits a plan_node s h = unfold IsSound in tt
visit-IsSound limits a decide_node s h = decides-IsSound a.now a.reply s
visit-IsSound limits a tool_node s h = routed-IsSound (visit_execute_and_ingest a.now a.execution s)
visit-IsSound limits a assess_node s h = unfold IsSound in tt
visit-IsSound limits a finalize_node s h = unfold IsSound in tt
visit-IsSound limits a complete_node s h = unfold IsSound in refl

advance-IsSound :
    (limits : BudgetLimits) (a : Answer) (p : Position)
    → a.raises ≡ false
    → is_found a.loaded ≡ true
    → IsSound p
    → IsSound (advance limits a p)
unfolding advance
advance-IsSound limits a (before n s) r h i = rw r (visit-IsSound limits a n s h)
advance-IsSound limits a (ended s) r h i = i
advance-IsSound limits a raised r h i = i

run-IsSound :
    (limits : BudgetLimits) (answers : ℕ → Answer) (k : ℕ) (p : Position)
    → ((n : ℕ) → n < k → ((answers n).raises ≡ false) × (is_found (answers n).loaded ≡ true))
    → IsSound p
    → IsSound (run_graph limits answers k p)
unfolding run_graph
run-IsSound limits answers zero p h i = i
run-IsSound limits answers (suc k) p h i =
    run-IsSound limits answers k (advance limits (answers k) p) (λ n lt. h n (omega arith))
      (advance-IsSound limits (answers k) p (h k (omega arith)).0 (h k (omega arith)).1 i)

over-IsSound :
    (p : Position)
    → is_over p ≡ true
    → IsSound p
    → (t : GraphState) × (p ≡ ended t) × (t.stopped ≡ true)
unfolding is_over IsSound
over-IsSound (before n s) o i = absurd (ground (arith, o))
over-IsSound (ended s) o i = (s, refl, i)
over-IsSound raised o i = absurd i

-- When the recursion limit that LangGraph runs under is seven visits and two more for each step
-- that the state or else the limits grant, or more, no visit within it raises, and the
-- investigation is found, the invocation of the graph ends with a stop reason.
pub ainvoke-stops :
    (limits : BudgetLimits) (answers : ℕ → Answer) (recursion_limit : ℕ) (s : GraphState)
    → 2 * or_else s.budget.budget_remaining_steps limits.max_steps + 7 ≤ recursion_limit
    → ((n : ℕ)
        → n < recursion_limit
        → ((answers n).raises ≡ false) × (is_found (answers n).loaded ≡ true))
    → (t : GraphState) × (ainvoke limits answers recursion_limit s ≡ ended t) × (t.stopped ≡ true)
ainvoke-stops limits answers recursion_limit s enough h =
    let l =
      over-IsSound (run_graph limits answers recursion_limit (before load_node s))
        (over_within limits answers recursion_limit s enough)
        (run-IsSound limits answers recursion_limit (before load_node s) h
          (unfold IsSound in tt)) in
    (l.0, unfold ainvoke within_limit in ap within_limit l.1, l.2)

-- ===== src/Budget/Examples.antt =====
-- A run of a small budget, and the theorems at it.
use hisiem_soc_copilot.Prelude.{◌+◌, ◌≡◌, some, false, List, [], ◌∷◌, refl, arith}
use hisiem_soc_copilot.Budget.{
  Tally, Visit, deciding, continue_with, visits, consult, deadline_exceeded,
}
use hisiem_soc_copilot.Budget.Spending.{IsDecide, visits_balanced, convergence_guaranteed}

abbrev start : Tally
start = record {
  budget = record { steps = 3; tool_calls = 2; llm_calls = 4; deadline_at = some 100 };
  consults = 0;
  tools = 0;
}

-- The third decide finds only the reserve, and consults no more.
abbrev eager : List Visit
eager =
    deciding 1 (continue_with false)
    ∷ deciding 2 (continue_with false)
    ∷ deciding 3 (continue_with false)
    ∷ []

reserve_left : (visits eager start).budget.llm_calls ≡ 2
reserve_left = unfold visits in refl

visits_balanced_example :
    ((visits eager start).consults + (visits eager start).budget.llm_calls
      ≡ start.consults + start.budget.llm_calls)
    × ((visits eager start).tools + (visits eager start).budget.tool_calls
        ≡ start.tools + start.budget.tool_calls)
    × ((visits eager start).tools + (visits eager start).budget.steps
        ≡ start.tools + start.budget.steps)
visits_balanced_example = visits_balanced eager start

convergence_guaranteed_example :
    (consult 99 (consult 50 (visits eager start))).consults ≡ (visits eager start).consults + 2
convergence_guaranteed_example =
    convergence_guaranteed eager start 50 99 (unfold IsDecide in (tt, (tt, (tt, tt)))) (omega arith)
      (unfold deadline_exceeded in refl) (unfold deadline_exceeded in refl)

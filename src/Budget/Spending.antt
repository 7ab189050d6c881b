-- ===== src/Budget/Spending.antt =====
-- What an agent run can spend, whatever the model replies and whenever the nodes run.
use hisiem_soc_copilot.Prelude.{ℕ, ◌+◌, ◌≤◌, ◌≡◌, true, false, List, [], ◌∷◌, arith, refl, ◌∙◌, All}
use hisiem_soc_copilot.Budget.{
  RuntimeBudget, Tally, Visit, consulting, deciding, visit, visits, consult, decide_next, Reply,
  unavailable, finalize, continue_with, can_call_llm, can_consult_decide, deadline_exceeded,
}

llm_balance :
    (v : Visit) (t : Tally)
    → (visit v t).consults + (visit v t).budget.llm_calls ≡ t.consults + t.budget.llm_calls
unfolding visit consult decide_next can_call_llm can_consult_decide deadline_exceeded
llm_balance (consulting now) t = ground arith
llm_balance (deciding now unavailable) t = ground arith
llm_balance (deciding now finalize) t = ground arith
llm_balance (deciding now (continue_with true)) t = ground arith
llm_balance (deciding now (continue_with false)) t = ground arith

tool_balance :
    (v : Visit) (t : Tally)
    → ((visit v t).tools + (visit v t).budget.tool_calls ≡ t.tools + t.budget.tool_calls)
      × ((visit v t).tools + (visit v t).budget.steps ≡ t.tools + t.budget.steps)
unfolding visit consult decide_next can_call_llm can_consult_decide deadline_exceeded
tool_balance (consulting now) t = ground arith
tool_balance (deciding now unavailable) t = ground arith
tool_balance (deciding now finalize) t = ground arith
tool_balance (deciding now (continue_with true)) t = ground arith
tool_balance (deciding now (continue_with false)) t = ground arith

-- Whatever the nodes that run and the model's replies, the consults and the calls that are left
-- add up to what they were at the start, and so do the scheduled tools with the tool calls and
-- with the steps that are left.
pub visits_balanced :
    (vs : List Visit) (t : Tally)
    → ((visits vs t).consults + (visits vs t).budget.llm_calls ≡ t.consults + t.budget.llm_calls)
      × ((visits vs t).tools + (visits vs t).budget.tool_calls ≡ t.tools + t.budget.tool_calls)
      × ((visits vs t).tools + (visits vs t).budget.steps ≡ t.tools + t.budget.steps)
unfolding visits
visits_balanced [] t = (refl, refl, refl)
visits_balanced (v ∷ vs) t =
    let rest = visits_balanced vs (visit v t) in
    (rest.0 ∙ llm_balance v t, rest.1 ∙ (tool_balance v t).0, rest.2 ∙ (tool_balance v t).1)

-- A visit of decide.
unfoldable pub IsDecide : Visit → Type 0
IsDecide (consulting now) = ⊥
IsDecide (deciding now reply) = Unit

-- The deadline is the same and two calls are left.
reserve_kept :
    (now : ℕ) (reply : Reply) (t : Tally)
    → 2 ≤ t.budget.llm_calls
    → (2 ≤ (decide_next now reply t).budget.llm_calls)
      × ((decide_next now reply t).budget.deadline_at ≡ t.budget.deadline_at)
unfolding decide_next can_consult_decide deadline_exceeded
reserve_kept now unavailable t h = ground arith
reserve_kept now finalize t h = ground arith
reserve_kept now (continue_with true) t h = ground arith
reserve_kept now (continue_with false) t h = ground arith

decides_keep :
    (vs : List Visit) (t : Tally)
    → All IsDecide vs
    → 2 ≤ t.budget.llm_calls
    → (2 ≤ (visits vs t).budget.llm_calls)
      × ((visits vs t).budget.deadline_at ≡ t.budget.deadline_at)
unfolding visits visit IsDecide
decides_keep [] t d h = (h, refl)
decides_keep (consulting now ∷ vs) t d h = absurd d.0
decides_keep (deciding now reply ∷ vs) t d h =
    let kept = reserve_kept now reply t h in
    let rest = decides_keep vs (decide_next now reply t) d.1 kept.0 in (rest.0, rest.1 ∙ kept.1)

same_deadline :
    (now : ℕ) (b c : RuntimeBudget)
    → c.deadline_at ≡ b.deadline_at
    → deadline_exceeded now c ≡ deadline_exceeded now b
unfolding deadline_exceeded
same_deadline now b c e = rw e refl

both_consult :
    (at later : ℕ) (t : Tally)
    → 2 ≤ t.budget.llm_calls
    → deadline_exceeded at t.budget ≡ false
    → deadline_exceeded later t.budget ≡ false
    → (consult later (consult at t)).consults ≡ t.consults + 2
unfolding consult can_call_llm deadline_exceeded
both_consult at later t h a b = ground arith

-- When decide begins with two calls of the model left, then, whatever the model replies to it and
-- however often it runs, two consults at times before the deadline both go through after it.
pub convergence_guaranteed :
    (vs : List Visit) (t : Tally) (at later : ℕ)
    → All IsDecide vs
    → 2 ≤ t.budget.llm_calls
    → deadline_exceeded at t.budget ≡ false
    → deadline_exceeded later t.budget ≡ false
    → (consult later (consult at (visits vs t))).consults ≡ (visits vs t).consults + 2
convergence_guaranteed vs t at later d h a b =
    let kept = decides_keep vs t d h in
    let u = visits vs t in
    both_consult at later u kept.0 (same_deadline at t.budget u.budget kept.1 ∙ a)
      (same_deadline later t.budget u.budget kept.1 ∙ b)

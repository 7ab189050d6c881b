-- ===== src/Workflow/Decisions.antt =====
-- What the workflow promises of decisions, submissions and observations, one operation or one run
-- at a time.
use hisiem_soc_copilot.Prelude.{◌≡◌, Option, none, some, List, [], ◌∷◌, ◌∙◌}
use hisiem_soc_copilot.Response.{ResponseProposal}
use hisiem_soc_copilot.Workflow.{ApprovalDecision, ResponseExecutionRef}
use hisiem_soc_copilot.Workflow.Runs.{
  World, Action, creating, deciding, reading_submit, answering_submit, exhausting, reading_observe,
  answering_observe, act, run, IsSafe, committed-cases, act-IsSafe, item, answered_submit,
  answered_observe,
}
use hisiem_soc_copilot.Workflow.Approval.{decide_response_approval}
use hisiem_soc_copilot.Workflow.Approval.Consistency.{decide-decision}
use hisiem_soc_copilot.Workflow.Creation.{create_response_proposal}
use hisiem_soc_copilot.Workflow.Creation.Consistency.{create-decision}
use hisiem_soc_copilot.Workflow.Submission.Consistency.{settle-decision, exhaust-decision}
use hisiem_soc_copilot.Workflow.Observation.Consistency.{observe-decision}

act-decision :
    (a : Action) (w : World) (d : ApprovalDecision)
    → IsSafe w
    → w.store.decision ≡ some d
    → (act a w).store.decision ≡ some d
unfolding act IsSafe
act-decision (creating parse c fresh) w d h e =
    committed-cases (λ t. t.decision ≡ some d) w.store
      (create_response_proposal parse c fresh w.store) e
      (λ t x k. create-decision parse c fresh w.store t x d h.0 e k)
act-decision (deciding show c id now) w d h e =
    committed-cases (λ t. t.decision ≡ some d) w.store
      (decide_response_approval show c id now w.store) e
      (λ t o k. rw (decide-decision show c id now w.store t o d h.0 e k) e)
act-decision (reading_submit tenant id) w d h e = e
act-decision (answering_submit n r answer) w d h e = go (item n w.called)
  where
    go : (o : Option ResponseProposal) → (answered_submit r answer w.store o).decision ≡ some d
    go none = e
    go (some p) = settle-decision r p w.store answer ∙ e
act-decision (exhausting r id code) w d h e = exhaust-decision r id code w.store ∙ e
act-decision (reading_observe tenant id) w d h e = e
act-decision (answering_observe n r found) w d h e = go (item n w.watched)
  where
    go : (o : Option ResponseExecutionRef) → (answered_observe r found w.store o).decision ≡ some d
    go none = e
    go (some x) = observe-decision r x w.store found ∙ e

-- In a safe world, a decision, once recorded, is the same after any actions.
pub decided_forever :
    (actions : List Action) (w : World) (d : ApprovalDecision)
    → IsSafe w
    → w.store.decision ≡ some d
    → (run actions w).store.decision ≡ some d
unfolding run
decided_forever [] w d h e = e
decided_forever (a ∷ rest) w d h e =
    decided_forever rest (act a w) d (act-IsSafe a w h) (act-decision a w d h e)

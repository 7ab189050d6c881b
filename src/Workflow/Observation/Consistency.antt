-- ===== src/Workflow/Observation/Consistency.antt =====
-- An observation keeps the rows consistent and takes no authority away.
use hisiem_soc_copilot.Prelude.{◌≡◌, arith}
use hisiem_soc_copilot.Response.{ResponseProposal}
use hisiem_soc_copilot.Workflow.{Store, get_execution, ResponseExecutionRef}
use hisiem_soc_copilot.Workflow.Shapes.{
  Rows, BelongsTo, IsConsistent, Binds, Decides, IsAuthorized, Approves,
}
use hisiem_soc_copilot.Workflow.Submission.{Run}
use hisiem_soc_copilot.Workflow.Observation.{
  settle_observe, Finding, refused, unread, ended, in_flight, persist_terminal, settle_terminal,
  settle_terminal_failure, settle_nonterminal, reschedule_observation, is_open,
}

module _ (r : Run) (e : ResponseExecutionRef) (s : Store) where
  pub observe-IsConsistent : (f : Finding) → IsConsistent s → IsConsistent (settle_observe r e f s)
  unfolding IsConsistent BelongsTo Rows Binds Decides settle_observe persist_terminal
      settle_terminal settle_terminal_failure settle_nonterminal reschedule_observation is_open
      get_execution
  observe-IsConsistent (refused x) h = ground arith
  observe-IsConsistent (unread x) h = ground arith
  observe-IsConsistent (ended x) h = ground arith
  observe-IsConsistent (in_flight x) h = ground arith

  pub observe-IsAuthorized :
      (f : Finding) (q : ResponseProposal)
      → IsAuthorized s q
      → IsAuthorized (settle_observe r e f s) q
  unfolding Decides IsAuthorized Approves settle_observe persist_terminal settle_terminal
      settle_terminal_failure settle_nonterminal reschedule_observation is_open get_execution
  observe-IsAuthorized (refused x) q h = ground arith
  observe-IsAuthorized (unread x) q h = ground arith
  observe-IsAuthorized (ended x) q h = ground arith
  observe-IsAuthorized (in_flight x) q h = ground arith

  pub observe-decision : (f : Finding) → (settle_observe r e f s).decision ≡ s.decision
  unfolding settle_observe persist_terminal settle_terminal settle_terminal_failure
      settle_nonterminal reschedule_observation is_open get_execution
  observe-decision (refused x) = ground arith
  observe-decision (unread x) = ground arith
  observe-decision (ended x) = ground arith
  observe-decision (in_flight x) = ground arith

-- ===== src/Workflow/Approval/Consistency.antt =====
-- Decisions keep the rows consistent and take no authority away.
use hisiem_soc_copilot.Prelude.{
  is_ok, is_some, Option, Bool, false, ◌↔◌, str_eq, true, none, some, ℕ, ◌≡◌, String, none, some,
  true, ok, arith,
}
use hisiem_soc_copilot.Response.{
  ResponseProposal, transition, transitions, approve_proposal, reject_proposal,
  ResponseProposalStatus, approved, rejected, ApprovalDecisionKind, approve, reject,
}
use hisiem_soc_copilot.Workflow.{
  ApprovalDecision, Store, ApprovalRequest, update_proposal, get_request, get_proposal,
  get_decision,
}
use hisiem_soc_copilot.Workflow.Shapes.{
  Rows, BelongsTo, IsConsistent, Binds, Decides, IsAuthorized, Approves,
}
use hisiem_soc_copilot.Workflow.Approval.{
  DecideCommand, ApprovalOutcome, decide_response_approval, record_approval, record_rejection,
  add_decision, add_submission, record_decision, after_request, after_proposal, replay,
}

module _ (show : ℕ → String) (c : DecideCommand) (decision_id now : ℕ) (s t : Store)
    (o : ApprovalOutcome) where
  pub decide-IsConsistent :
      IsConsistent s
      → decide_response_approval show c decision_id now s ≡ ok (t, o)
      → IsConsistent t
  unfolding IsConsistent BelongsTo Rows Binds Decides decide_response_approval get_request
      get_proposal get_decision after_request after_proposal replay record_decision add_decision
      record_rejection record_approval approve_proposal reject_proposal add_submission transition
      transitions update_proposal
  decide-IsConsistent h e = ground arith

  pub decide-IsAuthorized :
      (p : ResponseProposal)
      → IsConsistent s
      → IsAuthorized s p
      → decide_response_approval show c decision_id now s ≡ ok (t, o)
      → IsAuthorized t p
  unfolding IsConsistent BelongsTo Rows Binds Decides IsAuthorized Approves decide_response_approval
      get_request get_proposal get_decision after_request after_proposal replay record_decision
      add_decision record_rejection record_approval approve_proposal reject_proposal add_submission
      transition transitions update_proposal
  decide-IsAuthorized p h a e = ground arith

  pub decide-decision :
      (d : ApprovalDecision)
      → IsConsistent s
      → s.decision ≡ some d
      → decide_response_approval show c decision_id now s ≡ ok (t, o)
      → t ≡ s
  unfolding IsConsistent Rows BelongsTo Binds Decides decide_response_approval get_request
      get_proposal get_decision after_request after_proposal replay
  decide-decision d h e k = ground arith

-- What a decision means for the proposal, and whether it queues an execution.
unfoldable pub status_after : ApprovalDecisionKind → ResponseProposalStatus
status_after approve = approved
status_after reject = rejected

-- The proposal of the rows and its status.
unfoldable pub stands : Option ResponseProposal → Option (ℕ × ResponseProposalStatus)
stands none = none
stands (some p) = some (p.id, p.status)

unfoldable pub queues : ApprovalDecisionKind → Bool
queues approve = true
queues reject = false

module _ (show : ℕ → String) (c : DecideCommand) (decision_id now : ℕ) (s : Store)
    (r : ApprovalRequest) (p : ResponseProposal) where
  -- The rows after a decision was recorded: who decided what about the request, where the proposal
  -- stands then, and whether a submission waits.
  unfoldable pub IsRecorded : Store → ApprovalOutcome → Type 0
  IsRecorded t o =
      (d : ApprovalDecision) × (t.decision ≡ some d)
      × (d.approval_request_id ≡ r.id)
      × (d.decision ≡ c.decision)
      × (d.actor_subject_id ≡ c.initiated_by_subject)
      × (d.decided_at ≡ now)
      × (stands t.proposal ≡ some (p.id, status_after c.decision))
      × (is_some t.submission ≡ queues c.decision)
      × (o.decision ≡ d)
      × (o.execution_queued ≡ queues c.decision)

  abbrev pub IsFor : Type 0
  IsFor =
      (str_eq s.investigation.tenant_id c.tenant_id ≡ true)
      × (r.id ≡ c.approval_request_id)
      × (p.content_revision ≡ c.expected_revision)
      × (p.content_hash ≡ c.expected_content_hash)

  abbrev pub Records : Type 0
  Records =
      (t : Store) × (o : ApprovalOutcome) × (decide_response_approval show c decision_id now s
        ≡ ok (t, o))
      × IsRecorded t o

  -- In consistent rows, a decision on a request that is decided goes through exactly when the
  -- tenant owns it, the command names it, and the decision is the recorded one.
  pub decide_again_iff :
      (d : ApprovalDecision)
      → IsConsistent s
      → s.request ≡ some r
      → s.decision ≡ some d
      → (is_ok (decide_response_approval show c decision_id now s) ≡ true) ↔ (
          (str_eq s.investigation.tenant_id c.tenant_id ≡ true)
          × (r.id ≡ c.approval_request_id)
          × (d.decision ≡ c.decision))
  unfolding IsConsistent BelongsTo Rows Binds Decides decide_response_approval get_request
      get_proposal get_decision after_request after_proposal replay
  decide_again_iff d h er ed = ground arith

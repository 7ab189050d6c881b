-- ===== src/Workflow/Approval.antt =====
-- The decision on an approval request (src/hisiem_soc_copilot/application/handlers/response.py,
-- decide_response_approval): one transaction, which leaves no trace when it raises.
pub mod Consistency
use hisiem_soc_copilot.Prelude.{
  ℕ, String, Option, none, some, Bool, true, false, Result, ok, err, ◌>>=◌, if◌then◌else◌, require,
  ◌>>◌,
}
use hisiem_soc_copilot.Response.{
  ResponseProposal, ApprovalDecisionKind, approve, reject, content_hash_matches, reject_proposal,
  approve_proposal, ProposalError,
}
use hisiem_soc_copilot.Workflow.{
  Store, HandlerError, not_found, decision_exists, contract_broken, proposal_refused, get_request,
  get_proposal, get_decision, update_proposal, ApprovalDecision, ApprovalRequest,
  ResponseSubmission, pending, submission_key, emit, Entry, approval_decided, execution_queued,
  conflict,
}

pub record DecideCommand : Type 0 where
  pub tenant_id : String
  pub approval_request_id : ℕ
  pub decision : ApprovalDecisionKind
  pub expected_revision : ℕ
  pub expected_content_hash : ℕ
  pub initiated_by_subject : String
  pub initiated_by_display_name : Option String
  pub reason : Option String

pub record ApprovalOutcome : Type 0 where
  pub proposal : ResponseProposal
  pub decision : ApprovalDecision
  pub execution_queued : Bool

abbrev same_decision : ApprovalDecisionKind → ApprovalDecisionKind → Bool
same_decision approve approve = true
same_decision reject reject = true
same_decision _ _ = false

abbrev is_approve : ApprovalDecisionKind → Bool
is_approve approve = true
is_approve reject = false

-- The row is unique by its request.
pub add_decision : ApprovalDecision → Store → Result HandlerError Store
add_decision d s = elim s.decision [
  | none ↦ ok (record s { decision = some d })
  | some other ↦ err conflict
]

-- The row is unique by its proposal.
pub add_submission : ResponseSubmission → Store → Result HandlerError Store
add_submission d s = elim s.submission [
  | none ↦ ok (record s { submission = some d })
  | some other ↦ err conflict
]

abbrev checked : {A : Type 0} → Result ProposalError A → Result HandlerError A
checked (ok a) = ok a
checked (err e) = err (proposal_refused e)

abbrev new_decision : DecideCommand → ℕ → ℕ → ℕ → ApprovalDecision
new_decision c request_id decision_id now = record {
  id = decision_id;
  approval_request_id = request_id;
  decision = c.decision;
  actor_subject_id = c.initiated_by_subject;
  actor_tenant_id = c.tenant_id;
  reason = c.reason;
  actor_display_name = c.initiated_by_display_name;
  decided_at = now;
}

abbrev pending_submission : String → ℕ → ℕ → ResponseSubmission
pending_submission key proposal_id now = record {
  proposal_id = proposal_id;
  submission_key = key;
  status = pending;
  attempt_count = 0;
  last_error_code = none;
  safe_error_message = none;
  created_at = now;
  updated_at = now;
  submitted_at = none;
  failed_at = none;
  attention_required_at = none;
}

abbrev decided_entry : DecideCommand → ApprovalDecision → ResponseProposal → Entry
decided_entry c d p = record {
  event = approval_decided d.approval_request_id d.decision d.actor_subject_id;
  aggregate_id = p.id;
  tenant_id = c.tenant_id;
  aggregate_revision = p.lock_version;
  available_at = none;
}

abbrev queued_entry : DecideCommand → String → ResponseProposal → Entry
queued_entry c key p = record {
  event = execution_queued key;
  aggregate_id = p.id;
  tenant_id = c.tenant_id;
  aggregate_revision = p.lock_version;
  available_at = none;
}

pub record_rejection :
    DecideCommand
    → ApprovalDecision
    → ℕ
    → ResponseProposal
    → Store
    → Result HandlerError (Store × ApprovalOutcome)
unfolding reject_proposal update_proposal
record_rejection c d now p s = checked (reject_proposal now p) >>= λ q. update_proposal q s >>= λ u.
    ok (
      emit (decided_entry c d u.1) u.0,
      record { proposal = u.1; decision = d; execution_queued = false },
    )

pub record_approval :
    (ℕ → String)
    → DecideCommand
    → ApprovalDecision
    → ℕ
    → ResponseProposal
    → Store
    → Result HandlerError (Store × ApprovalOutcome)
unfolding approve_proposal update_proposal add_submission submission_key
record_approval show c d now p s =
    checked (approve_proposal (some d.approval_request_id) now p) >>= λ q.
    update_proposal q s >>= λ u.
    let key = submission_key show c.tenant_id p.id in
    add_submission (pending_submission key p.id now) u.0 >>= λ t. ok (
      emit (queued_entry c key u.1) (emit (decided_entry c d u.1) t),
      record { proposal = u.1; decision = d; execution_queued = true },
    )

-- A request that is decided already: the same decision converges, another one conflicts.
pub replay :
    DecideCommand
    → ApprovalDecision
    → ResponseProposal
    → Store
    → Result HandlerError (Store × ApprovalOutcome)
replay c d p s =
    if same_decision d.decision c.decision
    then ok (s, record { proposal = p; decision = d; execution_queued = is_approve d.decision })
    else err decision_exists

-- A request that is open: the contract that was seen must be the stored one.
pub record_decision :
    (ℕ → String)
    → DecideCommand
    → ℕ
    → ℕ
    → ApprovalRequest
    → ResponseProposal
    → Store
    → Result HandlerError (Store × ApprovalOutcome)
unfolding content_hash_matches add_decision record_rejection record_approval
record_decision show c decision_id now r p s =
    let d = new_decision c r.id decision_id now in
    require (content_hash_matches c.expected_revision c.expected_content_hash p) contract_broken
    >> add_decision d s
    >>= λ t. elim c.decision [
      | reject ↦ record_rejection c d now p t
      | approve ↦ record_approval show c d now p t
    ]

pub after_proposal :
    (ℕ → String)
    → DecideCommand
    → ℕ
    → ℕ
    → ApprovalRequest
    → Store
    → Option ResponseProposal
    → Result HandlerError (Store × ApprovalOutcome)
unfolding get_decision replay record_decision
after_proposal show c decision_id now r s none = err not_found
after_proposal show c decision_id now r s (some p) = elim (get_decision c.tenant_id r.id s) [
  | some d ↦ replay c d p s
  | none ↦ record_decision show c decision_id now r p s
]

pub after_request :
    (ℕ → String)
    → DecideCommand
    → ℕ
    → ℕ
    → Store
    → Option ApprovalRequest
    → Result HandlerError (Store × ApprovalOutcome)
unfolding get_proposal after_proposal
after_request show c decision_id now s none = err not_found
after_request show c decision_id now s (some r) =
    after_proposal show c decision_id now r s (get_proposal c.tenant_id r.proposal_id s)

-- `show` writes a UUID, `decision_id` is the fresh one and `now` the time of the call.
unfoldable pub decide_response_approval :
    (ℕ → String) → DecideCommand → ℕ → ℕ → Store → Result HandlerError (Store × ApprovalOutcome)
unfolding get_request after_request
decide_response_approval show c decision_id now s =
    after_request show c decision_id now s (get_request c.tenant_id c.approval_request_id s)

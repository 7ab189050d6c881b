-- ===== src/Workflow/Shapes.antt =====
-- How the rows of a response workflow fit together.
use hisiem_soc_copilot.Prelude.{ℕ, ◌≡◌, Option, none, some}
use hisiem_soc_copilot.Response.{
  ResponseProposal, denied, waiting_approval, approved, rejected, submitted, ApprovalDecisionKind,
  approve, reject,
}
use hisiem_soc_copilot.Workflow.{
  Store, ApprovalRequest, ApprovalDecision, ResponseSubmission, ResponseExecutionRef,
}

-- The request is for the content of the proposal as it stands.
unfoldable pub Binds : ApprovalRequest → ResponseProposal → Type 0
Binds r p =
    (r.proposal_id ≡ p.id)
    × (r.proposal_content_revision ≡ p.content_revision)
    × (r.proposal_content_hash ≡ p.content_hash)

-- The decision is on the request and has the kind.
unfoldable pub Decides : ApprovalDecisionKind → ApprovalDecision → ApprovalRequest → Type 0
Decides kind d r = (d.decision ≡ kind) × (d.approval_request_id ≡ r.id)

-- The rows that go with each status.
unfoldable pub Rows :
    Option ResponseProposal
    → Option ApprovalRequest
    → Option ApprovalDecision
    → Option ResponseSubmission
    → Option ResponseExecutionRef
    → Type 0
unfolding Binds Decides
Rows none none none none none = Unit
Rows (some p) none none none none = p.status ≡ denied
Rows (some p) (some r) none none none = (p.status ≡ waiting_approval) × Binds r p
Rows (some p) (some r) (some d) none none = (p.status ≡ rejected) × Binds r p × Decides reject d r
Rows (some p) (some r) (some d) (some b) none =
    (p.status ≡ approved) × Binds r p × Decides approve d r × (b.proposal_id ≡ p.id)
Rows (some p) (some r) (some d) (some b) (some e) =
    (p.status ≡ submitted)
    × Binds r p
    × Decides approve d r
    × (b.proposal_id ≡ p.id)
    × (e.proposal_id ≡ p.id)
Rows _ _ _ _ _ = ⊥

-- The proposal is of the investigation.
unfoldable pub BelongsTo : ℕ → Option ResponseProposal → Type 0
BelongsTo id none = Unit
BelongsTo id (some p) = p.investigation_id ≡ id

unfoldable pub IsConsistent : Store → Type 0
unfolding Rows BelongsTo
IsConsistent s =
    BelongsTo s.investigation.id s.proposal
    × Rows s.proposal s.request s.decision s.submission s.execution

-- The proposal `p` as a worker read it: its content is the stored one, a request binds the hash of
-- that content, and the decision on the request approves it.
unfoldable pub Approves :
    ResponseProposal
    → Option ResponseProposal
    → Option ApprovalRequest
    → Option ApprovalDecision
    → Option ResponseSubmission
    → Type 0
unfolding Decides
Approves p (some q) (some r) (some d) (some b) =
    (q.id ≡ p.id)
    × (q.content ≡ p.content)
    × (r.proposal_id ≡ p.id)
    × (r.proposal_content_hash ≡ p.content_hash)
    × Decides approve d r
    × (b.proposal_id ≡ p.id)
Approves p _ _ _ _ = ⊥

unfoldable pub IsAuthorized : Store → ResponseProposal → Type 0
unfolding Approves
IsAuthorized s p = Approves p s.proposal s.request s.decision s.submission

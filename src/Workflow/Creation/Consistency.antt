-- ===== src/Workflow/Creation/Consistency.antt =====
-- A creation keeps the rows consistent and takes no authority away.
use hisiem_soc_copilot.Prelude.{ℕ, ◌≡◌, String, Option, none, some, List, ok, arith}
use hisiem_soc_copilot.Response.{
  Content, PolicyDecision, ResponseProposal, transition, transitions, deny_proposal,
  request_approval, new_proposal,
}
use hisiem_soc_copilot.Investigation.{Investigation}
use hisiem_soc_copilot.Investigation.Lifecycle.{link-id}
use hisiem_soc_copilot.Response.Policy.{PolicyOutcome}
use hisiem_soc_copilot.Workflow.{ApprovalDecision, Store, InvestigationResult, get_by_investigation}
use hisiem_soc_copilot.Workflow.Shapes.{
  Rows, BelongsTo, IsConsistent, Binds, Decides, IsAuthorized, Approves,
}
use hisiem_soc_copilot.Workflow.Creation.{
  CreateCommand, Fresh, create_response_proposal, persist, propose, finish_proposal, after_existing,
}

persist-IsConsistent :
    (c : CreateCommand) (fresh : Fresh) (policy : PolicyOutcome) (p : ResponseProposal)
    (i : Investigation) (s t : Store) (q : ResponseProposal)
    → s.proposal ≡ none
    → p.investigation_id ≡ i.id
    → IsConsistent s
    → persist c fresh policy p i s ≡ ok (t, q)
    → IsConsistent t
unfolding persist deny_proposal request_approval transition transitions IsConsistent BelongsTo Rows
    Binds
persist-IsConsistent c fresh policy p i s t q e b h k = ground arith

new_proposal-investigation_id :
    (digest : Content → ℕ) (id investigation_id result_id : ℕ) (content : Content)
    (reason subject : String) (name : Option String) (evidence : List ℕ)
    (decision : Option PolicyDecision) (why : Option String) (now : ℕ) (p : ResponseProposal)
    → new_proposal digest id investigation_id result_id content reason subject name evidence
        decision why now
      ≡ ok p
    → p.investigation_id ≡ investigation_id
unfolding new_proposal
new_proposal-investigation_id digest id investigation_id result_id content reason subject name
      evidence decision why now p e =
    ground arith

finish-IsConsistent :
    (c : CreateCommand) (fresh : Fresh) (result_id : ℕ) (evidence : List ℕ) (policy : PolicyOutcome)
    (s t : Store) (q : ResponseProposal)
    → s.proposal ≡ none
    → c.investigation_id ≡ s.investigation.id
    → IsConsistent s
    → finish_proposal c fresh result_id evidence policy s ≡ ok (t, q)
    → IsConsistent t
unfolding finish_proposal
finish-IsConsistent c fresh result_id evidence policy s t q e b h k =
    grind (arith, persist-IsConsistent, link-id, new_proposal-investigation_id)

propose-IsConsistent :
    (parse : String → Option ℕ) (c : CreateCommand) (fresh : Fresh) (result : InvestigationResult)
    (s t : Store) (q : ResponseProposal)
    → s.proposal ≡ none
    → c.investigation_id ≡ s.investigation.id
    → IsConsistent s
    → propose parse c fresh result s ≡ ok (t, q)
    → IsConsistent t
unfolding propose
propose-IsConsistent parse c fresh result s t q e b h k = grind (arith, finish-IsConsistent)

module _ (parse : String → Option ℕ) (c : CreateCommand) (fresh : Fresh) (s t : Store)
    (q : ResponseProposal) where
  after_none-IsConsistent :
      s.proposal ≡ none
      → c.investigation_id ≡ s.investigation.id
      → IsConsistent s
      → after_existing parse c fresh s none ≡ ok (t, q)
      → IsConsistent t
  unfolding after_existing
  after_none-IsConsistent e b h k = grind (arith, propose-IsConsistent)

  pub create-IsConsistent :
      IsConsistent s → create_response_proposal parse c fresh s ≡ ok (t, q) → IsConsistent t
  unfolding create_response_proposal get_by_investigation after_existing IsConsistent BelongsTo Rows
  create-IsConsistent h k = grind (arith, after_none-IsConsistent)

  pub create-IsAuthorized :
      (p : ResponseProposal)
      → IsConsistent s
      → IsAuthorized s p
      → create_response_proposal parse c fresh s ≡ ok (t, q)
      → IsAuthorized t p
  unfolding create_response_proposal get_by_investigation after_existing IsConsistent BelongsTo
      IsAuthorized Approves Decides
  create-IsAuthorized p h a k = ground arith

  pub create-decision :
      (d : ApprovalDecision)
      → IsConsistent s
      → s.decision ≡ some d
      → create_response_proposal parse c fresh s ≡ ok (t, q)
      → t.decision ≡ some d
  unfolding create_response_proposal get_by_investigation after_existing IsConsistent BelongsTo Rows
  create-decision d h a k = ground arith

-- ===== src/Workflow/Creation.antt =====
-- The creation of a response proposal (src/hisiem_soc_copilot/application/handlers/response.py,
-- create_response_proposal and _resolve_evidence_ids): one transaction, alone in the database,
-- so the branch that converges on the winner of a race is not in the model.
pub mod Consistency
pub mod Evidence
use hisiem_soc_copilot.Prelude.{
  ℕ, suc, String, Option, none, some, Bool, true, false, List, [], ◌∷◌, ◌&&◌, ◌||◌, ◌==◌, Result,
  ok, err, ◌>>=◌, if◌then◌else◌, require, ◌>>◌, keep, all, map, not, str_eq, is_empty,
}
use hisiem_soc_copilot.Shared.{ExternalResourceRef}
use hisiem_soc_copilot.Investigation.{
  Investigation, InvestigationStatus, completed, link_response_proposal, InvestigationError,
}
use hisiem_soc_copilot.Response.{
  ResponseProposal, Content, Parameters, new_proposal, deny_proposal, request_approval, deny,
  require_approval, ProposalError,
}
use hisiem_soc_copilot.Response.ActionSpecs.{
  validate_action_parameters, is_executable, ParameterError,
}
use hisiem_soc_copilot.Response.Policy.{
  evaluate_response_policy, PolicyOutcome, PolicyTarget, PolicyDenyReason, unknown_action,
  missing_target, cross_tenant_target, unresolved_target, missing_evidence, denying_verdict,
  invalid_parameters,
}
use hisiem_soc_copilot.Workflow.{
  Store, HandlerError, not_found, not_completed, no_result, bad_parameters, not_executable,
  evidence_invalid, proposal_refused, investigation_refused, InvestigationResult, EvidenceRow,
  ApprovalRequest, Entry, ResponseEvent, proposal_created, policy_decided, approval_requested, emit,
  get_by_investigation,
}

pub record CreateCommand : Type 0 where
  pub tenant_id : String
  pub investigation_id : ℕ
  pub action_key : String
  pub parameters : Parameters
  pub reason : String
  pub evidence_ids : List String
  pub initiated_by_subject : String
  pub initiated_by_display_name : Option String

-- What the call draws: two UUIDs and the time. `digest` is the hash of a content.
pub record Fresh : Type 0 where
  pub digest : Content → ℕ
  pub proposal_id : ℕ
  pub request_id : ℕ
  pub now : ℕ

pub is_among : ℕ → List ℕ → Bool
is_among x [] = false
is_among x (y ∷ ys) = x == y || is_among x ys

pub with_new : ℕ → List ℕ → Result HandlerError (List ℕ) → Result HandlerError (List ℕ)
with_new value seen (err e) = err e
with_new value seen (ok rest) = ok (if is_among value seen then rest else value ∷ rest)

pub with_parsed :
    List ℕ → Option ℕ → (ℕ → Result HandlerError (List ℕ)) → Result HandlerError (List ℕ)
unfolding with_new
with_parsed seen none rest = err evidence_invalid
with_parsed seen (some value) rest = with_new value seen (rest value)

-- The loop over the requested ids. `parse` is `UUID(raw)`, without a value where it raises.
unfoldable pub canonicalize :
    (String → Option ℕ) → List ℕ → List String → Result HandlerError (List ℕ)
unfolding with_parsed
canonicalize parse seen [] = ok []
canonicalize parse seen (raw ∷ raws) =
    with_parsed seen (parse raw) (λ value. canonicalize parse (value ∷ seen) raws)

unfoldable pub find_by_ids : String → ℕ → List ℕ → Store → List EvidenceRow
unfolding is_among
find_by_ids tenant investigation_id ids s =
    keep
      (λ e.
        str_eq e.tenant_id tenant && e.investigation_id == investigation_id && is_among e.id ids)
      s.evidence

pub evidence_id : EvidenceRow → ℕ
evidence_id e = e.id

-- Equality of two sets of ids.
pub same_set : List ℕ → List ℕ → Bool
unfolding is_among
same_set xs ys = all (λ x. is_among x ys) xs && all (λ y. is_among y xs) ys

pub confirm : List ℕ → List EvidenceRow → Result HandlerError (List ℕ)
unfolding same_set evidence_id
confirm canonical rows =
    require (same_set (map evidence_id rows) canonical) evidence_invalid >> ok canonical

unfoldable pub resolve_evidence_ids :
    (String → Option ℕ) → String → ℕ → List String → Store → Result HandlerError (List ℕ)
unfolding canonicalize find_by_ids confirm
resolve_evidence_ids parse tenant investigation_id requested s =
    require (not (is_empty requested)) evidence_invalid
    >> canonicalize parse [] requested
    >>= λ canonical. confirm canonical (find_by_ids tenant investigation_id canonical s)

deny_reason_value : PolicyDenyReason → String
deny_reason_value unknown_action = "unknown_action"
deny_reason_value missing_target = "missing_target"
deny_reason_value cross_tenant_target = "cross_tenant_target"
deny_reason_value unresolved_target = "unresolved_target"
deny_reason_value missing_evidence = "missing_evidence"
deny_reason_value denying_verdict = "denying_verdict"
deny_reason_value invalid_parameters = "invalid_parameters"

pub policy_reason : Option PolicyDenyReason → Option String
unfolding deny_reason_value
policy_reason none = none
policy_reason (some reason) = some (deny_reason_value reason)

-- An ExternalResourceRef has an address and no tenant of its own.
abbrev policy_target : ExternalResourceRef → PolicyTarget
policy_target r = record { address_id = some r.address_id; tenant_id = none }

abbrev checked : {A : Type 0} → Result ProposalError A → Result HandlerError A
checked (ok a) = ok a
checked (err e) = err (proposal_refused e)

abbrev valid : Result ParameterError Unit → Result HandlerError Unit
valid (ok u) = ok tt
valid (err e) = err (bad_parameters e)

abbrev linked : Result InvestigationError (Investigation × Bool) → Result HandlerError Investigation
linked (ok r) = ok r.0
linked (err e) = err (investigation_refused e)

abbrev entry_of : CreateCommand → ResponseProposal → ResponseEvent → Entry
entry_of c p event = record {
  event = event;
  aggregate_id = p.id;
  tenant_id = c.tenant_id;
  aggregate_revision = p.lock_version;
  available_at = none;
}

abbrev request_of : CreateCommand → Fresh → ResponseProposal → ApprovalRequest
request_of c fresh p = record {
  id = fresh.request_id;
  proposal_id = p.id;
  proposal_content_revision = p.content_revision;
  proposal_content_hash = p.content_hash;
  requested_reason = c.reason;
  requested_at = fresh.now;
}

-- The columns of a proposal do not hold its request and its execution.
abbrev as_row : ResponseProposal → ResponseProposal
as_row p = record p { approval_request_id = none; execution_id = none }

-- `uow.investigations.update`: the lifecycle columns under the next lock version.
abbrev update_investigation : Investigation → Store → Store
update_investigation i s = record s {
  investigation = record i { lock_version = suc i.lock_version };
}

abbrev first_events : CreateCommand → PolicyOutcome → ResponseProposal → Store → Store
first_events c policy p s = emit (entry_of c p (policy_decided policy.decision p.policy_reason)) (
    emit
      (entry_of c p (proposal_created p.status c.initiated_by_subject c.initiated_by_display_name))
      s)

-- The proposal is denied or put to a human, and the rows are written. The two first events are
-- made before that, from the new proposal `p`.
pub persist :
    CreateCommand
    → Fresh
    → PolicyOutcome
    → ResponseProposal
    → Investigation
    → Store
    → Result HandlerError (Store × ResponseProposal)
unfolding deny_proposal request_approval
persist c fresh policy p i s = elim policy.decision [
  | deny ↦ checked (deny_proposal p.policy_reason fresh.now p) >>= λ q. ok (
    first_events c policy p (update_investigation i (record s { proposal = some (as_row q) })),
    q,
  )
  | require_approval ↦ checked (request_approval fresh.now p) >>= λ q.
      let r = request_of c fresh q in
      ok (
        emit (entry_of c q (approval_requested r.id)) (
            first_events c policy p
              (update_investigation i (record s { proposal = some (as_row q); request = some r }))),
        record q { approval_request_id = some r.id },
      )
]

abbrev content_of : CreateCommand → Investigation → Content
content_of c i = record {
  action_key = c.action_key;
  target_refs = i.source_alert_ref ∷ [];
  parameters = c.parameters;
}

-- From the policy outcome on.
pub finish_proposal :
    CreateCommand
    → Fresh
    → ℕ
    → List ℕ
    → PolicyOutcome
    → Store
    → Result HandlerError (Store × ResponseProposal)
unfolding policy_reason new_proposal link_response_proposal persist
finish_proposal c fresh result_id evidence policy s =
    checked (
      new_proposal fresh.digest fresh.proposal_id c.investigation_id result_id
        (content_of c s.investigation) c.reason c.initiated_by_subject c.initiated_by_display_name
        evidence (some policy.decision) (policy_reason policy.reason) fresh.now)
    >>= λ p.
        linked (link_response_proposal p.id s.investigation) >>= λ i. persist c fresh policy p i s

unfoldable policy_of : CreateCommand → InvestigationResult → List ℕ → Store → PolicyOutcome
unfolding evaluate_response_policy
policy_of c result evidence s =
    evaluate_response_policy c.action_key (some result.disposition)
      (policy_target s.investigation.source_alert_ref ∷ []) evidence c.tenant_id

-- From the finalized result on.
pub propose :
    (String → Option ℕ)
    → CreateCommand
    → Fresh
    → InvestigationResult
    → Store
    → Result HandlerError (Store × ResponseProposal)
unfolding validate_action_parameters is_executable resolve_evidence_ids policy_of finish_proposal
propose parse c fresh result s =
    valid (validate_action_parameters c.action_key c.parameters)
    >> require (is_executable c.action_key) not_executable
    >> resolve_evidence_ids parse c.tenant_id c.investigation_id c.evidence_ids s
    >>= λ evidence. finish_proposal c fresh result.id evidence (policy_of c result evidence s) s

abbrev is_completed : InvestigationStatus → Bool
is_completed completed = true
is_completed _ = false

pub after_existing :
    (String → Option ℕ)
    → CreateCommand
    → Fresh
    → Store
    → Option ResponseProposal
    → Result HandlerError (Store × ResponseProposal)
unfolding propose
after_existing parse c fresh s (some existing) = ok (s, existing)
after_existing parse c fresh s none =
    require (is_completed s.investigation.status) (not_completed s.investigation.status)
    >> elim s.result [ none ↦ err no_result | some result ↦ propose parse c fresh result s ]

unfoldable pub create_response_proposal :
    (String → Option ℕ)
    → CreateCommand
    → Fresh
    → Store
    → Result HandlerError (Store × ResponseProposal)
unfolding get_by_investigation after_existing
create_response_proposal parse c fresh s =
    if str_eq s.investigation.tenant_id c.tenant_id && s.investigation.id == c.investigation_id
    then after_existing parse c fresh s (get_by_investigation c.tenant_id c.investigation_id s)
    else err not_found

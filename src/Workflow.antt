-- ===== src/Workflow.antt =====
-- The rows of the response workflow and the repositories over them
-- (src/hisiem_soc_copilot/domain/response/value_objects.py and events.py,
-- src/hisiem_soc_copilot/infrastructure/persistence/repositories/response.py). The store holds
-- the rows of one investigation: its proposal is unique by UNIQUE(investigation_id), the request
-- by the one creation, the decision, the submission and the execution by their unique columns.
-- The columns of an event that tell who caused it and when it was appended are left out.
pub mod Approval
pub mod Creation
pub mod Submission
pub mod Observation
pub mod Shapes
pub mod Runs
pub mod Decisions
pub mod Deliveries
mod Examples
use hisiem_soc_copilot.Prelude.{
  ℕ, suc, ◌+◌, ◌≡◌, String, Option, none, some, Bool, true, false, List, [], ◌∷◌, ◌&&◌, ◌||◌, ◌==◌,
  str_eq, Result, ok, err, if◌then◌else◌, ◌++◌,
}
use hisiem_soc_copilot.Investigation.{Investigation}
use hisiem_soc_copilot.Response.{
  ResponseProposal, ResponseProposalStatus, ApprovalDecisionKind, PolicyDecision, Parameters,
  ProposalError,
}
use hisiem_soc_copilot.Response.ActionSpecs.{ParameterError}
use hisiem_soc_copilot.Response.Policy.{VerdictDisposition}
use hisiem_soc_copilot.Investigation.{InvestigationError, InvestigationStatus}
use Prim.Native.String.{◌++◌ as str_append}

-- `f"response:{tenant_id}:{proposal_id}"`, with the text of a UUID as a parameter.
unfoldable pub submission_key : (ℕ → String) → String → ℕ → String
submission_key show tenant_id proposal_id =
    str_append "response:" (str_append tenant_id (str_append ":" (show proposal_id)))

pub record InvestigationResult : Type 0 where
  pub id : ℕ
  pub disposition : VerdictDisposition

-- A row with the tenant of its investigation.
pub record EvidenceRow : Type 0 where
  pub id : ℕ
  pub investigation_id : ℕ
  pub tenant_id : String

pub record ApprovalRequest : Type 0 where
  pub id : ℕ
  pub proposal_id : ℕ
  pub proposal_content_revision : ℕ
  pub proposal_content_hash : ℕ
  pub requested_reason : String
  pub requested_at : ℕ

pub record ApprovalDecision : Type 0 where
  pub id : ℕ
  pub approval_request_id : ℕ
  pub decision : ApprovalDecisionKind
  pub actor_subject_id : String
  pub actor_tenant_id : String
  pub reason : Option String
  pub actor_display_name : Option String
  pub decided_at : ℕ

-- `status` is what the provider says.
pub record ResponseExecutionRef : Type 0 where
  pub proposal_id : ℕ
  pub provider : String
  pub execution_id : String
  pub submission_key : String
  pub status : String
  pub submitted_at : ℕ
  pub last_observed_at : ℕ
  pub started_at : Option ℕ
  pub finished_at : Option ℕ
  pub safe_result : Option Parameters
  pub safe_error_code : Option String
  pub safe_error_message : Option String

pub data ResponseSubmissionStatus : Type 0 where
  pending retrying submitted failed_definitive attention_required : ResponseSubmissionStatus

abbrev pub is_terminal : ResponseSubmissionStatus → Bool
is_terminal submitted = true
is_terminal failed_definitive = true
is_terminal attention_required = true
is_terminal _ = false

pub record ResponseSubmission : Type 0 where
  pub proposal_id : ℕ
  pub submission_key : String
  pub status : ResponseSubmissionStatus
  pub attempt_count : ℕ
  pub last_error_code : Option String
  pub safe_error_message : Option String
  pub created_at : ℕ
  pub updated_at : ℕ
  pub submitted_at : Option ℕ
  pub failed_at : Option ℕ
  pub attention_required_at : Option ℕ

-- The events with their payloads.
pub data ResponseEvent : Type 0 where
  proposal_created : ResponseProposalStatus → String → Option String → ResponseEvent
  policy_decided : PolicyDecision → Option String → ResponseEvent
  approval_requested : ℕ → ResponseEvent
  approval_decided : ℕ → ApprovalDecisionKind → String → ResponseEvent
  execution_queued : String → ResponseEvent
  execution_submitted : String → ResponseEvent
  execution_observed : String → String → ResponseEvent
  submission_retrying : String → ℕ → String → ResponseEvent
  submission_failed : String → ℕ → String → String → ResponseEvent
  submission_attention_required : String → ℕ → String → Option String → ResponseEvent
  execution_observation_failed : String → String → ResponseEvent
  execution_started : ResponseEvent
  execution_succeeded : String → ResponseEvent
  execution_failed : String → ResponseEvent

unfoldable pub event_type : ResponseEvent → String
event_type (proposal_created s a n) = "response_proposal_created"
event_type (policy_decided d r) = "response_policy_decided"
event_type (approval_requested r) = "response_approval_requested"
event_type (approval_decided r d a) = "response_approval_decided"
event_type (execution_queued k) = "response_execution_queued"
event_type (execution_submitted e) = "response_execution_submitted"
event_type (execution_observed e s) = "response_execution_observed"
event_type (submission_retrying k n c) = "response_submission_retrying"
event_type (submission_failed k n c m) = "response_submission_failed"
event_type (submission_attention_required k n c m) = "response_submission_attention_required"
event_type (execution_observation_failed e c) = "response_execution_observation_failed"
event_type execution_started = "response_execution_started"
event_type (execution_succeeded e) = "response_execution_succeeded"
event_type (execution_failed c) = "response_execution_failed"

-- An appended event, with the time from which its delivery may be claimed.
pub record Entry : Type 0 where
  pub event : ResponseEvent
  pub aggregate_id : ℕ
  pub tenant_id : String
  pub aggregate_revision : ℕ
  pub available_at : Option ℕ

pub record Store : Type 0 where
  pub investigation : Investigation
  pub result : Option InvestigationResult
  pub evidence : List EvidenceRow
  pub proposal : Option ResponseProposal
  pub request : Option ApprovalRequest
  pub decision : Option ApprovalDecision
  pub submission : Option ResponseSubmission
  pub execution : Option ResponseExecutionRef
  pub events : List Entry

pub data HandlerError : Type 0 where
  not_found : HandlerError
  not_completed : InvestigationStatus → HandlerError
  no_result : HandlerError
  bad_parameters : ParameterError → HandlerError
  not_executable : HandlerError
  evidence_invalid : HandlerError
  proposal_refused : ProposalError → HandlerError
  investigation_refused : InvestigationError → HandlerError
  contract_broken : HandlerError
  decision_exists : HandlerError
  stale_version : HandlerError
  conflict : HandlerError

-- A lookup by a column: the row, if the tenant owns the investigation and the column is equal.
abbrev pub owned : {A : Type 0} → String → Store → (A → Bool) → Option A → Option A
owned tenant s test none = none
owned tenant s test (some a) =
    if str_eq s.investigation.tenant_id tenant && test a then some a else none

unfoldable pub get_proposal : String → ℕ → Store → Option ResponseProposal
get_proposal tenant id s = owned tenant s (λ p. p.id == id) s.proposal

unfoldable pub get_by_investigation : String → ℕ → Store → Option ResponseProposal
get_by_investigation tenant id s = owned tenant s (λ p. p.investigation_id == id) s.proposal

unfoldable pub get_request : String → ℕ → Store → Option ApprovalRequest
get_request tenant id s = owned tenant s (λ r. r.id == id) s.request

unfoldable pub get_decision : String → ℕ → Store → Option ApprovalDecision
get_decision tenant id s = owned tenant s (λ d. d.approval_request_id == id) s.decision

unfoldable pub get_execution : String → ℕ → Store → Option ResponseExecutionRef
get_execution tenant id s = owned tenant s (λ e. e.proposal_id == id) s.execution

unfoldable pub get_submission : String → ℕ → Store → Option ResponseSubmission
get_submission tenant id s = owned tenant s (λ d. d.proposal_id == id) s.submission

-- `uow.events.append`.
abbrev pub emit : Entry → Store → Store
emit e s = record s { events = s.events ++ (e ∷ []) }

-- The columns that the repository updates, where the row has the id and the lock version.
abbrev write_proposal : ResponseProposal → ResponseProposal → ResponseProposal
write_proposal p row = record row {
  status = p.status;
  policy_decision = p.policy_decision;
  policy_reason = p.policy_reason;
  updated_at = p.updated_at;
  lock_version = suc p.lock_version;
}

-- The stored row and the aggregate that the caller goes on with.
unfoldable pub update_proposal :
    ResponseProposal → Store → Result HandlerError (Store × ResponseProposal)
update_proposal p s = elim s.proposal [
  | none ↦ err stale_version
  | some row ↦
      if row.id == p.id && row.lock_version == p.lock_version
      then ok (
        record s { proposal = some (write_proposal p row) },
        record p { lock_version = suc p.lock_version },
      )
      else err stale_version
]

-- ===== src/Workflow/Examples.antt =====
-- A workflow from the proposal to the observed execution, and the theorems at it.
use hisiem_soc_copilot.Prelude.{
  ◌≢◌, All, length, if◌then◌else◌, ℕ, ◌≡◌, refl, String, Option, none, some, List, [], ◌∷◌, ◌++◌,
  str_eq,
}
use hisiem_soc_copilot.Shared.{ExternalResourceRef, ActorRef, default_limits}
use hisiem_soc_copilot.Investigation.{Investigation, completed, completed_without_response}
use hisiem_soc_copilot.Response.{
  ResponseProposal, waiting_approval, approved, submitted, text, require_approval, approve,
}
use hisiem_soc_copilot.Response.Policy.{malicious}
use hisiem_soc_copilot.Workflow.{
  Store, ApprovalRequest, ApprovalDecision, ResponseExecutionRef, ResponseSubmission,
  ResponseSubmissionStatus, retrying, pending, get_execution,
}
use hisiem_soc_copilot.Workflow.Shapes.{IsConsistent}
use hisiem_soc_copilot.Workflow.Approval.{DecideCommand}
use hisiem_soc_copilot.Workflow.Creation.{resolve_evidence_ids, CreateCommand, Fresh}
use hisiem_soc_copilot.Workflow.Creation.Evidence.{
  Distinct, IsInScope, resolve_evidence_ids-IsInScope,
}
use hisiem_soc_copilot.Workflow.Submission.{
  Run, Answer, answered, raised, SoarExecutionResult, submit, plan, load, converged,
  on_retry_exhausted,
}
use hisiem_soc_copilot.Workflow.Observation.{observe, is_open, in_flight, watch}
use hisiem_soc_copilot.Workflow.Runs.{
  World, Action, creating, deciding, reading_submit, answering_submit, reading_observe,
  answering_observe, run, IsSafe, run-IsSafe,
}
use hisiem_soc_copilot.Workflow.Decisions.{decided_forever}
use hisiem_soc_copilot.Workflow.Deliveries.{
  deliveries, next_observation, observed_until_final, submit_once, exhausted_stops,
}
use hisiem_soc_copilot.Dispatcher.{finished}

abbrev alert : ExternalResourceRef
alert = record {
  provider = "hisiem";
  resource_type = "alert";
  address_id = "a-17";
  business_id = none;
}

abbrev actor : ActorRef
actor = record {
  subject_id = "analyst";
  tenant_id = "t-1";
  display_name = none;
  role_snapshot = none;
}

abbrev investigation : Investigation
investigation = record {
  id = 1;
  tenant_id = "t-1";
  source_alert_ref = alert;
  initiated_by = actor;
  status = completed;
  phase = none;
  current_plan_revision = 0;
  budget_limits = default_limits;
  termination_reason = some completed_without_response;
  lock_version = 3;
  result_id = some 2;
  response_proposal_id = none;
  revision = 2;
  created_at = 1;
  started_at = some 2;
  finished_at = some 9;
  cancelled_at = none;
  pending_events = [];
}

-- A completed investigation without a response.
abbrev fresh_store : Store
fresh_store = record {
  investigation = investigation;
  result = some (record { id = 2; disposition = malicious });
  evidence = record { id = 9; investigation_id = 1; tenant_id = "t-1" } ∷ [];
  proposal = none;
  request = none;
  decision = none;
  submission = none;
  execution = none;
  events = [];
}

abbrev parse : String → Option ℕ
parse s = if str_eq s "nine" then some 9 else none

abbrev show : ℕ → String
show n = "uuid"

abbrev creation : CreateCommand
creation = record {
  tenant_id = "t-1";
  investigation_id = 1;
  action_key = "START_SOAR_PLAYBOOK";
  parameters = ("playbook_id", text "pb-1") ∷ [];
  reason = "contain";
  evidence_ids = "nine" ∷ "nine" ∷ [];
  initiated_by_subject = "analyst";
  initiated_by_display_name = none;
}

abbrev fresh : Fresh
fresh = record { digest = λ c. 77; proposal_id = 5; request_id = 6; now = 10 }

abbrev approval : DecideCommand
approval = record {
  tenant_id = "t-1";
  approval_request_id = 6;
  decision = approve;
  expected_revision = 1;
  expected_content_hash = 77;
  initiated_by_subject = "lead";
  initiated_by_display_name = none;
  reason = none;
}

abbrev worker : Run
worker = record { show = show; tenant_id = "t-1"; now = 20; observe_delay = 15000000 }

abbrev running_answer : SoarExecutionResult
running_answer = record {
  execution_id = "x-1";
  status = "RUNNING";
  safe_result = [];
  safe_error_code = none;
  safe_error_message = none;
}

abbrev first_world : World
first_world = record { store = fresh_store; called = []; watched = [] }

-- Two submit deliveries read the same approved proposal; both call, one after the other.
abbrev racing : List Action
racing =
    creating parse creation fresh
    ∷ deciding show approval 7 12
    ∷ reading_submit "t-1" 5
    ∷ reading_submit "t-1" 5
    ∷ answering_submit 0 worker (answered running_answer)
    ∷ answering_submit 1 worker (raised (record { upstream_code = none; message = "late" }))
    ∷ reading_observe "t-1" 5
    ∷ answering_observe 0 worker (in_flight running_answer)
    ∷ []

first_world-IsSafe : IsSafe first_world
first_world-IsSafe = unfold IsSafe IsConsistent in ((tt, tt), tt)

run-IsSafe_example : IsSafe (run racing first_world)
run-IsSafe_example = run-IsSafe racing first_world first_world-IsSafe

abbrev called_count : ℕ
called_count = 2

-- Both workers of the race have called the provider.
two_calls : length (run racing first_world).called ≡ called_count
two_calls = unfold run in refl

abbrev request : ApprovalRequest
request = record {
  id = 6;
  proposal_id = 5;
  proposal_content_revision = 1;
  proposal_content_hash = 77;
  requested_reason = "contain";
  requested_at = 10;
}

abbrev waiting_proposal : ResponseProposal
waiting_proposal = record {
  id = 5;
  investigation_id = 1;
  result_id = 2;
  content = record {
    action_key = "START_SOAR_PLAYBOOK";
    target_refs = alert ∷ [];
    parameters = ("playbook_id", text "pb-1") ∷ [];
  };
  reason = "contain";
  created_by_subject = "analyst";
  created_by_display_name = none;
  evidence_ids = 9 ∷ [];
  status = waiting_approval;
  policy_decision = some require_approval;
  policy_reason = none;
  content_revision = 1;
  content_hash = 77;
  lock_version = 0;
  approval_request_id = none;
  execution_id = none;
  created_at = 10;
  updated_at = 10;
}

-- The rows of a proposal that waits for its approval.
abbrev waiting_store : Store
waiting_store = record fresh_store { proposal = some waiting_proposal; request = some request }

abbrev decision : ApprovalDecision
decision = record {
  id = 7;
  approval_request_id = 6;
  decision = approve;
  actor_subject_id = "lead";
  actor_tenant_id = "t-1";
  reason = none;
  actor_display_name = none;
  decided_at = 12;
}

abbrev approved_store : Store
approved_store = record waiting_store {
  proposal = some (record waiting_proposal { status = approved; lock_version = 1 });
  decision = some decision;
  submission = some (record {
    proposal_id = 5;
    submission_key = "response:t-1:uuid";
    status = pending;
    attempt_count = 0;
    last_error_code = none;
    safe_error_message = none;
    created_at = 12;
    updated_at = 12;
    submitted_at = none;
    failed_at = none;
    attention_required_at = none;
  });
}

approved_store-IsConsistent : IsConsistent approved_store
approved_store-IsConsistent =
    unfold IsConsistent in (refl, (refl, (refl, refl, refl), (refl, refl), refl))

abbrev approved_world : World
approved_world = record { store = approved_store; called = []; watched = [] }

decided_forever_example : (run racing approved_world).store.decision ≡ some decision
decided_forever_example =
    decided_forever racing approved_world decision
      (unfold IsSafe in (approved_store-IsConsistent, tt)) refl

abbrev provider : ResponseProposal → ExternalResourceRef → Answer
provider p target = answered running_answer

submit_once_example :
    submit worker 5 provider (submit worker 5 provider approved_store).0
    ≡ ((submit worker 5 provider approved_store).0, finished)
submit_once_example =
    submit_once worker worker 5 provider provider approved_store approved_store-IsConsistent refl
      (unfold submit in refl)

exhausted_stops_example :
    plan (load "t-1" 5 (on_retry_exhausted worker 5 "RUN_FAILED" approved_store)) ≡ converged
exhausted_stops_example =
    exhausted_stops worker 5 "RUN_FAILED" approved_store approved_store-IsConsistent refl

abbrev reference : ResponseExecutionRef
reference = record {
  proposal_id = 5;
  provider = "hisiem";
  execution_id = "x-1";
  submission_key = "response:t-1:uuid";
  status = "RUNNING";
  submitted_at = 20;
  last_observed_at = 20;
  started_at = some 20;
  finished_at = none;
  safe_result = none;
  safe_error_code = none;
  safe_error_message = none;
}

abbrev submitted_store : Store
submitted_store = record approved_store {
  proposal = some (record waiting_proposal { status = submitted; lock_version = 2 });
  execution = some reference;
}

abbrev still_running : String → ℕ → Answer
still_running id n = answered running_answer

observed_until_final_example :
    deliveries (observe worker 5 2 still_running submitted_store).0.events
    ≡ deliveries submitted_store.events
      ++ next_observation worker
          (is_open (get_execution "t-1" 5 (observe worker 5 2 still_running submitted_store).0))
observed_until_final_example =
    observed_until_final worker 5 2 still_running submitted_store reference (unfold watch in refl)

abbrev one_id : List ℕ
one_id = 9 ∷ []

resolve_evidence_ids-IsInScope_example :
    (one_id ≢ []) × Distinct one_id × All (IsInScope "t-1" 1 fresh_store) one_id
resolve_evidence_ids-IsInScope_example =
    resolve_evidence_ids-IsInScope parse "t-1" 1 ("nine" ∷ "nine" ∷ []) fresh_store one_id
      (unfold resolve_evidence_ids in refl)

-- The late failure of the second call has put the settled submission back to RETRYING, while the
-- proposal stays submitted.
abbrev submission_status : Option ResponseSubmission → Option ResponseSubmissionStatus
submission_status none = none
submission_status (some d) = some d.status

late_failure : submission_status (run racing first_world).store.submission ≡ some retrying
late_failure = unfold run in refl

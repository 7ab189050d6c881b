-- ===== src/Response.antt =====
-- The ResponseProposal aggregate and its value objects (src/hisiem_soc_copilot/domain/response/
-- aggregate.py, enums.py, value_objects.py). A method returns the aggregate that it leaves or
-- the error that it raises before its first write.
pub mod ActionSpecs
pub mod Policy
pub mod Lifecycle
mod Examples
use hisiem_soc_copilot.Prelude.{
  ℕ, String, Option, none, some, Bool, true, false, List, [], ◌∷◌, ◌&&◌, ◌||◌, ◌==◌, str_eq,
  is_blank, is_empty, not, Result, ok, err, if◌then◌else◌,
}
use hisiem_soc_copilot.Shared.{ExternalResourceRef}

pub data ResponseProposalStatus : Type 0 where
  created denied waiting_approval approved rejected submitted : ResponseProposalStatus

pub data PolicyDecision : Type 0 where
  deny require_approval : PolicyDecision

pub data ApprovalDecisionKind : Type 0 where
  approve reject : ApprovalDecisionKind

pub data ResponseActionKey : Type 0 where
  block_source_ip disable_account isolate_host start_soar_playbook : ResponseActionKey

unfoldable pub action_value : ResponseActionKey → String
action_value block_source_ip = "BLOCK_SOURCE_IP"
action_value disable_account = "DISABLE_ACCOUNT"
action_value isolate_host = "ISOLATE_HOST"
action_value start_soar_playbook = "START_SOAR_PLAYBOOK"

-- `any(action_key == a.value for a in ResponseActionKey)`, written three times in the source.
unfoldable pub action_allowed : String → Bool
unfolding action_value
action_allowed key =
    str_eq key (action_value block_source_ip)
    || str_eq key (action_value disable_account)
    || str_eq key (action_value isolate_host)
    || str_eq key (action_value start_soar_playbook)

-- A value of the `parameters` dictionary: a text, or something that is not a text.
pub data ParameterValue : Type 0 where
  text : String → ParameterValue
  other : ℕ → ParameterValue

abbrev pub Parameters : Type 0
Parameters = List (String × ParameterValue)

-- What the content hash is computed from.
pub record Content : Type 0 where
  pub action_key : String
  pub target_refs : List ExternalResourceRef
  pub parameters : Parameters

pub record ResponseProposal : Type 0 where
  pub id : ℕ
  pub investigation_id : ℕ
  pub result_id : ℕ
  pub content : Content
  pub reason : String
  pub created_by_subject : String
  pub created_by_display_name : Option String
  pub evidence_ids : List ℕ
  pub status : ResponseProposalStatus
  pub policy_decision : Option PolicyDecision
  pub policy_reason : Option String
  pub content_revision : ℕ
  pub content_hash : ℕ
  pub lock_version : ℕ
  pub approval_request_id : Option ℕ
  pub execution_id : Option String
  pub created_at : ℕ
  pub updated_at : ℕ

-- The keys of `_TRANSITIONS`.
pub data ProposalCommand : Type 0 where
  deny_command request_approval_command approve_command : ProposalCommand
  reject_command submit_command : ProposalCommand

pub data ProposalError : Type 0 where
  no_proposer : ProposalError
  not_ready : List String → ProposalError
  state_transition : ResponseProposalStatus → ProposalCommand → ProposalError

unfoldable pub transitions :
    ResponseProposalStatus → ProposalCommand → Option ResponseProposalStatus
transitions created deny_command = some denied
transitions created request_approval_command = some waiting_approval
transitions waiting_approval approve_command = some approved
transitions waiting_approval reject_command = some rejected
transitions waiting_approval deny_command = some denied
transitions approved submit_command = some submitted
transitions _ _ = none

-- The construction of a proposal with the policy outcome that it is given. `digest` is the
-- SHA-256 of the canonical JSON of the content.
unfoldable pub new_proposal :
    (Content → ℕ)
    → ℕ
    → ℕ
    → ℕ
    → Content
    → String
    → String
    → Option String
    → List ℕ
    → Option PolicyDecision
    → Option String
    → ℕ
    → Result ProposalError ResponseProposal
unfolding is_blank
new_proposal digest id investigation_id result_id content reason subject name evidence decision why
      now =
    if is_blank subject
    then err no_proposer
    else ok (record {
      id = id;
      investigation_id = investigation_id;
      result_id = result_id;
      content = content;
      reason = reason;
      created_by_subject = subject;
      created_by_display_name = name;
      evidence_ids = evidence;
      status = created;
      policy_decision = decision;
      policy_reason = why;
      content_revision = 1;
      content_hash = digest content;
      lock_version = 0;
      approval_request_id = none;
      execution_id = none;
      created_at = now;
      updated_at = now;
    })

-- `if test: errors.append(message)`
abbrev complain : Bool → String → List String → List String
complain false message rest = rest
complain true message rest = message ∷ rest

abbrev is_denied : Option PolicyDecision → Bool
is_denied (some deny) = true
is_denied _ = false

abbrev is_undecided : Option PolicyDecision → Bool
is_undecided none = true
is_undecided _ = false

pub approval_errors : ResponseProposal → List String
unfolding action_allowed
approval_errors p =
    complain (not (action_allowed p.content.action_key)) "action is not registered" (
      complain (is_empty p.content.target_refs) "target must be resolved" (
        complain (is_empty p.evidence_ids) "supporting evidence is required" (
          complain (is_undecided p.policy_decision) "policy validation must be completed"
            (complain (is_denied p.policy_decision) "policy decision is DENY" []))))

pub raise_if_any : List String → Result ProposalError Unit
raise_if_any [] = ok tt
raise_if_any (e ∷ es) = err (not_ready (e ∷ es))

unfoldable pub validate_for_approval : ResponseProposal → Result ProposalError Unit
unfolding approval_errors raise_if_any
validate_for_approval p = raise_if_any (approval_errors p)

unfoldable pub content_hash_matches : ℕ → ℕ → ResponseProposal → Bool
content_hash_matches revision hash p = p.content_revision == revision && p.content_hash == hash

unfoldable pub transition :
    ProposalCommand → ℕ → ResponseProposal → Result ProposalError ResponseProposal
unfolding transitions
transition command now p = elim (transitions p.status command) [
  | none ↦ err (state_transition p.status command)
  | some status ↦ ok (record p { status = status; updated_at = now })
]

unfoldable pub request_approval : ℕ → ResponseProposal → Result ProposalError ResponseProposal
unfolding transition
request_approval now p = elim (transition request_approval_command now p) [
  | err e ↦ err e
  | ok q ↦ ok (record q { status = waiting_approval })
]

unfoldable pub deny_proposal :
    Option String → ℕ → ResponseProposal → Result ProposalError ResponseProposal
unfolding transition
deny_proposal reason now p = elim (transition deny_command now p) [
  | err e ↦ err e
  | ok q ↦ ok (record q { policy_decision = some deny; policy_reason = reason })
]

unfoldable pub approve_proposal :
    Option ℕ → ℕ → ResponseProposal → Result ProposalError ResponseProposal
unfolding transition
approve_proposal request_id now p = elim (transition approve_command now p) [
  | err e ↦ err e
  | ok q ↦ ok (record q { approval_request_id = request_id })
]

unfoldable pub reject_proposal : ℕ → ResponseProposal → Result ProposalError ResponseProposal
unfolding transition
reject_proposal now p = transition reject_command now p

unfoldable pub mark_submitted :
    String → ℕ → ResponseProposal → Result ProposalError ResponseProposal
unfolding transition
mark_submitted execution_id now p = elim (transition submit_command now p) [
  | err e ↦ err e
  | ok q ↦ ok (record q { execution_id = some execution_id })
]

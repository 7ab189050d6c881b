-- ===== src/Investigation.antt =====
-- The Investigation aggregate (src/hisiem_soc_copilot/domain/investigation/aggregate.py, enums.py
-- and events.py). A method returns the aggregate that it leaves, or the error that it raises;
-- every raise stands before the first write, so an error leaves the aggregate as it was.
pub mod Operations
pub mod Lifecycle
pub mod Traces
mod Examples
use hisiem_soc_copilot.Prelude.{
  ℕ, ◌+◌, String, Option, none, some, Bool, true, false, List, [], ◌∷◌, ◌++◌, ◌==◌, or_else,
  if◌then◌else◌, Result, ok, err, ◌>>◌,
}
use hisiem_soc_copilot.Shared.{ExternalResourceRef, ActorRef, BudgetLimits}

pub data InvestigationStatus : Type 0 where
  created running completed failed cancelled : InvestigationStatus

unfoldable pub is_terminal : InvestigationStatus → Bool
is_terminal completed = true
is_terminal failed = true
is_terminal cancelled = true
is_terminal _ = false

unfoldable pub is_active : InvestigationStatus → Bool
is_active created = true
is_active running = true
is_active _ = false

pub data InvestigationPhase : Type 0 where
  hydrating planning investigating verifying finalizing : InvestigationPhase

pub data TerminationReason : Type 0 where
  completed_without_response cancelled_by_user failed_start failed_fatal : TerminationReason

-- The keys of `_TRANSITIONS`, and the two commands that name themselves in an error.
pub data Command : Type 0 where
  start_command continue_command finalize_without_response cancel_command : Command
  fail_command update_phase_command link_command : Command

pub data InvestigationError : Type 0 where
  state_transition : InvestigationStatus → Command → InvestigationError
  different_proposal : InvestigationError

-- `_TRANSITIONS.get(status, {}).get(command)`.
unfoldable pub transitions : InvestigationStatus → Command → Option InvestigationStatus
transitions created start_command = some running
transitions created cancel_command = some cancelled
transitions created fail_command = some failed
transitions running continue_command = some running
transitions running finalize_without_response = some completed
transitions running cancel_command = some cancelled
transitions running fail_command = some failed
transitions _ _ = none

-- The payload of an event. `reason_text` of a termination is the reason, or else the status.
pub data Payload : Type 0 where
  empty : Payload
  phase_changed : InvestigationPhase → Payload
  terminated : InvestigationStatus → Option TerminationReason → Payload

pub data EventType : Type 0 where
  investigation_created investigation_started : EventType
  investigation_phase_changed investigation_terminated : EventType

pub record InvestigationEvent : Type 0 where
  pub event_type : EventType
  pub aggregate_id : ℕ
  pub tenant_id : String
  pub actor_subject_id : Option String
  pub payload : Payload

pub record Investigation : Type 0 where
  pub id : ℕ
  pub tenant_id : String
  pub source_alert_ref : ExternalResourceRef
  pub initiated_by : ActorRef
  pub status : InvestigationStatus
  pub phase : Option InvestigationPhase
  pub current_plan_revision : ℕ
  pub budget_limits : BudgetLimits
  pub termination_reason : Option TerminationReason
  pub lock_version : ℕ
  pub result_id : Option ℕ
  pub response_proposal_id : Option ℕ
  pub revision : ℕ
  pub created_at : ℕ
  pub started_at : Option ℕ
  pub finished_at : Option ℕ
  pub cancelled_at : Option ℕ
  pub pending_events : List InvestigationEvent

-- `clock` is what `utc_now()` returns.
unfoldable pub create :
    ℕ → String → ExternalResourceRef → ActorRef → BudgetLimits → Option ℕ → ℕ → Investigation
create id tenant_id ref initiated_by limits now clock = record {
  id = id;
  tenant_id = tenant_id;
  source_alert_ref = ref;
  initiated_by = initiated_by;
  status = created;
  phase = none;
  current_plan_revision = 0;
  budget_limits = limits;
  termination_reason = none;
  lock_version = 0;
  result_id = none;
  response_proposal_id = none;
  revision = 0;
  created_at = or_else now clock;
  started_at = none;
  finished_at = none;
  cancelled_at = none;
  pending_events =
      (record {
        event_type = investigation_created;
        aggregate_id = id;
        tenant_id = tenant_id;
        actor_subject_id = some initiated_by.subject_id;
        payload = empty;
      })
      ∷ [];
}

bump : Investigation → Investigation
bump i = record i { revision = i.revision + 1 }

pub append_event : EventType → Option String → Payload → Investigation → Investigation
append_event type actor payload i = record i {
  pending_events =
      i.pending_events
      ++ (record {
        event_type = type;
        aggregate_id = i.id;
        tenant_id = i.tenant_id;
        actor_subject_id = actor;
        payload = payload;
      })
        ∷ [];
}

start_from :
    InvestigationStatus → ActorRef → ℕ → Investigation → Result InvestigationError Investigation
unfolding bump append_event
start_from created actor at i = ok (
    append_event investigation_started (some actor.subject_id) empty
      (bump (record i { status = running; phase = some hydrating; started_at = some at })))
start_from status actor at i = err (state_transition status start_command)

unfoldable pub start :
    ActorRef → Option ℕ → ℕ → Investigation → Result InvestigationError Investigation
unfolding start_from
start actor now clock i = start_from i.status actor (or_else now clock) i

require_running : InvestigationStatus → Command → Result InvestigationError Unit
require_running running command = ok tt
require_running status command = err (state_transition status command)

unfoldable pub update_phase :
    InvestigationPhase → Investigation → Result InvestigationError Investigation
unfolding require_running append_event
update_phase phase i = do
  require_running i.status update_phase_command
  ok (
      append_event investigation_phase_changed none (phase_changed phase)
        (record i { phase = some phase }))

abbrev is_cancel : Command → Bool
is_cancel cancel_command = true
is_cancel _ = false

-- The writes of `_transition` once the next status is known.
enter :
    Command
    → InvestigationStatus
    → Option TerminationReason
    → Option String
    → ℕ
    → Investigation
    → Investigation
unfolding bump append_event is_terminal
enter command status reason actor now i =
    append_event investigation_terminated actor (terminated status reason) (
      bump (record i {
        status = status;
        cancelled_at = if is_cancel command then some now else i.cancelled_at;
        finished_at = if is_terminal status then some now else i.finished_at;
        termination_reason = reason;
      }))

transition :
    Command
    → Option TerminationReason
    → Option String
    → ℕ
    → Investigation
    → Result InvestigationError Investigation
unfolding transitions enter
transition command reason actor now i = elim (transitions i.status command) [
  | none ↦ err (state_transition i.status command)
  | some status ↦ ok (enter command status reason actor now i)
]

unfoldable pub complete_without_response :
    ℕ → Investigation → Result InvestigationError Investigation
unfolding transition
complete_without_response now i =
    transition finalize_without_response (some completed_without_response) none now i

-- The subject of the actor, if there is one.
abbrev pub subject : Option ActorRef → Option String
subject none = none
subject (some actor) = some actor.subject_id

unfoldable pub cancel :
    Option ActorRef → ℕ → Investigation → Result InvestigationError Investigation
unfolding transition
cancel actor now i = transition cancel_command (some cancelled_by_user) (subject actor) now i

unfoldable pub fail :
    TerminationReason → ℕ → Investigation → Result InvestigationError Investigation
unfolding transition
fail reason now i = transition fail_command (some reason) none now i

-- The association once the status is known to be COMPLETED.
pub associate : Option ℕ → ℕ → Investigation → Result InvestigationError (Investigation × Bool)
unfolding bump
associate none proposal_id i =
    ok (bump (record i { response_proposal_id = some proposal_id }), true)
associate (some linked) proposal_id i =
    if linked == proposal_id then ok (i, false) else err different_proposal

pub link_from :
    InvestigationStatus → ℕ → Investigation → Result InvestigationError (Investigation × Bool)
unfolding associate
link_from completed proposal_id i = associate i.response_proposal_id proposal_id i
link_from status proposal_id i = err (state_transition status link_command)

-- The flag says whether the association is new.
unfoldable pub link_response_proposal :
    ℕ → Investigation → Result InvestigationError (Investigation × Bool)
unfolding link_from
link_response_proposal proposal_id i = link_from i.status proposal_id i

unfoldable pub clear_events : Investigation → Investigation
clear_events i = record i { pending_events = [] }

-- ===== src/Investigation/Lifecycle.antt =====
-- What one operation does to an Investigation: when it goes through, the facts that it keeps, and
-- what it leaves alone.
use hisiem_soc_copilot.Prelude.{
  ℕ, ◌+◌, ◌≡◌, Option, none, some, Bool, true, List, [], ◌∷◌, ◌++◌, is_some, is_ok, arith, ◌&&◌,
  ◌==◌, String, if◌then◌else◌, ok,
}
use hisiem_soc_copilot.Shared.{ExternalResourceRef, ActorRef, BudgetLimits}
use hisiem_soc_copilot.Investigation.{
  Investigation, InvestigationStatus, InvestigationEvent, EventType, investigation_terminated,
  created, running, completed, cancelled, is_terminal, create, completed_without_response,
  cancelled_by_user, link_response_proposal, link_from, associate, append_event,
}
use hisiem_soc_copilot.Investigation.Operations.{
  Operation, starting, linking, perform, step, is_legal,
}

-- What the fields say of each other.
pub record IsValid (i : Investigation) : Type 0 where
  pub created_unstarted : i.status ≡ created → (i.started_at ≡ none) × (i.phase ≡ none)
  pub running_started : i.status ≡ running → is_some i.started_at ≡ true
  pub completed_started : i.status ≡ completed → is_some i.started_at ≡ true
  pub phase_started : is_some i.phase ≡ true → is_some i.started_at ≡ true
  pub finished : is_some i.finished_at ≡ is_terminal i.status
  pub terminated : is_some i.termination_reason ≡ is_terminal i.status
  pub cancelled_when : is_some i.cancelled_at ≡ true → i.status ≡ cancelled
  pub cancelled_at_set : i.status ≡ cancelled → is_some i.cancelled_at ≡ true
  pub completed_why : i.status ≡ completed → i.termination_reason ≡ some completed_without_response
  pub cancelled_why : i.status ≡ cancelled → i.termination_reason ≡ some cancelled_by_user
  pub linked_completed : is_some i.response_proposal_id ≡ true → i.status ≡ completed

pub create-IsValid :
    (id : ℕ) (tenant : String) (ref : ExternalResourceRef) (actor : ActorRef)
    (limits : BudgetLimits) (now : Option ℕ) (clock : ℕ)
    → IsValid (create id tenant ref actor limits now clock)
unfolding create is_terminal
create-IsValid id tenant ref actor limits now clock = ground arith

pub step-IsValid :
    (op : Operation) (clock : ℕ) (i : Investigation) → IsValid i → IsValid (step op clock i)
unfolding step is_terminal
step-IsValid (starting actor now) clock i v = ground arith
step-IsValid _ clock i v = ground arith

-- An association that an operation does not contradict.
abbrev link_agrees : Operation → Option ℕ → Bool
link_agrees (linking proposal_id) (some linked) = linked == proposal_id
link_agrees _ _ = true

-- A call goes through exactly when the status is one of its legal ones and, for the link, no other
-- proposal is associated; otherwise it raises.
perform_ok :
    (op : Operation) (clock : ℕ) (i : Investigation)
    → is_ok (perform op clock i) ≡ (is_legal op i.status && link_agrees op i.response_proposal_id)
unfolding perform is_legal
perform_ok (starting actor now) clock i = ground arith
perform_ok _ clock i = ground arith

-- The fields that make up the lifecycle, and the events that tell of it.
pub record SameLifecycle (i j : Investigation) : Type 0 where
  pub status : i.status ≡ j.status
  pub phase : i.phase ≡ j.phase
  pub termination_reason : i.termination_reason ≡ j.termination_reason
  pub started_at : i.started_at ≡ j.started_at
  pub finished_at : i.finished_at ≡ j.finished_at
  pub cancelled_at : i.cancelled_at ≡ j.cancelled_at
  pub pending_events : i.pending_events ≡ j.pending_events

pub step_terminal :
    (op : Operation) (clock : ℕ) (i : Investigation)
    → is_terminal i.status ≡ true
    → SameLifecycle (step op clock i) i
unfolding step is_terminal
step_terminal (starting actor now) clock i h = ground arith
step_terminal _ clock i h = ground arith

-- What no operation ever writes.
pub record SameIdentity (i j : Investigation) : Type 0 where
  pub id : i.id ≡ j.id
  pub tenant_id : i.tenant_id ≡ j.tenant_id
  pub source_alert_ref : i.source_alert_ref ≡ j.source_alert_ref
  pub initiated_by : i.initiated_by ≡ j.initiated_by
  pub budget_limits : i.budget_limits ≡ j.budget_limits
  pub lock_version : i.lock_version ≡ j.lock_version
  pub created_at : i.created_at ≡ j.created_at

pub step-SameIdentity :
    (op : Operation) (clock : ℕ) (i : Investigation) → SameIdentity (step op clock i) i
unfolding step
step-SameIdentity (starting actor now) clock i = ground arith
step-SameIdentity _ clock i = ground arith

-- The association, once it is made.
pub step_linked :
    (op : Operation) (clock p : ℕ) (i : Investigation)
    → i.response_proposal_id ≡ some p
    → (step op clock i).response_proposal_id ≡ some p
unfolding step
step_linked (starting actor now) clock p i h = ground arith
step_linked _ clock p i h = ground arith

is_termination : EventType → ℕ
is_termination investigation_terminated = 1
is_termination _ = 0

-- How many of the events announce a termination.
unfoldable pub terminations : List InvestigationEvent → ℕ
unfolding is_termination
terminations [] = 0
terminations (e ∷ es) = is_termination e.event_type + terminations es

terminations-append :
    (es fs : List InvestigationEvent) → terminations (es ++ fs) ≡ terminations es + terminations fs
unfolding terminations
terminations-append [] fs = omega arith
terminations-append (e ∷ es) fs = omega (arith, terminations-append es fs)

abbrev pub ended : InvestigationStatus → ℕ
unfolding is_terminal
ended status = if is_terminal status then 1 else 0

pub terminations-step :
    (op : Operation) (clock : ℕ) (i : Investigation)
    → terminations i.pending_events ≡ ended i.status
    → terminations (step op clock i).pending_events ≡ ended (step op clock i).status
unfolding step is_terminal terminations
terminations-step (starting actor now) clock i h = grind (arith, terminations-append)
terminations-step _ clock i h = grind (arith, terminations-append)

-- The link keeps the id.
pub link-id :
    (id : ℕ) (i : Investigation) (r : Investigation × Bool)
    → link_response_proposal id i ≡ ok r
    → r.0.id ≡ i.id
unfolding link_response_proposal link_from associate append_event
link-id id i r e = ground arith

-- ===== src/Investigation/Traces.antt =====
-- What holds of an Investigation after any sequence of calls, whether they go through or raise.
use mathlib.Core.Path.{subst}
use hisiem_soc_copilot.Prelude.{
  ℕ, ◌≡◌, refl, ◌⊎◌, inl, inr, Option, some, true, List, [], ◌∷◌, arith, String,
}
use hisiem_soc_copilot.Shared.{ExternalResourceRef, ActorRef, BudgetLimits}
use hisiem_soc_copilot.Investigation.{
  Investigation, InvestigationStatus, created, running, completed, failed, cancelled, is_terminal,
  create,
}
use hisiem_soc_copilot.Investigation.Operations.{Operation, starting, step, run}
use hisiem_soc_copilot.Investigation.Lifecycle.{
  IsValid, create-IsValid, step-IsValid, SameLifecycle, step_terminal, SameIdentity,
  step-SameIdentity, step_linked, terminations, ended, terminations-step,
}

run-IsValid_of : (ops : List (Operation × ℕ)) (i : Investigation) → IsValid i → IsValid (run ops i)
unfolding run
run-IsValid_of [] i v = v
run-IsValid_of ((op, clock) ∷ ops) i v =
    run-IsValid_of ops (step op clock i) (step-IsValid op clock i v)

-- A new investigation, after any sequence of calls, is well formed: its times, its phase, its
-- termination reason and its response association agree with its status.
pub run-IsValid :
    (id : ℕ) (tenant : String) (ref : ExternalResourceRef) (actor : ActorRef)
    (limits : BudgetLimits) (now : Option ℕ) (clock : ℕ) (ops : List (Operation × ℕ))
    → IsValid (run ops (create id tenant ref actor limits now clock))
run-IsValid id tenant ref actor limits now clock ops =
    run-IsValid_of ops _ (create-IsValid id tenant ref actor limits now clock)

-- Once the status is terminal, no sequence of calls changes the lifecycle fields or emits an
-- event.
pub terminal_frozen :
    (ops : List (Operation × ℕ)) (i : Investigation)
    → is_terminal i.status ≡ true
    → SameLifecycle (run ops i) i
unfolding run
terminal_frozen [] i h = ground arith
terminal_frozen ((op, clock) ∷ ops) i h =
    let same = step_terminal op clock i h in ground (arith, terminal_frozen ops (step op clock i))

-- The identity of an investigation, its tenant, alert, initiator and limits, never change.
run-SameIdentity : (ops : List (Operation × ℕ)) (i : Investigation) → SameIdentity (run ops i) i
unfolding run
run-SameIdentity [] i = ground arith
run-SameIdentity ((op, clock) ∷ ops) i =
    let same = step-SameIdentity op clock i in
    ground (arith, run-SameIdentity ops (step op clock i))

-- A response association, once made, is the same after any sequence of calls.
linked_forever :
    (ops : List (Operation × ℕ)) (p : ℕ) (i : Investigation)
    → i.response_proposal_id ≡ some p
    → (run ops i).response_proposal_id ≡ some p
unfolding run
linked_forever [] p i h = h
linked_forever ((op, clock) ∷ ops) p i h =
    linked_forever ops p (step op clock i) (step_linked op clock p i h)

terminations_run :
    (ops : List (Operation × ℕ)) (i : Investigation)
    → terminations i.pending_events ≡ ended i.status
    → terminations (run ops i).pending_events ≡ ended (run ops i).status
unfolding run
terminations_run [] i h = h
terminations_run ((op, clock) ∷ ops) i h =
    terminations_run ops (step op clock i) (terminations-step op clock i h)

-- After any sequence of calls a new investigation has emitted one termination event if its status
-- is terminal, and none if it is not.
pub terminations-run :
    (id : ℕ) (tenant : String) (ref : ExternalResourceRef) (actor : ActorRef)
    (limits : BudgetLimits) (now : Option ℕ) (clock : ℕ) (ops : List (Operation × ℕ))
    → let i = run ops (create id tenant ref actor limits now clock) in
      terminations i.pending_events ≡ ended i.status
terminations-run id tenant ref actor limits now clock ops =
    terminations_run ops _ (unfold create terminations is_terminal in refl)

infix 40 ◌⟶◌ ◌⟶*◌
-- The diagram of the lifecycle.
pub data ◌⟶◌ : InvestigationStatus → InvestigationStatus → Type 0 where
  begins : created ⟶ running
  completes : running ⟶ completed
  fails_to_start : created ⟶ failed
  fails : running ⟶ failed
  withdrawn : created ⟶ cancelled
  stopped : running ⟶ cancelled

pub data ◌⟶*◌ : InvestigationStatus → InvestigationStatus → Type 0 where
  here : {s : InvestigationStatus} → s ⟶* s
  then : {s t u : InvestigationStatus} → s ⟶ t → t ⟶* u → s ⟶* u

ruleset edges = (begins, completes, fails_to_start, fails, withdrawn, stopped)

abbrev Stays : InvestigationStatus → InvestigationStatus → Type 0
Stays s t = (t ≡ s) ⊎ (s ⟶ t)

step-⟶ : (op : Operation) (clock : ℕ) (i : Investigation) → Stays i.status (step op clock i).status
unfolding step
step-⟶ (starting actor now) clock i = grind (arith, edges)
step-⟶ _ clock i = grind (arith, edges)

follow : {s t u : InvestigationStatus} → Stays s t → t ⟶* u → s ⟶* u
follow {u} (inl e) r = subst (λ x. x ⟶* u) e r
follow (inr m) r = then m r

-- Whatever the calls, the status only moves along the diagram of the lifecycle.
run-⟶* : (ops : List (Operation × ℕ)) (i : Investigation) → i.status ⟶* (run ops i).status
unfolding run
run-⟶* [] i = here
run-⟶* ((op, clock) ∷ ops) i = follow (step-⟶ op clock i) (run-⟶* ops (step op clock i))

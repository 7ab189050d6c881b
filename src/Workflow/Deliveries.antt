-- ===== src/Workflow/Deliveries.antt =====
-- What a whole submit or observe delivery leaves, and the deliveries that it schedules.
use hisiem_soc_copilot.Prelude.{
  ℕ, ◌+◌, ◌≡◌, ◌≢◌, String, Option, none, some, Bool, true, false, List, [], ◌∷◌, ◌++◌, arith, refl,
  ◌∙◌, not, if◌then◌else◌, Result, ok, err, is_some, zero, suc, inl, inr, Bool-cases, sym, str_eq,
  ap,
}
use mathlib.Core.List.{append_assoc, append-nil}
use hisiem_soc_copilot.Shared.{ExternalResourceRef}
use hisiem_soc_copilot.Response.{ResponseProposal, transition, transitions, mark_submitted}
use hisiem_soc_copilot.Workflow.{
  submission_key, execution_failed, HandlerError, Store, Entry, event_type, ResponseEvent,
  get_execution, get_proposal, get_submission, ResponseExecutionRef, update_proposal,
}
use hisiem_soc_copilot.Workflow.Shapes.{IsConsistent, BelongsTo, Rows}
use hisiem_soc_copilot.Workflow.Submission.{
  Run, Answer, exhaust_from, submit, follow_plan, Plan, refuse, call, plan_target,
  attach_and_mark_submitted, attach_reloaded, attach_to, after_attach, definitive_failure,
  transient_failure, plan, plan_proposal, plan_status, load, converged, on_retry_exhausted,
  is_final, terminal_event, settle_submit, SoarExecutionResult, entry, answered, raised,
  is_definitive,
}
use hisiem_soc_copilot.Workflow.Submission.Consistency.{call-IsAuthorized, settle-IsConsistent}
use hisiem_soc_copilot.Workflow.Observation as Watching
use hisiem_soc_copilot.Workflow.Observation.{
  Finding, refused, unread, ended, in_flight, settle_observe, is_open, watch_rows, next_check,
  finding_of, put_execution, observed, observe, watch, ask, check_status, persist_terminal,
  settle_terminal, settle_terminal_failure, settle_nonterminal, reschedule_observation,
}
use hisiem_soc_copilot.Outbox.{event_destination}
use hisiem_soc_copilot.Dispatcher.{RunOutcome, finished}

-- The outbox rows of an event: where the delivery goes and from when on.
unfoldable deliveries_of : Entry → List (String × Option ℕ)
unfolding event_type event_destination
deliveries_of e = elim (event_destination (event_type e.event)) [
  | none ↦ []
  | some destination ↦ (destination, e.available_at) ∷ []
]

unfoldable pub deliveries : List Entry → List (String × Option ℕ)
unfolding deliveries_of
deliveries [] = []
deliveries (e ∷ es) = deliveries_of e ++ deliveries es

deliveries-append :
    (xs : List Entry) (e : Entry) → deliveries (xs ++ (e ∷ [])) ≡ deliveries xs ++ deliveries_of e
unfolding deliveries
deliveries-append [] e = append-nil (deliveries_of e)
deliveries-append (x ∷ xs) e =
    ap (λ l. deliveries_of x ++ l) (deliveries-append xs e)
    ∙ sym (append_assoc (deliveries_of x) (deliveries xs) (deliveries_of e))

-- What is scheduled next, by whether the execution is still open.
pub next_observation : Run → Bool → List (String × Option ℕ)
next_observation r true = ("response.execution.observe", some (r.now + r.observe_delay)) ∷ []
next_observation r false = []

unread_schedules :
    (r : Run) (e : ResponseExecutionRef) (code : String) (s : Store)
    → is_open (get_execution r.tenant_id e.proposal_id s) ≡ true
    → deliveries (reschedule_observation r e code s).events
      ≡ deliveries s.events ++ next_observation r true
unfolding reschedule_observation next_observation deliveries_of event_type event_destination
unread_schedules r e code s h = rw h (deliveries-append s.events _)

terminal_event-deliveries :
    (r : Run) (id : ℕ) (x : SoarExecutionResult)
    → deliveries_of (entry r id 0 none (terminal_event x)) ≡ []
unfolding terminal_event deliveries_of event_type event_destination
terminal_event-deliveries r id x = elim (Bool-cases (str_eq x.status "SUCCEEDED")) [
  | inl t ↦ rw t refl
  | inr t ↦ rw t refl
]

failed_event-deliveries :
    (r : Run) (id : ℕ) (code : String)
    → deliveries_of (entry r id 0 none (execution_failed code)) ≡ []
unfolding deliveries_of event_type event_destination
failed_event-deliveries r id code = refl

terminal_schedules :
    (r : Run) (e settled : ResponseExecutionRef) (event : ResponseEvent) (s : Store)
    → deliveries_of (entry r e.proposal_id 0 none event) ≡ []
    → is_open (get_execution r.tenant_id e.proposal_id s) ≡ true
    → deliveries (persist_terminal r e settled event s).events
      ≡ deliveries s.events ++ next_observation r false
unfolding persist_terminal next_observation
terminal_schedules r e settled event s q h =
    rw h (deliveries-append s.events _ ∙ ap (λ l. deliveries s.events ++ l) q)

nonterminal_schedules :
    (r : Run) (e : ResponseExecutionRef) (x : SoarExecutionResult) (s : Store)
    → is_open (get_execution r.tenant_id e.proposal_id s) ≡ true
    → deliveries (settle_nonterminal r e x s).events
      ≡ deliveries s.events ++ next_observation r true
unfolding settle_nonterminal next_observation deliveries_of event_type event_destination
nonterminal_schedules r e x s h = rw h (deliveries-append s.events _)

-- The end of the checks is what the status says.
IsHonest : Finding → Type 0
IsHonest (refused x) = Unit
IsHonest (unread x) = Unit
IsHonest (ended x) = is_final x.status ≡ true
IsHonest (in_flight x) = is_final x.status ≡ false

finding_of-IsHonest : (a : Answer) → IsHonest (finding_of a)
unfolding finding_of IsHonest
finding_of-IsHonest (raised x) = elim (Bool-cases (is_definitive x)) [
  | inl t ↦ rw t tt
  | inr t ↦ rw t tt
]
finding_of-IsHonest (answered x) = elim (Bool-cases (is_final x.status)) [
  | inl t ↦ rw t t
  | inr t ↦ rw t t
]

next_check-IsHonest : (f g : Finding) → IsHonest f → IsHonest g → IsHonest (next_check f g)
unfolding next_check
next_check-IsHonest (in_flight x) g h k = k
next_check-IsHonest (refused x) g h k = h
next_check-IsHonest (unread x) g h k = h
next_check-IsHonest (ended x) g h k = h

check_status-IsHonest : (more : ℕ) (provider : ℕ → Answer) → IsHonest (check_status more provider)
unfolding check_status
check_status-IsHonest zero provider = finding_of-IsHonest (provider zero)
check_status-IsHonest (suc more) provider =
    next_check-IsHonest (finding_of (provider (suc more))) (check_status more provider)
      (finding_of-IsHonest (provider (suc more))) (check_status-IsHonest more provider)

is_pending : Finding → Bool
is_pending (refused x) = false
is_pending (unread x) = true
is_pending (ended x) = false
is_pending (in_flight x) = true

put-open :
    (tenant : String) (id : ℕ) (x : ResponseExecutionRef) (s : Store)
    → is_open (get_execution tenant id s) ≡ true
    → x.proposal_id ≡ id
    → is_open (get_execution tenant id (put_execution x s)) ≡ not (is_final x.status)
unfolding is_open get_execution
put-open tenant id x s h k = ground arith

settle_observe-open :
    (r : Run) (e : ResponseExecutionRef) (f : Finding) (s : Store)
    → IsHonest f
    → is_open (get_execution r.tenant_id e.proposal_id s) ≡ true
    → is_open (get_execution r.tenant_id e.proposal_id (settle_observe r e f s)) ≡ is_pending f
unfolding IsHonest is_pending get_execution is_final settle_observe persist_terminal settle_terminal
    settle_terminal_failure settle_nonterminal reschedule_observation
settle_observe-open r e (refused x) s i h = rw h (put-open r.tenant_id e.proposal_id _ s h refl)
settle_observe-open r e (unread x) s i h = rw h h
settle_observe-open r e (ended x) s i h =
    rw h (put-open r.tenant_id e.proposal_id _ s h refl ∙ ap not i)
settle_observe-open r e (in_flight x) s i h =
    rw h (put-open r.tenant_id e.proposal_id _ s h refl ∙ ap not i)

settle_observe-schedule :
    (r : Run) (e : ResponseExecutionRef) (f : Finding) (s : Store)
    → is_open (get_execution r.tenant_id e.proposal_id s) ≡ true
    → deliveries (settle_observe r e f s).events
      ≡ deliveries s.events ++ next_observation r (is_pending f)
unfolding settle_observe settle_terminal settle_terminal_failure is_pending
settle_observe-schedule r e (refused x) s h =
    terminal_schedules r e _ _ s (failed_event-deliveries r e.proposal_id _) h
settle_observe-schedule r e (unread x) s h = unread_schedules r e _ s h
settle_observe-schedule r e (ended x) s h =
    terminal_schedules r e _ _ s (terminal_event-deliveries r e.proposal_id x) h
settle_observe-schedule r e (in_flight x) s h = nonterminal_schedules r e x s h

ask-facts :
    (tenant : String) (id : ℕ) (s : Store) (e : ResponseExecutionRef)
    → watch tenant id s ≡ ask e
    → (e.proposal_id ≡ id) × (is_open (get_execution tenant id s) ≡ true)
unfolding watch watch_rows get_proposal get_execution is_open is_final
ask-facts tenant id s e h = ground arith

settled_until_final :
    (r : Run) (id : ℕ) (e : ResponseExecutionRef) (f : Finding) (s : Store)
    → IsHonest f
    → e.proposal_id ≡ id
    → is_open (get_execution r.tenant_id id s) ≡ true
    → deliveries (settle_observe r e f s).events
      ≡ deliveries s.events
        ++ next_observation r (is_open (get_execution r.tenant_id id (settle_observe r e f s)))
settled_until_final r id e f s i q o = rw (sym q) (
    settle_observe-schedule r e f s (rw q o)
    ∙ ap (λ b. deliveries s.events ++ next_observation r b)
        (sym (settle_observe-open r e f s i (rw q o))))

-- An observe delivery that asks the provider schedules one observation, after the delay, when the
-- execution is still open behind it, and none when it is final.
pub observed_until_final :
    (r : Run) (id more : ℕ) (provider : String → ℕ → Answer) (s : Store) (e : ResponseExecutionRef)
    → watch r.tenant_id id s ≡ ask e
    → deliveries (observe r id more provider s).0.events
      ≡ deliveries s.events
        ++ next_observation r
            (is_open (get_execution r.tenant_id id (observe r id more provider s).0))
unfolding observe Watching.follow_watch
observed_until_final r id more provider s e h = rw h (
    settled_until_final r id e (check_status more (provider e.execution_id)) s
      (check_status-IsHonest more (provider e.execution_id)) (ask-facts r.tenant_id id s e h).0
      (ask-facts r.tenant_id id s e h).1)

-- A proposal that is submitted has its submission settled, and its next submit does nothing.
submitted_converges :
    (tenant : String) (id : ℕ) (s : Store)
    → IsConsistent s
    → is_some s.execution ≡ true
    → plan (load tenant id s) ≡ converged
unfolding IsConsistent BelongsTo Rows plan load plan_proposal plan_status get_proposal get_execution
    get_submission
submitted_converges tenant id s h e = ground arith

attach-executes :
    (r : Run) (id : ℕ) (s t : Store) (p : ResponseProposal) (target : ExternalResourceRef)
    (key : String) (x : SoarExecutionResult)
    → plan (load r.tenant_id id s) ≡ call p target
    → attach_and_mark_submitted r p.id key x s ≡ ok t
    → is_some t.execution ≡ true
unfolding plan load plan_proposal plan_status plan_target get_proposal get_execution get_submission
    attach_and_mark_submitted attach_reloaded attach_to mark_submitted transition transitions
    update_proposal
attach-executes r id s t p target key x c e = ground arith

attached-executes :
    (s : Store) (result : Result HandlerError Store)
    → ((t : Store) → result ≡ ok t → is_some t.execution ≡ true)
    → (after_attach s result).1 ≡ finished
    → is_some (after_attach s result).0.execution ≡ true
unfolding after_attach
attached-executes s (ok t) f e = f t refl
attached-executes s (err x) f e = ground arith

either :
    (b : Bool) (x y : Store × RunOutcome)
    → (x.1 ≢ finished)
    → (y.1 ≡ finished → is_some y.0.execution ≡ true)
    → (if b then x else y).1 ≡ finished
    → is_some (if b then x else y).0.execution ≡ true
either true x y f g e = absurd (f e)
either false x y f g e = g e

finished-executes :
    (r : Run) (id : ℕ) (s : Store) (p : ResponseProposal) (target : ExternalResourceRef)
    (answer : Answer)
    → plan (load r.tenant_id id s) ≡ call p target
    → (settle_submit r p.id answer s).1 ≡ finished
    → is_some (settle_submit r p.id answer s).0.execution ≡ true
unfolding settle_submit definitive_failure transient_failure
finished-executes r id s p target (raised x) c e = ground arith
finished-executes r id s p target (answered x) c e =
    let key = submission_key r.show r.tenant_id p.id in
    let result = attach_and_mark_submitted r p.id key x s in
    either (str_eq x.execution_id "")
      (transient_failure r p.id key "SOAR_NO_EXECUTION_ID" "provider returned no execution id" s)
      (after_attach s result) (λ f. ground arith)
      (attached-executes s result (λ t k. attach-executes r id s t p target key x c k)) e

again :
    (r r' : Run) (id : ℕ) (provider : ResponseProposal → ExternalResourceRef → Answer) (t : Store)
    → r'.tenant_id ≡ r.tenant_id
    → plan (load r.tenant_id id t) ≡ converged
    → submit r' id provider t ≡ (t, finished)
unfolding submit follow_plan
again r r' id provider t q e = rw q (rw e refl)

follow_once :
    (r r' : Run) (id : ℕ) (provider provider' : ResponseProposal → ExternalResourceRef → Answer)
    (s : Store)
    → IsConsistent s
    → r'.tenant_id ≡ r.tenant_id
    → (p : Plan) → plan (load r.tenant_id id s) ≡ p
    → (follow_plan r provider s p).1 ≡ finished
    → submit r' id provider' (follow_plan r provider s p).0
      ≡ ((follow_plan r provider s p).0, finished)
unfolding follow_plan
follow_once r r' id provider provider' s h q converged c e = again r r' id provider' s q c
follow_once r r' id provider provider' s h q (refuse code) c e = ground arith
follow_once r r' id provider provider' s h q (call p target) c e =
    let answer = provider p target in
    let a = call-IsAuthorized r.tenant_id id s p target h c in
    let t = (settle_submit r p.id answer s).0 in
    again r r' id provider' t q (
      submitted_converges r.tenant_id id t (settle-IsConsistent r p s answer h a)
        (finished-executes r id s p target answer c e))

-- When a submit delivery of consistent rows is done, another one for the same proposal and tenant,
-- whatever the provider would answer, does nothing: it asks for no second execution.
pub submit_once :
    (r r' : Run) (id : ℕ) (provider provider' : ResponseProposal → ExternalResourceRef → Answer)
    (s : Store)
    → IsConsistent s
    → r'.tenant_id ≡ r.tenant_id
    → (submit r id provider s).1 ≡ finished
    → submit r' id provider' (submit r id provider s).0 ≡ ((submit r id provider s).0, finished)
unfolding submit
submit_once r r' id provider provider' s h q e =
    follow_once r r' id provider provider' s h q (plan (load r.tenant_id id s)) refl e

-- Once the retries of a submission in consistent rows are exhausted, the submit delivery finds
-- nothing to do and does not call the provider.
pub exhausted_stops :
    (r : Run) (id : ℕ) (code : String) (s : Store)
    → IsConsistent s
    → is_some s.submission ≡ true
    → plan (load r.tenant_id id (on_retry_exhausted r id code s)) ≡ converged
unfolding IsConsistent BelongsTo Rows plan load plan_proposal plan_status get_proposal get_execution
    get_submission on_retry_exhausted exhaust_from
exhausted_stops r id code s h e = ground arith

-- ===== src/Workflow/Runs.antt =====
-- The workflow as the API, the workers and the provider run it: a submit or an observe delivery
-- reads the rows in one action and writes its answer in a later one, with any actions of others
-- between the two. Commands and the exhaustion hook are one action each.
use hisiem_soc_copilot.Prelude.{
  ℕ, zero, suc, ◌≡◌, String, Option, none, some, List, [], ◌∷◌, All, Result, ok, err, refl,
}
use hisiem_soc_copilot.Response.{ResponseProposal}
use hisiem_soc_copilot.Workflow.{Store, ResponseExecutionRef, HandlerError}
use hisiem_soc_copilot.Workflow.Shapes.{IsConsistent, IsAuthorized}
use hisiem_soc_copilot.Workflow.Approval.{DecideCommand, decide_response_approval}
use hisiem_soc_copilot.Workflow.Approval.Consistency.{decide-IsConsistent, decide-IsAuthorized}
use hisiem_soc_copilot.Workflow.Creation.{CreateCommand, Fresh, create_response_proposal}
use hisiem_soc_copilot.Workflow.Creation.Consistency.{create-IsConsistent, create-IsAuthorized}
use hisiem_soc_copilot.Workflow.Submission.{
  Run, Answer, Plan, converged, refuse, call, plan, load, settle_submit, on_retry_exhausted,
}
use hisiem_soc_copilot.Workflow.Submission.Consistency.{
  call-IsAuthorized, settle-IsConsistent, settle-IsAuthorized, exhaust-IsConsistent,
  exhaust-IsAuthorized,
}
use hisiem_soc_copilot.Workflow.Observation.{Finding, Watch, watch, settle_observe}
use hisiem_soc_copilot.Workflow.Observation as Watching
use hisiem_soc_copilot.Workflow.Observation.Consistency.{observe-IsConsistent, observe-IsAuthorized}

-- The rows, the calls that the provider has been given, each with the proposal as the worker read
-- it, and the executions that were asked about.
pub record World : Type 0 where
  pub store : Store
  pub called : List ResponseProposal
  pub watched : List ResponseExecutionRef

pub data Action : Type 0 where
  creating : (String → Option ℕ) → CreateCommand → Fresh → Action
  deciding : (ℕ → String) → DecideCommand → ℕ → ℕ → Action
  reading_submit : String → ℕ → Action
  answering_submit : ℕ → Run → Answer → Action
  exhausting : Run → ℕ → String → Action
  reading_observe : String → ℕ → Action
  answering_observe : ℕ → Run → Finding → Action

abbrev pub item : {A : Type 0} → ℕ → List A → Option A
item n [] = none
item zero (x ∷ xs) = some x
item (suc n) (x ∷ xs) = item n xs

-- The rows after a command, which leaves none of its writes when it raises.
abbrev pub committed : {A : Type 0} → Store → Result HandlerError (Store × A) → Store
committed s (ok r) = r.0
committed s (err e) = s

abbrev with_call : Plan → List ResponseProposal → List ResponseProposal
with_call (call p target) called = p ∷ called
with_call _ called = called

abbrev with_watch : Watch → List ResponseExecutionRef → List ResponseExecutionRef
with_watch (Watching.ask e) watched = e ∷ watched
with_watch _ watched = watched

abbrev pub answered_submit : Run → Answer → Store → Option ResponseProposal → Store
answered_submit r answer s none = s
answered_submit r answer s (some p) = (settle_submit r p.id answer s).0

abbrev pub answered_observe : Run → Finding → Store → Option ResponseExecutionRef → Store
answered_observe r found s none = s
answered_observe r found s (some e) = settle_observe r e found s

unfoldable pub act : Action → World → World
unfolding create_response_proposal decide_response_approval plan load on_retry_exhausted watch
    settle_observe settle_submit
act (creating parse c fresh) w = record w {
  store = committed w.store (create_response_proposal parse c fresh w.store);
}
act (deciding show c id now) w = record w {
  store = committed w.store (decide_response_approval show c id now w.store);
}
act (reading_submit tenant id) w = record w {
  called = with_call (plan (load tenant id w.store)) w.called;
}
act (answering_submit n r answer) w = record w {
  store = answered_submit r answer w.store (item n w.called);
}
act (exhausting r id code) w = record w { store = on_retry_exhausted r id code w.store }
act (reading_observe tenant id) w = record w {
  watched = with_watch (watch tenant id w.store) w.watched;
}
act (answering_observe n r found) w = record w {
  store = answered_observe r found w.store (item n w.watched);
}

unfoldable pub run : List Action → World → World
unfolding act
run [] w = w
run (a ∷ as') w = run as' (act a w)

-- The rows are consistent, and each call was made for what the rows authorize.
unfoldable pub IsSafe : World → Type 0
IsSafe w = IsConsistent w.store × All (IsAuthorized w.store) w.called

module _ {A : Type 0} where
  All-map : (P Q : A → Type 0) → ((a : A) → P a → Q a) → (xs : List A) → All P xs → All Q xs
  All-map P Q f [] h = tt
  All-map P Q f (x ∷ xs) h = (f x h.0, All-map P Q f xs h.1)

  abbrev IfAny : (A → Type 0) → Option A → Type 0
  IfAny P none = Unit
  IfAny P (some x) = P x

  item-IfAny : (P : A → Type 0) (n : ℕ) (xs : List A) → All P xs → IfAny P (item n xs)
  item-IfAny P n [] h = tt
  item-IfAny P zero (x ∷ xs) h = h.0
  item-IfAny P (suc n) (x ∷ xs) h = item-IfAny P n xs h.1

pub committed-cases :
    {A : Type 0} (P : Store → Type 0) (s : Store) (r : Result HandlerError (Store × A))
    → P s
    → ((t : Store) (a : A) → r ≡ ok (t, a) → P t)
    → P (committed s r)
committed-cases P s (ok (t, a)) h k = k t a refl
committed-cases P s (err e) h k = h

-- The rows of a safe world after an action.
act-IsConsistent : (a : Action) (w : World) → IsSafe w → IsConsistent (act a w).store
unfolding act IsSafe
act-IsConsistent (creating parse c fresh) w h =
    committed-cases IsConsistent w.store (create_response_proposal parse c fresh w.store) h.0
      (λ t q e. create-IsConsistent parse c fresh w.store t q h.0 e)
act-IsConsistent (deciding show c id now) w h =
    committed-cases IsConsistent w.store (decide_response_approval show c id now w.store) h.0
      (λ t o e. decide-IsConsistent show c id now w.store t o h.0 e)
act-IsConsistent (reading_submit tenant id) w h = h.0
act-IsConsistent (answering_submit n r answer) w h =
    go (item n w.called) (item-IfAny (IsAuthorized w.store) n w.called h.1)
  where
    go :
        (o : Option ResponseProposal)
        → IfAny (IsAuthorized w.store) o
        → IsConsistent (answered_submit r answer w.store o)
    go none i = h.0
    go (some p) i = settle-IsConsistent r p w.store answer h.0 i
act-IsConsistent (exhausting r id code) w h = exhaust-IsConsistent r id code w.store h.0
act-IsConsistent (reading_observe tenant id) w h = h.0
act-IsConsistent (answering_observe n r found) w h = go (item n w.watched)
  where
    go : (o : Option ResponseExecutionRef) → IsConsistent (answered_observe r found w.store o)
    go none = h.0
    go (some e) = observe-IsConsistent r e w.store found h.0

-- No action takes an authority away.
act-IsAuthorized :
    (a : Action) (w : World) (q : ResponseProposal)
    → IsSafe w
    → IsAuthorized w.store q
    → IsAuthorized (act a w).store q
unfolding act IsSafe
act-IsAuthorized (creating parse c fresh) w q h b =
    committed-cases (λ t. IsAuthorized t q) w.store (create_response_proposal parse c fresh w.store)
      b (λ t x e. create-IsAuthorized parse c fresh w.store t x q h.0 b e)
act-IsAuthorized (deciding show c id now) w q h b =
    committed-cases (λ t. IsAuthorized t q) w.store (decide_response_approval show c id now w.store)
      b (λ t o e. decide-IsAuthorized show c id now w.store t o q h.0 b e)
act-IsAuthorized (reading_submit tenant id) w q h b = b
act-IsAuthorized (answering_submit n r answer) w q h b =
    go (item n w.called) (item-IfAny (IsAuthorized w.store) n w.called h.1)
  where
    go :
        (o : Option ResponseProposal)
        → IfAny (IsAuthorized w.store) o
        → IsAuthorized (answered_submit r answer w.store o) q
    go none i = b
    go (some p) i = settle-IsAuthorized r p w.store answer q h.0 i b
act-IsAuthorized (exhausting r id code) w q h b = exhaust-IsAuthorized r id code w.store q b
act-IsAuthorized (reading_observe tenant id) w q h b = b
act-IsAuthorized (answering_observe n r found) w q h b = go (item n w.watched)
  where
    go : (o : Option ResponseExecutionRef) → IsAuthorized (answered_observe r found w.store o) q
    go none = b
    go (some e) = observe-IsAuthorized r e w.store found q b

called-All : (a : Action) (w : World) → IsSafe w → All (IsAuthorized w.store) (act a w).called
unfolding act IsSafe
called-All (reading_submit tenant id) w h = go (plan (load tenant id w.store)) refl
  where
    go :
        (p : Plan)
        → plan (load tenant id w.store) ≡ p
        → All (IsAuthorized w.store) (with_call p w.called)
    go converged e = h.1
    go (refuse code) e = h.1
    go (call p target) e = (call-IsAuthorized tenant id w.store p target h.0 e, h.1)
called-All (creating parse c fresh) w h = h.1
called-All (deciding show c id now) w h = h.1
called-All (answering_submit n r answer) w h = h.1
called-All (exhausting r id code) w h = h.1
called-All (reading_observe tenant id) w h = h.1
called-All (answering_observe n r found) w h = h.1

pub act-IsSafe : (a : Action) (w : World) → IsSafe w → IsSafe (act a w)
act-IsSafe a w h =
    unfold IsSafe in
    (
      act-IsConsistent a w h,
      All-map (IsAuthorized w.store) (IsAuthorized (act a w).store)
          (λ q b. act-IsAuthorized a w q h b) (act a w).called (called-All a w h),
    )

-- Whatever the commands, the deliveries and the provider's answers, and however they interleave,
-- from a safe world the rows stay consistent, and each call that the provider has been given was
-- for the content that is stored, with a request that binds its hash and a recorded decision that
-- approves it.
pub run-IsSafe : (actions : List Action) (w : World) → IsSafe w → IsSafe (run actions w)
unfolding run
run-IsSafe [] w h = h
run-IsSafe (a ∷ rest) w h = run-IsSafe rest (act a w) (act-IsSafe a w h)

-- ===== src/Workflow/Submission/Consistency.antt =====
-- A submission keeps the rows consistent and takes no authority away.
use hisiem_soc_copilot.Prelude.{
  Bool-cases, inl, inr, str_eq, refl, ℕ, ◌≡◌, String, Result, ok, err, arith,
}
use hisiem_soc_copilot.Response.{ResponseProposal, transition, transitions, mark_submitted}
use hisiem_soc_copilot.Workflow.{
  submission_key, submission_failed, submission_retrying, HandlerError, Store, update_proposal,
  get_proposal, get_execution, get_submission, ResponseEvent, ResponseSubmissionStatus,
}
use hisiem_soc_copilot.Workflow.Shapes.{
  Rows, BelongsTo, IsConsistent, Binds, Decides, IsAuthorized, Approves,
}
use hisiem_soc_copilot.Workflow.Submission.{
  text_or, safe_message, is_definitive, is_definitive, Run, Answer, answered, raised,
  SoarExecutionResult, settle_submit, on_retry_exhausted, exhaust_from, record_submission,
  attach_and_mark_submitted, attach_reloaded, attach_to, after_attach, definitive_failure,
  transient_failure, plan, plan_proposal, plan_status, plan_target, call, load,
}
use hisiem_soc_copilot.Shared.{ExternalResourceRef}

module _ (r : Run) (p : ResponseProposal) (s : Store) where
  pub record_submission-IsConsistent :
      (key : String) (status : ResponseSubmissionStatus) (code message : String)
      (make : ℕ → ResponseEvent)
      → IsConsistent s
      → IsAuthorized s p
      → IsConsistent (record_submission r p.id key status code message make s)
  unfolding IsConsistent BelongsTo Rows Binds Decides IsAuthorized Approves record_submission
      get_submission
  record_submission-IsConsistent key status code message make h a = ground arith

  pub record_submission-IsAuthorized :
      (key : String) (status : ResponseSubmissionStatus) (code message : String)
      (make : ℕ → ResponseEvent)
      → (q : ResponseProposal) → IsAuthorized s q
      → IsAuthorized s p
      → IsAuthorized (record_submission r p.id key status code message make s) q
  unfolding IsAuthorized Approves Decides record_submission get_submission
  record_submission-IsAuthorized key status code message make q h a = ground arith

  attach-IsConsistent :
      (key : String) (answer : SoarExecutionResult) (t : Store)
      → IsConsistent s
      → attach_and_mark_submitted r p.id key answer s ≡ ok t
      → IsConsistent t
  unfolding IsConsistent BelongsTo Rows Binds Decides attach_and_mark_submitted get_proposal
      get_execution get_submission attach_reloaded attach_to mark_submitted transition transitions
      update_proposal
  attach-IsConsistent key answer t h e = ground arith

  attach-IsAuthorized :
      (key : String) (answer : SoarExecutionResult) (t : Store) (q : ResponseProposal)
      → IsConsistent s
      → IsAuthorized s q
      → attach_and_mark_submitted r p.id key answer s ≡ ok t
      → IsAuthorized t q
  unfolding IsConsistent BelongsTo Rows Binds Decides IsAuthorized Approves
      attach_and_mark_submitted get_proposal get_execution get_submission attach_reloaded attach_to
      mark_submitted transition transitions update_proposal
  attach-IsAuthorized key answer t q h a e = ground arith

pub call-IsAuthorized :
    (tenant : String) (id : ℕ) (s : Store) (p : ResponseProposal) (target : ExternalResourceRef)
    → IsConsistent s
    → plan (load tenant id s) ≡ call p target
    → IsAuthorized s p
unfolding IsConsistent BelongsTo Rows Binds Decides IsAuthorized Approves plan load plan_proposal
    plan_status plan_target get_proposal get_execution get_submission
call-IsAuthorized tenant id s p target h e = ground arith

after_attach-cases :
    (P : Store → Type 0) (s : Store) (result : Result HandlerError Store)
    → P s
    → ((t : Store) → result ≡ ok t → P t)
    → P (after_attach s result).0
unfolding after_attach
after_attach-cases P s (ok t) h k = k t refl
after_attach-cases P s (err e) h k = h

-- What a settlement does to the rows: a failed attempt, an attachment, or nothing.
settle-cases :
    (P : Store → Type 0) (r : Run) (id : ℕ) (answer : Answer) (s : Store)
    → P s
    → ((key : String) (status : ResponseSubmissionStatus) (code message : String)
          (make : ℕ → ResponseEvent)
        → P (record_submission r id key status code message make s))
    → ((key : String) (x : SoarExecutionResult) (t : Store)
        → attach_and_mark_submitted r id key x s ≡ ok t
        → P t)
    → P (settle_submit r id answer s).0
unfolding settle_submit definitive_failure transient_failure
settle-cases P r id (raised x) s h f g =
    let key = submission_key r.show r.tenant_id id in
    elim (Bool-cases (is_definitive x)) [
      | inl t ↦
          let code = text_or x.upstream_code "SOAR_REJECTED" in
          rw t (f key _ code _ (λ n. submission_failed key n code (safe_message x)))
      | inr t ↦
          let code = text_or x.upstream_code "SOAR_UNAVAILABLE" in
          rw t (f key _ code _ (λ n. submission_retrying key n code))
    ]
settle-cases P r id (answered x) s h f g =
    let key = submission_key r.show r.tenant_id id in
    elim (Bool-cases (str_eq x.execution_id "")) [
      | inl t ↦
          rw t (
            f key _ "SOAR_NO_EXECUTION_ID" _
              (λ n. submission_retrying key n "SOAR_NO_EXECUTION_ID"))
      | inr t ↦ rw t (after_attach-cases P s (attach_and_mark_submitted r id key x s) h (g key x))
    ]

module _ (r : Run) (p : ResponseProposal) (s : Store) where
  pub settle-IsConsistent :
      (answer : Answer)
      → IsConsistent s
      → IsAuthorized s p
      → IsConsistent (settle_submit r p.id answer s).0
  settle-IsConsistent answer h a =
      settle-cases IsConsistent r p.id answer s h
        (λ key status code message make.
          record_submission-IsConsistent r p s key status code message make h a)
        (λ key x t e. attach-IsConsistent r p s key x t h e)

  pub settle-IsAuthorized :
      (answer : Answer) (q : ResponseProposal)
      → IsConsistent s
      → IsAuthorized s p
      → IsAuthorized s q
      → IsAuthorized (settle_submit r p.id answer s).0 q
  settle-IsAuthorized answer q h a b =
      settle-cases (λ t. IsAuthorized t q) r p.id answer s b
        (λ key status code message make.
          record_submission-IsAuthorized r p s key status code message make q b a)
        (λ key x t e. attach-IsAuthorized r p s key x t q h b e)

  -- A settlement writes no decision, and keeps the contents of the proposal.
  pub settle-decision : (answer : Answer) → (settle_submit r p.id answer s).0.decision ≡ s.decision
  unfolding settle_submit definitive_failure transient_failure after_attach record_submission
      attach_and_mark_submitted attach_reloaded attach_to update_proposal mark_submitted transition
      transitions get_proposal get_execution get_submission
  settle-decision (raised x) = ground arith
  settle-decision (answered x) = ground arith

module _ (r : Run) (id : ℕ) (code : String) (s : Store) where
  pub exhaust-IsConsistent : IsConsistent s → IsConsistent (on_retry_exhausted r id code s)
  unfolding IsConsistent BelongsTo Rows on_retry_exhausted exhaust_from get_submission
  exhaust-IsConsistent h = ground arith

  pub exhaust-IsAuthorized :
      (q : ResponseProposal) → IsAuthorized s q → IsAuthorized (on_retry_exhausted r id code s) q
  unfolding IsAuthorized Approves Decides on_retry_exhausted exhaust_from get_submission
  exhaust-IsAuthorized q h = ground arith

  pub exhaust-decision : (on_retry_exhausted r id code s).decision ≡ s.decision
  unfolding on_retry_exhausted exhaust_from get_submission
  exhaust-decision = ground arith

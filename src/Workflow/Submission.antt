-- ===== src/Workflow/Submission.antt =====
-- The submit delivery and what the exhaustion of its retries means
-- (src/hisiem_soc_copilot/infrastructure/durable/response_runner.py, ResponseSubmitRunner and
-- ResponseSubmitExhaustionHandler). A run reads the rows in one transaction, calls the provider,
-- and writes in a second transaction, so the rows may have changed in between.
pub mod Consistency
use hisiem_soc_copilot.Prelude.{
  ℕ, zero, suc, ◌+◌, ◌*◌, ◌-◌, String, Option, none, some, Bool, true, false, List, [], ◌∷◌, ◌&&◌,
  ◌||◌, ◌==◌, leb, ltb, not, codes, all, is_space, str_eq, Result, ok, err, if◌then◌else◌, is_some,
}
use hisiem_soc_copilot.Shared.{ExternalResourceRef}
use hisiem_soc_copilot.Response.{
  ResponseProposal, ResponseProposalStatus, approved, Parameters, mark_submitted, ProposalError,
}
use hisiem_soc_copilot.Workflow.{
  Store, ResponseSubmission, ResponseSubmissionStatus, retrying, failed_definitive,
  attention_required, ResponseExecutionRef, Entry, ResponseEvent, submission_retrying,
  submission_failed, submission_attention_required, execution_started, execution_submitted,
  execution_succeeded, execution_failed, emit, get_proposal, get_execution, get_submission,
  update_proposal, submission_key, HandlerError, is_terminal,
}
use hisiem_soc_copilot.Workflow as Rows
use hisiem_soc_copilot.Response as Proposals
use hisiem_soc_copilot.Dispatcher.{RunOutcome, finished, non_retryable, run_failed}

pub record SoarExecutionResult : Type 0 where
  pub execution_id : String
  pub status : String
  pub safe_result : Parameters
  pub safe_error_code : Option String
  pub safe_error_message : Option String

pub record ExternalServiceError : Type 0 where
  pub upstream_code : Option String
  pub message : String

-- What a call of the provider gives: a result, or an ExternalServiceError.
pub data Answer : Type 0 where
  answered : SoarExecutionResult → Answer
  raised : ExternalServiceError → Answer

-- `code or default`: an empty text counts as none.
abbrev pub text_or : Option String → String → String
text_or none default = default
text_or (some code) default = if str_eq code "" then default else code

-- `text[:n]`
truncate : ℕ → String → String
truncate zero s = ""
truncate (suc n) String.[] = ""
truncate (suc n) (String.◌∷◌ c s) = String.◌∷◌ c (truncate n s)

unfoldable pub safe_message : ExternalServiceError → String
unfolding truncate
safe_message e = truncate 500 e.message

-- `status in _TERMINAL`
unfoldable pub is_final : String → Bool
is_final status = str_eq status "SUCCEEDED" || str_eq status "FAILED"

abbrev is_digit : ℕ → Bool
is_digit c = leb 48 c && leb c 57

-- The rest of a decimal number whose value so far is `n`: digits, single underscores between
-- them, and white space behind them. `after_digit` says what stands before.
pub digits : ℕ → Bool → List ℕ → Option ℕ
unfolding is_space
digits n after_digit [] = if after_digit then some n else none
digits n after_digit (c ∷ cs) = elim (is_digit c) [
  | true ↦ digits (n * 10 + (c - 48)) true cs
  | false ↦ elim (after_digit && c == 95) [
    | true ↦ digits n false cs
    | false ↦ if after_digit && all is_space (c ∷ cs) then some n else none
  ]
]

-- `int(text)` of ASCII digits, where it is not negative.
parse_int : List ℕ → Option ℕ
unfolding digits is_space
parse_int [] = none
parse_int (c ∷ cs) = elim (is_space c) [
  | true ↦ parse_int cs
  | false ↦ if c == 43 then digits 0 false cs else digits 0 false (c ∷ cs)
]

-- `text.removeprefix(prefix)`, where the text starts with it.
strip_prefix : List ℕ → List ℕ → Option (List ℕ)
strip_prefix [] cs = some cs
strip_prefix (p ∷ ps) [] = none
strip_prefix (p ∷ ps) (c ∷ cs) = elim (p == c) [ true ↦ strip_prefix ps cs | false ↦ none ]

-- A 4xx status but for 408, 425 and 429.
unfoldable is_rejection : ℕ → Bool
is_rejection n = leb 400 n && ltb n 500 && not (n == 408 || n == 425 || n == 429)

http_rejection : Option (List ℕ) → Bool
unfolding parse_int is_rejection
http_rejection none = false
http_rejection (some rest) = elim (parse_int rest) [ none ↦ false | some n ↦ is_rejection n ]

unfoldable pub is_definitive : ExternalServiceError → Bool
unfolding strip_prefix http_rejection
is_definitive e =
    let code = text_or e.upstream_code "" in
    str_eq code "SOAR_NOT_FOUND"
    || str_eq code "SOAR_CONFIGURATION"
    || http_rejection (strip_prefix (codes "HTTP_") (codes code))

-- What a run reads before it calls the provider.
pub record Snapshot : Type 0 where
  pub proposal : Option ResponseProposal
  pub execution : Option ResponseExecutionRef
  pub submission : Option ResponseSubmission

unfoldable pub load : String → ℕ → Store → Snapshot
unfolding get_proposal get_execution get_submission
load tenant id s = record {
  proposal = get_proposal tenant id s;
  execution = get_execution tenant id s;
  submission = get_submission tenant id s;
}

-- What a run does next: nothing, raise NonRetryableRunError, or call the provider.
pub data Plan : Type 0 where
  converged : Plan
  refuse : String → Plan
  call : ResponseProposal → ExternalResourceRef → Plan

unfoldable pub plan_target : ResponseProposal → List ExternalResourceRef → Plan
plan_target p [] = refuse "RESPONSE_NO_TARGET"
plan_target p (t ∷ ts) = call p t

unfoldable pub plan_status : ResponseProposal → ResponseProposalStatus → Plan
unfolding plan_target
plan_status p Proposals.submitted = converged
plan_status p approved = plan_target p p.content.target_refs
plan_status p _ = refuse "RESPONSE_NOT_APPROVED"

-- A submission that the run leaves alone.
abbrev pub is_settled : Option ResponseSubmission → Bool
is_settled none = false
is_settled (some d) = is_terminal d.status

unfoldable pub plan_proposal : Snapshot → Option ResponseProposal → Plan
unfolding plan_status
plan_proposal snapshot none = converged
plan_proposal snapshot (some p) =
    if is_settled snapshot.submission
    then converged
    else if is_some snapshot.execution
    then converged
    else plan_status p p.status

unfoldable pub plan : Snapshot → Plan
unfolding plan_proposal
plan snapshot = plan_proposal snapshot snapshot.proposal

-- The keys, the time and the delay that the writes of a run use.
pub record Run : Type 0 where
  pub show : ℕ → String
  pub tenant_id : String
  pub now : ℕ
  pub observe_delay : ℕ

abbrev pub entry : Run → ℕ → ℕ → Option ℕ → ResponseEvent → Entry
entry r id revision available_at event = record {
  event = event;
  aggregate_id = id;
  tenant_id = r.tenant_id;
  aggregate_revision = revision;
  available_at = available_at;
}

abbrev is_failure : ResponseSubmissionStatus → Bool
is_failure failed_definitive = true
is_failure _ = false

-- The row of a failed attempt in place of the current one. It has no time of attention.
abbrev pub attempted :
    Run
    → ℕ
    → String
    → ResponseSubmissionStatus
    → String
    → String
    → Option ResponseSubmission
    → ResponseSubmission
attempted r id key status code message none = record {
  proposal_id = id;
  submission_key = key;
  status = status;
  attempt_count = 1;
  last_error_code = some code;
  safe_error_message = some message;
  created_at = r.now;
  updated_at = r.now;
  submitted_at = none;
  failed_at = if is_failure status then some r.now else none;
  attention_required_at = none;
}
attempted r id key status code message (some d) = record {
  proposal_id = id;
  submission_key = d.submission_key;
  status = status;
  attempt_count = suc d.attempt_count;
  last_error_code = some code;
  safe_error_message = some message;
  created_at = d.created_at;
  updated_at = r.now;
  submitted_at = d.submitted_at;
  failed_at = if is_failure status then some r.now else d.failed_at;
  attention_required_at = none;
}

-- The insert or the update of the row of a proposal; the update does not touch the key.
abbrev put_submission : ResponseSubmission → Store → Store
put_submission d s = record s { submission = some d }

-- `_record_submission`, with the attempt counted. `make` builds the event from the count.
unfoldable pub record_submission :
    Run
    → ℕ
    → String
    → ResponseSubmissionStatus
    → String
    → String
    → (ℕ → ResponseEvent)
    → Store
    → Store
unfolding get_submission
record_submission r id key status code message make s =
    let d = attempted r id key status code message (get_submission r.tenant_id id s) in
    emit (entry r id 0 none (make d.attempt_count)) (put_submission d s)

-- `_mark_submission_submitted`
abbrev pub settled : Run → ℕ → String → Option ResponseSubmission → ResponseSubmission
settled r id key none = record {
  proposal_id = id;
  submission_key = key;
  status = Rows.submitted;
  attempt_count = 0;
  last_error_code = none;
  safe_error_message = none;
  created_at = r.now;
  updated_at = r.now;
  submitted_at = some r.now;
  failed_at = none;
  attention_required_at = none;
}
settled r id key (some d) = record {
  proposal_id = id;
  submission_key = d.submission_key;
  status = Rows.submitted;
  attempt_count = d.attempt_count;
  last_error_code = none;
  safe_error_message = none;
  created_at = d.created_at;
  updated_at = r.now;
  submitted_at = some r.now;
  failed_at = none;
  attention_required_at = none;
}

-- `dict(facts) or None`
abbrev pub facts_or_none : Parameters → Option Parameters
facts_or_none [] = none
facts_or_none (f ∷ fs) = some (f ∷ fs)

abbrev first_reference : Run → ℕ → String → SoarExecutionResult → ResponseExecutionRef
first_reference r id key answer = record {
  proposal_id = id;
  provider = "hisiem";
  execution_id = answer.execution_id;
  submission_key = key;
  status = answer.status;
  submitted_at = r.now;
  last_observed_at = r.now;
  started_at = some r.now;
  finished_at = if is_final answer.status then some r.now else none;
  safe_result = facts_or_none answer.safe_result;
  safe_error_code = answer.safe_error_code;
  safe_error_message = answer.safe_error_message;
}

unfoldable pub terminal_event : SoarExecutionResult → ResponseEvent
terminal_event answer =
    if str_eq answer.status "SUCCEEDED"
    then execution_succeeded answer.execution_id
    else execution_failed (text_or answer.safe_error_code "SOAR_EXECUTION_FAILED")

-- The last event of the attachment: the end of the execution, or the first observation to make.
last_entry : Run → ℕ → ℕ → SoarExecutionResult → Entry
unfolding is_final terminal_event
last_entry r id revision answer =
    if is_final answer.status
    then entry r id revision none (terminal_event answer)
    else entry r id revision (some (r.now + r.observe_delay))
        (execution_submitted answer.execution_id)

-- A method or a repository that raises leaves the rows as they are.
unfoldable pub attach_to :
    Run → String → SoarExecutionResult → ResponseProposal → Store → Result HandlerError Store
unfolding mark_submitted update_proposal get_submission last_entry is_final
attach_to r key answer p s = elim (mark_submitted answer.execution_id r.now p) [
  | err e ↦ err (Rows.proposal_refused e)
  | ok q ↦
      elim (update_proposal q (record s { execution = some (first_reference r p.id key answer) })) [
        | err e ↦ err e
        | ok u ↦
            let t = put_submission (settled r p.id key (get_submission r.tenant_id p.id u.0)) u.0 in
            ok (
              emit (last_entry r p.id u.1.lock_version answer)
                (emit (entry r p.id u.1.lock_version none execution_started) t))
      ]
]

abbrev is_approved : ResponseProposalStatus → Bool
is_approved approved = true
is_approved _ = false

unfoldable pub attach_reloaded :
    Run
    → String
    → SoarExecutionResult
    → Store
    → Option ResponseProposal
    → Option ResponseExecutionRef
    → Result HandlerError Store
unfolding attach_to
attach_reloaded r key answer s none existing = ok s
attach_reloaded r key answer s (some p) (some existing) = ok s
attach_reloaded r key answer s (some p) none =
    if is_approved p.status then attach_to r key answer p s else ok s

-- `_attach_and_mark_submitted`
unfoldable pub attach_and_mark_submitted :
    Run → ℕ → String → SoarExecutionResult → Store → Result HandlerError Store
unfolding get_proposal get_execution attach_reloaded
attach_and_mark_submitted r id key answer s =
    attach_reloaded r key answer s (get_proposal r.tenant_id id s) (get_execution r.tenant_id id s)

unfoldable pub after_attach : Store → Result HandlerError Store → Store × RunOutcome
after_attach s (ok t) = (t, finished)
after_attach s (err e) = (s, run_failed)

unfoldable pub definitive_failure :
    Run → ℕ → String → ExternalServiceError → Store → Store × RunOutcome
unfolding record_submission safe_message
definitive_failure r id key e s =
    let code = text_or e.upstream_code "SOAR_REJECTED" in
    (
      record_submission r id key failed_definitive code (safe_message e)
          (λ n. submission_failed key n code (safe_message e)) s,
      non_retryable code,
    )

unfoldable pub transient_failure : Run → ℕ → String → String → String → Store → Store × RunOutcome
unfolding record_submission
transient_failure r id key code message s = (
  record_submission r id key retrying code message (λ n. submission_retrying key n code) s,
  run_failed,
)

-- What a run writes when the provider has answered the call for the proposal of id `id`.
unfoldable pub settle_submit : Run → ℕ → Answer → Store → Store × RunOutcome
unfolding is_definitive definitive_failure transient_failure attach_and_mark_submitted after_attach
    submission_key
settle_submit r id (raised e) s =
    let key = submission_key r.show r.tenant_id id in
    if is_definitive e
    then definitive_failure r id key e s
    else transient_failure r id key (text_or e.upstream_code "SOAR_UNAVAILABLE") (safe_message e) s
settle_submit r id (answered answer) s =
    let key = submission_key r.show r.tenant_id id in
    if str_eq answer.execution_id ""
    then transient_failure r id key "SOAR_NO_EXECUTION_ID" "provider returned no execution id" s
    else after_attach s (attach_and_mark_submitted r id key answer s)

unfoldable pub follow_plan :
    Run → (ResponseProposal → ExternalResourceRef → Answer) → Store → Plan → Store × RunOutcome
unfolding settle_submit
follow_plan r provider s converged = (s, finished)
follow_plan r provider s (refuse code) = (s, non_retryable code)
follow_plan r provider s (call p target) = settle_submit r p.id (provider p target) s

-- A whole run on rows that nothing else changes.
unfoldable pub submit :
    Run → ℕ → (ResponseProposal → ExternalResourceRef → Answer) → Store → Store × RunOutcome
unfolding load plan follow_plan
submit r id provider s = follow_plan r provider s (plan (load r.tenant_id id s))

abbrev needing_attention : Run → ResponseSubmission → ResponseSubmission
needing_attention r d = record d {
  status = attention_required;
  updated_at = r.now;
  attention_required_at = some r.now;
}

unfoldable pub exhaust_from : Run → ℕ → String → Store → Option ResponseSubmission → Store
exhaust_from r id code s none = s
exhaust_from r id code s (some d) =
    if is_terminal d.status
    then s
    else emit
        (entry r id 0 none (
          submission_attention_required d.submission_key d.attempt_count
            (text_or d.last_error_code code) d.safe_error_message))
        (put_submission (needing_attention r d) s)

-- `ResponseSubmitExhaustionHandler.on_retry_exhausted`
unfoldable pub on_retry_exhausted : Run → ℕ → String → Store → Store
unfolding get_submission exhaust_from
on_retry_exhausted r id code s = exhaust_from r id code s (get_submission r.tenant_id id s)

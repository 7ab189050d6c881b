-- ===== src/Workflow/Observation.antt =====
-- The observe delivery (src/hisiem_soc_copilot/infrastructure/durable/response_runner.py,
-- ResponseObserveRunner): the rows are read in one transaction, the provider is asked, and the
-- answer is written in a second transaction.
pub mod Consistency
use hisiem_soc_copilot.Prelude.{
  ℕ, zero, suc, ◌+◌, String, Option, none, some, Bool, true, false, str_eq, not, or_else,
  if◌then◌else◌,
}
use hisiem_soc_copilot.Response.{ResponseProposal, ResponseProposalStatus, submitted}
use hisiem_soc_copilot.Workflow.{
  Store, ResponseExecutionRef, ResponseEvent, execution_observed, execution_observation_failed,
  execution_failed, emit, get_proposal, get_execution,
}
use hisiem_soc_copilot.Workflow.Submission.{
  SoarExecutionResult, ExternalServiceError, Answer, answered, raised, text_or, is_final,
  is_definitive, safe_message, terminal_event, Run, entry, facts_or_none,
}
use hisiem_soc_copilot.Dispatcher.{RunOutcome, finished, non_retryable}

-- What a run of the delivery does first: nothing, refuse, or ask about the execution.
pub data Watch : Type 0 where
  idle : Watch
  refuse : String → Watch
  ask : ResponseExecutionRef → Watch

abbrev is_submitted : ResponseProposalStatus → Bool
is_submitted submitted = true
is_submitted _ = false

unfoldable pub watch_rows : Option ResponseProposal → Option ResponseExecutionRef → Watch
unfolding is_final
watch_rows none e = idle
watch_rows (some p) none = idle
watch_rows (some p) (some e) =
    if is_final e.status
    then idle
    else if is_submitted p.status
    then (if str_eq e.execution_id "" then refuse "RESPONSE_NO_EXECUTION_ID" else ask e)
    else idle

unfoldable pub watch : String → ℕ → Store → Watch
unfolding get_proposal get_execution watch_rows
watch tenant id s = watch_rows (get_proposal tenant id s) (get_execution tenant id s)

-- What the checks of one delivery come to.
pub data Finding : Type 0 where
  refused : ExternalServiceError → Finding
  unread : ExternalServiceError → Finding
  ended : SoarExecutionResult → Finding
  in_flight : SoarExecutionResult → Finding

unfoldable pub finding_of : Answer → Finding
unfolding is_definitive is_final
finding_of (raised e) = if is_definitive e then refused e else unread e
finding_of (answered r) = if is_final r.status then ended r else in_flight r

unfoldable pub next_check : Finding → Finding → Finding
next_check (in_flight r) rest = rest
next_check found rest = found

-- The loop over `suc more` checks; `provider n` is the answer to the n-th one from the end.
unfoldable pub check_status : ℕ → (ℕ → Answer) → Finding
unfolding finding_of next_check
check_status zero provider = finding_of (provider zero)
check_status (suc more) provider =
    let rest = check_status more provider in next_check (finding_of (provider (suc more))) rest

-- `_observed_ref`
abbrev pub observed :
    Run
    → ResponseExecutionRef
    → String
    → Option ℕ
    → Option SoarExecutionResult
    → Option String
    → Option String
    → ResponseExecutionRef
observed r e status finished_at none code message = record e {
  status = status;
  last_observed_at = r.now;
  started_at = some (or_else e.started_at e.submitted_at);
  finished_at = finished_at;
  safe_error_code = code;
  safe_error_message = message;
}
  where
    started : Option ℕ → ℕ → ℕ
    started none at = at
    started (some t) at = t
observed r e status finished_at (some result) code message = record e {
  status = status;
  last_observed_at = r.now;
  started_at = some (or_else e.started_at e.submitted_at);
  finished_at = finished_at;
  safe_result = facts_or_none result.safe_result;
  safe_error_code = result.safe_error_code;
  safe_error_message = result.safe_error_message;
}
  where
    started : Option ℕ → ℕ → ℕ
    started none at = at
    started (some t) at = t

abbrev pub put_execution : ResponseExecutionRef → Store → Store
put_execution e s = record s { execution = some e }

-- A row that another delivery has not settled yet.
unfoldable pub is_open : Option ResponseExecutionRef → Bool
unfolding is_final
is_open none = false
is_open (some e) = not (is_final e.status)

-- `_reschedule_observation`: a failed read leaves the row and plans the next observation.
unfoldable pub reschedule_observation : Run → ResponseExecutionRef → String → Store → Store
unfolding get_execution is_open
reschedule_observation r e code s =
    if is_open (get_execution r.tenant_id e.proposal_id s)
    then emit
        (entry r e.proposal_id 0 (some (r.now + r.observe_delay))
          (execution_observation_failed e.execution_id code))
        s
    else s

-- `_settle_nonterminal`
unfoldable pub settle_nonterminal : Run → ResponseExecutionRef → SoarExecutionResult → Store → Store
unfolding get_execution is_open
settle_nonterminal r e result s =
    if is_open (get_execution r.tenant_id e.proposal_id s)
    then emit
        (entry r e.proposal_id 0 (some (r.now + r.observe_delay))
          (execution_observed e.execution_id result.status))
        (put_execution (observed r e result.status none (some result) none none) s)
    else s

-- `_persist_terminal`
unfoldable pub persist_terminal :
    Run → ResponseExecutionRef → ResponseExecutionRef → ResponseEvent → Store → Store
unfolding get_execution is_open
persist_terminal r e settled event s =
    if is_open (get_execution r.tenant_id e.proposal_id s)
    then emit (entry r e.proposal_id 0 none event) (put_execution settled s)
    else s

unfoldable pub settle_terminal : Run → ResponseExecutionRef → SoarExecutionResult → Store → Store
unfolding persist_terminal terminal_event
settle_terminal r e result s =
    persist_terminal r e (observed r e result.status (some r.now) (some result) none none)
      (terminal_event result) s

unfoldable pub settle_terminal_failure :
    Run → ResponseExecutionRef → String → String → Store → Store
unfolding persist_terminal
settle_terminal_failure r e code message s =
    persist_terminal r e (observed r e "FAILED" (some r.now) none (some code) (some message))
      (execution_failed code) s

-- What a run writes for what the checks found of the execution that it read before.
unfoldable pub settle_observe : Run → ResponseExecutionRef → Finding → Store → Store
unfolding settle_terminal_failure reschedule_observation settle_terminal settle_nonterminal
    safe_message
settle_observe r e (refused x) s =
    settle_terminal_failure r e (text_or x.upstream_code "SOAR_REJECTED") (safe_message x) s
settle_observe r e (unread x) s =
    reschedule_observation r e (text_or x.upstream_code "SOAR_UNAVAILABLE") s
settle_observe r e (ended result) s = settle_terminal r e result s
settle_observe r e (in_flight result) s = settle_nonterminal r e result s

unfoldable pub follow_watch : Run → ℕ → (String → ℕ → Answer) → Store → Watch → Store × RunOutcome
unfolding check_status settle_observe
follow_watch r more provider s idle = (s, finished)
follow_watch r more provider s (refuse code) = (s, non_retryable code)
follow_watch r more provider s (ask e) =
    (settle_observe r e (check_status more (provider e.execution_id)) s, finished)

-- A whole run of `suc more` checks at most, on rows that nothing else changes.
unfoldable pub observe : Run → ℕ → ℕ → (String → ℕ → Answer) → Store → Store × RunOutcome
unfolding watch follow_watch
observe r id more provider s = follow_watch r more provider s (watch r.tenant_id id s)

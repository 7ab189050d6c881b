-- ===== src/Commands/Cancel.antt =====
-- The cancellation of an investigation
-- (src/hisiem_soc_copilot/application/handlers/investigation.py `cancel_investigation`,
-- infrastructure/persistence/repositories/investigation.py `update`). Between the read and the
-- update, others may commit.
pub mod Stopped
use hisiem_soc_copilot.Prelude.{
  ℕ, suc, String, Option, none, some, Option-cases, Bool, true, false, Bool-cases, List, [], ◌∷◌,
  ◌++◌, ◌==◌, ◌&&◌, ◌≡◌, refl, sym, ap, ◌∙◌, inl, inr, str_eq, if◌then◌else◌, arith, Result, ok,
  err, or_else, str_eq_iff, str_eq_refl, ==_self, is_some, is_ok,
}
use hisiem_soc_copilot.Shared.{ActorRef}
use hisiem_soc_copilot.Commands.Start.Receipts.{commit_receipt_lem, get_investigation-id}
use hisiem_soc_copilot.Investigation.{
  Investigation, InvestigationError, is_active, cancel, clear_events,
}
use hisiem_soc_copilot.Commands.{
  Receipt, Store, Conflict, get_investigation, given_key, audit_only_key, flushed, commit_receipt,
  find_receipt,
}

pub record CancelInvestigation : Type 0 where
  pub tenant_id : String
  pub investigation_id : ℕ
  pub initiated_by_subject : String
  pub command_id : ℕ
  pub idempotency_key : Option String

pub data CancelError : Type 0 where
  not_found : CancelError
  refused : InvestigationError → CancelError
  optimistic_concurrency : CancelError
  conflict : Conflict → CancelError

-- The columns that an update sets, and the next lock version.
unfoldable pub updated : Investigation → Investigation → Investigation
updated i row = record row {
  status = i.status;
  phase = i.phase;
  current_plan_revision = i.current_plan_revision;
  termination_reason = i.termination_reason;
  revision = i.revision;
  lock_version = suc i.lock_version;
  result_id = i.result_id;
  response_proposal_id = i.response_proposal_id;
  started_at = i.started_at;
  finished_at = i.finished_at;
  cancelled_at = i.cancelled_at;
}

unfoldable pub with_row : Investigation → Option (List Investigation) → Option (List Investigation)
with_row x none = none
with_row x (some xs) = some (x ∷ xs)

-- The row of the id, if it has the lock version that was read.
unfoldable pub update : Investigation → List Investigation → Option (List Investigation)
unfolding updated with_row
update i [] = none
update i (x ∷ xs) =
    let rest = update i xs in
    if x.id == i.id && str_eq x.tenant_id i.tenant_id
    then if x.lock_version == i.lock_version then some (updated i x ∷ xs) else none
    else with_row x rest

unfoldable pub cancel_receipt : (ℕ → String) → CancelInvestigation → Receipt
unfolding given_key audit_only_key
cancel_receipt str c = record {
  tenant_id = c.tenant_id;
  command_type = "CancelInvestigation";
  idempotency_key =
      or_else (given_key c.idempotency_key)
        (audit_only_key str c.investigation_id "CancelInvestigation" c.command_id);
  command_id = c.command_id;
  aggregate_id = some c.investigation_id;
  request_fingerprint = none;
}

module _ (str : ℕ → String) (now : ℕ) (c : CancelInvestigation) (others : Store → Store) where
  unfoldable pub committed :
      Investigation → Store → Result Conflict Store → Store × Result CancelError Investigation
  unfolding clear_events
  committed i s (ok s') = (s', ok (record (clear_events i) { lock_version = suc i.lock_version }))
  committed i s (err e) = (s, err (conflict e))

  unfoldable pub saved :
      Investigation → Store → Option (List Investigation) → Store × Result CancelError Investigation
  unfolding committed commit_receipt cancel_receipt flushed
  saved i s none = (s, err optimistic_concurrency)
  saved i s (some rows) = committed i s (
      commit_receipt (cancel_receipt str c)
        (record s { investigations = rows; ledger = s.ledger ++ flushed i }))

  unfoldable pub cancelled_from :
      Store → Result InvestigationError Investigation → Store × Result CancelError Investigation
  unfolding saved update
  cancelled_from s (err e) = (s, err (refused e))
  cancelled_from s (ok i) = saved i (others s) (update i (others s).investigations)

  -- The actor has no display name here.
  unfoldable pub cancel_found :
      Store → Option Investigation → Store × Result CancelError Investigation
  unfolding cancelled_from cancel is_active
  cancel_found s none = (s, err not_found)
  cancel_found s (some i) =
      if is_active i.status
      then cancelled_from s (
          cancel
            (some (record {
              subject_id = c.initiated_by_subject;
              tenant_id = c.tenant_id;
              display_name = none;
              role_snapshot = none;
            }))
            now i)
      else (s, ok i)

  unfoldable pub cancel_investigation : Store → Store × Result CancelError Investigation
  unfolding cancel_found get_investigation
  cancel_investigation s =
      cancel_found s (get_investigation c.tenant_id c.investigation_id s.investigations)

-- ===== src/Commands/Start.antt =====
-- The start of an alert investigation
-- (src/hisiem_soc_copilot/application/handlers/investigation.py `start_alert_investigation` and
-- the methods that it calls). Each database step is a transaction of its own; `others n` is what
-- other transactions have committed before the n-th of them.
pub mod Receipts
pub mod Binding
pub mod Again
pub mod Indexes
pub mod Uniqueness
use hisiem_soc_copilot.Prelude.{
  ℕ, or_else, String, Option, none, some, Bool, true, false, List, [], ◌∷◌, not, str_eq, opt_str_eq,
  if◌then◌else◌, Result, ok, err,
}
use hisiem_soc_copilot.Shared.{ExternalResourceRef, is_alert, ActorRef, BudgetLimits}
use hisiem_soc_copilot.Investigation.{Investigation, create, clear_events}
use hisiem_soc_copilot.Commands.{
  Receipt, Store, Conflict, active_investigation_exists, command_receipt_conflict,
  get_investigation, find_active, find_receipt, given_key, audit_only_key, commit_receipt,
  commit_new,
}

pub record StartAlertInvestigation : Type 0 where
  pub tenant_id : String
  pub source_alert_ref : ExternalResourceRef
  pub initiated_by_subject : String
  pub initiated_by_display_name : Option String
  pub command_id : ℕ
  pub idempotency_key : Option String

pub data StartError : Type 0 where
  not_an_alert : StartError
  alert_not_found : StartError
  idempotency_conflict : StartError
  -- The three cases of a RuntimeError.
  missing_investigation : StartError
  no_winning_receipt : StartError
  no_winner : StartError

abbrev pub start_type : String
start_type = "StartAlertInvestigation"

-- What does not change during a call: `str` of a UUID, the fingerprint of an alert, the limits, the
-- id and the time of a new investigation, and whether HISIEM finds the alert.
pub record Call : Type 0 where
  pub str_id : ℕ → String
  pub fingerprint : ExternalResourceRef → String
  pub budget_limits : BudgetLimits
  pub new_id : ℕ
  pub now : ℕ
  pub get_alert : String → String → Bool

-- `receipt.request_fingerprint and receipt.request_fingerprint != fingerprint`
unfoldable pub is_other_request : Option String → String → Bool
is_other_request none fingerprint = false
is_other_request (some f) fingerprint = if str_eq f "" then false else not (str_eq f fingerprint)

unfoldable pub start_receipt : Call → StartAlertInvestigation → String → ℕ → Receipt
start_receipt call c key id = record {
  tenant_id = c.tenant_id;
  command_type = start_type;
  idempotency_key = key;
  command_id = c.command_id;
  aggregate_id = some id;
  request_fingerprint = some (call.fingerprint c.source_alert_ref);
}

-- The investigation of a receipt, once the fingerprint is checked.
unfoldable pub receipt_target :
    Call
    → StartAlertInvestigation
    → Option String
    → ℕ
    → Store
    → Result StartError (Option Investigation)
unfolding is_other_request get_investigation
receipt_target call c fingerprint aggregate_id s =
    if is_other_request fingerprint (call.fingerprint c.source_alert_ref)
    then err idempotency_conflict
    else ok (get_investigation c.tenant_id aggregate_id s.investigations)

unfoldable pub found_or : StartError → Option Investigation → Result StartError Investigation
found_or e none = err e
found_or e (some i) = ok i

unfoldable pub required : Result StartError (Option Investigation) → Result StartError Investigation
unfolding found_or
required (ok o) = found_or missing_investigation o
required (err e) = err e

-- A receipt that names an aggregate.
unfoldable pub bound_receipt : Option Receipt → Option (ℕ × Option String)
bound_receipt none = none
bound_receipt (some r) = elim r.aggregate_id [
  | none ↦ none
  | some id ↦ some (id, r.request_fingerprint)
]

unfoldable pub lookup : StartAlertInvestigation → String → Store → Option (ℕ × Option String)
unfolding find_receipt bound_receipt
lookup c key s = bound_receipt (find_receipt c.tenant_id start_type key s.receipts)

unfoldable pub replayed_from :
    Call
    → StartAlertInvestigation
    → Store
    → Option (ℕ × Option String)
    → Result StartError (Option Investigation)
unfolding receipt_target
replayed_from call c s none = ok none
replayed_from call c s (some (id, f)) = receipt_target call c f id s

unfoldable pub find_replayed :
    Call → StartAlertInvestigation → String → Store → Result StartError (Option Investigation)
unfolding replayed_from lookup
find_replayed call c key s = replayed_from call c s (lookup c key s)

unfoldable pub winner_from :
    Call
    → StartAlertInvestigation
    → Store
    → Option (ℕ × Option String)
    → Result StartError Investigation
unfolding required receipt_target
winner_from call c s none = err no_winning_receipt
winner_from call c s (some (id, f)) = required (receipt_target call c f id s)

unfoldable pub resolve_receipt_conflict :
    Call → StartAlertInvestigation → String → Store → Result StartError Investigation
unfolding winner_from lookup
resolve_receipt_conflict call c key s = winner_from call c s (lookup c key s)

module _ (call : Call) (c : StartAlertInvestigation) (others : ℕ → Store → Store) where
  unfoldable pub bound_from :
      String
      → Investigation
      → Store
      → Result Conflict Store
      → Store × Result StartError Investigation
  unfolding resolve_receipt_conflict
  bound_from key i s (ok s') = (s', ok i)
  bound_from key i s (err conflict) = (others 7 s, resolve_receipt_conflict call c key (others 7 s))

  -- The receipt is read first; a concurrent one may be committed before this one.
  unfoldable pub bind_from :
      String
      → Investigation
      → Store
      → Option (ℕ × Option String)
      → Store × Result StartError Investigation
  unfolding required receipt_target bound_from commit_receipt start_receipt
  bind_from key i s (some (id, f)) = (s, required (receipt_target call c f id s))
  bind_from key i s none =
      bound_from key i (others 6 s) (commit_receipt (start_receipt call c key i.id) (others 6 s))

  unfoldable pub bind_key :
      Option String → Investigation → Store → Store × Result StartError Investigation
  unfolding bind_from lookup
  bind_key none i s = (s, ok i)
  bind_key (some key) i s = bind_from key i (others 5 s) (lookup c key (others 5 s))

  unfoldable pub bind_or_replay_existing :
      Investigation → Store → Store × Result StartError Investigation
  unfolding bind_key given_key
  bind_or_replay_existing i s = bind_key (given_key c.idempotency_key) i s

  unfoldable pub read_active_or_raise :
      Option Investigation → Store → Store × Result StartError Investigation
  unfolding bind_or_replay_existing
  read_active_or_raise none s = (s, err no_winner)
  read_active_or_raise (some winner) s = bind_or_replay_existing winner s

  -- A conflict on a receipt is resolved by the key of the command, which is there.
  unfoldable pub after_conflict : Conflict → Store → Store × Result StartError Investigation
  unfolding read_active_or_raise find_active resolve_receipt_conflict
  after_conflict active_investigation_exists s =
      read_active_or_raise (find_active c.tenant_id c.source_alert_ref s.investigations) s
  after_conflict command_receipt_conflict s =
      (s, resolve_receipt_conflict call c (or_else c.idempotency_key "") s)

  unfoldable pub new_investigation : Investigation
  unfolding create
  new_investigation =
      create call.new_id c.tenant_id c.source_alert_ref
        (record {
          subject_id = c.initiated_by_subject;
          tenant_id = c.tenant_id;
          display_name = c.initiated_by_display_name;
          role_snapshot = none;
        })
        call.budget_limits (some call.now) call.now

  unfoldable pub receipt_key : Option String → String
  unfolding audit_only_key
  receipt_key (some key) = key
  receipt_key none = audit_only_key call.str_id call.new_id start_type c.command_id

  unfoldable pub created_from :
      Store → Result Conflict Store → Store × Result StartError Investigation
  unfolding after_conflict new_investigation clear_events
  created_from s (ok s') = (s', ok (clear_events new_investigation))
  created_from s (err conflict) = after_conflict conflict (others 4 s)

  unfoldable pub create_investigation : Store → Store × Result StartError Investigation
  unfolding created_from commit_new new_investigation start_receipt receipt_key given_key
  create_investigation s = created_from s (
      commit_new new_investigation
        (start_receipt call c (receipt_key (given_key c.idempotency_key)) call.new_id) s)

  -- The second look for an active investigation, after the alert was read.
  unfoldable pub recheck : Option Investigation → Store → Store × Result StartError Investigation
  unfolding bind_or_replay_existing create_investigation
  recheck (some i) s = bind_or_replay_existing i s
  recheck none s = create_investigation (others 3 s)

  unfoldable pub hydrate : Bool → Store → Store × Result StartError Investigation
  unfolding recheck find_active
  hydrate false s = (s, err alert_not_found)
  hydrate true s =
      recheck (find_active c.tenant_id c.source_alert_ref (others 2 s).investigations) (others 2 s)

  unfoldable pub with_active :
      Option Investigation → Store → Store × Result StartError Investigation
  unfolding bind_or_replay_existing hydrate
  with_active (some i) s = bind_or_replay_existing i s
  with_active none s = hydrate (call.get_alert c.tenant_id c.source_alert_ref.address_id) s

  unfoldable pub look_for_active : Store → Store × Result StartError Investigation
  unfolding with_active find_active
  look_for_active s = with_active (find_active c.tenant_id c.source_alert_ref s.investigations) s

  unfoldable pub after_replay :
      Store → Result StartError (Option Investigation) → Store × Result StartError Investigation
  unfolding look_for_active
  after_replay s (err e) = (s, err e)
  after_replay s (ok (some i)) = (s, ok i)
  after_replay s (ok none) = look_for_active (others 1 s)

  unfoldable pub start_with : Option String → Store → Store × Result StartError Investigation
  unfolding after_replay find_replayed look_for_active
  start_with (some key) s = after_replay (others 0 s) (find_replayed call c key (others 0 s))
  start_with none s = look_for_active (others 1 s)

  unfoldable pub start_alert_investigation : Store → Store × Result StartError Investigation
  unfolding start_with given_key is_alert
  start_alert_investigation s =
      if not (is_alert c.source_alert_ref)
      then (s, err not_an_alert)
      else start_with (given_key c.idempotency_key) s

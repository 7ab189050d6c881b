-- ===== src/Commands/Examples.antt =====
-- A start that loses a race and is sent again, and the theorems at it.
use hisiem_soc_copilot.Prelude.{
  ℕ, String, none, some, Bool, true, false, [], ◌∷◌, ◌≡◌, refl, ◌==◌, if◌then◌else◌, arith, Result,
  ok, err, ◌>>=◌, is_ok,
}
use hisiem_soc_copilot.Shared.{ExternalResourceRef, ActorRef, is_alert, default_limits}
use hisiem_soc_copilot.Investigation.{Investigation, create, clear_events}
use hisiem_soc_copilot.Commands.{Store, get_investigation, given_key, find_receipt}
use hisiem_soc_copilot.Commands.Start.{StartAlertInvestigation, Call, start_alert_investigation}
use hisiem_soc_copilot.Commands.Start.Receipts.{Grows}
use hisiem_soc_copilot.Commands.Start.Again.{start_again}
use hisiem_soc_copilot.Commands.Start.Indexes.{IsUnique}
use hisiem_soc_copilot.Commands.Start.Uniqueness.{start-IsUnique}
use hisiem_soc_copilot.Commands.Cancel.{CancelInvestigation, cancel_investigation}
use hisiem_soc_copilot.Commands.Cancel.Stopped.{IsStopped, cancel_investigation_returns}
use hisiem_soc_copilot.Commands.Idempotent.{
  IdempotentCommand, raised_from, run_idempotent_command, run_idempotent_command_again,
}

abbrev alert : ExternalResourceRef
alert = record {
  provider = "hisiem";
  resource_type = "alert";
  address_id = "a-1";
  business_id = none;
}

abbrev actor : ActorRef
actor = record { subject_id = "u"; tenant_id = "t"; display_name = none; role_snapshot = none }

-- The investigation that another request starts meanwhile.
unfoldable rival : Investigation
unfolding create clear_events
rival = clear_events (create 5 "t" alert actor default_limits (some 10) 10)

abbrev call : Call
call = record {
  str_id = λ n. "id";
  fingerprint = λ r. r.address_id;
  budget_limits = default_limits;
  new_id = 6;
  now = 20;
  get_alert = λ tenant address. true;
}

abbrev retry : Call
retry = record call { new_id = 7; now = 30 }

abbrev request : StartAlertInvestigation
request = record {
  tenant_id = "t";
  source_alert_ref = alert;
  initiated_by_subject = "u";
  initiated_by_display_name = none;
  command_id = 1;
  idempotency_key = some "k";
}

abbrev nothing_stored : Store
nothing_stored = record { investigations = []; receipts = []; ledger = [] }

abbrev add_rival : Bool → Store → Store
add_rival b s = if b then record s { investigations = rival ∷ s.investigations } else s

-- The rival commits while the alert is read.
abbrev meanwhile : ℕ → Store → Store
meanwhile n s = add_rival (n == 2) s

abbrev alone : ℕ → Store → Store
alone n s = s

add_rival-Grows : (b : Bool) (s : Store) → Grows s (add_rival b s)
unfolding get_investigation
add_rival-Grows true s = record {
  receipts_kept = λ t ty k r e. e;
  investigations_kept = λ t id h. ground arith;
}
add_rival-Grows false s = record {
  receipts_kept = λ t ty k r e. e;
  investigations_kept = λ t id h. h;
}

first_ok : (start_alert_investigation call request meanwhile nothing_stored).1 ≡ ok rival
unfolding start_alert_investigation rival
first_ok = refl

start_again_example :
    ((start_alert_investigation retry request alone
        (start_alert_investigation call request meanwhile nothing_stored).0).0
      ≡ (start_alert_investigation call request meanwhile nothing_stored).0)
    × ((j : Investigation) × ((start_alert_investigation retry request alone
            (start_alert_investigation call request meanwhile nothing_stored).0).1
          ≡ ok j)
        × (j.id ≡ rival.id))
start_again_example =
    start_again call retry request request meanwhile alone "k" rival nothing_stored
      (start_alert_investigation call request meanwhile nothing_stored).0
      (λ n s. add_rival-Grows (n == 2) s) (λ n s. add_rival-Grows false s)
      (unfold given_key in refl) (unfold given_key in refl) (refl, refl) (unfold is_alert in refl)
      first_ok
      (add_rival-Grows false (start_alert_investigation call request meanwhile nothing_stored).0)

nothing-IsUnique : IsUnique nothing_stored
nothing-IsUnique = record { active = λ t p y a. omega arith; receipts = λ t ty k. omega arith }

start-IsUnique_example : IsUnique (start_alert_investigation call request alone nothing_stored).0
start-IsUnique_example =
    start-IsUnique call request alone (λ n s u. u) nothing_stored nothing-IsUnique

abbrev assess : IdempotentCommand
assess = record {
  tenant_id = "t";
  investigation_id = 5;
  command_type = "AssessHypothesis";
  command_id = 1;
  idempotency_key = some "step-3";
}

abbrev with_rival : Store
with_rival = add_rival true nothing_stored

abbrev body : Investigation → Store → Result String (ℕ × Investigation × Store)
body i s = ok (40, i, s)

abbrev again : Investigation → Store → Result String ℕ
again i s = ok 41

unfoldable assessed : ℕ × Store
unfolding run_idempotent_command rival
assessed = elim (run_idempotent_command (λ n. "id") assess body again with_rival) [
  | ok r ↦ r
  | err e ↦ (0, nothing_stored)
]

assessed_ok : run_idempotent_command (λ n. "id") assess body again with_rival ≡ ok assessed
unfolding run_idempotent_command rival assessed
assessed_ok = refl

rival_found : get_investigation "t" 5 assessed.1.investigations ≡ some rival
unfolding assessed run_idempotent_command rival get_investigation
rival_found = refl

run_idempotent_command_again_example :
    run_idempotent_command (λ n. "id") assess body again assessed.1
    ≡ raised_from (again rival assessed.1 >>= λ t. ok (t, assessed.1))
run_idempotent_command_again_example =
    run_idempotent_command_again (λ n. "id") assess assess body body again again "step-3" with_rival
      assessed.1 assessed rival assessed_ok (add_rival-Grows false assessed.1) refl refl
      (unfold given_key in refl) (unfold given_key in refl) rival_found

abbrev one_running : Store
one_running = record { investigations = rival ∷ []; receipts = []; ledger = [] }

abbrev stop_it : CancelInvestigation
stop_it = record {
  tenant_id = "t";
  investigation_id = 5;
  initiated_by_subject = "u";
  command_id = 9;
  idempotency_key = none;
}

cancel_investigation_returns_example :
    (is_ok (cancel_investigation (λ n. "id") 40 stop_it (λ s. s) one_running).1 ≡ true)
    × IsStopped stop_it (cancel_investigation (λ n. "id") 40 stop_it (λ s. s) one_running)
cancel_investigation_returns_example =
    cancel_investigation_returns (λ n. "id") 40 stop_it (λ s. s) one_running rival
      (unfold get_investigation rival create clear_events in refl)
      (unfold get_investigation rival create clear_events in refl) (unfold find_receipt in refl)

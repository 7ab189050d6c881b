-- ===== src/Dispatcher/Examples.antt =====
-- Rounds of the dispatcher, and its theorems at a concrete delivery.
use hisiem_soc_copilot.Prelude.{
  ℕ, suc, ◌+◌, ◌*◌, ◌≤◌, ◌≡◌, ◌↔◌, refl, none, some, true, [], ◌∷◌, arith,
}
use hisiem_soc_copilot.Shared.{seconds}
use hisiem_soc_copilot.Outbox.{
  Table, find_row, OutboxRow, OutboxRecord, pending, dead_letter, processing,
}
use hisiem_soc_copilot.Dispatcher.{
  Environment, unreadable, target, run_failed, finished, dead_letter_as, settlement,
  max_backoff_seconds,
}
use hisiem_soc_copilot.Dispatcher.Settlements.{DeadLetters, dead_letter_iff}
use hisiem_soc_copilot.Outbox.Claims.{Sized}
use hisiem_soc_copilot.Dispatcher.Retries.{
  IsOpen, OpenAfter, Schedule, rounds, unreadable_never_dead, budget_of_ten,
}

abbrev failing_env : Environment
failing_env = record {
  destination = "response.execution.submit";
  resolve = λ _. target "acme" "42";
  run = λ _ _. run_failed;
  on_retry_exhausted = some (λ _ _ _. true);
}

abbrev lost_env : Environment
lost_env = record {
  destination = "response.execution.submit";
  resolve = λ _. unreadable;
  run = λ _ _. finished;
  on_retry_exhausted = none;
}

abbrev delivery : OutboxRow
delivery = record {
  id = 1;
  event_id = 9;
  destination = "response.execution.submit";
  status = pending;
  attempt_count = 0;
  available_at = 0;
  created_at = 0;
  locked_at = none;
  locked_by = none;
  lease_token = none;
  published_at = none;
  last_error_code = none;
}

-- An older delivery of the same destination.
abbrev older : OutboxRow
older = record delivery { id = 2; event_id = 8 }

abbrev queue : Table
queue = older ∷ delivery ∷ []

-- Every five minutes; a run takes 30 seconds, in which its lease is renewed once.
abbrev plan : Schedule
plan = record {
  clock = λ n. n * 300000000;
  draw = λ n id. record { now = n * 300000000; token = n };
  during = λ n id. (n * 300000000 + 20000000) ∷ [];
  after = λ n id. n * 300000000 + 30000000;
}

spaced : (n : ℕ) → plan.after n 1 + seconds max_backoff_seconds ≤ plan.clock (suc n)
spaced n = omega arith

queue-Sized : Sized 2 queue
queue-Sized = ((unfold find_row in refl, (unfold find_row in refl, tt)), refl)

queue_has : find_row 1 queue ≡ some delivery
queue_has = unfold find_row in refl

fails-IsOpen : IsOpen failing_env 0 delivery
fails-IsOpen = record { waiting = refl; due = omega arith; here = refl }

lost-IsOpen : IsOpen lost_env 0 delivery
lost-IsOpen = record { waiting = refl; due = omega arith; here = refl }

unreadable_never_dead_example :
    OpenAfter lost_env (plan.clock 50) 50 delivery (rounds lost_env "w" 7 plan 50 queue)
unreadable_never_dead_example =
    unreadable_never_dead lost_env "w" 7 plan delivery 2 (omega arith) spaced queue queue-Sized
      queue_has 50 lost-IsOpen refl refl

budget_of_ten_example :
    ((k : ℕ)
      → k ≤ 9
      → OpenAfter failing_env (plan.clock k) k delivery (rounds failing_env "w" 7 plan k queue))
    × ((q : OutboxRow) × (find_row 1 (rounds failing_env "w" 7 plan 10 queue) ≡ some q)
        × (q.status ≡ dead_letter)
        × (q.attempt_count ≡ 10)
        × (q.last_error_code ≡ some "RUN_FAILED"))
budget_of_ten_example =
    budget_of_ten failing_env "w" 7 plan delivery 2 (omega arith) spaced queue queue-Sized queue_has
      "acme" "42" fails-IsOpen refl refl refl refl

abbrev handed : OutboxRecord
handed = record {
  id = 1;
  event_id = 9;
  destination = "response.execution.submit";
  status = processing;
  attempt_count = 10;
  available_at = 0;
  lease_token = 5;
  locked_at = 0;
  locked_by = "w";
}

dead_letter_iff_example :
    (settlement failing_env handed ≡ dead_letter_as "RUN_FAILED")
    ↔ DeadLetters failing_env handed "RUN_FAILED"
dead_letter_iff_example = dead_letter_iff failing_env handed "RUN_FAILED"

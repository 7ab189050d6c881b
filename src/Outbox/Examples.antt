-- ===== src/Outbox/Examples.antt =====
-- Runs of the outbox, and its theorems at concrete tables.
use hisiem_soc_copilot.Prelude.{
  ℕ, ◌+◌, ◌≡◌, ◌⊎◌, refl, inl, none, some, true, false, List, [], ◌∷◌, arith, All, In, length,
}
use hisiem_soc_copilot.Outbox.{
  OutboxRow, Table, Draw, pending, processing, published, find_row, is_due, select_ready,
  claim_batch,
}
use hisiem_soc_copilot.Outbox.Actions.{
  Action, claiming, renewing, publishing, dead_lettering, appending, act, trace,
}
use hisiem_soc_copilot.Outbox.Rows.{Distinct}
use hisiem_soc_copilot.Outbox.Fencing.{settled_forever}
use hisiem_soc_copilot.Outbox.Races.{takeover, single_winner}
use hisiem_soc_copilot.Outbox.Selection.{CrowdedOut, select_ready_oldest}
use hisiem_soc_copilot.Outbox.Batches.{Backs, claim_batch-Backs}
use hisiem_soc_copilot.Outbox.Invariant.{IsValid, trace-IsValid}

abbrev waiting_row : ℕ → ℕ → OutboxRow
waiting_row id created_at = record {
  id = id;
  event_id = id + 100;
  destination = "investigation.graph.run";
  status = pending;
  attempt_count = 0;
  available_at = created_at;
  created_at = created_at;
  locked_at = none;
  locked_by = none;
  lease_token = none;
  published_at = none;
  last_error_code = none;
}

-- A row that a crashed worker left leased since the time 5.
abbrev stale_row : OutboxRow
stale_row = record {
  id = 2;
  event_id = 102;
  destination = "investigation.graph.run";
  status = processing;
  attempt_count = 1;
  available_at = 3;
  created_at = 3;
  locked_at = some 5;
  locked_by = some "worker-a";
  lease_token = some 70;
  published_at = none;
  last_error_code = none;
}

abbrev two_rows : Table
two_rows = waiting_row 1 10 ∷ stale_row ∷ []

abbrev draw : Draw
draw = record { now = 90000000; token = 71 }

abbrev later : Draw
later = record { now = 90000001; token = 72 }

two_rows-Distinct : Distinct two_rows
unfolding find_row
two_rows-Distinct = (refl, (refl, tt))

two_rows-IsValid : All IsValid two_rows
two_rows-IsValid = (ground arith, (ground arith, tt))

-- The expired lease is the older row, and is claimed first.
claims_both : length (claim_batch "worker-b" 8 90000000 60 none (λ _. draw) two_rows).1 ≡ 2
unfolding claim_batch
claims_both = refl

abbrev taken : Table
taken = (act (claiming "worker-b" draw stale_row) two_rows).0

took_over : (act (claiming "worker-b" draw stale_row) two_rows).1 ≡ true
unfolding act
took_over = refl

takeover_example : act (publishing 2 70 90000005) taken ≡ (taken, false)
takeover_example =
    takeover "worker-b" draw stale_row two_rows (publishing 2 70 90000005) 70 two_rows-Distinct
      took_over refl (omega arith)

single_winner_example : act (claiming "worker-c" later stale_row) taken ≡ (taken, false)
unfolding is_due
single_winner_example =
    single_winner "worker-b" "worker-c" draw later stale_row two_rows 90000000 60 two_rows-Distinct
      refl (omega arith) (omega arith) took_over

abbrev renewed_table : Table
renewed_table = (act (renewing 2 70 35) two_rows).0

abbrev done : Table
done = trace (publishing 2 70 40 ∷ []) two_rows

abbrev attempts_to_change : List Action
attempts_to_change =
    claiming "worker-b" draw stale_row
    ∷ dead_lettering 2 70 "X"
    ∷ appending "investigation_created" 2 500 none 41
    ∷ []

abbrev done_row : OutboxRow
done_row = record {
  id = 2;
  event_id = 102;
  destination = "investigation.graph.run";
  status = published;
  attempt_count = 1;
  available_at = 3;
  created_at = 3;
  locked_at = none;
  locked_by = none;
  lease_token = none;
  published_at = some 40;
  last_error_code = none;
}

settled_forever_example : find_row 2 (trace attempts_to_change done) ≡ some done_row
unfolding find_row trace
settled_forever_example = settled_forever attempts_to_change 2 done done_row refl refl

trace-IsValid_example :
    Distinct (trace attempts_to_change two_rows) × All IsValid (trace attempts_to_change two_rows)
trace-IsValid_example = trace-IsValid attempts_to_change two_rows two_rows-Distinct two_rows-IsValid

select_ready_oldest_example :
    In (waiting_row 1 10) (select_ready 1 90000000 60 none two_rows)
    ⊎ CrowdedOut 1 (waiting_row 1 10) (select_ready 1 90000000 60 none two_rows)
unfolding is_due
select_ready_oldest_example =
    select_ready_oldest 1 90000000 60 none two_rows (waiting_row 1 10) (inl refl) refl

claim_batch-Backs_example :
    All
      (Backs (claim_batch "worker-b" 8 90000000 60 none (λ _. draw) two_rows).0)
      (claim_batch "worker-b" 8 90000000 60 none (λ _. draw) two_rows).1
claim_batch-Backs_example =
    claim_batch-Backs "worker-b" 8 90000000 60 none (λ _. draw) two_rows two_rows-Distinct

-- ===== src/Dispatcher/Retries.antt =====
-- The life of one delivery under one worker: the retry budget and the retries that spend none. The
-- table may hold any other rows, as long as a batch has room for all of them; no other worker
-- claims, and nothing is appended between the rounds.
use hisiem_soc_copilot.Prelude.{
  ℕ, suc, zero, ◌+◌, ◌≤◌, ◌<◌, ◌≡◌, refl, ap, ◌∙◌, String, some, true, List, arith, str_eq,
}
use hisiem_soc_copilot.Shared.{seconds}
use hisiem_soc_copilot.Outbox.{
  OutboxRow, OutboxRecord, Table, Draw, dead_letter, is_waiting, is_due, find_row, take_lease,
  record_of, as_dead,
}
use hisiem_soc_copilot.Outbox.Claims.{Sized}
use hisiem_soc_copilot.Dispatcher.Settlements.{
  failed_retries, HookWrote, backoff_bounds, unreadable_retries, dead_letter_iff, budget_spent,
}
use hisiem_soc_copilot.Dispatcher.Rounds.{settled, round_settles}
use hisiem_soc_copilot.Dispatcher.{
  Environment, unreadable, target, run_failed, retry_later, settlement, drain_once,
  lease_timeout_seconds, max_backoff_seconds,
}

-- A row that a claim at the time `now` may take, for the destination of the worker.
pub record IsOpen (env : Environment) (now : ℕ) (r : OutboxRow) : Type 0 where
  pub waiting : is_waiting r.status ≡ true
  pub due : r.available_at ≤ now
  pub here : str_eq r.destination env.destination ≡ true

-- A delivery after `n` rounds: still open at the time `now`, claimed `n` times.
pub record OpenAfter (env : Environment) (now n : ℕ) (r : OutboxRow) (t : Table) : Type 0 where
  pub row : OutboxRow
  pub found : find_row r.id t ≡ some row
  pub same_id : row.id ≡ r.id
  pub open_row : IsOpen env now row
  pub attempts : row.attempt_count ≡ n
  pub event : row.event_id ≡ r.event_id

-- The rounds of a worker: `clock n` is the time of the n-th, and the others give, for the n-th round
-- and an id, the time and token of the claim, the renewals, and the time of the settlement.
pub record Schedule : Type 0 where
  pub clock : ℕ → ℕ
  pub draw : ℕ → ℕ → Draw
  pub during : ℕ → ℕ → List ℕ
  pub after : ℕ → ℕ → ℕ

module _ (env : Environment) (worker : String) (batch_size : ℕ) (plan : Schedule) where
  pub rounds : ℕ → Table → Table
  rounds zero t = t
  rounds (suc n) t =
      (drain_once env worker batch_size (plan.clock n) (plan.draw n) (plan.during n) (plan.after n)
        (rounds n t)).0

  claimed : ℕ → OutboxRow → OutboxRecord
  claimed n row = record_of worker (plan.draw n row.id) row

  leased : ℕ → OutboxRow → OutboxRow
  leased n row = take_lease worker (plan.draw n row.id) row row

  module _ (r : OutboxRow) (m : ℕ) (room : m ≤ batch_size)
      (spaced : (n : ℕ)
        → plan.after n r.id + seconds max_backoff_seconds ≤ plan.clock (suc n)) where
    round_open :
        (n k : ℕ) (t : Table) (o : OpenAfter env (plan.clock n) k r t)
        → Sized m t
        → (let u =
              (drain_once env worker batch_size
                (plan.clock n)
                (plan.draw n)
                (plan.during n)
                (plan.after n)
                t).0 in
            (find_row r.id u
              ≡ some (
                  settled
                    (settlement env (claimed n o.row))
                    (claimed n o.row)
                    (plan.after n r.id)
                    (leased n o.row)))
            × Sized m u)
    unfolding claimed leased
    round_open n k t o z = rw⁻¹ o.same_id (
        round_settles env (plan.during n) (plan.after n) worker batch_size (plan.clock n)
          (plan.draw n) o.row m t room z (ap (λ j. find_row j t) o.same_id ∙ o.found)
          o.open_row.waiting due o.open_row.here)
      where
        due : is_due (plan.clock n) lease_timeout_seconds o.row ≡ true
        due = unfold is_due in ground (arith, o.open_row.waiting, o.open_row.due)

    round_retry :
        (n : ℕ) (code : String) (t : Table) (o : OpenAfter env (plan.clock n) n r t)
        → Sized m t
        → settlement env (claimed n o.row) ≡ retry_later code
        → (let u =
              (drain_once env worker batch_size
                (plan.clock n)
                (plan.draw n)
                (plan.during n)
                (plan.after n)
                t).0 in
            OpenAfter env (plan.clock (suc n)) (suc n) r u × Sized m u)
    unfolding leased claimed
    round_retry n code t o z h =
        let step = round_open n n t o z in
        let again =
          settled (retry_later code) (claimed n o.row) (plan.after n r.id) (leased n o.row) in
        (
          record {
            row = again;
            found =
                step.0
                ∙ ap some (
                    ap (λ st. settled st (claimed n o.row) (plan.after n r.id) (leased n o.row)) h);
            same_id = o.same_id;
            open_row = record {
              waiting = refl;
              due = omega (
                arith,
                spaced n,
                backoff_bounds (o.row.attempt_count + 1) (o.row.attempt_count + 1) (omega arith),
              );
              here = o.open_row.here;
            };
            attempts = omega (arith, o.attempts);
            event = o.event;
          },
          step.1,
        )

    module _ (t : Table) (z : Sized m t) (present : find_row r.id t ≡ some r) where
      -- The rounds go on as long as each settlement is a retry.
      rounds_retry :
          (code : String) (k : ℕ)
          → IsOpen env (plan.clock 0) r
          → r.attempt_count ≡ 0
          → ((n : ℕ) (x : OutboxRecord)
              → n < k
              → x.attempt_count ≡ n + 1
              → x.event_id ≡ r.event_id
              → str_eq x.destination env.destination ≡ true
              → settlement env x ≡ retry_later code)
          → OpenAfter env (plan.clock k) k r (rounds k t) × Sized m (rounds k t)
      unfolding rounds claimed
      rounds_retry code zero o a again = (
        record {
          row = r;
          found = present;
          same_id = refl;
          open_row = o;
          attempts = a;
          event = refl;
        },
        z,
      )
      rounds_retry code (suc k) o a again =
          let before = rounds_retry code k o a (λ n x lt. again n x (omega arith)) in
          let row = before.0.row in
          round_retry k code (rounds k t) before.0 before.1 (
            again k (claimed k row) (omega arith) (omega (arith, before.0.attempts)) before.0.event
              before.0.open_row.here)

      -- In a table with any other rows, when a batch has room for every row of the table, no two
      -- rows share an id, nothing but this worker changes the table, and each round is at least
      -- the longest backoff after the settlement of the delivery in the round before: a new
      -- delivery that is due at the first round and whose event cannot be read is still open, with
      -- one attempt for each round, after any number of rounds, whatever the renewals.
      pub unreadable_never_dead :
          (k : ℕ)
          → IsOpen env (plan.clock 0) r
          → r.attempt_count ≡ 0
          → env.resolve r.event_id ≡ unreadable
          → OpenAfter env (plan.clock k) k r (rounds k t)
      unreadable_never_dead k o a lost =
          (rounds_retry "RESOLVE_ERROR" k o a
            λ n x lt c e d. unreadable_retries env x d (rw e lost)).0

      module _ (tenant aggregate : String) (o : IsOpen env (plan.clock 0) r)
          (a : r.attempt_count ≡ 0) (at : env.resolve r.event_id ≡ target tenant aggregate)
          (fails : env.run aggregate tenant ≡ run_failed) where
        while_budget :
            (k : ℕ) → k ≤ 9 → OpenAfter env (plan.clock k) k r (rounds k t) × Sized m (rounds k t)
        while_budget k le = rounds_retry "RUN_FAILED" k o a λ n x lt c e d.
            failed_retries env x tenant aggregate d (rw e at) fails (omega (arith, c, lt))

        tenth :
            OpenAfter env (plan.clock 9) 9 r (rounds 9 t) × Sized m (rounds 9 t)
            → HookWrote env.on_retry_exhausted aggregate tenant "RUN_FAILED"
            → (q : OutboxRow) × (find_row r.id (rounds 10 t) ≡ some q)
              × (q.status ≡ dead_letter)
              × (q.attempt_count ≡ 10)
              × (q.last_error_code ≡ some "RUN_FAILED")
        unfolding rounds claimed leased
        tenth b wrote =
            let row = b.0.row in
            let k = claimed 9 row in
            let dead = (dead_letter_iff env k "RUN_FAILED").1 (
              budget_spent tenant aggregate b.0.open_row.here (rw b.0.event at) fails
                (omega (arith, b.0.attempts)) wrote refl) in
            (
              as_dead "RUN_FAILED" (leased 9 row),
              (round_open 9 9 (rounds 9 t) b.0 b.1).0
                  ∙ ap some (ap (λ st. settled st k (plan.after 9 r.id) (leased 9 row)) dead),
              refl,
              omega (arith, b.0.attempts),
              refl,
            )

        -- In a table with any other rows, when a batch has room for every row of the table, no two
        -- rows share an id, nothing but this worker changes the table, and each round is at least
        -- the longest backoff after the settlement of the delivery in the round before: a new
        -- delivery that is due at the first round, whose run fails each time, at a destination
        -- whose exhaustion hook returns or that has none, is still open after each of the first
        -- nine rounds, and the tenth dead-letters it with ten attempts, whatever the renewals and
        -- however long the runs take.
        pub budget_of_ten :
            HookWrote env.on_retry_exhausted aggregate tenant "RUN_FAILED"
            → ((k : ℕ) → k ≤ 9 → OpenAfter env (plan.clock k) k r (rounds k t))
              × ((q : OutboxRow) × (find_row r.id (rounds 10 t) ≡ some q)
                  × (q.status ≡ dead_letter)
                  × (q.attempt_count ≡ 10)
                  × (q.last_error_code ≡ some "RUN_FAILED"))
        budget_of_ten wrote =
            (λ k le. (while_budget k le).0, tenth (while_budget 9 (omega arith)) wrote)

-- ===== src/Dispatcher.antt =====
-- The outbox dispatcher (src/hisiem_soc_copilot/infrastructure/durable/dispatcher.py). What it calls
-- (the resolver, the runner and the exhaustion hook of its destination) is an `Environment`.
pub mod Settlements
pub mod Rounds
pub mod Retries
mod Examples
use hisiem_soc_copilot.Prelude.{
  ℕ, ◌+◌, ◌^◌, String, Option, none, some, Bool, true, false, List, [], ◌∷◌, ltb, str_eq, min,
  if◌then◌else◌, length, not,
}
use hisiem_soc_copilot.Shared.{seconds}
use hisiem_soc_copilot.Outbox.{
  OutboxRecord, Table, Draw, claim_batch, renew_lease, mark_published, mark_failed,
  mark_dead_letter,
}

-- `Resolver.resolve`: it raises, finds no event, or names the tenant and the aggregate.
pub data Resolution : Type 0 where
  unreadable gone : Resolution
  target : String → String → Resolution

-- `OutboxRunner.run`: it returns, raises NonRetryableRunError with a code, or another error.
pub data RunOutcome : Type 0 where
  finished : RunOutcome
  non_retryable : String → RunOutcome
  run_failed : RunOutcome

pub record Environment : Type 0 where
  pub destination : String
  pub resolve : ℕ → Resolution
  pub run : String → String → RunOutcome
  -- `on_retry_exhausted` of the aggregate, tenant and code: whether it returns; `none` without one.
  pub on_retry_exhausted : Option (String → String → String → Bool)

abbrev pub max_attempts : ℕ
max_attempts = 10

abbrev pub lease_timeout_seconds : ℕ
lease_timeout_seconds = 60

abbrev pub max_backoff_seconds : ℕ
max_backoff_seconds = 120

unfoldable pub backoff_seconds : ℕ → ℕ
backoff_seconds attempt_count = min (2 ^ attempt_count) max_backoff_seconds

-- The statement by which a delivery is settled.
pub data Settlement : Type 0 where
  publish : Settlement
  retry_later : String → Settlement
  dead_letter_as : String → Settlement

exhausted : Option (String → String → String → Bool) → String → String → String → Settlement
exhausted none code tenant aggregate = dead_letter_as code
exhausted (some hook) code tenant aggregate =
    if hook aggregate tenant code then dead_letter_as code else retry_later code

-- `_fail`
fail : Environment → OutboxRecord → String → String → String → Settlement
unfolding exhausted
fail env record' code tenant aggregate =
    if ltb record'.attempt_count max_attempts
    then retry_later code
    else exhausted env.on_retry_exhausted code tenant aggregate

after_run : Environment → OutboxRecord → String → String → RunOutcome → Settlement
unfolding fail
after_run env record' tenant aggregate finished = publish
after_run env record' tenant aggregate (non_retryable code) = dead_letter_as code
after_run env record' tenant aggregate run_failed = fail env record' "RUN_FAILED" tenant aggregate

after_resolve : Environment → OutboxRecord → Resolution → Settlement
unfolding after_run
after_resolve env record' unreadable = retry_later "RESOLVE_ERROR"
after_resolve env record' gone = publish
after_resolve env record' (target tenant aggregate) =
    after_run env record' tenant aggregate (env.run aggregate tenant)

-- What `_deliver` decides about a claimed record.
unfoldable pub settlement : Environment → OutboxRecord → Settlement
unfolding after_resolve
settlement env record' =
    if not (str_eq record'.destination env.destination)
    then dead_letter_as "UNKNOWN_DESTINATION"
    else after_resolve env record' (env.resolve record'.event_id)

-- The settling statement, at the time `now`; the flag of the statement is not read.
unfoldable pub settle : Settlement → OutboxRecord → ℕ → Table → Table
unfolding mark_published mark_failed mark_dead_letter backoff_seconds
settle publish record' now t = (mark_published record'.id record'.lease_token now t).0
settle (retry_later code) record' now t =
    (mark_failed record'.id record'.lease_token code
      (now + seconds (backoff_seconds record'.attempt_count)) t).0
settle (dead_letter_as code) record' now t =
    (mark_dead_letter record'.id record'.lease_token code t).0

-- The renewals of `_run_with_lease_renewal`, at the times at which they fall during the run.
unfoldable renew_at : OutboxRecord → List ℕ → Table → Table
unfolding renew_lease
renew_at record' [] t = t
renew_at record' (now ∷ rest) t =
    renew_at record' rest (renew_lease record'.id record'.lease_token now t).0

unfoldable deliver : Environment → List ℕ → ℕ → OutboxRecord → Table → Table
unfolding settlement settle renew_at
deliver env renewals now record' t =
    settle (settlement env record') record' now (renew_at record' renewals t)

-- The loop over a claimed batch. `during` gives the renewals of a record's run, and `after` the
-- time at which the record is settled.
unfoldable deliver_all : Environment → (ℕ → List ℕ) → (ℕ → ℕ) → List OutboxRecord → Table → Table
unfolding deliver
deliver_all env during after [] t = t
deliver_all env during after (k ∷ ks) t =
    deliver_all env during after ks (deliver env (during k.id) (after k.id) k t)

-- One round of the worker: the table that it leaves and the number of deliveries.
unfoldable pub drain_once :
    Environment → String → ℕ → ℕ → (ℕ → Draw) → (ℕ → List ℕ) → (ℕ → ℕ) → Table → Table × ℕ
unfolding claim_batch deliver_all
drain_once env worker batch_size now draw during after t =
    let (u, claimed) =
      claim_batch worker batch_size now lease_timeout_seconds (some env.destination) draw t in
    (deliver_all env during after claimed u, length claimed)

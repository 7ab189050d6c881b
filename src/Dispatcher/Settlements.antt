-- ===== src/Dispatcher/Settlements.antt =====
-- How a delivery is settled, on every branch, and how long a retry waits.
use native.Mathlib.Nat.{pow-suc}
use hisiem_soc_copilot.Prelude.{
  ◌↔◌, if◌then◌else◌, ℕ, suc, zero, ◌^◌, ◌≤◌, ◌<◌, ◌≡◌, refl, String, Option, none, some, Bool,
  true, false, arith, str_eq, ltb, Bool-cases, inl, inr,
}
use hisiem_soc_copilot.Outbox.{OutboxRecord}
use hisiem_soc_copilot.Dispatcher.{
  Environment, Resolution, unreadable, gone, target, RunOutcome, finished, non_retryable,
  run_failed, retry_later, dead_letter_as, settlement, backoff_seconds, max_attempts,
  max_backoff_seconds, exhausted, after_run, fail, after_resolve,
}

-- The hook of a destination, if it has one, has written what the exhaustion means.
abbrev pub HookWrote : Option (String → String → String → Bool) → String → String → String → Type 0
HookWrote none aggregate tenant code = Unit
HookWrote (some hook) aggregate tenant code = hook aggregate tenant code ≡ true

-- The reasons for which a delivery is dead-lettered under a code.
pub data DeadLetters (env : Environment) (k : OutboxRecord) (code : String) : Type 0 where
  unknown_destination :
      str_eq k.destination env.destination ≡ false
      → code ≡ "UNKNOWN_DESTINATION"
      → DeadLetters env k code
  fatal :
      (tenant aggregate : String)
      → str_eq k.destination env.destination ≡ true
      → env.resolve k.event_id ≡ target tenant aggregate
      → env.run aggregate tenant ≡ non_retryable code
      → DeadLetters env k code
  budget_spent :
      (tenant aggregate : String)
      → str_eq k.destination env.destination ≡ true
      → env.resolve k.event_id ≡ target tenant aggregate
      → env.run aggregate tenant ≡ run_failed
      → max_attempts ≤ k.attempt_count
      → HookWrote env.on_retry_exhausted aggregate tenant code
      → code ≡ "RUN_FAILED"
      → DeadLetters env k code

module _ (env : Environment) (k : OutboxRecord) where
  exhausted_dead :
      (hook : Option (String → String → String → Bool)) (code reason tenant aggregate : String)
      → exhausted hook reason tenant aggregate ≡ dead_letter_as code
      → HookWrote hook aggregate tenant code × (code ≡ reason)
  unfolding exhausted
  exhausted_dead none code reason tenant aggregate h = (tt, cc)
  exhausted_dead (some hook) code reason tenant aggregate h = ground arith

  run_dead :
      (outcome : RunOutcome) (code tenant aggregate : String)
      → str_eq k.destination env.destination ≡ true
      → env.resolve k.event_id ≡ target tenant aggregate
      → env.run aggregate tenant ≡ outcome
      → after_run env k tenant aggregate outcome ≡ dead_letter_as code
      → DeadLetters env k code
  unfolding after_run fail
  run_dead finished code tenant aggregate d r o h = cc
  run_dead (non_retryable c) code tenant aggregate d r o h = fatal tenant aggregate d r (cc)
  run_dead run_failed code tenant aggregate d r o h =
      elim (Bool-cases (ltb k.attempt_count max_attempts)) [
        | inl e ↦ absurd (ground arith)
        | inr e ↦
            let (wrote, same) =
              exhausted_dead env.on_retry_exhausted code "RUN_FAILED" tenant aggregate
                (rw e at h) in
            budget_spent tenant aggregate d r o (ground arith) wrote same
      ]

  resolve_dead :
      (res : Resolution) (code : String)
      → str_eq k.destination env.destination ≡ true
      → env.resolve k.event_id ≡ res
      → after_resolve env k res ≡ dead_letter_as code
      → DeadLetters env k code
  unfolding after_resolve
  resolve_dead unreadable code d r h = cc
  resolve_dead gone code d r h = cc
  resolve_dead (target tenant aggregate) code d r h =
      run_dead (env.run aggregate tenant) code tenant aggregate d r refl h

  dead_cause : (code : String) → settlement env k ≡ dead_letter_as code → DeadLetters env k code
  unfolding settlement
  dead_cause code h = elim (Bool-cases (str_eq k.destination env.destination)) [
    | inl e ↦ resolve_dead (env.resolve k.event_id) code e refl (rw e at h)
    | inr e ↦ unknown_destination e (ground arith)
  ]

  by_budget :
      (hook : Option (String → String → String → Bool)) (code tenant aggregate : String)
      → max_attempts ≤ k.attempt_count
      → HookWrote hook aggregate tenant code
      → code ≡ "RUN_FAILED"
      → (if ltb k.attempt_count max_attempts
          then retry_later "RUN_FAILED"
          else exhausted hook "RUN_FAILED" tenant aggregate)
        ≡ dead_letter_as code
  unfolding exhausted
  by_budget none code tenant aggregate n w c = ground arith
  by_budget (some hook) code tenant aggregate n w c = ground (arith, (rw c at w))

  dead_by : (code : String) → DeadLetters env k code → settlement env k ≡ dead_letter_as code
  unfolding settlement
  dead_by code (unknown_destination e c) = ground arith
  dead_by code (fatal tenant aggregate d r o) = rw (d, r) (unfold after_resolve after_run in rw o)
  dead_by code (budget_spent tenant aggregate d r o n w c) =
      rw (d, r)
        (unfold after_resolve after_run in
          rw o (by_budget env.on_retry_exhausted code tenant aggregate n w c))

-- A delivery is dead-lettered under a code exactly when the row is for another destination, the
-- run ends in a non-retryable error with that code, or the run fails after ten claims and the
-- exhaustion hook of the destination, if there is one, has returned.
pub dead_letter_iff :
    (env : Environment) (k : OutboxRecord) (code : String)
    → (settlement env k ≡ dead_letter_as code) ↔ DeadLetters env k code
dead_letter_iff env k code = (dead_cause env k code, dead_by env k code)

-- A failed resolution never dead-letters: whatever the attempt count, the delivery is retried.
pub unreadable_retries :
    (env : Environment) (k : OutboxRecord)
    → str_eq k.destination env.destination ≡ true
    → env.resolve k.event_id ≡ unreadable
    → settlement env k ≡ retry_later "RESOLVE_ERROR"
unfolding settlement after_resolve
unreadable_retries env k d r = rw (d, r)

-- A run that fails before the budget is spent is retried.
pub failed_retries :
    (env : Environment) (k : OutboxRecord) (tenant aggregate : String)
    → str_eq k.destination env.destination ≡ true
    → env.resolve k.event_id ≡ target tenant aggregate
    → env.run aggregate tenant ≡ run_failed
    → k.attempt_count < max_attempts
    → settlement env k ≡ retry_later "RUN_FAILED"
unfolding settlement
failed_retries env k tenant aggregate d r o n =
    rw (d, r) (unfold after_resolve after_run fail in rw o (ground arith))

pow-pos : (a : ℕ) → 1 ≤ 2 ^ a
pow-pos zero = omega arith
pow-pos (suc a) = rw pow-suc (omega (arith, pow-pos a))

pow-le : (a b : ℕ) → a ≤ b → 2 ^ a ≤ 2 ^ b
pow-le zero b h = pow-pos b
pow-le (suc a) zero h = absurd (omega arith)
pow-le (suc a) (suc b) h = omega (arith, pow-suc 2 a, pow-suc 2 b, pow-le a b (omega arith))

-- The wait before a retry is at least one second and at most two minutes, and it never shortens as
-- the attempts add up.
pub backoff_bounds :
    (a b : ℕ)
    → a ≤ b
    → (1 ≤ backoff_seconds a)
      × (backoff_seconds a ≤ backoff_seconds b)
      × (backoff_seconds b ≤ max_backoff_seconds)
unfolding backoff_seconds
backoff_bounds a b h = omega (arith, pow-pos a, pow-le a b h)

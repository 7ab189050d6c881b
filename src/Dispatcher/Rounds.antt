-- ===== src/Dispatcher/Rounds.antt =====
-- What one round of a worker does to a delivery that it claims, whatever else the table holds: the
-- other deliveries of the batch, the renewals and the time of the settlement
-- (src/hisiem_soc_copilot/infrastructure/durable/dispatcher.py `drain_once`).
use hisiem_soc_copilot.Prelude.{
  ℕ, ◌+◌, ◌≤◌, ◌≡◌, refl, ap, ◌∙◌, String, Option, some, true, false, List, [], ◌∷◌, ◌==◌, arith,
  All, inl, inr, ==_self,
}
use hisiem_soc_copilot.Shared.{seconds}
use hisiem_soc_copilot.Outbox.{
  OutboxRow, OutboxRecord, Table, Draw, processing, find_row, is_owned, is_due, is_for, is_waiting,
  take_lease, record_of, as_published, as_failed, as_dead, renew_lease, mark_published, mark_failed,
  mark_dead_letter, claim_batch,
}
use hisiem_soc_copilot.Outbox.Actions.{renewing, publishing, failing, dead_lettering, act, act_row}
use hisiem_soc_copilot.Outbox.Rows.{find_row-act}
use hisiem_soc_copilot.Outbox.Claims.{Once, Sized, update-Sized, batch_claims}
use hisiem_soc_copilot.Dispatcher.{
  Environment, Settlement, publish, retry_later, dead_letter_as, settlement, settle, renew_at,
  deliver, deliver_all, drain_once, backoff_seconds, lease_timeout_seconds,
}

-- The row is leased under the token of the record.
abbrev Held : OutboxRecord → OutboxRow → Type 0
Held k q = (q.id ≡ k.id) × (q.status ≡ processing) × (q.lease_token ≡ some k.lease_token)

abbrev pub settled : Settlement → OutboxRecord → ℕ → OutboxRow → OutboxRow
settled publish k now q = as_published now q
settled (retry_later code) k now q =
    as_failed code (now + seconds (backoff_seconds k.attempt_count)) q
settled (dead_letter_as code) k now q = as_dead code q

Held-is_owned : (k : OutboxRecord) (q : OutboxRow) → Held k q → is_owned k.id k.lease_token q ≡ true
unfolding is_owned
Held-is_owned k q h = ground (arith, h, ==_self k.id, ==_self k.lease_token)

unowned :
    (k : OutboxRecord) (q : OutboxRow)
    → (k.id == q.id) ≡ false
    → is_owned k.id k.lease_token q ≡ false
unfolding is_owned
unowned k q h = ground (arith, h)

settle_own :
    (st : Settlement) (k : OutboxRecord) (now : ℕ) (q : OutboxRow) (t : Table)
    → Held k q
    → find_row k.id t ≡ some q
    → find_row k.id (settle st k now t) ≡ some (settled st k now q)
unfolding settle act act_row
settle_own publish k now q t h e =
    find_row-act (publishing k.id k.lease_token now) k.id t q e
    ∙ ap some (rw (Held-is_owned k q h) refl)
settle_own (retry_later code) k now q t h e =
    find_row-act (failing k.id k.lease_token code (now + seconds (backoff_seconds k.attempt_count)))
      k.id t q e
    ∙ ap some (rw (Held-is_owned k q h) refl)
settle_own (dead_letter_as code) k now q t h e =
    find_row-act (dead_lettering k.id k.lease_token code) k.id t q e
    ∙ ap some (rw (Held-is_owned k q h) refl)

-- A row of another id stays as it is.
settle_other :
    (st : Settlement) (k : OutboxRecord) (now j : ℕ) (q : OutboxRow) (t : Table)
    → (k.id == q.id) ≡ false
    → find_row j t ≡ some q
    → find_row j (settle st k now t) ≡ some q
unfolding settle act act_row
settle_other publish k now j q t ne e =
    find_row-act (publishing k.id k.lease_token now) j t q e ∙ ap some (rw (unowned k q ne) refl)
settle_other (retry_later code) k now j q t ne e =
    find_row-act (failing k.id k.lease_token code (now + seconds (backoff_seconds k.attempt_count)))
      j t q e
    ∙ ap some (rw (unowned k q ne) refl)
settle_other (dead_letter_as code) k now j q t ne e =
    find_row-act (dead_lettering k.id k.lease_token code) j t q e
    ∙ ap some (rw (unowned k q ne) refl)

renew_own :
    (k : OutboxRecord) (ns : List ℕ) (q : OutboxRow) (t : Table)
    → Held k q
    → find_row k.id t ≡ some q
    → (x : Option ℕ) × (find_row k.id (renew_at k ns t) ≡ some (record q { locked_at = x }))
unfolding renew_at renew_lease
renew_own k [] q t h e = (q.locked_at, e)
renew_own k (n ∷ ns) q t h e =
    renew_own k ns (record q { locked_at = some n }) (renew_lease k.id k.lease_token n t).0 h
      (step e)
  where
    step :
        find_row k.id t ≡ some q
        → find_row k.id (renew_lease k.id k.lease_token n t).0
          ≡ some (record q { locked_at = some n })
    step e =
        unfold act act_row in
        (find_row-act (renewing k.id k.lease_token n) k.id t q e
          ∙ ap some (rw (Held-is_owned k q h) refl))

renew_other :
    (k : OutboxRecord) (ns : List ℕ) (j : ℕ) (q : OutboxRow) (t : Table)
    → (k.id == q.id) ≡ false
    → find_row j t ≡ some q
    → find_row j (renew_at k ns t) ≡ some q
unfolding renew_at renew_lease act act_row
renew_other k [] j q t ne e = e
renew_other k (n ∷ ns) j q t ne e =
    renew_other k ns j q (renew_lease k.id k.lease_token n t).0 ne
      (find_row-act (renewing k.id k.lease_token n) j t q e ∙ ap some (rw (unowned k q ne) refl))

settle-Sized :
    (st : Settlement) (k : OutboxRecord) (now m : ℕ) (t : Table)
    → Sized m t
    → Sized m (settle st k now t)
unfolding settle mark_published mark_failed mark_dead_letter
settle-Sized publish k now m t z = update-Sized _ _ m t (λ _. refl) z
settle-Sized (retry_later code) k now m t z = update-Sized _ _ m t (λ _. refl) z
settle-Sized (dead_letter_as code) k now m t z = update-Sized _ _ m t (λ _. refl) z

renew-Sized :
    (k : OutboxRecord) (ns : List ℕ) (m : ℕ) (t : Table) → Sized m t → Sized m (renew_at k ns t)
unfolding renew_at renew_lease
renew-Sized k [] m t z = z
renew-Sized k (n ∷ ns) m t z =
    renew-Sized k ns m (renew_lease k.id k.lease_token n t).0
      (update-Sized (is_owned k.id k.lease_token) _ m t (λ _. refl) z)

module _ (env : Environment) where
  deliver_own :
      (ns : List ℕ) (now : ℕ) (k : OutboxRecord) (q : OutboxRow) (t : Table)
      → Held k q
      → find_row k.id t ≡ some q
      → find_row k.id (deliver env ns now k t) ≡ some (settled (settlement env k) k now q)
  unfolding deliver
  deliver_own ns now k q t h e =
      let r = renew_own k ns q t h e in
      settle_own (settlement env k) k now (record q { locked_at = r.0 }) (renew_at k ns t) h r.1
      ∙ ap some (same (settlement env k) r.0)
    where
      same :
          (st : Settlement) (x : Option ℕ)
          → settled st k now (record q { locked_at = x }) ≡ settled st k now q
      same publish x = refl
      same (retry_later code) x = refl
      same (dead_letter_as code) x = refl

  deliver_other :
      (ns : List ℕ) (now : ℕ) (k : OutboxRecord) (j : ℕ) (q : OutboxRow) (t : Table)
      → (k.id == q.id) ≡ false
      → find_row j t ≡ some q
      → find_row j (deliver env ns now k t) ≡ some q
  unfolding deliver
  deliver_other ns now k j q t ne e =
      settle_other (settlement env k) k now j q (renew_at k ns t) ne (renew_other k ns j q t ne e)

  module _ (during : ℕ → List ℕ) (after : ℕ → ℕ) where
    deliver_others :
        (ks : List OutboxRecord) (j : ℕ) (q : OutboxRow) (t : Table)
        → All (λ k. (k.id == q.id) ≡ false) ks
        → find_row j t ≡ some q
        → find_row j (deliver_all env during after ks t) ≡ some q
    unfolding deliver_all
    deliver_others [] j q t a e = e
    deliver_others (k ∷ ks) j q t a e =
        deliver_others ks j q (deliver env (during k.id) (after k.id) k t) a.1
          (deliver_other (during k.id) (after k.id) k j q t a.0 e)

    settled-id :
        (st : Settlement) (k : OutboxRecord) (now : ℕ) (q : OutboxRow)
        → (settled st k now q).id ≡ q.id
    settled-id publish k now q = refl
    settled-id (retry_later code) k now q = refl
    settled-id (dead_letter_as code) k now q = refl

    deliver_all-Once :
        (ks : List OutboxRecord) (k : OutboxRecord) (q : OutboxRow) (t : Table)
        → Once k ks
        → Held k q
        → find_row k.id t ≡ some q
        → find_row k.id (deliver_all env during after ks t)
          ≡ some (settled (settlement env k) k (after k.id) q)
    unfolding deliver_all
    deliver_all-Once [] k q t o h e = absurd o
    deliver_all-Once (x ∷ ks) k q t (inl (same, a)) h e =
        let q' = settled (settlement env k) k (after k.id) q in
        let i : q'.id ≡ k.id = settled-id (settlement env k) k (after k.id) q ∙ h.0 in
        rw same (
          deliver_others ks k.id q' (deliver env (during k.id) (after k.id) k t) (rw i a)
            (deliver_own (during k.id) (after k.id) k q t h e))
    deliver_all-Once (x ∷ ks) k q t (inr (ne, o)) h e =
        deliver_all-Once ks k q (deliver env (during x.id) (after x.id) x t) o h
          (deliver_other (during x.id) (after x.id) x k.id q t (rw h.0 ne) e)

    deliver_all-Sized :
        (ks : List OutboxRecord) (m : ℕ) (t : Table)
        → Sized m t
        → Sized m (deliver_all env during after ks t)
    unfolding deliver_all deliver
    deliver_all-Sized [] m t z = z
    deliver_all-Sized (k ∷ ks) m t z =
        deliver_all-Sized ks m (deliver env (during k.id) (after k.id) k t) (
          settle-Sized (settlement env k) k (after k.id) m (renew_at k (during k.id) t)
            (renew-Sized k (during k.id) m t z))

    -- The round of a worker whose batch leaves no ready row out.
    pub round_settles :
        (worker : String) (batch_size now : ℕ) (draw : ℕ → Draw) (r : OutboxRow) (m : ℕ) (t : Table)
        → m ≤ batch_size
        → Sized m t
        → find_row r.id t ≡ some r
        → is_waiting r.status ≡ true
        → is_due now lease_timeout_seconds r ≡ true
        → is_for (some env.destination) r ≡ true
        → (let k = record_of worker (draw r.id) r in
            let u = (drain_once env worker batch_size now draw during after t).0 in
            (find_row r.id u
              ≡ some
                  (settled (settlement env k) k (after r.id) (take_lease worker (draw r.id) r r)))
            × Sized m u)
    unfolding drain_once
    round_settles worker batch_size now draw r m t le z e w due here =
        let claimed =
          claim_batch worker batch_size now lease_timeout_seconds (some env.destination) draw t in
        let b =
          batch_claims worker draw batch_size now lease_timeout_seconds env.destination r m t le z e
            w due here in
        (
          deliver_all-Once claimed.1 (record_of worker (draw r.id) r)
              (take_lease worker (draw r.id) r r) claimed.0 b.1 (refl, refl, refl) b.0,
          deliver_all-Sized claimed.1 m claimed.0 b.2,
        )

-- ===== src/Outbox/Races.antt =====
-- Races for a row: after one worker has claimed or renewed it, what the others can still do.
use hisiem_soc_copilot.Prelude.{
  sym, ℕ, ◌+◌, ◌≤◌, ◌<◌, ◌≡◌, ◌≢◌, refl, String, some, Bool, true, false, arith, ◌∙◌, ap, inl, inr,
  Option-cases,
}
use hisiem_soc_copilot.Outbox.{
  OutboxRow, Table, Draw, processing, find_row, matches, is_claimable, is_owned, is_processing,
  is_due, sql_eq, take_lease, claim_row,
}
use hisiem_soc_copilot.Outbox.Actions.{Action, claiming, renewing, act, act_row}
use hisiem_soc_copilot.Outbox.Rows.{
  Distinct, find_row-act, act-Distinct, matches_at, matches_absent,
}
use hisiem_soc_copilot.Outbox.Fencing.{presents, fenced, owned_only}

-- The row that a successful statement of one id has met.
met :
    (p : OutboxRow → Bool) (j : ℕ)
    → ((s : OutboxRow) → p s ≡ true → s.id ≡ j)
    → (t : Table) → Distinct t
    → matches p t ≡ true
    → (r : OutboxRow) × (find_row j t ≡ some r) × (p r ≡ true)
met p j only t d h = elim (Option-cases (find_row j t)) [
  | inl e ↦ absurd (cc (matches_absent p j only t e))
  | inr (r, e) ↦ (r, e, sym (matches_at p j only t r d e) ∙ h)
]

claimable_only : (s r : OutboxRow) → is_claimable s r ≡ true → r.id ≡ s.id
unfolding is_claimable
claimable_only s r h = ground arith

claim_refused :
    (worker : String) (draw : Draw) (s r : OutboxRow) (t : Table)
    → Distinct t
    → find_row s.id t ≡ some r
    → is_claimable s r ≡ false
    → act (claiming worker draw s) t ≡ (t, false)
unfolding act claim_row
claim_refused worker draw s r t d h e =
    rw (matches_at (is_claimable s) s.id (claimable_only s) t r d h ∙ e)

claim_met :
    (worker : String) (draw : Draw) (s : OutboxRow) (t : Table)
    → Distinct t
    → (act (claiming worker draw s) t).1 ≡ true
    → (r : OutboxRow) × (find_row s.id t ≡ some r) × (is_claimable s r ≡ true)
unfolding act claim_row
claim_met worker draw s t d h = met (is_claimable s) s.id (claimable_only s) t d (ground arith)

-- The row of a claim that went through carries the new lease.
pub claimed_row :
    (worker : String) (draw : Draw) (s : OutboxRow) (t : Table)
    → Distinct t
    → (act (claiming worker draw s) t).1 ≡ true
    → (r : OutboxRow) × (find_row s.id (act (claiming worker draw s) t).0 ≡ some r)
      × (r.id ≡ s.id)
      × (r.status ≡ processing)
      × (r.lease_token ≡ some draw.token)
      × (r.locked_at ≡ some draw.now)
      × (r.locked_by ≡ some worker)
      × (r.attempt_count ≡ s.attempt_count + 1)
claimed_row worker draw s t d h =
    let (r, e, c) = claim_met worker draw s t d h in
    (
      take_lease worker draw s r,
      find_row-act (claiming worker draw s) s.id t r e ∙ ap some (unfold act_row in rw c),
      claimable_only s r c,
      refl,
      refl,
      refl,
      refl,
      refl,
    )

-- Once a claim has gone through, every renewal and settlement that presents another token for that
-- row is refused and changes nothing.
pub takeover :
    (worker : String) (draw : Draw) (s : OutboxRow) (t : Table) (a : Action) (token : ℕ)
    → Distinct t
    → (act (claiming worker draw s) t).1 ≡ true
    → presents a s.id token ≡ true
    → draw.token ≢ token
    → act a (act (claiming worker draw s) t).0 ≡ ((act (claiming worker draw s) t).0, false)
takeover worker draw s t a token d h p n =
    let (r, e, same, _, held, _, _, _) = claimed_row worker draw s t d h in
    fenced a token _ r (rw same p) (act-Distinct (claiming worker draw s) t d) (rw same e)
      (rw held (ground arith))

retaken :
    (s r : OutboxRow) (now before timeout : ℕ)
    → is_due before timeout s ≡ true
    → 0 < timeout
    → before ≤ now
    → r.status ≡ processing
    → r.locked_at ≡ some now
    → is_claimable s r ≡ false
unfolding is_due is_claimable
retaken s r now before timeout due pos late busy at = ground arith

-- When two workers selected the same due row and one of them has claimed it, at a time no earlier
-- than the selection and under a positive lease timeout, the claim of the other is refused and
-- changes nothing.
pub single_winner :
    (worker other : String) (draw draw' : Draw) (s : OutboxRow) (t : Table) (before timeout : ℕ)
    → Distinct t
    → is_due before timeout s ≡ true
    → 0 < timeout
    → before ≤ draw.now
    → (act (claiming worker draw s) t).1 ≡ true
    → act (claiming other draw' s) (act (claiming worker draw s) t).0
      ≡ ((act (claiming worker draw s) t).0, false)
single_winner worker other draw draw' s t before timeout d due pos late h =
    let (r, e, same, busy, _, at, _, _) = claimed_row worker draw s t d h in
    claim_refused other draw' s r _ (act-Distinct (claiming worker draw s) t d) e
      (retaken s r draw.now before timeout due pos late busy at)

renewed_met :
    (j token now : ℕ) (t : Table)
    → Distinct t
    → (act (renewing j token now) t).1 ≡ true
    → (r : OutboxRow) × (find_row j t ≡ some r) × (is_owned j token r ≡ true)
unfolding act
renewed_met j token now t d h = met (is_owned j token) j (owned_only j token) t d h

-- A worker selected a row under an expired lease; when its holder has renewed the lease in the
-- meantime, at another time than the selected one, the claim is refused and changes nothing.
renewal_holds :
    (worker : String) (draw : Draw) (s : OutboxRow) (t : Table) (token now : ℕ)
    → Distinct t
    → is_processing s.status ≡ true
    → sql_eq (some now) s.locked_at ≡ false
    → (act (renewing s.id token now) t).1 ≡ true
    → act (claiming worker draw s) (act (renewing s.id token now) t).0
      ≡ ((act (renewing s.id token now) t).0, false)
renewal_holds worker draw s t token now d p n h =
    let (r, e, owned) = renewed_met s.id token now t d h in
    claim_refused worker draw s (record r { locked_at = some now }) _
      (act-Distinct (renewing s.id token now) t d)
      (find_row-act (renewing s.id token now) s.id t r e ∙ ap some (unfold act_row in rw owned))
      (unfold is_claimable in ground arith)

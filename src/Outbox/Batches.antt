-- ===== src/Outbox/Batches.antt =====
-- What a claimed batch promises its worker: bounded, and every record backed by a leased row.
use hisiem_soc_copilot.Prelude.{
  ℕ, ◌+◌, ◌≤◌, ◌≡◌, refl, String, Option, none, some, true, false, List, [], ◌∷◌, ◌==◌, arith, ◌∙◌,
  ap, All, length,
}
use hisiem_soc_copilot.Outbox.{
  OutboxRow, OutboxRecord, Table, Draw, processing, find_row, select_ready, claim_row, claim_rows,
  claim_batch, with_record, record_of,
}
use hisiem_soc_copilot.Outbox.Actions.{claiming, act, act_row}
use hisiem_soc_copilot.Outbox.Rows.{Distinct, find_row-act, act-Distinct}
use hisiem_soc_copilot.Outbox.Selection.{length-select_ready, Apart, select_ready-Apart}
use hisiem_soc_copilot.Outbox.Races.{claimed_row}

-- The table has the row of a record, leased to the record's worker under the record's token.
pub record Backs (t : Table) (record' : OutboxRecord) : Type 0 where
  pub row : OutboxRow
  pub found : find_row record'.id t ≡ some row
  pub leased : row.status ≡ processing
  pub token : row.lease_token ≡ some record'.lease_token
  pub worker : row.locked_by ≡ some record'.locked_by
  pub since : row.locked_at ≡ some record'.locked_at
  pub attempts : row.attempt_count ≡ record'.attempt_count

length-with_record :
    (o : Option OutboxRecord) (rs : List OutboxRecord) → length (with_record o rs) ≤ length rs + 1
length-with_record none rs = omega arith
length-with_record (some r) rs = omega arith

length-claim_rows :
    (worker : String) (draw : ℕ → Draw) (selected : List OutboxRow) (t : Table)
    → length (claim_rows worker draw selected t).1 ≤ length selected
unfolding claim_rows
length-claim_rows worker draw [] t = omega arith
length-claim_rows worker draw (s ∷ ss) t = omega (
  arith,
  length-with_record (claim_row worker (draw s.id) s t).1
      (claim_rows worker draw ss (claim_row worker (draw s.id) s t).0).1,
  length-claim_rows worker draw ss (claim_row worker (draw s.id) s t).0,
)

-- A batch has at most `limit` records.
length-claim_batch :
    (worker : String) (limit before timeout : ℕ) (destination : Option String) (draw : ℕ → Draw)
    (t : Table)
    → length (claim_batch worker limit before timeout destination draw t).1 ≤ limit
unfolding claim_batch
length-claim_batch worker limit before timeout destination draw t = omega (
  arith,
  length-claim_rows worker draw (select_ready limit before timeout destination t) t,
  length-select_ready limit before timeout destination t,
)

pub find_row_id : (j : ℕ) (t : Table) (r : OutboxRow) → find_row j t ≡ some r → r.id ≡ j
unfolding find_row
find_row_id j [] r h = cc
find_row_id j (s ∷ ss) r h = ground (arith, find_row_id j ss r)

pub untouched :
    (worker : String) (draw : Draw) (s r : OutboxRow) (j : ℕ)
    → r.id ≡ j
    → (j == s.id) ≡ false
    → act_row (claiming worker draw s) r ≡ r
unfolding act_row
untouched worker draw s r j h ne = ground arith

-- A claim of another row leaves a backed record backed.
claiming_other :
    (worker : String) (draw : Draw) (s : OutboxRow) (t : Table) (k : OutboxRecord)
    → (k.id == s.id) ≡ false
    → Backs t k
    → Backs (claim_row worker draw s t).0 k
unfolding claim_row act
claiming_other worker draw s t k ne b = record {
  row = b.row;
  found =
      find_row-act (claiming worker draw s) k.id t b.row b.found
      ∙ ap some (untouched worker draw s b.row k.id (find_row_id k.id t b.row b.found) ne);
  leased = b.leased;
  token = b.token;
  worker = b.worker;
  since = b.since;
  attempts = b.attempts;
}

claiming_others :
    (worker : String) (draw : ℕ → Draw) (ss : List OutboxRow) (t : Table) (k : OutboxRecord)
    → All (λ s. (s.id == k.id) ≡ false) ss
    → Backs t k
    → Backs (claim_rows worker draw ss t).0 k
unfolding claim_rows
claiming_others worker draw [] t k a b = b
claiming_others worker draw (s ∷ ss) t k a b =
    claiming_others worker draw ss (claim_row worker (draw s.id) s t).0 k a.1
      (claiming_other worker (draw s.id) s t k (ground arith) b)

pub claim_row-some :
    (worker : String) (draw : Draw) (s : OutboxRow) (t : Table) (k : OutboxRecord)
    → (claim_row worker draw s t).1 ≡ some k
    → (k ≡ record_of worker draw s) × ((act (claiming worker draw s) t).1 ≡ true)
unfolding claim_row act
claim_row-some worker draw s t k h = ground arith

claimed-Backs :
    (worker : String) (draw : Draw) (s : OutboxRow) (t : Table)
    → Distinct t
    → (act (claiming worker draw s) t).1 ≡ true
    → Backs (claim_row worker draw s t).0 (record_of worker draw s)
unfolding act
claimed-Backs worker draw s t d h =
    let (r, e, _, leased, token, since, holder, attempts) = claimed_row worker draw s t d h in
    record {
      row = r;
      found = e;
      leased = leased;
      token = token;
      worker = holder;
      since = since;
      attempts = attempts;
    }

-- One round of the loop, before the rest of the rows.
with_claimed :
    (worker : String) (draw : ℕ → Draw) (s : OutboxRow) (ss : List OutboxRow) (t : Table)
    (o : Option OutboxRecord)
    → (claim_row worker (draw s.id) s t).1 ≡ o
    → Distinct t
    → All (λ r. (r.id == s.id) ≡ false) ss
    → (let (v, records) = claim_rows worker draw ss (claim_row worker (draw s.id) s t).0 in
        All (Backs v) records → All (Backs v) (with_record o records))
with_claimed worker draw s ss t none h d a rest = rest
with_claimed worker draw s ss t (some k) h d a rest =
    let (same, went) = claim_row-some worker (draw s.id) s t k h in
    (
      claiming_others worker draw ss (claim_row worker (draw s.id) s t).0 k (rw same a)
          (rw same (claimed-Backs worker (draw s.id) s t d went)),
      rest,
    )

claim_row-Distinct :
    (worker : String) (draw : Draw) (s : OutboxRow) (t : Table)
    → Distinct t
    → Distinct (claim_row worker draw s t).0
unfolding act
claim_row-Distinct worker draw s t d = act-Distinct (claiming worker draw s) t d

claim_rows-Backs :
    (worker : String) (draw : ℕ → Draw) (ss : List OutboxRow) (t : Table)
    → Distinct t
    → Apart ss
    → All (Backs (claim_rows worker draw ss t).0) (claim_rows worker draw ss t).1
unfolding claim_rows Apart
claim_rows-Backs worker draw [] t d a = tt
claim_rows-Backs worker draw (s ∷ ss) t d a =
    with_claimed worker draw s ss t (claim_row worker (draw s.id) s t).1 refl d a.0 (
      claim_rows-Backs worker draw ss (claim_row worker (draw s.id) s t).0
        (claim_row-Distinct worker (draw s.id) s t d) a.1)

-- In a table without two rows of one id, each record of a claimed batch is backed by a row that is
-- leased to the worker under the token, since the time and with the attempt count of the record.
pub claim_batch-Backs :
    (worker : String) (limit before timeout : ℕ) (destination : Option String) (draw : ℕ → Draw)
    (t : Table)
    → Distinct t
    → All
        (Backs (claim_batch worker limit before timeout destination draw t).0)
        (claim_batch worker limit before timeout destination draw t).1
unfolding claim_batch
claim_batch-Backs worker limit before timeout destination draw t d =
    claim_rows-Backs worker draw (select_ready limit before timeout destination t) t d
      (select_ready-Apart limit before timeout destination t d)

-- ===== src/Outbox.antt =====
-- The outbox store (src/hisiem_soc_copilot/infrastructure/persistence/repositories/durable.py, class
-- SqlAlchemyOutboxStore): rows with a lease, and the statements that claim, renew and settle
-- them. An UPDATE … WHERE is `update_where`, and the row count that it reports is `matches`.
pub mod Actions
pub mod Rows
pub mod Fencing
pub mod Races
pub mod Selection
pub mod Batches
pub mod Claims
pub mod Invariant
mod Examples
use hisiem_soc_copilot.Prelude.{
  ℕ, suc, ◌+◌, String, Option, none, some, Bool, true, false, List, [], ◌∷◌, ◌++◌, ◌&&◌, ◌||◌, leb,
  ◌==◌, str_eq, if◌then◌else◌, take, keep, or_else,
}
use hisiem_soc_copilot.Shared.{seconds}

pub data OutboxStatus : Type 0 where
  pending processing published failed dead_letter : OutboxStatus

pub record OutboxRow : Type 0 where
  pub id : ℕ
  pub event_id : ℕ
  pub destination : String
  pub status : OutboxStatus
  pub attempt_count : ℕ
  pub available_at : ℕ
  pub created_at : ℕ
  pub locked_at : Option ℕ
  pub locked_by : Option String
  pub lease_token : Option ℕ
  pub published_at : Option ℕ
  pub last_error_code : Option String

-- What a claim hands to the worker.
pub record OutboxRecord : Type 0 where
  pub id : ℕ
  pub event_id : ℕ
  pub destination : String
  pub status : OutboxStatus
  pub attempt_count : ℕ
  pub available_at : ℕ
  pub lease_token : ℕ
  pub locked_at : ℕ
  pub locked_by : String

abbrev pub Table : Type 0
Table = List OutboxRow

-- An equation in SQL: it does not hold of a NULL.
abbrev pub sql_eq : Option ℕ → Option ℕ → Bool
sql_eq (some a) (some b) = a == b
sql_eq _ _ = false

abbrev sql_str_eq : Option String → Option String → Bool
sql_str_eq (some a) (some b) = str_eq a b
sql_str_eq _ _ = false

abbrev pub is_processing : OutboxStatus → Bool
is_processing processing = true
is_processing _ = false

-- `status.in_(["PENDING", "FAILED"])`
abbrev pub is_waiting : OutboxStatus → Bool
is_waiting pending = true
is_waiting failed = true
is_waiting _ = false

-- The row of an id, the primary key.
unfoldable pub find_row : ℕ → Table → Option OutboxRow
find_row outbox_id [] = none
find_row outbox_id (r ∷ rs) = if r.id == outbox_id then some r else find_row outbox_id rs

unfoldable pub update_where : (OutboxRow → Bool) → (OutboxRow → OutboxRow) → Table → Table
update_where p f [] = []
update_where p f (r ∷ rs) = (if p r then f r else r) ∷ update_where p f rs

-- Whether an UPDATE with this condition touches a row, `rowcount > 0`.
unfoldable pub matches : (OutboxRow → Bool) → Table → Bool
matches p [] = false
matches p (r ∷ rs) = p r || matches p rs

-- `locked_at <= available_before - lease`, which a NULL does not satisfy.
abbrev lease_expired : Option ℕ → ℕ → ℕ → Bool
lease_expired none before timeout = false
lease_expired (some at) before timeout = leb (at + seconds timeout) before

unfoldable pub is_due : ℕ → ℕ → OutboxRow → Bool
is_due before timeout r =
    (is_waiting r.status && leb r.available_at before)
    || (is_processing r.status && lease_expired r.locked_at before timeout)

abbrev pub is_for : Option String → OutboxRow → Bool
is_for none r = true
is_for (some destination) r = str_eq r.destination destination

-- `ORDER BY created_at`. Rows that were created at one instant keep the order of the table, which
-- the database leaves open.
insert_by_created : OutboxRow → List OutboxRow → List OutboxRow
insert_by_created r [] = r ∷ []
insert_by_created r (s ∷ ss) =
    if leb r.created_at s.created_at then r ∷ s ∷ ss else s ∷ insert_by_created r ss

order_by_created : List OutboxRow → List OutboxRow
unfolding insert_by_created
order_by_created [] = []
order_by_created (r ∷ rs) = insert_by_created r (order_by_created rs)

-- The SELECT of `claim_batch`.
unfoldable pub select_ready : ℕ → ℕ → ℕ → Option String → Table → List OutboxRow
unfolding is_due order_by_created
select_ready limit before timeout destination t =
    take limit (order_by_created (keep (λ r. is_due before timeout r && is_for destination r) t))

-- The condition of the claiming UPDATE, for the row as it was selected: an expired lease is taken
-- only if it is still the same lease.
unfoldable pub is_claimable : OutboxRow → OutboxRow → Bool
is_claimable selected r =
    r.id == selected.id
    && (if is_processing selected.status
        then is_processing r.status
          && sql_eq r.locked_at selected.locked_at
          && sql_str_eq r.locked_by selected.locked_by
        else is_waiting r.status)

-- What one claim draws from its surroundings: `datetime.now(UTC)` and `uuid4().hex`.
pub record Draw : Type 0 where
  pub now : ℕ
  pub token : ℕ

abbrev pub take_lease : String → Draw → OutboxRow → OutboxRow → OutboxRow
take_lease worker draw selected r = record r {
  status = processing;
  locked_at = some draw.now;
  locked_by = some worker;
  lease_token = some draw.token;
  attempt_count = selected.attempt_count + 1;
}

abbrev pub record_of : String → Draw → OutboxRow → OutboxRecord
record_of worker draw selected = record {
  id = selected.id;
  event_id = selected.event_id;
  destination = selected.destination;
  status = processing;
  attempt_count = selected.attempt_count + 1;
  available_at = selected.available_at;
  lease_token = draw.token;
  locked_at = draw.now;
  locked_by = worker;
}

-- One round of the claiming loop, for a row that was selected earlier.
unfoldable pub claim_row : String → Draw → OutboxRow → Table → Table × Option OutboxRecord
unfolding is_claimable update_where matches
claim_row worker draw selected t =
    if matches (is_claimable selected) t
    then (
      update_where (is_claimable selected) (take_lease worker draw selected) t,
      some (record_of worker draw selected),
    )
    else (t, none)

abbrev with_record : Option OutboxRecord → List OutboxRecord → List OutboxRecord
with_record none rs = rs
with_record (some r) rs = r ∷ rs

-- The loop over the selected rows; `draw` gives the time and the token of each row's round.
unfoldable pub claim_rows : String → (ℕ → Draw) → List OutboxRow → Table → Table × List OutboxRecord
unfolding claim_row
claim_rows worker draw [] t = (t, [])
claim_rows worker draw (selected ∷ rest) t =
    let (u, claimed) = claim_row worker (draw selected.id) selected t in
    let (v, records) = claim_rows worker draw rest u in (v, with_record claimed records)

unfoldable pub claim_batch :
    String → ℕ → ℕ → ℕ → Option String → (ℕ → Draw) → Table → Table × List OutboxRecord
unfolding select_ready claim_rows
claim_batch worker limit before timeout destination draw t =
    claim_rows worker draw (select_ready limit before timeout destination t) t

-- The fence of every later statement: the row is still leased under the caller's token.
unfoldable pub is_owned : ℕ → ℕ → OutboxRow → Bool
is_owned outbox_id token r =
    r.id == outbox_id && is_processing r.status && sql_eq r.lease_token (some token)

-- The writes of each statement.
abbrev renewed : ℕ → OutboxRow → OutboxRow
renewed now r = record r { locked_at = some now }

abbrev release : OutboxStatus → Option String → OutboxRow → OutboxRow
release status code r = record r {
  status = status;
  locked_at = none;
  locked_by = none;
  lease_token = none;
  last_error_code = code;
}

abbrev pub as_published : ℕ → OutboxRow → OutboxRow
as_published at r = record (release published none r) { published_at = some at }

abbrev pub as_failed : String → ℕ → OutboxRow → OutboxRow
as_failed code at r = record (release failed (some code) r) { available_at = at }

abbrev pub as_dead : String → OutboxRow → OutboxRow
as_dead code r = release dead_letter (some code) r

unfoldable pub renew_lease : ℕ → ℕ → ℕ → Table → Table × Bool
unfolding is_owned update_where matches
renew_lease outbox_id token now t =
    (update_where (is_owned outbox_id token) (renewed now) t, matches (is_owned outbox_id token) t)

unfoldable pub mark_published : ℕ → ℕ → ℕ → Table → Table × Bool
unfolding is_owned update_where matches
mark_published outbox_id token at t = (
  update_where (is_owned outbox_id token) (as_published at) t,
  matches (is_owned outbox_id token) t,
)

unfoldable pub mark_failed : ℕ → ℕ → String → ℕ → Table → Table × Bool
unfolding is_owned update_where matches
mark_failed outbox_id token code next_available_at t = (
  update_where (is_owned outbox_id token) (as_failed code next_available_at) t,
  matches (is_owned outbox_id token) t,
)

unfoldable pub mark_dead_letter : ℕ → ℕ → String → Table → Table × Bool
unfolding is_owned update_where matches
mark_dead_letter outbox_id token code t =
    (update_where (is_owned outbox_id token) (as_dead code) t, matches (is_owned outbox_id token) t)

-- `_EVENT_DESTINATIONS`: the events that enqueue a delivery, and where it goes.
unfoldable pub event_destination : String → Option String
event_destination event_type =
    if str_eq event_type "investigation_created"
    then some "investigation.graph.run"
    else if str_eq event_type "response_execution_queued"
    then some "response.execution.submit"
    else if str_eq event_type "response_execution_submitted"
    then some "response.execution.observe"
    else if str_eq event_type "response_execution_observed"
    then some "response.execution.observe"
    else if str_eq event_type "response_execution_observation_failed"
    then some "response.execution.observe"
    else none

-- The row that `append` adds for a destination.
abbrev new_row : ℕ → ℕ → String → Option ℕ → ℕ → OutboxRow
new_row outbox_id event_id destination available_at now = record {
  id = outbox_id;
  event_id = event_id;
  destination = destination;
  status = pending;
  attempt_count = 0;
  available_at = or_else available_at now;
  created_at = now;
  locked_at = none;
  locked_by = none;
  lease_token = none;
  published_at = none;
  last_error_code = none;
}

-- An INSERT under an id that is taken breaks the primary key, and adds nothing.
insert_row : Option OutboxRow → OutboxRow → Table → Table × Bool
insert_row none r t = (t ++ r ∷ [], true)
insert_row (some taken) r t = (t, false)

add_delivery : Option String → ℕ → ℕ → Option ℕ → ℕ → Table → Table × Bool
unfolding find_row insert_row
add_delivery none outbox_id event_id available_at now t = (t, false)
add_delivery (some destination) outbox_id event_id available_at now t =
    insert_row (find_row outbox_id t) (new_row outbox_id event_id destination available_at now) t

-- The part of SqlAlchemyEventLedger.append that writes the outbox.
unfoldable pub append_event : String → ℕ → ℕ → Option ℕ → ℕ → Table → Table × Bool
unfolding event_destination add_delivery
append_event event_type outbox_id event_id available_at now t =
    add_delivery (event_destination event_type) outbox_id event_id available_at now t

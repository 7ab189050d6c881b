-- ===== src/Outbox/Invariant.antt =====
-- The outbox row invariant: the lease columns, the publication time and the status agree.
use hisiem_soc_copilot.Prelude.{
  ℕ, ◌<◌, ◌≡◌, ◌≢◌, String, Option, none, some, Bool, List, [], ◌∷◌, arith, is_some, All,
  All-append, if◌then◌else◌,
}
use hisiem_soc_copilot.Outbox.{
  is_claimable, take_lease, is_owned, renewed, as_published, as_failed, as_dead, OutboxRow, Table,
  pending, is_processing, update_where, add_delivery, insert_row, new_row, event_destination,
  find_row,
}
use hisiem_soc_copilot.Outbox.Actions.{
  Action, claiming, renewing, publishing, failing, dead_lettering, appending, act, act_row, trace,
}
use hisiem_soc_copilot.Outbox.Rows.{claim_row-update, Distinct, act-Distinct}
use hisiem_soc_copilot.Outbox.Fencing.{is_published}

-- The lease fields, the token and the status say the same thing.
pub record IsValid (r : OutboxRow) : Type 0 where
  pub leased_when : is_some r.lease_token ≡ is_processing r.status
  pub locked_when : is_some r.locked_at ≡ is_processing r.status
  pub held_when : is_some r.locked_by ≡ is_processing r.status
  pub published_when : is_some r.published_at ≡ is_published r.status
  pub attempted : r.status ≢ pending → 0 < r.attempt_count

act_row-IsValid : (a : Action) (r : OutboxRow) → IsValid r → IsValid (act_row a r)
unfolding act_row
act_row-IsValid (claiming worker draw selected) r v = ground arith
act_row-IsValid _ r v = ground arith

All-update :
    (P : OutboxRow → Type 0) (p : OutboxRow → Bool) (f : OutboxRow → OutboxRow) (t : Table)
    → ((r : OutboxRow) → P r → P (if p r then f r else r))
    → All P t
    → All P (update_where p f t)
unfolding update_where
All-update P p f [] keeps h = tt
All-update P p f (r ∷ rs) keeps h = (keeps r h.0, All-update P p f rs keeps h.1)

insert-IsValid :
    (taken : Option OutboxRow) (new : OutboxRow) (t : Table)
    → IsValid new
    → All IsValid t
    → All IsValid (insert_row taken new t).0
unfolding insert_row
insert-IsValid none new t v h = All-append IsValid t (new ∷ []) h (v, tt)
insert-IsValid (some other) new t v h = h

new_row-IsValid :
    (outbox_id event_id : ℕ) (destination : String) (at : Option ℕ) (now : ℕ)
    → IsValid (new_row outbox_id event_id destination at now)
new_row-IsValid outbox_id event_id destination at now = ground arith

add-IsValid :
    (destination : Option String) (outbox_id event_id : ℕ) (at : Option ℕ) (now : ℕ) (t : Table)
    → All IsValid t
    → All IsValid (add_delivery destination outbox_id event_id at now t).0
unfolding add_delivery
add-IsValid none outbox_id event_id at now t h = h
add-IsValid (some destination) outbox_id event_id at now t h =
    insert-IsValid (find_row outbox_id t) _ t
      (new_row-IsValid outbox_id event_id destination at now) h

act-IsValid : (a : Action) (t : Table) → All IsValid t → All IsValid (act a t).0
unfolding act act_row
act-IsValid (claiming worker draw selected) t h = rw claim_row-update (
    All-update IsValid (is_claimable selected) (take_lease worker draw selected) t
      (act_row-IsValid (claiming worker draw selected)) h)
act-IsValid (renewing j token now) t h =
    All-update IsValid (is_owned j token) (renewed now) t (act_row-IsValid (renewing j token now)) h
act-IsValid (publishing j token at) t h =
    All-update IsValid (is_owned j token) (as_published at) t
      (act_row-IsValid (publishing j token at)) h
act-IsValid (failing j token code at) t h =
    All-update IsValid (is_owned j token) (as_failed code at) t
      (act_row-IsValid (failing j token code at)) h
act-IsValid (dead_lettering j token code) t h =
    All-update IsValid (is_owned j token) (as_dead code) t
      (act_row-IsValid (dead_lettering j token code)) h
act-IsValid (appending event_type j event_id at now) t h =
    add-IsValid (event_destination event_type) j event_id at now t h

-- Every sequence of statements keeps a table's ids distinct and, of each row, the lease columns
-- set exactly while it is PROCESSING, the publication time exactly once it is PUBLISHED, and at
-- least one attempt once it is no longer PENDING.
pub trace-IsValid :
    (actions : List Action) (t : Table)
    → Distinct t
    → All IsValid t
    → Distinct (trace actions t) × All IsValid (trace actions t)
unfolding trace
trace-IsValid [] t d h = (d, h)
trace-IsValid (a ∷ rest) t d h =
    trace-IsValid rest (act a t).0 (act-Distinct a t d) (act-IsValid a t h)

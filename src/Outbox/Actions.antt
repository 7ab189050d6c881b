-- ===== src/Outbox/Actions.antt =====
-- The statements that workers run against the outbox, in any order, and what one of them does to
-- one row. A claim carries the row as it was selected, which may be out of date by then.
use hisiem_soc_copilot.Prelude.{ℕ, String, Option, Bool, List, [], ◌∷◌, if◌then◌else◌, is_some}
use hisiem_soc_copilot.Outbox.{
  renewed, as_published, as_failed, as_dead, OutboxRow, Table, Draw, is_claimable, take_lease,
  claim_row, is_owned, renew_lease, mark_published, mark_failed, mark_dead_letter, append_event,
}

pub data Action : Type 0 where
  claiming : String → Draw → OutboxRow → Action
  renewing : ℕ → ℕ → ℕ → Action
  publishing : ℕ → ℕ → ℕ → Action
  failing : ℕ → ℕ → String → ℕ → Action
  dead_lettering : ℕ → ℕ → String → Action
  appending : String → ℕ → ℕ → Option ℕ → ℕ → Action

unfoldable pub act : Action → Table → Table × Bool
unfolding claim_row renew_lease mark_published mark_failed mark_dead_letter append_event
act (claiming worker draw selected) t =
    let (u, claimed) = claim_row worker draw selected t in (u, is_some claimed)
act (renewing outbox_id token now) t = renew_lease outbox_id token now t
act (publishing outbox_id token at) t = mark_published outbox_id token at t
act (failing outbox_id token code at) t = mark_failed outbox_id token code at t
act (dead_lettering outbox_id token code) t = mark_dead_letter outbox_id token code t
act (appending event_type outbox_id event_id at now) t =
    append_event event_type outbox_id event_id at now t

unfoldable pub trace : List Action → Table → Table
unfolding act
trace [] t = t
trace (a ∷ rest) t = trace rest (act a t).0

-- The same statement, seen from one row.
unfoldable pub act_row : Action → OutboxRow → OutboxRow
unfolding is_claimable is_owned
act_row (claiming worker draw selected) r =
    if is_claimable selected r then take_lease worker draw selected r else r
act_row (renewing outbox_id token now) r = if is_owned outbox_id token r then renewed now r else r
act_row (publishing outbox_id token at) r =
    if is_owned outbox_id token r then as_published at r else r
act_row (failing outbox_id token code at) r =
    if is_owned outbox_id token r then as_failed code at r else r
act_row (dead_lettering outbox_id token code) r =
    if is_owned outbox_id token r then as_dead code r else r
act_row (appending event_type outbox_id event_id at now) r = r

-- ===== src/Outbox/Fencing.antt =====
-- Leases as fencing tokens: who may settle a row, and who wins a race for it.
use hisiem_soc_copilot.Prelude.{
  ℕ, ◌≡◌, some, Bool, true, false, List, [], ◌∷◌, ◌==◌, arith, ◌∙◌, ap, ◌&&◌,
}
use hisiem_soc_copilot.Outbox.{
  OutboxRow, OutboxStatus, Table, published, dead_letter, find_row, update_where, matches, is_owned,
  sql_eq,
}
use hisiem_soc_copilot.Outbox.Actions.{
  Action, claiming, renewing, publishing, failing, dead_lettering, appending, act, act_row, trace,
}
use hisiem_soc_copilot.Outbox.Rows.{Distinct, find_row-act, matches_at, update_unmatched}

-- PUBLISHED and DEAD_LETTER end a delivery.
abbrev pub is_published : OutboxStatus → Bool
is_published published = true
is_published _ = false

abbrev pub is_settled : OutboxStatus → Bool
is_settled published = true
is_settled dead_letter = true
is_settled _ = false

act_row_settled : (a : Action) (r : OutboxRow) → is_settled r.status ≡ true → act_row a r ≡ r
unfolding act_row
act_row_settled (claiming worker draw selected) r h = ground arith
act_row_settled _ r h = ground arith

-- A delivery that is published or dead-lettered stays exactly as it is, whatever statements the
-- workers run afterwards, with whatever tokens and however stale the rows that they selected.
pub settled_forever :
    (actions : List Action) (j : ℕ) (t : Table) (r : OutboxRow)
    → find_row j t ≡ some r
    → is_settled r.status ≡ true
    → find_row j (trace actions t) ≡ some r
unfolding trace
settled_forever [] j t r h s = h
settled_forever (a ∷ rest) j t r h s =
    settled_forever rest j (act a t).0 r (find_row-act a j t r h ∙ ap some (act_row_settled a r s))
      s

-- Whether a statement presents a token for an id.
abbrev pub presents : Action → ℕ → ℕ → Bool
presents (renewing outbox_id token now) j k = outbox_id == j && token == k
presents (publishing outbox_id token at) j k = outbox_id == j && token == k
presents (failing outbox_id token code at) j k = outbox_id == j && token == k
presents (dead_lettering outbox_id token code) j k = outbox_id == j && token == k
presents _ j k = false

pub owned_only : (j token : ℕ) (s : OutboxRow) → is_owned j token s ≡ true → s.id ≡ j
unfolding is_owned
owned_only j token s h = ground arith

unowned :
    (j token : ℕ) (t : Table) (r : OutboxRow)
    → Distinct t
    → find_row j t ≡ some r
    → sql_eq r.lease_token (some token) ≡ false
    → matches (is_owned j token) t ≡ false
unfolding is_owned
unowned j token t r d h e =
    ground (arith, matches_at (is_owned j token) j (owned_only j token) t r d h)

refused :
    (f : OutboxRow → OutboxRow) (j k token : ℕ) (t : Table) (r : OutboxRow)
    → (j == r.id && k == token) ≡ true
    → Distinct t
    → find_row r.id t ≡ some r
    → sql_eq r.lease_token (some token) ≡ false
    → (update_where (is_owned j k) f t, matches (is_owned j k) t)
      ≡ (let x : Table × Bool = (t, false) in x)
refused f j k token t r a d h e =
    let off = unowned j k t r d (ground arith) (ground arith) in
    rw (off, update_unmatched (is_owned j k) f t off)

-- A statement that presents another token than the one the row is leased under changes nothing
-- in the table and reports that it changed nothing: the worker whose lease was taken over can
-- neither renew it nor settle the delivery.
pub fenced :
    (a : Action) (token : ℕ) (t : Table) (r : OutboxRow)
    → presents a r.id token ≡ true
    → Distinct t
    → find_row r.id t ≡ some r
    → sql_eq r.lease_token (some token) ≡ false
    → act a t ≡ (t, false)
unfolding act
fenced (renewing j k now) token t r a d h e = refused _ j k token t r a d h e
fenced (publishing j k at) token t r a d h e = refused _ j k token t r a d h e
fenced (failing j k code at) token t r a d h e = refused _ j k token t r a d h e
fenced (dead_lettering j k code) token t r a d h e = refused _ j k token t r a d h e
fenced (claiming worker draw selected) token t r a d h e = cc
fenced (appending event_type j k at now) token t r a d h e = cc

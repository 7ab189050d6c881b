-- ===== src/Outbox/Rows.antt =====
-- The outbox table as a map from ids to rows, and what one statement does to it.
use mathlib.Core.Option
use hisiem_soc_copilot.Prelude.{
  ℕ, String, ◌≡◌, refl, Option, none, some, Bool, true, false, [], ◌∷◌, ◌++◌, ◌==◌, if◌then◌else◌,
  arith, Bool-cases, inl, inr, sym,
}
use hisiem_soc_copilot.Outbox.{
  OutboxRow, Table, Draw, find_row, update_where, matches, is_claimable, claim_row, new_row,
  insert_row, add_delivery, event_destination, take_lease,
}
use hisiem_soc_copilot.Outbox.Actions.{
  Action, claiming, renewing, publishing, failing, dead_lettering, appending, act, act_row,
}

module _ (p : OutboxRow → Bool) (f : OutboxRow → OutboxRow) where
  pub update_unmatched : (t : Table) → matches p t ≡ false → update_where p f t ≡ t
  unfolding matches update_where
  update_unmatched [] h = refl
  update_unmatched (r ∷ rs) h = ground (arith, update_unmatched rs)

  find_row-update :
      (j : ℕ) (t : Table)
      → ((r : OutboxRow) → (f r).id ≡ r.id)
      → find_row j (update_where p f t) ≡ Option.map (λ r. if p r then f r else r) (find_row j t)
  unfolding find_row update_where
  find_row-update j [] keeps = refl
  find_row-update j (r ∷ rs) keeps = ground (arith, keeps r, find_row-update j rs keeps)

find_row-append :
    (j : ℕ) (t : Table) (new r : OutboxRow)
    → find_row j t ≡ some r
    → find_row j (t ++ new ∷ []) ≡ some r
unfolding find_row
find_row-append j [] new r h = cc
find_row-append j (s ∷ ss) new r h = ground (arith, find_row-append j ss new r)

-- An update that keeps the ids changes each row in its place.
update_at :
    (p : OutboxRow → Bool) (f : OutboxRow → OutboxRow) (j : ℕ) (t : Table) (r : OutboxRow)
    → ((r : OutboxRow) → (f r).id ≡ r.id)
    → find_row j t ≡ some r
    → find_row j (update_where p f t) ≡ some (if p r then f r else r)
update_at p f j t r keeps h = rw (find_row-update p f j t keeps, h)

pub claim_row-update :
    (worker : String) (draw : Draw) (selected : OutboxRow) (t : Table)
    → (claim_row worker draw selected t).0
      ≡ update_where (is_claimable selected) (take_lease worker draw selected) t
unfolding claim_row
claim_row-update worker draw selected t =
    ground (arith, update_unmatched (is_claimable selected) (take_lease worker draw selected) t)

find_row-insert :
    (taken : Option OutboxRow) (new : OutboxRow) (j : ℕ) (t : Table) (r : OutboxRow)
    → find_row j t ≡ some r
    → find_row j (insert_row taken new t).0 ≡ some r
unfolding insert_row
find_row-insert none new j t r h = find_row-append j t new r h
find_row-insert (some other) new j t r h = h

find_row-add :
    (destination : Option String) (outbox_id event_id : ℕ) (at : Option ℕ) (now j : ℕ) (t : Table)
    (r : OutboxRow)
    → find_row j t ≡ some r
    → find_row j (add_delivery destination outbox_id event_id at now t).0 ≡ some r
unfolding add_delivery
find_row-add none outbox_id event_id at now j t r h = h
find_row-add (some destination) outbox_id event_id at now j t r h =
    find_row-insert (find_row outbox_id t) (new_row outbox_id event_id destination at now) j t r h

-- A statement changes a row of the table as it changes the row alone.
pub find_row-act :
    (a : Action) (j : ℕ) (t : Table) (r : OutboxRow)
    → find_row j t ≡ some r
    → find_row j (act a t).0 ≡ some (act_row a r)
unfolding act act_row
find_row-act (claiming worker draw selected) j t r h =
    rw claim_row-update (update_at _ _ j t r (λ _. refl) h)
find_row-act (renewing outbox_id token now) j t r h = update_at _ _ j t r (λ _. refl) h
find_row-act (publishing outbox_id token at) j t r h = update_at _ _ j t r (λ _. refl) h
find_row-act (failing outbox_id token code at) j t r h = update_at _ _ j t r (λ _. refl) h
find_row-act (dead_lettering outbox_id token code) j t r h = update_at _ _ j t r (λ _. refl) h
find_row-act (appending event_type outbox_id event_id at now) j t r h =
    find_row-add (event_destination event_type) outbox_id event_id at now j t r h

-- No two rows share an id.
abbrev pub Distinct : Table → Type 0
Distinct [] = Unit
Distinct (r ∷ rs) = (find_row r.id rs ≡ none) × Distinct rs

module _ (p : OutboxRow → Bool) (j : ℕ) (only : (s : OutboxRow) → p s ≡ true → s.id ≡ j) where
  pub matches_absent : (t : Table) → find_row j t ≡ none → matches p t ≡ false
  unfolding matches find_row
  matches_absent [] h = refl
  matches_absent (s ∷ ss) h = ground (arith, only s, matches_absent ss)

  -- A condition that asks for an id holds of the row with that id or of none.
  pub matches_at :
      (t : Table) (r : OutboxRow) → Distinct t → find_row j t ≡ some r → matches p t ≡ p r
  unfolding matches find_row
  matches_at [] r d h = cc
  matches_at (s ∷ ss) r d h = ground (arith, only s, matches_absent ss, matches_at ss r)

find_row-update_absent :
    (p : OutboxRow → Bool) (f : OutboxRow → OutboxRow) (j : ℕ) (t : Table)
    → ((r : OutboxRow) → (f r).id ≡ r.id)
    → find_row j t ≡ none
    → find_row j (update_where p f t) ≡ none
find_row-update_absent p f j t keeps h = rw (find_row-update p f j t keeps, h)

pub Distinct-update :
    (p : OutboxRow → Bool) (f : OutboxRow → OutboxRow) (t : Table)
    → ((r : OutboxRow) → (f r).id ≡ r.id)
    → Distinct t
    → Distinct (update_where p f t)
unfolding update_where
Distinct-update p f [] keeps d = tt
Distinct-update p f (r ∷ rs) keeps d = (
  elim (Bool-cases (p r)) [
    | inl e ↦ rw (e, keeps r) (find_row-update_absent p f r.id rs keeps d.0)
    | inr e ↦ rw e (find_row-update_absent p f r.id rs keeps d.0)
  ],
  Distinct-update p f rs keeps d.1,
)

find_row-append_absent :
    (j : ℕ) (t : Table) (new : OutboxRow)
    → find_row j t ≡ none
    → (new.id == j) ≡ false
    → find_row j (t ++ new ∷ []) ≡ none
unfolding find_row
find_row-append_absent j [] new h k = rw k
find_row-append_absent j (s ∷ ss) new h k = ground (arith, find_row-append_absent j ss new)

Distinct-append :
    (t : Table) (new : OutboxRow) → find_row new.id t ≡ none → Distinct t → Distinct (t ++ new ∷ [])
unfolding find_row
Distinct-append [] new h d = (refl, tt)
Distinct-append (s ∷ ss) new h d =
    (ground (arith, find_row-append_absent s.id ss new), Distinct-append ss new (ground arith) d.1)

Distinct-insert :
    (taken : Option OutboxRow) (new : OutboxRow) (t : Table)
    → taken ≡ find_row new.id t
    → Distinct t
    → Distinct (insert_row taken new t).0
unfolding insert_row
Distinct-insert none new t e d = Distinct-append t new (sym e) d
Distinct-insert (some other) new t e d = d

Distinct-add :
    (destination : Option String) (outbox_id event_id : ℕ) (at : Option ℕ) (now : ℕ) (t : Table)
    → Distinct t
    → Distinct (add_delivery destination outbox_id event_id at now t).0
unfolding add_delivery
Distinct-add none outbox_id event_id at now t d = d
Distinct-add (some destination) outbox_id event_id at now t d =
    Distinct-insert (find_row outbox_id t) (new_row outbox_id event_id destination at now) t refl d

-- Every statement keeps the ids distinct.
pub act-Distinct : (a : Action) (t : Table) → Distinct t → Distinct (act a t).0
unfolding act
act-Distinct (claiming worker draw selected) t d =
    rw claim_row-update (Distinct-update _ _ t (λ _. refl) d)
act-Distinct (renewing outbox_id token now) t d = Distinct-update _ _ t (λ _. refl) d
act-Distinct (publishing outbox_id token at) t d = Distinct-update _ _ t (λ _. refl) d
act-Distinct (failing outbox_id token code at) t d = Distinct-update _ _ t (λ _. refl) d
act-Distinct (dead_lettering outbox_id token code) t d = Distinct-update _ _ t (λ _. refl) d
act-Distinct (appending event_type outbox_id event_id at now) t d =
    Distinct-add (event_destination event_type) outbox_id event_id at now t d

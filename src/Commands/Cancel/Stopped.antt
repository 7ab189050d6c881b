-- ===== src/Commands/Cancel/Stopped.antt =====
-- What a cancellation leaves
-- (src/hisiem_soc_copilot/application/handlers/investigation.py `cancel_investigation`).
use hisiem_soc_copilot.Prelude.{
  ℕ, String, Option, none, some, Option-cases, true, false, Bool-cases, List, [], ◌∷◌, ◌++◌, ◌==◌,
  ◌&&◌, ◌≡◌, refl, sym, ap, ◌∙◌, inl, inr, str_eq, arith, Result, ok, err, str_eq_iff, ==_self,
  is_some, is_ok,
}
use hisiem_soc_copilot.Shared.{ActorRef}
use hisiem_soc_copilot.Commands.Start.Receipts.{commit_receipt_lem, get_investigation-id}
use hisiem_soc_copilot.Investigation.{
  Investigation, InvestigationError, is_active, cancel, clear_events,
}
use hisiem_soc_copilot.Commands.{
  Receipt, Store, Conflict, get_investigation, flushed, commit_receipt, find_receipt,
}
use hisiem_soc_copilot.Commands.Cancel.{
  CancelInvestigation, CancelError, updated, with_row, update, cancel_receipt, committed, saved,
  cancelled_from, cancel_found, cancel_investigation,
}

cancel_lem :
    (actor : Option ActorRef) (now : ℕ) (i j : Investigation)
    → cancel actor now i ≡ ok j
    → (is_active j.status ≡ false)
      × (j.id ≡ i.id)
      × (j.tenant_id ≡ i.tenant_id)
      × (j.lock_version ≡ i.lock_version)
unfolding cancel is_active
cancel_lem actor now i j e = ground (arith, e)

get-own :
    (t : String) (id : ℕ) (is : List Investigation) (i : Investigation)
    → get_investigation t id is ≡ some i
    → str_eq i.tenant_id t ≡ true
unfolding get_investigation
get-own t id [] i e = absurd (ground (arith, e))
get-own t id (x ∷ is) i e = ground (arith, get-own t id is i)

-- The row of the id after an update.
get-update :
    (i : Investigation) (is rows : List Investigation)
    → update i is ≡ some rows
    → (j : Investigation) × (get_investigation i.tenant_id i.id rows ≡ some j)
      × (j.status ≡ i.status)
unfolding update with_row get_investigation updated
get-update i [] rows e = absurd (ground (arith, e))
get-update i (x ∷ is) rows e = elim (Bool-cases (x.id == i.id && str_eq x.tenant_id i.tenant_id)) [
  | inl t ↦ elim (Bool-cases (x.lock_version == i.lock_version)) [
    | inl l ↦
        let q : (updated i x ∷ is) ≡ rows = ground (arith, rw (t, l) at e) in
        rw (← q) (updated i x, rw t refl, refl)
    | inr l ↦ absurd (ground (arith, rw (t, l) at e))
  ]
  | inr t ↦ elim (Option-cases (update i is)) [
    | inl n ↦ absurd (ground (arith, rw (t, n) at e))
    | inr (r, q) ↦
        let same : (x ∷ r) ≡ rows = ground (arith, rw (t, q) at e) in
        rw (← same) (let rest = get-update i is r q in (rest.0, rw t rest.1, rest.2))
  ]
]

cancel_active :
    (actor : Option ActorRef) (now : ℕ) (i : Investigation)
    → is_active i.status ≡ true
    → is_ok (cancel actor now i) ≡ true
unfolding cancel is_active
cancel_active actor now i a = ground (arith, a)

update-found :
    (j i : Investigation) (is : List Investigation)
    → get_investigation j.tenant_id j.id is ≡ some i
    → j.lock_version ≡ i.lock_version
    → is_some (update j is) ≡ true
unfolding update with_row get_investigation
update-found j i [] g l = absurd (ground (arith, g))
update-found j i (x ∷ is) g l = ground (arith, g, l, update-found j i is, ==_self x.lock_version)

-- The investigation is stored with the status of the answer, which is not active.
unfoldable pub IsStopped : CancelInvestigation → Store × Result CancelError Investigation → Type 0
unfolding get_investigation is_active
IsStopped c (s, err e) = Unit
IsStopped c (s, ok i) =
    (is_active i.status ≡ false)
    × ((j : Investigation) × (get_investigation c.tenant_id c.investigation_id s.investigations
          ≡ some j)
        × (j.status ≡ i.status))

module _ (str : ℕ → String) (now : ℕ) (c : CancelInvestigation) (others : Store → Store) where
  -- The row that an update leaves is stored with the status of `i`.
  abbrev StoredAs : Investigation → List Investigation → Type 0
  StoredAs i rows =
      (j : Investigation) × (get_investigation c.tenant_id c.investigation_id rows ≡ some j)
      × (j.status ≡ i.status)

  stops-committed :
      (i : Investigation) (s t : Store) (r : Receipt) (m : Result Conflict Store)
      → is_active i.status ≡ false
      → StoredAs i t.investigations
      → commit_receipt r t ≡ m
      → IsStopped c (committed str now c others i s m)
  stops-committed i s t r (err e) a h q = unfold IsStopped committed in tt
  stops-committed i s t r (ok s') a h q =
      let kept : s'.investigations ≡ t.investigations =
        ap (λ x. x.investigations) (commit_receipt_lem r t s' q) in
      unfold IsStopped committed clear_events in (a, rw kept h)

  stops-saved :
      (i : Investigation) (s : Store) (o : Option (List Investigation))
      → is_active i.status ≡ false
      → ((rows : List Investigation) → o ≡ some rows → StoredAs i rows)
      → IsStopped c (saved str now c others i s o)
  stops-saved i s none a h = unfold IsStopped saved in tt
  stops-saved i s (some rows) a h =
      let s' : Store = record s { investigations = rows; ledger = s.ledger ++ flushed i } in
      unfold saved in
      (stops-committed i s s' (cancel_receipt str c) (commit_receipt (cancel_receipt str c) s') a
        (h rows refl) refl)

  stops-cancelled :
      (s : Store) (i : Investigation) (actor : Option ActorRef)
      (m : Result InvestigationError Investigation)
      → i.id ≡ c.investigation_id
      → i.tenant_id ≡ c.tenant_id
      → cancel actor now i ≡ m
      → IsStopped c (cancelled_from str now c others s m)
  stops-cancelled s i actor (err e) n t q = unfold IsStopped cancelled_from in tt
  stops-cancelled s i actor (ok j) n t q =
      let l = cancel_lem actor now i j q in
      let stored : (rows : List Investigation)
          → update j (others s).investigations ≡ some rows
          → StoredAs j rows =
        λ rows e.
          let g = get-update j (others s).investigations rows e in
          (g.0, rw (sym t, sym n, sym l.1, sym l.2) g.1, g.2) in
      unfold cancelled_from in
      (stops-saved j (others s) (update j (others s).investigations) l.0 stored)

  cancel_investigation-IsStopped :
      (s : Store) → IsStopped c (cancel_investigation str now c others s)
  cancel_investigation-IsStopped s =
      unfold cancel_investigation in
      (go (get_investigation c.tenant_id c.investigation_id s.investigations) refl)
    where
      go :
          (o : Option Investigation)
          → get_investigation c.tenant_id c.investigation_id s.investigations ≡ o
          → IsStopped c (cancel_found str now c others s o)
      go none q = unfold IsStopped cancel_found in tt
      go (some i) q = elim (Bool-cases (is_active i.status)) [
        | inl t ↦
            unfold cancel_found in
            rw t (
              stops-cancelled s i
                (some (record {
                  subject_id = c.initiated_by_subject;
                  tenant_id = c.tenant_id;
                  display_name = none;
                  role_snapshot = none;
                }))
                (cancel
                  (some (record {
                    subject_id = c.initiated_by_subject;
                    tenant_id = c.tenant_id;
                    display_name = none;
                    role_snapshot = none;
                  }))
                  now i)
                (get_investigation-id c.tenant_id c.investigation_id s.investigations i q)
                ((str_eq_iff i.tenant_id c.tenant_id).0
                  (get-own c.tenant_id c.investigation_id s.investigations i q))
                refl)
        | inr t ↦ unfold cancel_found in rw t (unfold IsStopped in (t, (i, q, refl)))
      ]

  returns-saved :
      (i : Investigation) (s : Store) (o : Option (List Investigation))
      → is_some o ≡ true
      → is_some (
          find_receipt c.tenant_id
            (cancel_receipt str c).command_type
            (cancel_receipt str c).idempotency_key
            s.receipts)
        ≡ false
      → is_ok (saved str now c others i s o).1 ≡ true
  returns-saved i s none h f = absurd (ground (arith, h))
  returns-saved i s (some rows) h f = unfold saved committed commit_receipt in rw f refl

  returns-cancelled :
      (s : Store) (i : Investigation) (actor : Option ActorRef)
      (m : Result InvestigationError Investigation)
      → is_active i.status ≡ true
      → get_investigation i.tenant_id i.id (others s).investigations ≡ some i
      → is_some (
          find_receipt c.tenant_id
            (cancel_receipt str c).command_type
            (cancel_receipt str c).idempotency_key
            (others s).receipts)
        ≡ false
      → cancel actor now i ≡ m
      → is_ok (cancelled_from str now c others s m).1 ≡ true
  returns-cancelled s i actor (err e) a g f q =
      absurd (ground (arith, rw q at (cancel_active actor now i a)))
  returns-cancelled s i actor (ok j) a g f q =
      let l = cancel_lem actor now i j q in
      unfold cancelled_from in
      (returns-saved j (others s) (update j (others s).investigations)
        (update-found j i (others s).investigations (rw (l.2, l.1) g) l.3) f)

  -- When the investigation is stored, no other transaction has changed it before the update, and
  -- the key of the receipt is free, a cancellation returns, and it leaves the investigation stored
  -- with the status that it returns, which is not active.
  pub cancel_investigation_returns :
      (s : Store) (i : Investigation)
      → get_investigation c.tenant_id c.investigation_id s.investigations ≡ some i
      → get_investigation c.tenant_id c.investigation_id (others s).investigations ≡ some i
      → is_some (
          find_receipt c.tenant_id
            (cancel_receipt str c).command_type
            (cancel_receipt str c).idempotency_key
            (others s).receipts)
        ≡ false
      → (is_ok (cancel_investigation str now c others s).1 ≡ true)
        × IsStopped c (cancel_investigation str now c others s)
  cancel_investigation_returns s i g g' f =
      (unfold cancel_investigation in rw g returned, cancel_investigation-IsStopped s)
    where
      id_of : i.id ≡ c.investigation_id
      id_of = get_investigation-id c.tenant_id c.investigation_id s.investigations i g

      tenant_of : i.tenant_id ≡ c.tenant_id
      tenant_of =
          (str_eq_iff i.tenant_id c.tenant_id).0
            (get-own c.tenant_id c.investigation_id s.investigations i g)

      actor : ActorRef
      actor = record {
        subject_id = c.initiated_by_subject;
        tenant_id = c.tenant_id;
        display_name = none;
        role_snapshot = none;
      }

      returned : is_ok (cancel_found str now c others s (some i)).1 ≡ true
      returned = elim (Bool-cases (is_active i.status)) [
        | inl t ↦
            unfold cancel_found in
            rw t (
              returns-cancelled s i (some actor) (cancel (some actor) now i) t
                (ap (λ t. get_investigation t i.id (others s).investigations) tenant_of
                  ∙ (ap (λ n. get_investigation c.tenant_id n (others s).investigations) id_of
                      ∙ g'))
                f refl)
        | inr t ↦ unfold cancel_found in rw t refl
      ]

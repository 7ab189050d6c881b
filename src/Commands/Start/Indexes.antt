-- ===== src/Commands/Start/Indexes.antt =====
-- The unique indexes, as counts of rows, and the commits that they guard
-- (src/hisiem_soc_copilot/infrastructure/persistence/orm/investigation.py and orm/events.py).
use hisiem_soc_copilot.Prelude.{
  String, Bool, true, false, Bool-cases, List, [], ◌∷◌, ◌≡◌, refl, inl, inr, ◌&&◌, if◌then◌else◌,
  is_some, arith, ok, err, str_eq, length, keep, str_eq_iff, ◌≤◌, sym,
}
use hisiem_soc_copilot.Shared.{ExternalResourceRef}
use hisiem_soc_copilot.Investigation.{
  Investigation, is_active, clear_events, InvestigationStatus, created, running, completed, failed,
  cancelled,
}
use hisiem_soc_copilot.Commands.{
  Receipt, Store, active_investigation_exists, find_active, find_receipt, commit_receipt,
  commit_new, is_active_for, same_alert, is_receipt_of,
}
use hisiem_soc_copilot.Commands.Start.Receipts.{commit_receipt_lem, inserted}

-- What the unique indexes say, without the queries of the code: a live investigation has the status
-- CREATED or RUNNING.
unfoldable pub is_live : InvestigationStatus → Bool
is_live created = true
is_live running = true
is_live completed = false
is_live failed = false
is_live cancelled = false

unfoldable pub is_live_at : String → String → String → String → Investigation → Bool
unfolding is_live
is_live_at tenant_id provider resource_type address_id i =
    is_live i.status
    && str_eq i.tenant_id tenant_id
    && str_eq i.source_alert_ref.provider provider
    && str_eq i.source_alert_ref.resource_type resource_type
    && str_eq i.source_alert_ref.address_id address_id

unfoldable pub has_key : String → String → String → Receipt → Bool
has_key tenant_id command_type key r =
    str_eq r.idempotency_key key
    && str_eq r.command_type command_type
    && str_eq r.tenant_id tenant_id

-- For every alert of a tenant the live investigations, and for every key the receipts, are counted.
pub record IsUnique (s : Store) : Type 0 where
  pub active :
      (tenant_id provider resource_type address_id : String)
      → length (keep (is_live_at tenant_id provider resource_type address_id) s.investigations) ≤ 1
  pub receipts :
      (tenant_id command_type key : String)
      → length (keep (has_key tenant_id command_type key) s.receipts) ≤ 1

-- What a query does not find is not there.
none_live :
    (t : String) (ref : ExternalResourceRef) (is : List Investigation)
    → is_some (find_active t ref is) ≡ false
    → length (keep (is_live_at t ref.provider ref.resource_type ref.address_id) is) ≡ 0
unfolding find_active is_active_for same_alert is_active is_live_at is_live
none_live t ref [] h = refl
none_live t ref (i ∷ is) h = ground (arith, h, none_live t ref is)

none_keyed :
    (t ty k : String) (rs : List Receipt)
    → is_some (find_receipt t ty k rs) ≡ false
    → length (keep (has_key t ty k) rs) ≡ 0
unfolding find_receipt is_receipt_of has_key
none_keyed t ty k [] h = refl
none_keyed t ty k (r ∷ rs) h = ground (arith, h, none_keyed t ty k rs)

one_live :
    (t p y a : String) (i : Investigation) (is : List Investigation)
    → (is_active i.status && is_some (find_active i.tenant_id i.source_alert_ref is)) ≡ false
    → length (keep (is_live_at t p y a) is) ≤ 1
    → length (keep (is_live_at t p y a) (clear_events i ∷ is)) ≤ 1
one_live t p y a i is f h = elim (Bool-cases (is_live_at t p y a (clear_events i))) [
  | inr n ↦ rw n h
  | inl e ↦
      let parts : (is_active i.status ≡ true)
          × (str_eq i.tenant_id t ≡ true)
          × (str_eq i.source_alert_ref.provider p ≡ true)
          × (str_eq i.source_alert_ref.resource_type y ≡ true)
          × (str_eq i.source_alert_ref.address_id a ≡ true) =
        unfold is_live_at is_live is_active clear_events in ground (arith, e) in
      let none : length (keep (is_live_at t p y a) is) ≡ 0 =
        rw
          (
            sym ((str_eq_iff i.tenant_id t).0 parts.1),
            sym ((str_eq_iff i.source_alert_ref.provider p).0 parts.2),
            sym ((str_eq_iff i.source_alert_ref.resource_type y).0 parts.3),
            sym ((str_eq_iff i.source_alert_ref.address_id a).0 parts.4),
          )
          (none_live i.tenant_id i.source_alert_ref is (ground (arith, f, parts.0))) in
      rw e (omega (arith, none))
]

one_keyed :
    (t ty k : String) (r : Receipt) (rs : List Receipt)
    → is_some (find_receipt r.tenant_id r.command_type r.idempotency_key rs) ≡ false
    → length (keep (has_key t ty k) rs) ≤ 1
    → length (keep (has_key t ty k) (r ∷ rs)) ≤ 1
one_keyed t ty k r rs f h = elim (Bool-cases (has_key t ty k r)) [
  | inr n ↦ rw n h
  | inl e ↦
      let parts : (str_eq r.tenant_id t ≡ true)
          × (str_eq r.command_type ty ≡ true)
          × (str_eq r.idempotency_key k ≡ true) =
        unfold has_key in ground (arith, e) in
      let none : length (keep (has_key t ty k) rs) ≡ 0 =
        rw
          (
            sym ((str_eq_iff r.tenant_id t).0 parts.0),
            sym ((str_eq_iff r.command_type ty).0 parts.1),
            sym ((str_eq_iff r.idempotency_key k).0 parts.2),
          )
          (none_keyed r.tenant_id r.command_type r.idempotency_key rs f) in
      rw e (omega (arith, none))
]

commit_receipt_new :
    (r : Receipt) (s s' : Store)
    → commit_receipt r s ≡ ok s'
    → is_some (find_receipt r.tenant_id r.command_type r.idempotency_key s.receipts) ≡ false
unfolding commit_receipt
commit_receipt_new r s s' e =
    elim (Bool-cases
      (is_some (find_receipt r.tenant_id r.command_type r.idempotency_key s.receipts))) [
        | inl t ↦ absurd (ground (arith, rw t at e))
        | inr t ↦ t
      ]

pub commit_receipt-IsUnique :
    (r : Receipt) (s s' : Store) → IsUnique s → commit_receipt r s ≡ ok s' → IsUnique s'
commit_receipt-IsUnique r s s' u e =
    let fresh = commit_receipt_new r s s' e in
    rw (commit_receipt_lem r s s' e) (record {
      active = u.active;
      receipts = λ t ty k. one_keyed t ty k r s.receipts fresh (u.receipts t ty k);
    })

inserted-IsUnique :
    (i : Investigation) (s : Store)
    → (is_active i.status && is_some (find_active i.tenant_id i.source_alert_ref s.investigations))
      ≡ false
    → IsUnique s
    → IsUnique (inserted i s)
inserted-IsUnique i s f u = record {
  active = λ t p y a. one_live t p y a i s.investigations f (u.active t p y a);
  receipts = u.receipts;
}

pub commit_new-IsUnique :
    (i : Investigation) (r : Receipt) (s s' : Store)
    → IsUnique s
    → commit_new i r s ≡ ok s'
    → IsUnique s'
commit_new-IsUnique i r s s' u e =
    go (is_active i.status && is_some (find_active i.tenant_id i.source_alert_ref s.investigations))
      refl (unfold commit_new in e)
  where
    go :
        (b : Bool)
        → (is_active i.status
            && is_some (find_active i.tenant_id i.source_alert_ref s.investigations))
          ≡ b
        → (if b then err active_investigation_exists else commit_receipt r (inserted i s)) ≡ ok s'
        → IsUnique s'
    go true q h = absurd (ground (arith, h))
    go false q h = commit_receipt-IsUnique r (inserted i s) s' (inserted-IsUnique i s q u) h

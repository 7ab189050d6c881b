-- ===== src/Commands/Start/Receipts.antt =====
-- A key stays bound to the investigation that its first request returned
-- (src/hisiem_soc_copilot/application/handlers/investigation.py `start_alert_investigation`).
use hisiem_soc_copilot.Prelude.{
  ℕ, String, Option, none, some, Option-cases, Bool, true, false, Bool-cases, List, [], ◌∷◌, ◌++◌,
  ◌≡◌, refl, sym, ap, ◌∙◌, inl, inr, ◌&&◌, ==_self, str_eq_refl, if◌then◌else◌, is_some, arith,
  Result, ok, err,
}
use hisiem_soc_copilot.Investigation.{Investigation, clear_events, is_active}
use hisiem_soc_copilot.Commands.{
  Receipt, Store, active_investigation_exists, get_investigation, find_active, is_active_for,
  flushed, find_receipt, is_receipt_of, commit_receipt, commit_new,
}
use hisiem_soc_copilot.Commands.Start.{
  StartAlertInvestigation, StartError, Call, start_type, is_other_request, start_receipt,
  receipt_target, found_or, required, bound_receipt, lookup, winner_from, resolve_receipt_conflict,
}

abbrev pub Has : String → ℕ → Store → Type 0
Has tenant_id id s = is_some (get_investigation tenant_id id s.investigations) ≡ true

-- What other transactions leave alone: receipts are never changed, and no investigation is deleted.
pub record Grows (s s' : Store) : Type 0 where
  pub receipts_kept :
      (t ty k : String) (r : Receipt)
      → find_receipt t ty k s.receipts ≡ some r
      → find_receipt t ty k s'.receipts ≡ some r
  pub investigations_kept : (t : String) (id : ℕ) → Has t id s → Has t id s'

-- The key of the request names the investigation, and the fingerprint agrees.
abbrev pub Bound : Call → StartAlertInvestigation → String → ℕ → Store → Type 0
Bound call c key id s =
    (f : Option String) × (lookup c key s ≡ some (id, f))
    × (is_other_request f (call.fingerprint c.source_alert_ref) ≡ false)
    × Has c.tenant_id id s

pub get_investigation-id :
    (t : String) (id : ℕ) (is : List Investigation) (i : Investigation)
    → get_investigation t id is ≡ some i
    → i.id ≡ id
unfolding get_investigation
get_investigation-id t id [] i e = absurd (ground (arith, e))
get_investigation-id t id (x ∷ is) i e = ground (arith, get_investigation-id t id is i)

-- An active investigation that is found is one of the tenant's.
pub Has-find_active :
    (c : StartAlertInvestigation) (is : List Investigation) (i : Investigation)
    → find_active c.tenant_id c.source_alert_ref is ≡ some i
    → is_some (get_investigation c.tenant_id i.id is) ≡ true
unfolding get_investigation find_active is_active_for
Has-find_active c [] i e = absurd (ground (arith, e))
Has-find_active c (x ∷ is) i e = ground (arith, Has-find_active c is i, ==_self x.id)

Grows-lookup :
    (c : StartAlertInvestigation) (key : String) (s s' : Store) (p : ℕ × Option String)
    → Grows s s'
    → lookup c key s ≡ some p
    → lookup c key s' ≡ some p
unfolding lookup
Grows-lookup c key s s' p g e =
    elim (Option-cases (find_receipt c.tenant_id start_type key s.receipts)) [
      | inl n ↦ absurd (unfold bound_receipt in ground (arith, e, n))
      | inr (r, q) ↦ rw (g.receipts_kept c.tenant_id start_type key r q) (rw q at e)
    ]

pub Grows-Bound :
    (call : Call) (c : StartAlertInvestigation) (key : String) (id : ℕ) (s s' : Store)
    → Grows s s'
    → Bound call c key id s
    → Bound call c key id s'
Grows-Bound call c key id s s' g b =
    (b.0, Grows-lookup c key s s' (id, b.0) g b.1, b.2, g.investigations_kept c.tenant_id id b.3)

-- The receipt names an investigation that is there, and the request is the same.
abbrev IsTarget :
    Call → StartAlertInvestigation → Option String → ℕ → Store → Investigation → Type 0
IsTarget call c f id s i =
    (is_other_request f (call.fingerprint c.source_alert_ref) ≡ false)
    × (get_investigation c.tenant_id id s.investigations ≡ some i)

pub receipt_target-IsTarget :
    (call : Call) (c : StartAlertInvestigation) (f : Option String) (id : ℕ) (s : Store)
    (o : Option Investigation)
    → receipt_target call c f id s ≡ ok o
    → (is_other_request f (call.fingerprint c.source_alert_ref) ≡ false)
      × (get_investigation c.tenant_id id s.investigations ≡ o)
unfolding receipt_target
receipt_target-IsTarget call c f id s o e =
    elim (Bool-cases (is_other_request f (call.fingerprint c.source_alert_ref))) [
      | inl t ↦ absurd (ground (arith, rw t at e))
      | inr t ↦ (t, ground (arith, rw t at e))
    ]

pub required-IsTarget :
    (call : Call) (c : StartAlertInvestigation) (f : Option String) (id : ℕ) (s : Store)
    (i : Investigation)
    → required (receipt_target call c f id s) ≡ ok i
    → IsTarget call c f id s i
required-IsTarget call c f id s i e = go (receipt_target call c f id s) refl e
  where
    go :
        (r : Result StartError (Option Investigation))
        → receipt_target call c f id s ≡ r
        → required r ≡ ok i
        → IsTarget call c f id s i
    go (err x) q h = absurd (unfold required in ground (arith, h))
    go (ok none) q h = absurd (unfold required found_or in ground (arith, h))
    go (ok (some j)) q h =
        let t = receipt_target-IsTarget call c f id s (some j) q in
        let same : j ≡ i = unfold required found_or in ground (arith, h) in
        (t.0, t.1 ∙ ap (λ x. some x) same)

pub Bound-IsTarget :
    (call : Call) (c : StartAlertInvestigation) (key : String) (s : Store) (id : ℕ)
    (f : Option String) (i : Investigation)
    → lookup c key s ≡ some (id, f)
    → IsTarget call c f id s i
    → Bound call c key i.id s
Bound-IsTarget call c key s id f i e t =
    let same = get_investigation-id c.tenant_id id s.investigations i t.1 in
    rw same (f, e, t.0, rw t.1 refl)

pub resolve_receipt_conflict-Bound :
    (call : Call) (c : StartAlertInvestigation) (key : String) (s : Store) (i : Investigation)
    → resolve_receipt_conflict call c key s ≡ ok i
    → Bound call c key i.id s
resolve_receipt_conflict-Bound call c key s i e =
    go (lookup c key s) refl (unfold resolve_receipt_conflict in e)
  where
    go :
        (o : Option (ℕ × Option String))
        → lookup c key s ≡ o
        → winner_from call c s o ≡ ok i
        → Bound call c key i.id s
    go none q h = absurd (unfold winner_from in ground (arith, h))
    go (some (id, f)) q h =
        Bound-IsTarget call c key s id f i q
          (required-IsTarget call c f id s i (unfold winner_from in h))

same_request : (f : String) → is_other_request (some f) f ≡ false
unfolding is_other_request
same_request f = ground (arith, str_eq_refl f)

find_receipt-own :
    (t ty k : String) (r : Receipt) (rs : List Receipt)
    → r.tenant_id ≡ t
    → r.command_type ≡ ty
    → r.idempotency_key ≡ k
    → find_receipt t ty k (r ∷ rs) ≡ some r
unfolding find_receipt is_receipt_of
find_receipt-own t ty k r rs a b d = rw (a, b, d, str_eq_refl t, str_eq_refl ty, str_eq_refl k) refl

lookup-own :
    (call : Call) (c : StartAlertInvestigation) (key : String) (id : ℕ) (s : Store)
    (rs : List Receipt)
    → s.receipts ≡ start_receipt call c key id ∷ rs
    → lookup c key s ≡ some (id, some (call.fingerprint c.source_alert_ref))
lookup-own call c key id s rs e =
    unfold lookup in
    rw
      (
        e,
        find_receipt-own c.tenant_id start_type key (start_receipt call c key id) rs
            (unfold start_receipt in refl) (unfold start_receipt in refl)
            (unfold start_receipt in refl),
      )
      (unfold bound_receipt start_receipt in refl)

pub Own-Bound :
    (call : Call) (c : StartAlertInvestigation) (key : String) (id : ℕ) (s : Store)
    (rs : List Receipt)
    → s.receipts ≡ start_receipt call c key id ∷ rs
    → Has c.tenant_id id s
    → Bound call c key id s
Own-Bound call c key id s rs e h = (
  some (call.fingerprint c.source_alert_ref),
  lookup-own call c key id s rs e,
  same_request (call.fingerprint c.source_alert_ref),
  h,
)

pub commit_receipt_lem :
    (r : Receipt) (s s' : Store)
    → commit_receipt r s ≡ ok s'
    → s' ≡ record s { receipts = r ∷ s.receipts }
unfolding commit_receipt
commit_receipt_lem r s s' e =
    elim (Bool-cases
      (is_some (find_receipt r.tenant_id r.command_type r.idempotency_key s.receipts))) [
        | inl t ↦ absurd (ground (arith, rw t at e))
        | inr t ↦ sym (ground (arith, rw t at e))
      ]

-- The row of the investigation as the commit leaves it.
abbrev pub inserted : Investigation → Store → Store
inserted i s = record s {
  investigations = clear_events i ∷ s.investigations;
  ledger = s.ledger ++ flushed i;
}

Has-inserted :
    (i : Investigation) (t : String) (s : Store) → i.tenant_id ≡ t → Has t i.id (inserted i s)
Has-inserted i t s e =
    unfold get_investigation clear_events in ground (arith, e, str_eq_refl t, ==_self i.id)

commit_new_lem :
    (i : Investigation) (r : Receipt) (s s' : Store)
    → commit_new i r s ≡ ok s'
    → s' ≡ record (inserted i s) { receipts = r ∷ s.receipts }
commit_new_lem i r s s' e =
    go (is_active i.status && is_some (find_active i.tenant_id i.source_alert_ref s.investigations))
      (unfold commit_new in e)
  where
    go :
        (b : Bool)
        → (if b then err active_investigation_exists else commit_receipt r (inserted i s)) ≡ ok s'
        → s' ≡ record (inserted i s) { receipts = r ∷ s.receipts }
    go true h = absurd (ground (arith, h))
    go false h = commit_receipt_lem r (inserted i s) s' h

pub commit_new-Bound :
    (call : Call) (c : StartAlertInvestigation) (key : String) (i : Investigation) (s s' : Store)
    → commit_new i (start_receipt call c key i.id) s ≡ ok s'
    → i.tenant_id ≡ c.tenant_id
    → Bound call c key i.id s'
commit_new-Bound call c key i s s' e t =
    rw (commit_new_lem i (start_receipt call c key i.id) s s' e) (
      Own-Bound call c key i.id
        (record (inserted i s) { receipts = start_receipt call c key i.id ∷ s.receipts }) s.receipts
        refl (Has-inserted i c.tenant_id s t))

-- ===== src/Commands/Start/Uniqueness.antt =====
-- One active investigation for an alert, and one receipt for a key
-- (src/hisiem_soc_copilot/application/handlers/investigation.py `start_alert_investigation`,
-- infrastructure/persistence/orm/investigation.py and orm/events.py for the unique indexes).
use hisiem_soc_copilot.Prelude.{
  ℕ, String, Option, none, some, Bool, true, false, Bool-cases, ◌≡◌, refl, inl, inr, Result, ok,
  err,
}
use hisiem_soc_copilot.Shared.{is_alert}
use hisiem_soc_copilot.Investigation.{Investigation}
use hisiem_soc_copilot.Commands.{
  Receipt, Store, Conflict, active_investigation_exists, command_receipt_conflict, find_active,
  given_key, commit_receipt, commit_new,
}
use hisiem_soc_copilot.Commands.Start.{
  StartAlertInvestigation, StartError, Call, start_receipt, lookup, find_replayed, bound_from,
  bind_from, bind_key, bind_or_replay_existing, read_active_or_raise, after_conflict,
  new_investigation, receipt_key, created_from, create_investigation, recheck, hydrate, with_active,
  look_for_active, after_replay, start_with, start_alert_investigation,
}
use hisiem_soc_copilot.Commands.Start.Indexes.{
  IsUnique, commit_receipt-IsUnique, commit_new-IsUnique,
}

module _ (call : Call) (c : StartAlertInvestigation) (others : ℕ → Store → Store)
    (kept : (n : ℕ) (s : Store) → IsUnique s → IsUnique (others n s)) where
  abbrev Keeps : Store × Result StartError Investigation → Type 0
  Keeps r = IsUnique r.0

  Keeps-bound_from :
      (key : String) (i : Investigation) (s : Store) (r : Result Conflict Store)
      → IsUnique s
      → commit_receipt (start_receipt call c key i.id) s ≡ r
      → Keeps (bound_from call c others key i s r)
  unfolding bound_from
  Keeps-bound_from key i s (err x) u q = kept 7 s u
  Keeps-bound_from key i s (ok s') u q =
      commit_receipt-IsUnique (start_receipt call c key i.id) s s' u q

  Keeps-bind_from :
      (key : String) (i : Investigation) (s : Store) (o : Option (ℕ × Option String))
      → IsUnique s
      → Keeps (bind_from call c others key i s o)
  unfolding bind_from
  Keeps-bind_from key i s (some p) u = u
  Keeps-bind_from key i s none u =
      Keeps-bound_from key i (others 6 s)
        (commit_receipt (start_receipt call c key i.id) (others 6 s)) (kept 6 s u) refl

  Keeps-bind_key :
      (o : Option String) (i : Investigation) (s : Store)
      → IsUnique s
      → Keeps (bind_key call c others o i s)
  unfolding bind_key
  Keeps-bind_key none i s u = u
  Keeps-bind_key (some key) i s u =
      Keeps-bind_from key i (others 5 s) (lookup c key (others 5 s)) (kept 5 s u)

  Keeps-bind :
      (i : Investigation) (s : Store)
      → IsUnique s
      → Keeps (bind_or_replay_existing call c others i s)
  unfolding bind_or_replay_existing
  Keeps-bind i s u = Keeps-bind_key (given_key c.idempotency_key) i s u

  Keeps-read :
      (o : Option Investigation) (s : Store)
      → IsUnique s
      → Keeps (read_active_or_raise call c others o s)
  unfolding read_active_or_raise
  Keeps-read none s u = u
  Keeps-read (some w) s u = Keeps-bind w s u

  Keeps-after_conflict :
      (x : Conflict) (s : Store) → IsUnique s → Keeps (after_conflict call c others x s)
  unfolding after_conflict
  Keeps-after_conflict active_investigation_exists s u =
      Keeps-read (find_active c.tenant_id c.source_alert_ref s.investigations) s u
  Keeps-after_conflict command_receipt_conflict s u = u

  Keeps-created_from :
      (i : Investigation) (r : Receipt) (s : Store) (m : Result Conflict Store)
      → IsUnique s
      → commit_new i r s ≡ m
      → Keeps (created_from call c others s m)
  unfolding created_from
  Keeps-created_from i r s (err x) u q = Keeps-after_conflict x (others 4 s) (kept 4 s u)
  Keeps-created_from i r s (ok s') u q = commit_new-IsUnique i r s s' u q

  Keeps-create : (s : Store) → IsUnique s → Keeps (create_investigation call c others s)
  unfolding create_investigation
  Keeps-create s u =
      let i = new_investigation call c others in
      let r =
        start_receipt call c (receipt_key call c others (given_key c.idempotency_key))
          call.new_id in
      Keeps-created_from i r s (commit_new i r s) u refl

  Keeps-recheck :
      (o : Option Investigation) (s : Store) → IsUnique s → Keeps (recheck call c others o s)
  unfolding recheck
  Keeps-recheck (some i) s u = Keeps-bind i s u
  Keeps-recheck none s u = Keeps-create (others 3 s) (kept 3 s u)

  Keeps-hydrate : (b : Bool) (s : Store) → IsUnique s → Keeps (hydrate call c others b s)
  unfolding hydrate
  Keeps-hydrate false s u = u
  Keeps-hydrate true s u =
      Keeps-recheck (find_active c.tenant_id c.source_alert_ref (others 2 s).investigations)
        (others 2 s) (kept 2 s u)

  Keeps-look : (s : Store) → IsUnique s → Keeps (look_for_active call c others s)
  unfolding look_for_active
  Keeps-look s u = go (find_active c.tenant_id c.source_alert_ref s.investigations)
    where
      go : (o : Option Investigation) → Keeps (with_active call c others o s)
      go (some i) = unfold with_active in (Keeps-bind i s u)
      go none =
          unfold with_active in
          (Keeps-hydrate (call.get_alert c.tenant_id c.source_alert_ref.address_id) s u)

  Keeps-after_replay :
      (s : Store) (r : Result StartError (Option Investigation))
      → IsUnique s
      → Keeps (after_replay call c others s r)
  unfolding after_replay
  Keeps-after_replay s (err e) u = u
  Keeps-after_replay s (ok (some i)) u = u
  Keeps-after_replay s (ok none) u = Keeps-look (others 1 s) (kept 1 s u)

  Keeps-start_with :
      (o : Option String) (s : Store) → IsUnique s → Keeps (start_with call c others o s)
  unfolding start_with
  Keeps-start_with (some key) s u =
      Keeps-after_replay (others 0 s) (find_replayed call c key (others 0 s)) (kept 0 s u)
  Keeps-start_with none s u = Keeps-look (others 1 s) (kept 1 s u)

  -- When the other transactions keep it, a start keeps this: of the investigations of a tenant at
  -- an alert's provider, resource type and address, one at most is CREATED or RUNNING, and of the
  -- receipts of a tenant, command type and key there is one at most.
  pub start-IsUnique :
      (s : Store) → IsUnique s → IsUnique (start_alert_investigation call c others s).0
  start-IsUnique s u = elim (Bool-cases (is_alert c.source_alert_ref)) [
    | inl t ↦
        unfold start_alert_investigation in
        rw t (Keeps-start_with (given_key c.idempotency_key) s u)
    | inr t ↦ unfold start_alert_investigation in rw t u
  ]

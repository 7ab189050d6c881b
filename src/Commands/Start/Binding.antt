-- ===== src/Commands/Start/Binding.antt =====
-- A start that returns leaves its key bound, and a bound key is answered with its investigation
-- (src/hisiem_soc_copilot/application/handlers/investigation.py `start_alert_investigation`).
use mathlib.Core.Path.{subst}
use hisiem_soc_copilot.Prelude.{
  ℕ, String, Option, none, some, Option-cases, Bool, true, false, Bool-cases, ◌∷◌, ◌≡◌, refl, sym,
  ap, ◌∙◌, ◌⊎◌, inl, inr, arith, Result, ok, err, or_else,
}
use hisiem_soc_copilot.Shared.{is_alert}
use hisiem_soc_copilot.Investigation.{Investigation, clear_events, create}
use hisiem_soc_copilot.Commands.{
  Store, Conflict, active_investigation_exists, command_receipt_conflict, get_investigation,
  find_active, given_key, commit_receipt, commit_new,
}
use hisiem_soc_copilot.Commands.Start.{
  StartAlertInvestigation, StartError, not_an_alert, Call, start_receipt, receipt_target, lookup,
  replayed_from, find_replayed, bound_from, bind_from, bind_key, bind_or_replay_existing,
  read_active_or_raise, after_conflict, new_investigation, receipt_key, created_from,
  create_investigation, recheck, hydrate, with_active, look_for_active, after_replay, start_with,
  start_alert_investigation,
}
use hisiem_soc_copilot.Commands.Start.Receipts.{
  Has, Grows, Bound, Grows-Bound, Has-find_active, get_investigation-id, receipt_target-IsTarget,
  required-IsTarget, Bound-IsTarget, resolve_receipt_conflict-Bound, Own-Bound, commit_receipt_lem,
  commit_new-Bound,
}

module _ (call : Call) (c : StartAlertInvestigation) (others : ℕ → Store → Store)
    (grow : (n : ℕ) (s : Store) → Grows s (others n s)) where
  -- What a step that returned leaves bound.
  abbrev Binds : String → Investigation → Store × Result StartError Investigation → Type 0
  Binds key i r = r.1 ≡ ok i → Bound call c key i.id r.0

  Binds-bound_from :
      (key : String) (i j : Investigation) (s : Store) (r : Result Conflict Store)
      → Has c.tenant_id i.id s
      → commit_receipt (start_receipt call c key i.id) s ≡ r
      → Binds key j (bound_from call c others key i s r)
  Binds-bound_from key i j s (err x) h q e =
      unfold bound_from in
      (resolve_receipt_conflict-Bound call c key (others 7 s) j (unfold bound_from in e))
  Binds-bound_from key i j s (ok s') h q e =
      let l = commit_receipt_lem (start_receipt call c key i.id) s s' q in
      let same : i ≡ j = unfold bound_from in ground (arith, e) in
      unfold bound_from in
      (rw (← same, l)
        (Own-Bound call c key i.id
          (record s { receipts = start_receipt call c key i.id ∷ s.receipts }) s.receipts refl h))

  Binds-bind_from :
      (key : String) (i j : Investigation) (s : Store) (o : Option (ℕ × Option String))
      → Has c.tenant_id i.id s
      → lookup c key s ≡ o
      → Binds key j (bind_from call c others key i s o)
  Binds-bind_from key i j s (some (id, f)) h q e =
      unfold bind_from in
      (Bound-IsTarget call c key s id f j q
        (required-IsTarget call c f id s j (unfold bind_from in e)))
  Binds-bind_from key i j s none h q e =
      unfold bind_from in
      (Binds-bound_from key i j (others 6 s)
        (commit_receipt (start_receipt call c key i.id) (others 6 s))
        ((grow 6 s).investigations_kept c.tenant_id i.id h) refl (unfold bind_from in e))

  module _ (key : String) (k : given_key c.idempotency_key ≡ some key) where
    Binds-bind :
        (i j : Investigation) (s : Store)
        → Has c.tenant_id i.id s
        → Binds key j (bind_or_replay_existing call c others i s)
    Binds-bind i j s h = subst (Binds key j) (sym step) (
        Binds-bind_from key i j (others 5 s) (lookup c key (others 5 s))
          ((grow 5 s).investigations_kept c.tenant_id i.id h) refl)
      where
        step :
            bind_or_replay_existing call c others i s
            ≡ bind_from call c others key i (others 5 s) (lookup c key (others 5 s))
        step = unfold bind_or_replay_existing bind_key in rw k refl

    key_of_given : or_else c.idempotency_key "" ≡ key
    key_of_given = go c.idempotency_key k
      where
        go : (o : Option String) → given_key o ≡ some key → or_else o "" ≡ key
        go none e = absurd (unfold given_key in ground (arith, e))
        go (some t) e = unfold given_key in ground (arith, e)

    Binds-found :
        (o : Option Investigation) (j : Investigation) (s : Store)
        → find_active c.tenant_id c.source_alert_ref s.investigations ≡ o
        → Binds key j (read_active_or_raise call c others o s)
    Binds-found none j s q e = absurd (unfold read_active_or_raise in ground (arith, e))
    Binds-found (some w) j s q e =
        unfold read_active_or_raise in
        (Binds-bind w j s (Has-find_active c s.investigations w q)
          (unfold read_active_or_raise in e))

    Binds-after_conflict :
        (x : Conflict) (j : Investigation) (s : Store)
        → Binds key j (after_conflict call c others x s)
    Binds-after_conflict active_investigation_exists j s =
        unfold after_conflict in
        (Binds-found (find_active c.tenant_id c.source_alert_ref s.investigations) j s refl)
    Binds-after_conflict command_receipt_conflict j s =
        unfold after_conflict in rw key_of_given (resolve_receipt_conflict-Bound call c key s j)

    Binds-created_from :
        (j : Investigation) (s : Store) (r : Result Conflict Store)
        → commit_new (new_investigation call c others) (start_receipt call c key call.new_id) s ≡ r
        → Binds key j (created_from call c others s r)
    Binds-created_from j s (err x) q e =
        unfold created_from in (Binds-after_conflict x j (others 4 s) (unfold created_from in e))
    Binds-created_from j s (ok s') q e =
        let b : Bound call c key call.new_id s' =
          unfold new_investigation create in
          (commit_new-Bound call c key (new_investigation call c others) s s' q refl) in
        let same : call.new_id ≡ j.id =
          unfold created_from new_investigation create clear_events in ground (arith, e) in
        unfold created_from in (rw (← same) b)

    Binds-create :
        (j : Investigation) (s : Store) → Binds key j (create_investigation call c others s)
    Binds-create j s = subst (Binds key j) (sym step) (
        Binds-created_from j s
          (commit_new (new_investigation call c others) (start_receipt call c key call.new_id) s)
          refl)
      where
        step :
            create_investigation call c others s
            ≡ created_from call c others s (
                commit_new
                  (new_investigation call c others)
                  (start_receipt call c key call.new_id)
                  s)
        step = unfold create_investigation receipt_key in rw k refl

    Binds-recheck :
        (o : Option Investigation) (j : Investigation) (s : Store)
        → find_active c.tenant_id c.source_alert_ref s.investigations ≡ o
        → Binds key j (recheck call c others o s)
    Binds-recheck (some i) j s q e =
        unfold recheck in
        (Binds-bind i j s (Has-find_active c s.investigations i q) (unfold recheck in e))
    Binds-recheck none j s q e =
        unfold recheck in (Binds-create j (others 3 s) (unfold recheck in e))

    Binds-hydrate :
        (b : Bool) (j : Investigation) (s : Store) → Binds key j (hydrate call c others b s)
    Binds-hydrate false j s e = absurd (unfold hydrate in ground (arith, e))
    Binds-hydrate true j s e =
        unfold hydrate in
        (Binds-recheck (find_active c.tenant_id c.source_alert_ref (others 2 s).investigations) j
          (others 2 s) refl (unfold hydrate in e))

    Binds-with_active :
        (o : Option Investigation) (j : Investigation) (s : Store)
        → find_active c.tenant_id c.source_alert_ref s.investigations ≡ o
        → Binds key j (with_active call c others o s)
    Binds-with_active (some i) j s q e =
        unfold with_active in
        (Binds-bind i j s (Has-find_active c s.investigations i q) (unfold with_active in e))
    Binds-with_active none j s q e =
        unfold with_active in
        (Binds-hydrate (call.get_alert c.tenant_id c.source_alert_ref.address_id) j s
          (unfold with_active in e))

    Binds-after_replay :
        (j : Investigation) (s : Store) (r : Result StartError (Option Investigation))
        → find_replayed call c key s ≡ r
        → Binds key j (after_replay call c others s r)
    Binds-after_replay j s (err x) q e = absurd (unfold after_replay in ground (arith, e))
    Binds-after_replay j s (ok none) q e =
        unfold after_replay look_for_active in
        (Binds-with_active (find_active c.tenant_id c.source_alert_ref (others 1 s).investigations)
          j (others 1 s) refl (unfold after_replay look_for_active in e))
    Binds-after_replay j s (ok (some i)) q e =
        let same : i ≡ j = unfold after_replay in ground (arith, e) in
        unfold after_replay in
        rw (← same) (replayed (lookup c key s) refl (unfold find_replayed in q))
      where
        replayed :
            (o : Option (ℕ × Option String))
            → lookup c key s ≡ o
            → replayed_from call c s o ≡ ok (some i)
            → Bound call c key i.id s
        replayed none p h = absurd (unfold replayed_from in ground (arith, h))
        replayed (some (id, f)) p h =
            Bound-IsTarget call c key s id f i p
              (receipt_target-IsTarget call c f id s (some i) (unfold replayed_from in h))

    start_alert_step :
        (s : Store)
        → is_alert c.source_alert_ref ≡ true
        → start_alert_investigation call c others s
          ≡ after_replay call c others (others 0 s) (find_replayed call c key (others 0 s))
    start_alert_step s q = unfold start_alert_investigation start_with in rw (q, k) refl

    start_other_step :
        (s : Store)
        → is_alert c.source_alert_ref ≡ false
        → start_alert_investigation call c others s ≡ (s, err not_an_alert)
    start_other_step s q = unfold start_alert_investigation in rw q refl

    pub start-Bound :
        (j : Investigation) (s : Store)
        → (start_alert_investigation call c others s).1 ≡ ok j
        → Bound call c key j.id (start_alert_investigation call c others s).0
    start-Bound j s = elim (Bool-cases (is_alert c.source_alert_ref)) [
      | inl q ↦
          subst (Binds key j) (sym (start_alert_step s q))
            (Binds-after_replay j (others 0 s) (find_replayed call c key (others 0 s)) refl)
      | inr q ↦
          subst (Binds key j) (sym (start_other_step s q))
            (λ (e : err not_an_alert ≡ ok j). absurd (ground (arith, e)))
    ]

    -- A request under a key that is bound to an investigation is answered with it.
    pub replay-Bound :
        (id : ℕ) (s : Store)
        → is_alert c.source_alert_ref ≡ true
        → Bound call c key id s
        → ((start_alert_investigation call c others s).0 ≡ others 0 s)
          × ((j : Investigation) × ((start_alert_investigation call c others s).1 ≡ ok j)
              × (j.id ≡ id))
    replay-Bound id s q b =
        let b' = Grows-Bound call c key id s (others 0 s) (grow 0 s) b in
        answer b' (Option-cases (get_investigation c.tenant_id id (others 0 s).investigations))
      where
        answer :
            Bound call c key id (others 0 s)
            → (get_investigation c.tenant_id id (others 0 s).investigations ≡ none)
              ⊎ ((j : Investigation) × (get_investigation c.tenant_id id (others 0 s).investigations
                    ≡ some j))
            → ((start_alert_investigation call c others s).0 ≡ others 0 s)
              × ((j : Investigation) × ((start_alert_investigation call c others s).1 ≡ ok j)
                  × (j.id ≡ id))
        answer t (inl n) = absurd (ground (arith, t.3, n))
        answer t (inr (j, g)) =
            let f : find_replayed call c key (others 0 s) ≡ ok (some j) =
              unfold find_replayed replayed_from receipt_target in rw (t.1, t.2, g) refl in
            let e : start_alert_investigation call c others s ≡ (others 0 s, ok j) =
              start_alert_step s q
              ∙ (ap (after_replay call c others (others 0 s)) f ∙ unfold after_replay in refl) in
            (
              ap (λ r. r.0) e,
              (
                j,
                ap (λ r. r.1) e,
                get_investigation-id c.tenant_id id (others 0 s).investigations j g,
              ),
            )

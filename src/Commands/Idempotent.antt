-- ===== src/Commands/Idempotent.antt =====
-- Commands that run once
-- (src/hisiem_soc_copilot/application/handlers/durable_support.py `run_idempotent_command`). The
-- body of the command and its replay are arguments; the caller commits. The bounded result that a
-- receipt also stores is left out.
use hisiem_soc_copilot.Prelude.{
  ℕ, String, Option, none, some, Option-cases, Bool, true, false, ◌∷◌, ◌++◌, ◌≡◌, refl, sym, ◌∙◌,
  inl, inr, str_eq_refl, is_some, arith, Result, ok, err, ◌>>=◌, >>=-ok,
}
use hisiem_soc_copilot.Investigation.{Investigation}
use hisiem_soc_copilot.Commands.{
  Receipt, Store, get_investigation, find_receipt, is_receipt_of, given_key, audit_only_key,
  flushed,
}
use hisiem_soc_copilot.Commands.Start.Receipts.{Grows}

pub record IdempotentCommand : Type 0 where
  pub tenant_id : String
  pub investigation_id : ℕ
  pub command_type : String
  pub command_id : ℕ
  pub idempotency_key : Option String

-- What a body raises, beside the missing investigation.
pub data SupportError (E : Type 0) : Type 0 where
  not_found : SupportError E
  raised : E → SupportError E

abbrev pub raised_from : {E A : Type 0} → Result E A → Result (SupportError E) A
raised_from (ok a) = ok a
raised_from (err e) = err (raised e)

unfoldable load_from : {E : Type 0} → Option Investigation → Result (SupportError E) Investigation
load_from none = err not_found
load_from (some i) = ok i

unfoldable load_investigation :
    {E : Type 0} → String → ℕ → Store → Result (SupportError E) Investigation
unfolding load_from get_investigation
load_investigation tenant_id id s = load_from (get_investigation tenant_id id s.investigations)

unfoldable or_audit : String → Option String → String
or_audit audit none = audit
or_audit audit (some key) = key

unfoldable command_key : (ℕ → String) → IdempotentCommand → String
unfolding or_audit given_key audit_only_key
command_key str c =
    or_audit (audit_only_key str c.investigation_id c.command_type c.command_id)
      (given_key c.idempotency_key)

unfoldable command_receipt : (ℕ → String) → IdempotentCommand → Receipt
unfolding command_key
command_receipt str c = record {
  tenant_id = c.tenant_id;
  command_type = c.command_type;
  idempotency_key = command_key str c;
  command_id = c.command_id;
  aggregate_id = some c.investigation_id;
  request_fingerprint = none;
}

unfoldable exists_receipt : (ℕ → String) → IdempotentCommand → Store → Bool
unfolding find_receipt command_key
exists_receipt str c s =
    is_some (find_receipt c.tenant_id c.command_type (command_key str c) s.receipts)

-- The result, with the events flushed and the receipt added.
unfoldable pub record_command :
    {T : Type 0} → (ℕ → String) → IdempotentCommand → T × Investigation × Store → T × Store
unfolding flushed command_receipt
record_command str c (t, i, s) =
    (t, record s { receipts = command_receipt str c ∷ s.receipts; ledger = s.ledger ++ flushed i })

module _ {E T : Type 0} (str : ℕ → String) (c : IdempotentCommand) where
  unfoldable run_once :
      (Investigation → Store → Result E (T × Investigation × Store))
      → (Investigation → Store → Result E T)
      → Store
      → Investigation
      → Bool
      → Result (SupportError E) (T × Store)
  unfolding record_command
  run_once apply replay s i true = raised_from (replay i s >>= λ t. ok (t, s))
  run_once apply replay s i false = raised_from (apply i s >>= λ r. ok (record_command str c r))

  unfoldable pub run_idempotent_command :
      (Investigation → Store → Result E (T × Investigation × Store))
      → (Investigation → Store → Result E T)
      → Store
      → Result (SupportError E) (T × Store)
  unfolding load_investigation run_once exists_receipt
  run_idempotent_command apply replay s =
      load_investigation c.tenant_id c.investigation_id s >>= λ i.
      run_once apply replay s i (exists_receipt str c s)

exists_receipt-own :
    (str : ℕ → String) (c : IdempotentCommand) (s : Store)
    → exists_receipt str c (record s { receipts = command_receipt str c ∷ s.receipts }) ≡ true
unfolding exists_receipt find_receipt is_receipt_of
exists_receipt-own str c s =
    unfold command_receipt in
    rw (str_eq_refl c.tenant_id, str_eq_refl c.command_type, str_eq_refl (command_key str c)) refl

exists_receipt-Grows :
    (str : ℕ → String) (c : IdempotentCommand) (s s' : Store)
    → Grows s s'
    → exists_receipt str c s ≡ true
    → exists_receipt str c s' ≡ true
unfolding exists_receipt
exists_receipt-Grows str c s s' g e =
    elim (Option-cases (find_receipt c.tenant_id c.command_type (command_key str c) s.receipts)) [
      | inl n ↦ absurd (ground (arith, e, n))
      | inr (r, q) ↦ rw (g.receipts_kept c.tenant_id c.command_type (command_key str c) r q) refl
    ]

module _ {E T : Type 0} (str : ℕ → String) (c : IdempotentCommand)
    (apply : Investigation → Store → Result E (T × Investigation × Store))
    (replay : Investigation → Store → Result E T) where
  raised-ok :
      {A : Type 0} (m : Result E A) (a : A)
      → ◌≡◌ {A = Result (SupportError E) A} (raised_from m) (ok a)
      → m ≡ ok a
  raised-ok (ok x) a e = ground arith
  raised-ok (err x) a e = absurd (ground (arith, e))

  recorded-exists :
      (t : T) (i : Investigation) (s : Store)
      → exists_receipt str c (record_command str c (t, i, s)).1 ≡ true
  recorded-exists t i s =
      unfold record_command in
      (exists_receipt-own str c (record s { ledger = s.ledger ++ flushed i }))

  -- After a run that returned, its key has a receipt.
  run_once-exists :
      (s : Store) (i : Investigation) (r : T × Store) (b : Bool)
      → exists_receipt str c s ≡ b
      → run_once str c apply replay s i b ≡ ok r
      → exists_receipt str c r.1 ≡ true
  run_once-exists s i r true q h =
      let m =
        >>=-ok (replay i s) (λ t. ok (t, s)) r
          (raised-ok (replay i s >>= λ t. ok (t, s)) r (unfold run_once in h)) in
      let same : (m.0, s) ≡ r = ground (arith, m.2) in rw (← same) q
  run_once-exists s i r false q h =
      let m =
        >>=-ok (apply i s) (λ a. ok (record_command str c a)) r
          (raised-ok (apply i s >>= λ a. ok (record_command str c a)) r (unfold run_once in h)) in
      let same : record_command str c m.0 ≡ r = ground (arith, m.2) in
      rw (← same) (recorded-exists m.0.0 m.0.1 m.0.2)

  run-exists :
      (s : Store) (r : T × Store)
      → run_idempotent_command str c apply replay s ≡ ok r
      → exists_receipt str c r.1 ≡ true
  run-exists s r e =
      let l =
        >>=-ok (load_investigation c.tenant_id c.investigation_id s)
          (λ i. run_once str c apply replay s i (exists_receipt str c s)) r
          (unfold run_idempotent_command in e) in
      run_once-exists s l.0 r (exists_receipt str c s) refl l.2

  -- A run whose key has a receipt is the replay, and leaves the store as it is.
  run_replays :
      (s : Store) (i : Investigation)
      → get_investigation c.tenant_id c.investigation_id s.investigations ≡ some i
      → exists_receipt str c s ≡ true
      → run_idempotent_command str c apply replay s ≡ raised_from (replay i s >>= λ t. ok (t, s))
  run_replays s i g e =
      unfold run_idempotent_command load_investigation load_from run_once in rw (g, e) refl

module _ {E T : Type 0} (str : ℕ → String) (c c' : IdempotentCommand)
    (apply apply' : Investigation → Store → Result E (T × Investigation × Store))
    (replay replay' : Investigation → Store → Result E T) where
  exists_under :
      (d : IdempotentCommand) (key : String) (s : Store)
      → given_key d.idempotency_key ≡ some key
      → exists_receipt str d s ≡ is_some (find_receipt d.tenant_id d.command_type key s.receipts)
  exists_under d key s k = unfold exists_receipt command_key or_audit in rw k refl

  same_receipt :
      (key : String) (s : Store)
      → c'.tenant_id ≡ c.tenant_id
      → c'.command_type ≡ c.command_type
      → given_key c.idempotency_key ≡ some key
      → given_key c'.idempotency_key ≡ some key
      → exists_receipt str c s ≡ true
      → exists_receipt str c' s ≡ true
  same_receipt key s t ty k k' e =
      exists_under c' key s k' ∙ (rw (t, ty) refl ∙ (sym (exists_under c key s k) ∙ e))

  -- After a command ran under a key that is not empty, and where later transactions kept its
  -- receipt, a command of the same tenant, type and key on an investigation that is there is its
  -- replay, and leaves the store as it is.
  pub run_idempotent_command_again :
      (key : String) (s later : Store) (r : T × Store) (i : Investigation)
      → run_idempotent_command str c apply replay s ≡ ok r
      → Grows r.1 later
      → c'.tenant_id ≡ c.tenant_id
      → c'.command_type ≡ c.command_type
      → given_key c.idempotency_key ≡ some key
      → given_key c'.idempotency_key ≡ some key
      → get_investigation c'.tenant_id c'.investigation_id later.investigations ≡ some i
      → run_idempotent_command str c' apply' replay' later
        ≡ raised_from (replay' i later >>= λ t. ok (t, later))
  run_idempotent_command_again key s later r i e g t ty k k' j =
      run_replays str c' apply' replay' later i j (
        same_receipt key later t ty k k'
          (exists_receipt-Grows str c r.1 later g (run-exists str c apply replay s r e)))

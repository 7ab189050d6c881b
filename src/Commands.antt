-- ===== src/Commands.antt =====
-- Commands on investigations and their receipts
-- (src/hisiem_soc_copilot/application/handlers/durable_support.py, application/ports/durable.py,
-- infrastructure/persistence/repositories/durable.py `SqlAlchemyCommandReceiptStore`,
-- repositories/investigation.py, orm/investigation.py and orm/events.py for the unique indexes).
-- The store holds the committed rows of the tables; a transaction is a function on it.
pub mod Start
pub mod Idempotent
pub mod Cancel
mod Examples
use Prim.Native.String.{◌++◌ as str_append}
use hisiem_soc_copilot.Prelude.{
  ℕ, ◌+◌, String, Option, none, some, Bool, true, false, List, [], ◌∷◌, ◌++◌, ◌==◌, ◌&&◌, ◌||◌, not,
  str_eq, opt_str_eq, if◌then◌else◌, Result, ok, err, is_some, map,
}
use hisiem_soc_copilot.Shared.{ExternalResourceRef}
use hisiem_soc_copilot.Investigation.{Investigation, InvestigationEvent, is_active, clear_events}

pub record Receipt : Type 0 where
  pub tenant_id : String
  pub command_type : String
  pub idempotency_key : String
  pub command_id : ℕ
  pub aggregate_id : Option ℕ
  pub request_fingerprint : Option String

pub record Store : Type 0 where
  pub investigations : List Investigation
  pub receipts : List Receipt
  -- The domain events, each with the revision of the aggregate.
  pub ledger : List (InvestigationEvent × ℕ)

unfoldable pub same_alert : ExternalResourceRef → ExternalResourceRef → Bool
same_alert a b =
    str_eq a.provider b.provider
    && str_eq a.resource_type b.resource_type
    && str_eq a.address_id b.address_id

unfoldable pub get_investigation : String → ℕ → List Investigation → Option Investigation
get_investigation tenant_id id [] = none
get_investigation tenant_id id (i ∷ is) =
    let rest = get_investigation tenant_id id is in
    if i.id == id && str_eq i.tenant_id tenant_id then some i else rest

-- The row is in the partial unique index under the alert.
unfoldable pub is_active_for : String → ExternalResourceRef → Investigation → Bool
unfolding same_alert is_active
is_active_for tenant_id ref i =
    str_eq i.tenant_id tenant_id && same_alert i.source_alert_ref ref && is_active i.status

unfoldable pub find_active :
    String → ExternalResourceRef → List Investigation → Option Investigation
unfolding is_active_for
find_active tenant_id ref [] = none
find_active tenant_id ref (i ∷ is) =
    let rest = find_active tenant_id ref is in
    if is_active_for tenant_id ref i then some i else rest

unfoldable pub is_receipt_of : String → String → String → Receipt → Bool
is_receipt_of tenant_id command_type key r =
    str_eq r.tenant_id tenant_id
    && str_eq r.command_type command_type
    && str_eq r.idempotency_key key

unfoldable pub find_receipt : String → String → String → List Receipt → Option Receipt
unfolding is_receipt_of
find_receipt tenant_id command_type key [] = none
find_receipt tenant_id command_type key (r ∷ rs) =
    let rest = find_receipt tenant_id command_type key rs in
    if is_receipt_of tenant_id command_type key r then some r else rest

-- Whether a truthy key was supplied.
unfoldable pub given_key : Option String → Option String
given_key none = none
given_key (some key) = if str_eq key "" then none else some key

-- `str` of a UUID is an argument.
unfoldable pub audit_only_key : (ℕ → String) → ℕ → String → ℕ → String
audit_only_key str investigation_id command_type command_id = str_append "investigation:" (
    str_append (str investigation_id)
      (str_append ":" (str_append command_type (str_append ":" (str command_id)))))

-- The pending events of the aggregate, as ledger rows.
unfoldable pub flushed : Investigation → List (InvestigationEvent × ℕ)
flushed i = map (λ e. (e, i.revision)) i.pending_events

-- The constraint that a commit violates.
pub data Conflict : Type 0 where
  active_investigation_exists : Conflict
  command_receipt_conflict : Conflict

-- `session.add` of a receipt and the commit: the unique constraint refuses a second one.
unfoldable pub commit_receipt : Receipt → Store → Result Conflict Store
unfolding find_receipt
commit_receipt r s =
    if is_some (find_receipt r.tenant_id r.command_type r.idempotency_key s.receipts)
    then err command_receipt_conflict
    else ok (record s { receipts = r ∷ s.receipts })

-- The commit of a new investigation with its events and its receipt. Where both indexes refuse it,
-- the investigation's is reported.
unfoldable pub commit_new : Investigation → Receipt → Store → Result Conflict Store
unfolding find_active commit_receipt flushed clear_events
commit_new i r s =
    if is_active i.status && is_some (find_active i.tenant_id i.source_alert_ref s.investigations)
    then err active_investigation_exists
    else commit_receipt r (record s {
      investigations = clear_events i ∷ s.investigations;
      ledger = s.ledger ++ flushed i;
    })

-- ===== src/Commands/Start/Again.antt =====
-- A request that is sent again
-- (src/hisiem_soc_copilot/application/handlers/investigation.py `start_alert_investigation`).
use hisiem_soc_copilot.Prelude.{ℕ, String, some, ◌≡◌, true, ok}
use hisiem_soc_copilot.Shared.{is_alert}
use hisiem_soc_copilot.Investigation.{Investigation}
use hisiem_soc_copilot.Commands.{Store, given_key}
use hisiem_soc_copilot.Commands.Start.{
  StartAlertInvestigation, Call, lookup, start_alert_investigation,
}
use hisiem_soc_copilot.Commands.Start.Receipts.{Grows, Bound, Grows-Bound}
use hisiem_soc_copilot.Commands.Start.Binding.{start-Bound, replay-Bound}

-- The same tenant, and an alert of the same fingerprint.
abbrev SameRequest : Call → StartAlertInvestigation → Call → StartAlertInvestigation → Type 0
SameRequest call c call' c' =
    (c'.tenant_id ≡ c.tenant_id)
    × (call'.fingerprint c'.source_alert_ref ≡ call.fingerprint c.source_alert_ref)

same-Bound :
    (call call' : Call) (c c' : StartAlertInvestigation) (key : String) (id : ℕ) (s : Store)
    → SameRequest call c call' c'
    → Bound call c key id s
    → Bound call' c' key id s
same-Bound call call' c c' key id s m b =
    (b.0, unfold lookup in rw m.0 (unfold lookup in b.1), rw m.1 b.2, rw m.0 b.3)

-- When a start with a key that is not empty returns an investigation, and other transactions only
-- add receipts and keep investigations, a later start under the key, for the same tenant and an
-- alert of the same fingerprint, returns the investigation of the same id and commits nothing
-- itself.
pub start_again :
    (call call' : Call) (c c' : StartAlertInvestigation) (others others' : ℕ → Store → Store)
    (key : String) (i : Investigation) (s later : Store)
    → ((n : ℕ) (t : Store) → Grows t (others n t))
    → ((n : ℕ) (t : Store) → Grows t (others' n t))
    → given_key c.idempotency_key ≡ some key
    → given_key c'.idempotency_key ≡ some key
    → SameRequest call c call' c'
    → is_alert c'.source_alert_ref ≡ true
    → (start_alert_investigation call c others s).1 ≡ ok i
    → Grows (start_alert_investigation call c others s).0 later
    → ((start_alert_investigation call' c' others' later).0 ≡ others' 0 later)
      × ((j : Investigation) × ((start_alert_investigation call' c' others' later).1 ≡ ok j)
          × (j.id ≡ i.id))
start_again call call' c c' others others' key i s later g g' k k' m a e l =
    replay-Bound call' c' others' g' key k' i.id later a (
      same-Bound call call' c c' key i.id later m (
        Grows-Bound call c key i.id (start_alert_investigation call c others s).0 later l
          (start-Bound call c others g key k i s e)))

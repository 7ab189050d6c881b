-- ===== src/Response/Policy.antt =====
-- The response policy (src/hisiem_soc_copilot/domain/response/policy.py).
use hisiem_soc_copilot.Prelude.{
  ℕ, ◌≡◌, ◌≢◌, ◌↔◌, ◌⊎◌, String, Option, none, some, Bool, true, false, List, [], ◌∷◌, arith,
  str_eq, not, is_empty, All, if◌then◌else◌,
}
use hisiem_soc_copilot.Response.{PolicyDecision, deny, require_approval, action_allowed}

pub data VerdictDisposition : Type 0 where
  malicious benign inconclusive : VerdictDisposition

pub data PolicyDenyReason : Type 0 where
  unknown_action missing_target cross_tenant_target unresolved_target : PolicyDenyReason
  missing_evidence denying_verdict invalid_parameters : PolicyDenyReason

pub record PolicyOutcome : Type 0 where
  pub decision : PolicyDecision
  pub reason : Option PolicyDenyReason
  pub detail : Option String

unfoldable pub is_allowed_to_ask_human : PolicyOutcome → Bool
is_allowed_to_ask_human o = elim o.decision [ deny ↦ false | require_approval ↦ true ]

-- What the policy reads of a target: its `address_id` and `tenant_id`, where it has them.
pub record PolicyTarget : Type 0 where
  pub address_id : Option String
  pub tenant_id : Option String

abbrev denied_for : PolicyDenyReason → PolicyOutcome
denied_for reason = record { decision = deny; reason = some reason; detail = none }

-- `not hasattr(target, "address_id") or not target.address_id`
abbrev is_unresolved : Option String → Bool
is_unresolved none = true
is_unresolved (some address) = str_eq address ""

abbrev pub is_foreign : Option String → String → Bool
is_foreign none tenant = false
is_foreign (some owner) tenant = not (str_eq owner tenant)

-- The loop over the targets: the first reason to deny.
check_targets : String → List PolicyTarget → Option PolicyDenyReason
check_targets tenant [] = none
check_targets tenant (t ∷ ts) =
    let rest = check_targets tenant ts in
    if is_unresolved t.address_id
    then some unresolved_target
    else if is_foreign t.tenant_id tenant
    then some cross_tenant_target
    else rest

abbrev denied_for_verdict : PolicyOutcome
denied_for_verdict = record {
  decision = deny;
  reason = some denying_verdict;
  detail = some "V1 policy DENies responses without a definitive MALICIOUS/BENIGN verdict";
}

check_verdict : Option VerdictDisposition → PolicyOutcome
check_verdict none = denied_for_verdict
check_verdict (some inconclusive) = denied_for_verdict
check_verdict (some verdict) = record { decision = require_approval; reason = none; detail = none }

after_targets : Option PolicyDenyReason → Option VerdictDisposition → PolicyOutcome
unfolding check_verdict
after_targets (some reason) verdict = denied_for reason
after_targets none verdict = check_verdict verdict

unfoldable pub evaluate_response_policy :
    String → Option VerdictDisposition → List PolicyTarget → List ℕ → String → PolicyOutcome
unfolding action_allowed check_targets after_targets
evaluate_response_policy action_key verdict targets evidence tenant =
    if not (action_allowed action_key)
    then denied_for unknown_action
    else if is_empty targets
    then denied_for missing_target
    else if is_empty evidence
    then denied_for missing_evidence
    else after_targets (check_targets tenant targets) verdict

-- A target that the policy lets through: it has an address, and no owner but the tenant.
pub IsAcceptable : String → PolicyTarget → Type 0
IsAcceptable tenant t =
    (is_unresolved t.address_id ≡ false) × (is_foreign t.tenant_id tenant ≡ false)

pub IsDefinitive : Option VerdictDisposition → Type 0
IsDefinitive verdict = (verdict ≡ some malicious) ⊎ (verdict ≡ some benign)

check_targets-All :
    (tenant : String) (ts : List PolicyTarget)
    → (check_targets tenant ts ≡ none) ↔ All (IsAcceptable tenant) ts
unfolding check_targets IsAcceptable
check_targets-All tenant [] = ground arith
check_targets-All tenant (t ∷ ts) = ground (arith, check_targets-All tenant ts)

after_targets_iff :
    (found : Option PolicyDenyReason) (verdict : Option VerdictDisposition)
    → (is_allowed_to_ask_human (after_targets found verdict) ≡ true)
      ↔ ((found ≡ none) × IsDefinitive verdict)
unfolding after_targets check_verdict IsDefinitive is_allowed_to_ask_human
after_targets_iff none none = ground arith
after_targets_iff found verdict = ground arith

-- The policy hands an action to a human exactly when its key is registered, it has a target and a
-- piece of evidence, each target has an address and no owner but the tenant, and the verdict is
-- malicious or benign.
pub asks_human_iff :
    (key : String) (verdict : Option VerdictDisposition) (targets : List PolicyTarget)
    (evidence : List ℕ) (tenant : String)
    → (is_allowed_to_ask_human (evaluate_response_policy key verdict targets evidence tenant)
        ≡ true)
      ↔ ((action_allowed key ≡ true)
          × (targets ≢ [])
          × (evidence ≢ [])
          × All (IsAcceptable tenant) targets
          × IsDefinitive verdict)
unfolding evaluate_response_policy is_allowed_to_ask_human
asks_human_iff key verdict [] evidence tenant = ground arith
asks_human_iff key verdict (t ∷ ts) [] tenant = ground arith
asks_human_iff key verdict (t ∷ ts) (e ∷ es) tenant = ground (
  arith,
  after_targets_iff (check_targets tenant (t ∷ ts)) verdict,
  check_targets-All tenant (t ∷ ts),
)

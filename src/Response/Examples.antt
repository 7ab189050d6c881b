-- ===== src/Response/Examples.antt =====
-- A proposal and its calls, and the theorems at them.
use hisiem_soc_copilot.Prelude.{
  ℕ, ◌≡◌, ◌≢◌, ◌↔◌, refl, String, none, some, true, List, [], ◌∷◌, All, map,
}
use hisiem_soc_copilot.Shared.{ExternalResourceRef}
use hisiem_soc_copilot.Response.{
  ResponseProposal, created, rejected, text, Parameters, require_approval, action_allowed,
}
use hisiem_soc_copilot.Response.Policy.{
  asks_human_iff, is_allowed_to_ask_human, evaluate_response_policy, malicious, IsAcceptable,
  IsDefinitive, PolicyTarget,
}
use hisiem_soc_copilot.Response.Lifecycle.{
  Call, ask, agree, refuse, submit, calls, submission_path, Route, command_of,
}

abbrev alert : ExternalResourceRef
alert = record {
  provider = "hisiem";
  resource_type = "alert";
  address_id = "a-17";
  business_id = none;
}

abbrev playbook : Parameters
playbook = ("playbook_id", text "pb-1") ∷ []

abbrev proposal : ResponseProposal
proposal = record {
  id = 5;
  investigation_id = 1;
  result_id = 2;
  content = record {
    action_key = "START_SOAR_PLAYBOOK";
    target_refs = alert ∷ [];
    parameters = playbook;
  };
  reason = "contain";
  created_by_subject = "analyst";
  created_by_display_name = none;
  evidence_ids = 9 ∷ [];
  status = created;
  policy_decision = some require_approval;
  policy_reason = none;
  content_revision = 1;
  content_hash = 77;
  lock_version = 0;
  approval_request_id = none;
  execution_id = none;
  created_at = 10;
  updated_at = 10;
}

abbrev three_calls : List Call
three_calls = ask 11 ∷ refuse 10 ∷ submit "x-0" 11 ∷ []

abbrev whole_path : List Call
whole_path = ask 11 ∷ submit "x-0" 12 ∷ agree (some 6) 13 ∷ submit "x-1" 14 ∷ []

abbrev start_key : String
start_key = "START_SOAR_PLAYBOOK"

abbrev policy_target : PolicyTarget
policy_target = record { address_id = some "a-17"; tenant_id = none }

abbrev targets : List PolicyTarget
targets = policy_target ∷ []

abbrev evidence : List ℕ
evidence = 9 ∷ []

asks_human_iff_example :
    (is_allowed_to_ask_human
        (evaluate_response_policy "START_SOAR_PLAYBOOK" (some malicious) targets evidence "t-1")
      ≡ true)
    ↔ ((action_allowed "START_SOAR_PLAYBOOK" ≡ true)
        × (targets ≢ [])
        × (evidence ≢ [])
        × All (IsAcceptable "t-1") targets
        × IsDefinitive (some malicious))
asks_human_iff_example =
    asks_human_iff "START_SOAR_PLAYBOOK" (some malicious) targets evidence "t-1"

abbrev rejected_proposal : ResponseProposal
rejected_proposal = record proposal { status = rejected }

submission_path_example : Route created (map command_of whole_path)
submission_path_example = submission_path whole_path proposal (unfold calls in refl)

-- ===== src/Investigation/Examples.antt =====
-- Runs of the Investigation aggregate, and its theorems at concrete calls.
use hisiem_soc_copilot.Prelude.{ℕ, ◌≡◌, refl, none, some, List, [], ◌∷◌}
use hisiem_soc_copilot.Shared.{ExternalResourceRef, ActorRef, default_limits}
use hisiem_soc_copilot.Investigation.{
  Investigation, completed, failed_fatal, verifying, is_terminal, create,
}
use hisiem_soc_copilot.Investigation.Operations.{
  Operation, starting, updating_phase, completing, linking, cancelling, failing, run,
}
use hisiem_soc_copilot.Investigation.Lifecycle.{IsValid, SameLifecycle, terminations}
use hisiem_soc_copilot.Investigation.Traces.{run-IsValid, terminal_frozen, terminations-run}

abbrev alert : ExternalResourceRef
alert = record {
  provider = "hisiem";
  resource_type = "alert";
  address_id = "alert-7";
  business_id = none;
}

abbrev analyst : ActorRef
analyst = record {
  subject_id = "analyst-1";
  tenant_id = "acme";
  display_name = none;
  role_snapshot = none;
}

abbrev fresh : Investigation
unfolding create
fresh = create 1 "acme" alert analyst default_limits none 100

abbrev calls : List (Operation × ℕ)
calls =
    (starting analyst none, 110)
    ∷ (updating_phase verifying, 120)
    ∷ (completing, 130)
    ∷ (linking 9, 140)
    ∷ (linking 8, 150)
    ∷ (cancelling (some analyst), 160)
    ∷ []

calls_complete : (run calls fresh).status ≡ completed
unfolding run create
calls_complete = refl

calls_linked : (run calls fresh).response_proposal_id ≡ some 9
unfolding run create
calls_linked = refl

run-IsValid_example : IsValid (run calls (create 1 "acme" alert analyst default_limits none 100))
run-IsValid_example = run-IsValid 1 "acme" alert analyst default_limits none 100 calls

terminal_frozen_example :
    SameLifecycle (run ((failing failed_fatal, 200) ∷ []) (run calls fresh)) (run calls fresh)
unfolding run create is_terminal
terminal_frozen_example = terminal_frozen ((failing failed_fatal, 200) ∷ []) (run calls fresh) refl

terminations-run_example :
    terminations (run calls (create 1 "acme" alert analyst default_limits none 100)).pending_events
    ≡ 1
unfolding run create is_terminal terminations
terminations-run_example = terminations-run 1 "acme" alert analyst default_limits none 100 calls

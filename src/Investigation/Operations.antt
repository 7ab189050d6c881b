-- ===== src/Investigation/Operations.antt =====
-- The calls that the application makes of an Investigation, and sequences of them. A call that
-- raises leaves the aggregate as it was.
use hisiem_soc_copilot.Prelude.{
  ℕ, Option, Bool, List, [], ◌∷◌, true, false, Result, ok, ◌>>=◌, result_or,
}
use hisiem_soc_copilot.Shared.{ActorRef}
use hisiem_soc_copilot.Investigation.{
  Investigation, InvestigationError, InvestigationPhase, TerminationReason, InvestigationStatus,
  created, running, completed, start, update_phase, complete_without_response, cancel, fail,
  link_response_proposal, is_active,
}

pub data Operation : Type 0 where
  starting : ActorRef → Option ℕ → Operation
  updating_phase : InvestigationPhase → Operation
  completing : Operation
  linking : ℕ → Operation
  cancelling : Option ActorRef → Operation
  failing : TerminationReason → Operation

-- One call at the time `clock`.
unfoldable pub perform : Operation → ℕ → Investigation → Result InvestigationError Investigation
unfolding start update_phase complete_without_response cancel fail link_response_proposal
perform (starting actor now) clock i = start actor now clock i
perform (updating_phase phase) clock i = update_phase phase i
perform completing clock i = complete_without_response clock i
perform (linking proposal_id) clock i = link_response_proposal proposal_id i >>= λ r. ok r.0
perform (cancelling actor) clock i = cancel actor clock i
perform (failing reason) clock i = fail reason clock i

unfoldable pub step : Operation → ℕ → Investigation → Investigation
unfolding perform
step op clock i = result_or i (perform op clock i)

unfoldable pub run : List (Operation × ℕ) → Investigation → Investigation
unfolding step
run [] i = i
run ((op, clock) ∷ ops) i = run ops (step op clock i)

abbrev is_created : InvestigationStatus → Bool
is_created created = true
is_created _ = false

abbrev is_running : InvestigationStatus → Bool
is_running running = true
is_running _ = false

abbrev is_completed : InvestigationStatus → Bool
is_completed completed = true
is_completed _ = false

-- The statuses from which an operation may go through.
unfoldable pub is_legal : Operation → InvestigationStatus → Bool
unfolding is_active
is_legal (starting actor now) status = is_created status
is_legal (updating_phase phase) status = is_running status
is_legal completing status = is_running status
is_legal (linking proposal_id) status = is_completed status
is_legal (cancelling actor) status = is_active status
is_legal (failing reason) status = is_active status

-- ===== src/Response/Lifecycle.antt =====
-- What holds of a response proposal after any calls (src/hisiem_soc_copilot/domain/response/
-- aggregate.py): the order of its statuses, its end, and the content that it keeps.
use hisiem_soc_copilot.Prelude.{
  ℕ, ◌≡◌, ◌↔◌, refl, String, Option, none, some, true, false, List, [], ◌∷◌, arith, is_empty,
  Result, is_ok, result_or, map, ◌∙◌, sym, ap,
}
use hisiem_soc_copilot.Response.{
  ResponseProposal, ResponseProposalStatus, created, denied, waiting_approval, approved, rejected,
  submitted, ProposalCommand, deny_command, request_approval_command, approve_command,
  reject_command, submit_command, ProposalError, request_approval, deny_proposal, approve_proposal,
  reject_proposal, mark_submitted, Content, require_approval, transition, transitions,
  validate_for_approval, approval_errors, raise_if_any, action_allowed,
}

-- A call of a method, with the time at which it is made.
pub data Call : Type 0 where
  ask : ℕ → Call
  forbid : Option String → ℕ → Call
  agree : Option ℕ → ℕ → Call
  refuse : ℕ → Call
  submit : String → ℕ → Call

unfoldable pub command_of : Call → ProposalCommand
command_of (ask now) = request_approval_command
command_of (forbid reason now) = deny_command
command_of (agree request now) = approve_command
command_of (refuse now) = reject_command
command_of (submit execution now) = submit_command

unfoldable pub call : Call → ResponseProposal → Result ProposalError ResponseProposal
unfolding request_approval deny_proposal approve_proposal reject_proposal mark_submitted
call (ask now) p = request_approval now p
call (forbid reason now) p = deny_proposal reason now p
call (agree request now) p = approve_proposal request now p
call (refuse now) p = reject_proposal now p
call (submit execution now) p = mark_submitted execution now p

-- The proposal after calls of which those that raise change nothing.
unfoldable pub calls : List Call → ResponseProposal → ResponseProposal
unfolding call
calls [] p = p
calls (c ∷ cs) p = calls cs (result_or p (call c p))

abbrev after : Call → ResponseProposal → ResponseProposal
after c p = result_or p (call c p)

unfoldable IsFinal : ResponseProposalStatus → Type 0
IsFinal denied = Unit
IsFinal rejected = Unit
IsFinal submitted = Unit
IsFinal _ = ⊥

call_final : (c : Call) (p : ResponseProposal) → IsFinal p.status → after c p ≡ p
unfolding call transition transitions IsFinal
call_final c p final = ground arith

-- A denied, rejected or submitted proposal stays exactly as it is, whatever is called.
final_forever : (cs : List Call) (p : ResponseProposal) → IsFinal p.status → calls cs p ≡ p
unfolding calls
final_forever [] p final = refl
final_forever (c ∷ cs) p final = rw (call_final c p final) (final_forever cs p final)

-- The content that an approval is bound to.
pub record Bound : Type 0 where
  pub content : Content
  pub content_revision : ℕ
  pub content_hash : ℕ
  pub evidence_ids : List ℕ
  pub created_by_subject : String

pub bound : ResponseProposal → Bound
bound p = record {
  content = p.content;
  content_revision = p.content_revision;
  content_hash = p.content_hash;
  evidence_ids = p.evidence_ids;
  created_by_subject = p.created_by_subject;
}

call-bound : (c : Call) (p : ResponseProposal) → bound (after c p) ≡ bound p
unfolding call transition transitions bound
call-bound c p = ground arith

-- Whatever is called, the proposal keeps its content, its revision, its hash, its evidence and its
-- proposer.
calls-bound : (cs : List Call) (p : ResponseProposal) → bound (calls cs p) ≡ bound p
unfolding calls
calls-bound [] p = refl
calls-bound (c ∷ cs) p = calls-bound cs (after c p) ∙ call-bound c p

-- What a command makes of a status.
pub next : ResponseProposalStatus → ProposalCommand → ResponseProposalStatus
unfolding transitions
next s c = elim (transitions s c) [ none ↦ s | some t ↦ t ]

walk : List ProposalCommand → ResponseProposalStatus → ResponseProposalStatus
unfolding next
walk [] s = s
walk (c ∷ cs) s = walk cs (next s c)

after-status : (c : Call) (p : ResponseProposal) → (after c p).status ≡ next p.status (command_of c)
unfolding call transition transitions command_of next
after-status c p = ground arith

calls-status :
    (cs : List Call) (p : ResponseProposal)
    → (calls cs p).status ≡ walk (map command_of cs) p.status
unfolding calls walk
calls-status [] p = refl
calls-status (c ∷ cs) p =
    calls-status cs (after c p) ∙ ap (walk (map command_of cs)) (after-status c p)

-- `xs ⊑ ys`: the items of `xs` are among those of `ys`, in this order.
infix 4 ◌⊑◌
pub data ◌⊑◌ : List ProposalCommand → List ProposalCommand → Type 0 where
  none_left : {ys : List ProposalCommand} → [] ⊑ ys
  passed : {y : ProposalCommand} → {xs ys : List ProposalCommand} → xs ⊑ ys → xs ⊑ (y ∷ ys)
  found : {x : ProposalCommand} → {xs ys : List ProposalCommand} → xs ⊑ ys → (x ∷ xs) ⊑ (x ∷ ys)

-- The commands that a proposal still has to be given before it is submitted.
unfoldable pub Route : ResponseProposalStatus → List ProposalCommand → Type 0
Route created cs = (request_approval_command ∷ approve_command ∷ submit_command ∷ []) ⊑ cs
Route waiting_approval cs = (approve_command ∷ submit_command ∷ []) ⊑ cs
Route approved cs = (submit_command ∷ []) ⊑ cs
Route submitted cs = Unit
Route denied cs = ⊥
Route rejected cs = ⊥

Route-step :
    (s : ResponseProposalStatus) (c : ProposalCommand) (cs : List ProposalCommand)
    → Route (next s c) cs
    → Route s (c ∷ cs)
unfolding Route next transitions
Route-step created deny_command cs r = absurd r
Route-step created request_approval_command cs r = found r
Route-step created approve_command cs r = passed r
Route-step created reject_command cs r = passed r
Route-step created submit_command cs r = passed r
Route-step waiting_approval deny_command cs r = absurd r
Route-step waiting_approval request_approval_command cs r = passed r
Route-step waiting_approval approve_command cs r = found r
Route-step waiting_approval reject_command cs r = absurd r
Route-step waiting_approval submit_command cs r = passed r
Route-step approved deny_command cs r = passed r
Route-step approved request_approval_command cs r = passed r
Route-step approved approve_command cs r = passed r
Route-step approved reject_command cs r = passed r
Route-step approved submit_command cs r = found none_left
Route-step submitted c cs r = tt
Route-step denied c cs r = r
Route-step rejected c cs r = r

walk-Route :
    (cs : List ProposalCommand) (s : ResponseProposalStatus) → walk cs s ≡ submitted → Route s cs
unfolding walk
walk-Route [] s h = unfold Route in ground arith
walk-Route (c ∷ cs) s h = Route-step s c cs (walk-Route cs (next s c) h)

-- A proposal ends as submitted only if the calls, in this order, asked for approval, approved it
-- and submitted it, less those that its status shows to be done.
pub submission_path :
    (cs : List Call) (p : ResponseProposal)
    → (calls cs p).status ≡ submitted
    → Route p.status (map command_of cs)
submission_path cs p h = walk-Route (map command_of cs) p.status (sym (calls-status cs p) ∙ h)

-- The gate before an approval opens exactly for a registered action with a target, with evidence
-- and with the policy decision to require approval.
validate_for_approval_iff :
    (p : ResponseProposal)
    → (is_ok (validate_for_approval p) ≡ true) ↔ (
        (action_allowed p.content.action_key ≡ true)
        × (is_empty p.content.target_refs ≡ false)
        × (is_empty p.evidence_ids ≡ false)
        × (p.policy_decision ≡ some require_approval))
unfolding validate_for_approval approval_errors raise_if_any
validate_for_approval_iff p = ground arith

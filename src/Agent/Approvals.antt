-- ===== src/Agent/Approvals.antt =====
-- internal/agent/loop.go: `ResumeApproval` and `RejectApproval`.
use ai4se_coding_agent_harne.Prelude.{
  ℕ, String, ◌==◌, Bool, true, false, Option, none, some, Result, ok, err, if◌then◌else◌, lookup,
  erase,
}
use ai4se_coding_agent_harne.Domain.{Run, executing, validating, deciding}
use ai4se_coding_agent_harne.Budget.{StopError}
use ai4se_coding_agent_harne.Policy.Approval.{ApprovalStore, consume}
use ai4se_coding_agent_harne.Policy.Risk.{is_mutation}
use ai4se_coding_agent_harne.Agent.Session.{
  ActionResult, ValidationResult, PendingApproval, validation, feedback_payload, approval_digest,
  AgentError, approval_not_granted, approval_rejection_mismatch, execution_error, Env, Session,
  Step, pure, raise, ◌>>=◌, ◌>>◌,
}
use ai4se_coding_agent_harne.Agent.Steps.{
  printed, execute, validate_current, transition_to, log_event, stop, feedback, take_mutation,
  delete_pending, modify,
}
use ai4se_coding_agent_harne.Agent.Turn.{Turn, next, finished, stop_turn}
use ai4se_coding_agent_harne.Agent.Loop.{run, proceed, Outcome}

-- `delete(l.pending, runID)`.
unfoldable pub clear_pending : {W : Type 0} → String → Session W → Session W
clear_pending id s = record s { pending = erase id s.pending }

abbrev pub consumed :
    {W : Type 0}
    → PendingApproval
    → ApprovalStore × Bool
    → Session W
    → Result AgentError PendingApproval × Session W
consumed p (a, true) s = (ok p, record s { approvals = some a })
consumed p (a, false) s = (err approval_not_granted, record s { approvals = some a })

-- `l.d.Approvals == nil || !l.d.Approvals.Consume(digest)`.
abbrev pub consume_for :
    {W : Type 0}
    → PendingApproval
    → String
    → Option ApprovalStore
    → Session W
    → Result AgentError PendingApproval × Session W
consume_for p digest none s = (err approval_not_granted, s)
consume_for p digest (some a) s = consumed p (consume a digest) s

abbrev pub take_pending :
    {W : Type 0}
    → Option PendingApproval
    → String
    → Session W
    → Result AgentError PendingApproval × Session W
take_pending none digest s = (err approval_not_granted, s)
take_pending (some p) digest s =
    if p.digest == digest then consume_for p digest s.approvals s else (err approval_not_granted, s)

-- The guard of `ResumeApproval`, which spends the grant.
unfoldable pub take_granted : {W : Type 0} → String → String → Step W PendingApproval
take_granted id digest s = take_pending (lookup id s.pending) digest s

module _ {W : Type 0} (env : Env W) (id digest : String) where
  abbrev pub resumed_current : Run → ValidationResult → Bool → Step W Turn
  resumed_current checking current false = do
    let last = feedback env checking "" current.observation
    log_event env checking "ValidationFailed" (validation current)
    log_event env checking "FeedbackProduced" (feedback_payload last)
    again ← transition_to env checking deciding "ValidationFeedback"
    modify (delete_pending id digest)
    pure (next again (some last))
  resumed_current checking current true = do
    log_event env checking "ValidationPassed" (validation current)
    modify (clear_pending id)
    again ← transition_to env checking deciding "ActionComplete"
    pure (next again none)

  abbrev pub resumed_mutation : Run → Option StopError → Step W Turn
  resumed_mutation busy (some e) = stop_turn env busy "BUDGET_EXHAUSTED"
  resumed_mutation busy none = do
    checking ← transition_to env busy validating "ValidationStarted"
    current ← validate_current env checking
    resumed_current checking current current.passed

  abbrev pub resumed : Run → PendingApproval → Result String ActionResult → Step W Turn
  resumed busy p (err problem) = raise (execution_error problem)
  resumed busy p (ok result) =
      if is_mutation p.action.kind
      then (do e ← take_mutation; resumed_mutation busy e)
      else (do modify (clear_pending id); pure (next busy none))

  -- What follows the guard, up to the next call of `run`.
  unfoldable pub carry_out : PendingApproval → Step W Turn
  carry_out p = do
    busy ← transition_to env p.run executing "ApprovalGranted"
    result ← execute env p.action
    resumed busy p result

  unfoldable pub resume_approval : ℕ → Session W → Outcome env
  unfolding proceed
  resume_approval fuel s =
      proceed env (run env fuel) ((do p ← take_granted id digest; carry_out p) s)

  -- `RejectApproval`.
  abbrev pub find_pending : Option PendingApproval → Step W PendingApproval
  find_pending none = raise approval_rejection_mismatch
  find_pending (some p) = if p.digest == digest then pure p else raise approval_rejection_mismatch

  unfoldable pub pending_for : Step W PendingApproval
  pending_for s = find_pending (lookup id s.pending) s

  abbrev pub after_rejection : PendingApproval → Bool → Step W Turn
  after_rejection p true = do
    result ← stop env p.run "APPROVAL_REJECTED"
    modify (delete_pending id digest)
    pure (finished result)
  after_rejection p false = do
    let rejected =
        feedback env p.run "APPROVAL_REJECTED" (printed "user rejected the pending action")
    log_event env p.run "FeedbackProduced" (feedback_payload rejected)
    again ← transition_to env p.run deciding "ApprovalRejectedContinued"
    modify (delete_pending id digest)
    pure (next again (some rejected))

  unfoldable pub turn_down : PendingApproval → Bool → Step W Turn
  turn_down p terminate = do
    log_event env p.run "ApprovalRejected" (approval_digest digest)
    after_rejection p terminate

  unfoldable pub reject_approval : ℕ → Bool → Session W → Outcome env
  unfolding proceed
  reject_approval fuel terminate s =
      proceed env (run env fuel) ((do p ← pending_for; turn_down p terminate) s)

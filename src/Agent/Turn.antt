-- ===== src/Agent/Turn.antt =====
-- internal/agent/loop.go: one round of the loop of `run`.
use ai4se_coding_agent_harne.Prelude.{
  String, ◌==◌, Bool, true, false, not, ◌&&◌, Option, none, some, List, [], Result, ok, err, pos,
  if◌then◌else◌,
}
use ai4se_coding_agent_harne.Domain.{
  Run, deciding, awaiting_approval, executing, validating, final_validating, succeeded,
  review_complete, PermissionProfile, review, Action, AgentDecision, StructuredFeedback,
}
use ai4se_coding_agent_harne.Budget.{StopError}
use ai4se_coding_agent_harne.Budget.Progress.{ProgressOutcome, stop as halt}
use ai4se_coding_agent_harne.Policy.Risk.{Context, is_mutation}
use ai4se_coding_agent_harne.Policy.Engine.{
  Decision, Verdict, allow, require_approval, deny, evaluate,
}
use ai4se_coding_agent_harne.Agent.Session.{
  ActionResult, ValidationResult, LoopResult, validation, policy_decision, feedback_payload, fault,
  approval_required, Env, Step, pure, ◌>>=◌, ◌>>◌, on_error,
}
use ai4se_coding_agent_harne.Agent.Steps.{
  printed, context_err, budget_now, decide, execute, validate_current, validate_final,
  transition_payload, transition_to, log_event, stop, feedback, take_decision, take_repair,
  take_mutation, time_left, read_baselines, observe_progress, put_pending, delete_pending, modify,
}

-- How a round ends: with another round, or with the loop's result.
pub data Turn : Type 0 where
  next : Run → Option StructuredFeedback → Turn
  finished : LoopResult → Turn

-- The context that the loop gives to the policy: only the run, the profile and the baselines.
abbrev pub loop_context : Run → List (String × String) → Context
loop_context run baselines = record {
  run_id = run.id;
  profile = run.profile;
  repo_root = "";
  dirty = false;
  baselines = baselines;
  configured_checks = [];
}

abbrev pub is_review : PermissionProfile → Bool
is_review review = true
is_review _ = false

abbrev pub validation_passed : String → StructuredFeedback
validation_passed stage_id = record {
  category = "VALIDATION_PASSED";
  stage_id = stage_id;
  summary = [];
  fingerprint = "";
  evidence = [];
  retryable = false;
  output_truncated = false;
  previous_occurrences = pos 0;
}

module _ {W : Type 0} (env : Env W) where
  unfoldable pub stop_turn : Run → String → Step W Turn
  stop_turn run code = do result ← stop env run code; pure (finished result)

  abbrev pub repaired :
      Run → Option StructuredFeedback → Option String → Option StopError → Step W Turn
  repaired run last problem (some e) = stop_turn run "PROTOCOL_EXHAUSTED"
  repaired run last problem none = do
    log_event env run "ProtocolError" (fault problem)
    pure (next run last)

  -- A decision that failed or is not valid.
  unfoldable pub protocol_error : Run → Option StructuredFeedback → Option String → Step W Turn
  protocol_error run last problem = do e ← take_repair; repaired run last problem e

  unfoldable pub denied : Run → Decision → Step W Turn
  denied run decision = do
    let last = feedback env run "POLICY_DENIED" (printed decision.message)
    log_event env run "PolicyDenied" (policy_decision decision)
    log_event env run "FeedbackProduced" (feedback_payload last)
    pure (next run (some last))

  -- `await`, with what the caller does on its error.
  unfoldable pub ask_approval : Run → Action → Decision → List (String × String) → Step W Turn
  ask_approval run action decision baselines = do
    modify (
        put_pending run.id (record {
          run = record run { state = awaiting_approval };
          action = action;
          digest = decision.digest;
        }))
    waiting ←
        on_error
          (transition_payload env run awaiting_approval "ApprovalRequired"
            (approval_required run.profile action decision baselines))
          (delete_pending run.id decision.digest)
    pure (finished (record { state = waiting.state; stop_code = "APPROVAL_REQUIRED" }))

  abbrev pub judged_final : Run → ValidationResult → Bool → Step W Turn
  judged_final run final false = do
    let last = feedback env run "REGRESSION" final.observation
    log_event env run "ValidationFailed" (validation final)
    log_event env run "FeedbackProduced" (feedback_payload last)
    again ← transition_to env run deciding "FinalRegression"
    pure (next again (some last))
  judged_final run final true = do
    passed ← transition_to env run final_validating "FinalValidationPassed"
    done ← transition_to env passed succeeded "RunSucceeded"
    pure (finished (record { state = done.state; stop_code = "" }))

  unfoldable pub finish_review : Run → Step W Turn
  finish_review run = do
    back ← transition_to env run deciding "ReviewFinish"
    done ← transition_to env back review_complete "ReviewComplete"
    pure (finished (record { state = done.state; stop_code = "" }))

  unfoldable pub finish_validated : Run → Step W Turn
  finish_validated run = do
    checking ← transition_to env run validating "FinishRequested"
    final ← validate_final env checking
    judged_final checking final final.passed

  unfoldable pub finish_action : Run → Step W Turn
  finish_action run = if is_review run.profile then finish_review run else finish_validated run

  abbrev pub after_progress : Run → StructuredFeedback → ProgressOutcome → Step W Turn
  after_progress run last halt = stop_turn run "NO_PROGRESS"
  after_progress run last _ = pure (next run (some last))

  abbrev pub judged_current : Run → ActionResult → ValidationResult → Bool → Step W Turn
  judged_current run result current false = do
    let last = feedback env run "" current.observation
    log_event env run "ValidationFailed" (validation current)
    log_event env run "FeedbackProduced" (feedback_payload last)
    again ← transition_to env run deciding "ValidationFeedback"
    outcome ← observe_progress last.fingerprint result.diff_digest
    after_progress again last outcome
  judged_current run result current true = do
    log_event env run "ValidationPassed" (validation current)
    again ← transition_to env run deciding "ActionComplete"
    pure (next again (some (validation_passed current.stage_id)))

  abbrev pub mutated : Run → ActionResult → Option StopError → Step W Turn
  mutated run result (some e) = stop_turn run "BUDGET_EXHAUSTED"
  mutated run result none = do
    checking ← transition_to env run validating "ValidationStarted"
    current ← validate_current env checking
    judged_current checking result current current.passed

  unfoldable pub after_mutation : Run → ActionResult → Step W Turn
  after_mutation run result = do e ← take_mutation; mutated run result e

  unfoldable pub action_failed : Run → String → Step W Turn
  action_failed run problem = do
    let last = feedback env run "ACTION_FAILED" (printed problem)
    log_event env run "ActionFailed" (fault (some problem))
    again ← transition_to env run deciding "ActionFeedback"
    pure (next again (some last))

  unfoldable pub action_complete : Run → Option StructuredFeedback → Step W Turn
  action_complete run last = do
    again ← transition_to env run deciding "ActionComplete"
    pure (next again last)

  abbrev pub executed :
      Run → Option StructuredFeedback → Action → Result String ActionResult → Step W Turn
  executed run last action (err problem) = action_failed run problem
  executed run last action (ok result) =
      if is_mutation action.kind then after_mutation run result else action_complete run last

  unfoldable pub run_action : Run → Option StructuredFeedback → Action → Step W Turn
  run_action run last action = do result ← execute env action; executed run last action result

  -- An action that the policy allows.
  unfoldable pub allowed : Run → Option StructuredFeedback → Action → Step W Turn
  allowed run last action = do
    busy ← transition_to env run executing "ActionExecuting"
    (if action.kind == "finish" then finish_action busy else run_action busy last action)

  abbrev pub on_verdict :
      Run
      → Option StructuredFeedback
      → Action
      → Decision
      → List (String × String)
      → Verdict
      → Step W Turn
  on_verdict run last action decision baselines deny = denied run decision
  on_verdict run last action decision baselines require_approval =
      ask_approval run action decision baselines
  on_verdict run last action decision baselines allow = allowed run last action

  -- A valid decision, once it is counted.
  unfoldable pub govern : Run → Option StructuredFeedback → Action → Step W Turn
  govern run last action = do
    baselines ← read_baselines
    let decision = evaluate env.platform (loop_context run baselines) action
    on_verdict run last action decision baselines decision.verdict

  abbrev pub counted : Run → Option StructuredFeedback → Action → Option StopError → Step W Turn
  counted run last action (some e) = stop_turn run "BUDGET_EXHAUSTED"
  counted run last action none = govern run last action

  -- `valid`.
  unfoldable pub is_valid : AgentDecision → Bool
  is_valid d = d.version == "1" && (not (d.action.kind == "") && env.valid_json d.action.args)

  abbrev pub answered : Run → Option StructuredFeedback → Result String AgentDecision → Step W Turn
  answered run last (err problem) = protocol_error run last (some problem)
  answered run last (ok d) =
      if is_valid d
      then (do e ← take_decision; counted run last d.action e)
      else protocol_error run last none

  abbrev pub in_time : Run → Option StructuredFeedback → Option StopError → Step W Turn
  in_time run last (some e) = stop_turn run "BUDGET_EXHAUSTED"
  in_time run last none = do
    answer ← decide env (record { task = run.task; last_feedback = last })
    answered run last answer

  abbrev pub unless_cancelled : Run → Option StructuredFeedback → Option String → Step W Turn
  unless_cancelled run last (some e) = stop_turn run "USER_CANCELLED"
  unless_cancelled run last none = do now ← budget_now env; e ← time_left now; in_time run last e

  unfoldable pub turn : Run → Option StructuredFeedback → Step W Turn
  turn run last = do e ← context_err env; unless_cancelled run last e

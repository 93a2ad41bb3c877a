-- ===== src/Agent/Loop.antt =====
-- internal/agent/loop.go: `run`. The rounds take fuel; Termination shows how much is enough.
use ai4se_coding_agent_harne.Prelude.{
  ℕ, zero, suc, String, Bool, true, false, Option, none, some, Result, ok, err, if◌then◌else◌,
}
use mathlib.Core.Logic.{ite}
use ai4se_coding_agent_harne.Domain.{
  Run, RunState-discrete, created, preflight, baseline_validating, deciding, StructuredFeedback,
}
use ai4se_coding_agent_harne.Agent.Session.{
  ValidationResult, LoopResult, validation, AgentError, Env, Session, Step, pure, ◌>>=◌, ◌>>◌,
}
use ai4se_coding_agent_harne.Agent.Steps.{context_err, validate_baseline, transition_to, log_event}
use ai4se_coding_agent_harne.Agent.Turn.{Turn, next, finished, turn, stop_turn, is_review}

module _ {W : Type 0} (env : Env W) where
  -- What follows the preflight and the baseline.
  unfoldable pub begin_deciding : Run → Option StructuredFeedback → Step W Turn
  begin_deciding run last =
      ite (RunState-discrete run.state deciding) (pure (next run last))
        (do ready ← transition_to env run deciding "Deciding"; pure (next ready last))

  abbrev pub judged_baseline :
      Run → Option StructuredFeedback → ValidationResult → Bool → Step W Turn
  judged_baseline run last base true = stop_turn env run "NO_REPRODUCTION"
  judged_baseline run last base false = do
    log_event env run "BaselineFailed" (validation base)
    begin_deciding run last

  unfoldable pub run_baseline : Run → Option StructuredFeedback → Step W Turn
  run_baseline run last = do
    ready ← transition_to env run baseline_validating "BaselineStarted"
    base ← validate_baseline env ready
    judged_baseline ready last base base.passed

  unfoldable pub begin_baseline : Run → Option StructuredFeedback → Step W Turn
  begin_baseline run last =
      ite (RunState-discrete run.state preflight)
        (if is_review run.profile then begin_deciding run last else run_baseline run last)
        (begin_deciding run last)

  unfoldable pub begin_preflight : Run → Option StructuredFeedback → Step W Turn
  begin_preflight run last =
      ite (RunState-discrete run.state created)
        (do ready ← transition_to env run preflight "PreflightComplete"; begin_baseline ready last)
        (begin_baseline run last)

  abbrev pub unless_cancelled : Run → Option StructuredFeedback → Option String → Step W Turn
  unless_cancelled run last (some e) = stop_turn env run "USER_CANCELLED"
  unless_cancelled run last none = begin_preflight run last

  -- Everything before the loop's first round.
  unfoldable pub begin : Run → Option StructuredFeedback → Step W Turn
  begin run last = do e ← context_err env; unless_cancelled run last e

  -- What a loop gives back: `none` means that the fuel ran out.
  abbrev pub Outcome : Type 0
  Outcome = Option (Result AgentError LoopResult × Session W)

  -- Goes on with `again` where there is another round.
  unfoldable pub proceed :
      (Run → Option StructuredFeedback → Session W → Outcome)
      → Result AgentError Turn × Session W
      → Outcome
  proceed again (ok (next run last), s) = again run last s
  proceed again (ok (finished result), s) = some (ok result, s)
  proceed again (err e, s) = some (err e, s)

  unfoldable pub rounds : ℕ → Run → Option StructuredFeedback → Session W → Outcome
  unfolding proceed
  rounds zero run last s = none
  rounds (suc fuel) run last s = proceed (rounds fuel) (turn env run last s)

  -- `Loop.run`; `Loop.Run` passes no feedback.
  unfoldable pub run : ℕ → Run → Option StructuredFeedback → Session W → Outcome
  unfolding proceed
  run fuel r last s = proceed (rounds fuel) (begin r last s)

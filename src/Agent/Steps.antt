-- ===== src/Agent/Steps.antt =====
-- internal/agent/loop.go: `transitionPayload`, `transition`, `event`, `stop`, `feedback` and
-- `deletePending`, and the calls of the loop's dependencies.
use ai4se_coding_agent_harne.Prelude.{
  String, ◌==◌, Bool, false, Option, none, some, List, [], Result, ok, err, pos, if◌then◌else◌,
  lookup, insert, erase,
}
use mathlib.Core.Logic.{ite}
use ai4se_coding_agent_harne.Domain.{
  Time, Run, RunState, RunState-discrete, stopped, Action, AgentDecision, Observation,
  StructuredFeedback, RunEvent, TransitionError, transition,
}
use ai4se_coding_agent_harne.Store.{StoreError, update_run_if_state, append_event}
use ai4se_coding_agent_harne.Budget.{
  StopError, check_time, record_decision, record_mutation, record_protocol_repair,
}
use ai4se_coding_agent_harne.Budget.Progress.{ProgressDetector, ProgressOutcome, observe, continue}
use ai4se_coding_agent_harne.Feedback.Process.{process}
use ai4se_coding_agent_harne.Agent.Session.{
  ActionResult, ValidationResult, PendingApproval, LoopResult, Request, Payload, empty_object,
  stop_reason, AgentError, transition_error, marshal_error, store_error, Env, Session, Step, pure,
  raise, ◌>>=◌, ◌>>◌,
}

abbrev pub zero_time : Time
zero_time = record { nanos = 0; location = "UTC" }

-- `domain.Observation{Stdout: text}`.
abbrev pub printed : String → Observation
printed text = record {
  code = "";
  exit_code = none;
  stdout = text;
  stderr = "";
  output_truncated = false;
  started_at = zero_time;
  ended_at = zero_time;
  raw_data = "";
}

abbrev pub or_empty : Option String → String
or_empty none = ""
or_empty (some s) = s

-- `if err := domain.Transition(…); err != nil { return err }`.
unfoldable pub if_valid : {W A : Type 0} → Option TransitionError → Step W A → Step W A
if_valid none m = m
if_valid (some e) m = raise transition_error

module _ {W : Type 0} (env : Env W) where
  -- Reads that only the outside world answers.
  unfoldable pub context_err : Step W (Option String)
  context_err s = let (e, w) = env.context_err s.world in (ok e, record s { world = w })

  unfoldable pub store_now : Step W Time
  store_now s = let (t, w) = env.store_now s.world in (ok t, record s { world = w })

  unfoldable pub budget_now : Step W Time
  budget_now s = let (t, w) = env.budget_now s.world in (ok t, record s { world = w })

  unfoldable pub decide : Request → Step W (Result String AgentDecision)
  decide request s = let (d, w) = env.decide request s.world in (ok d, record s { world = w })

  unfoldable pub execute : Action → Step W (Result String ActionResult)
  execute action s = let (r, w) = env.execute action s.world in (ok r, record s { world = w })

  unfoldable pub validate_baseline : Run → Step W ValidationResult
  validate_baseline run s = let (v, w) = env.baseline run s.world in (ok v, record s { world = w })

  unfoldable pub validate_current : Run → Step W ValidationResult
  validate_current run s = let (v, w) = env.current run s.world in (ok v, record s { world = w })

  unfoldable pub validate_final : Run → Step W ValidationResult
  validate_final run s = let (v, w) = env.final run s.world in (ok v, record s { world = w })

  abbrev pub stored : Result StoreError RunEvent → Result AgentError (Unit {0})
  stored (ok e) = ok tt
  stored (err e) = err (store_error e)

  unfoldable pub update_store :
      Option String → Time → Run → RunState → String → String → Step W (Unit {0})
  update_store ctx now run expected ty payload s =
      let (store, r) =
        update_run_if_state env.platform.sha256_hex s.store ctx now run expected ty payload in
      (stored r, record s { store = store })

  unfoldable pub append_store : Option String → Time → String → String → String → Step W (Unit {0})
  append_store ctx now run_id ty payload s =
      let (store, r) = append_event env.platform.sha256_hex s.store ctx now run_id ty payload in
      (stored r, record s { store = store })

  -- The run with its new state; on an error the caller keeps the old one.
  abbrev pub write_transition : Run → RunState → String → Option String → Step W Run
  write_transition run to event none = raise marshal_error
  write_transition run to event (some payload) = do
    ctx ← context_err
    now ← store_now
    update_store ctx now (record run { state = to }) run.state event payload
    pure (record run { state = to })

  unfoldable pub transition_payload : Run → RunState → String → Payload → Step W Run
  transition_payload run to event value =
      if_valid (transition run.state to) (write_transition run to event (env.marshal value))

  unfoldable pub transition_to : Run → RunState → String → Step W Run
  transition_to run to event = transition_payload run to event empty_object

  unfoldable pub log_event : Run → String → Payload → Step W (Unit {0})
  log_event run ty payload = do
    ctx ← context_err
    now ← store_now
    append_store ctx now run.id ty (or_empty (env.marshal payload))

  abbrev pub write_stop : Run → String → Step W LoopResult
  write_stop run code = do
    now ← store_now
    update_store none now (record run { state = stopped }) run.state "RunStopped"
        (or_empty (env.marshal (stop_reason code)))
    pure (record { state = stopped; stop_code = code })

  -- The store is written under `context.WithoutCancel`, so its context never fails.
  unfoldable pub stop : Run → String → Step W LoopResult
  stop run code =
      ite (RunState-discrete run.state stopped)
        (pure (record { state = run.state; stop_code = code }))
        (if_valid (transition run.state stopped) (write_stop run code))

  unfoldable pub feedback : Run → String → Observation → StructuredFeedback
  feedback run code observation = process env.patterns env.pipeline (record {
    stage_id = run.current_stage;
    code = code;
    observation = observation;
    rules = [];
    prior_occurrences = pos 0;
    secrets = [];
  })

-- `l.d.Budget`: the error is `none` where the request is granted.
unfoldable pub take_decision : {W : Type 0} → Step W (Option StopError)
take_decision s = let (t, e) = record_decision s.budget in (ok e, record s { budget = t })

unfoldable pub take_repair : {W : Type 0} → Step W (Option StopError)
take_repair s = let (t, e) = record_protocol_repair s.budget in (ok e, record s { budget = t })

unfoldable pub take_mutation : {W : Type 0} → Step W (Option StopError)
take_mutation s = let (t, e) = record_mutation s.budget in (ok e, record s { budget = t })

unfoldable pub time_left : {W : Type 0} → Time → Step W (Option StopError)
time_left now s = (ok (check_time s.budget now), s)

unfoldable pub read_baselines : {W : Type 0} → Step W (List (String × String))
read_baselines s = (ok s.baselines, s)

-- `l.d.Progress != nil && l.d.Progress.Observe(…) == budget.ProgressStop`.
abbrev pub observed_by :
    {W : Type 0} → Option ProgressDetector → String → String → Step W ProgressOutcome
observed_by none fingerprint diff s = (ok continue, s)
observed_by (some p) fingerprint diff s =
    let (p', o) = observe p fingerprint diff in (ok o, record s { progress = some p' })

unfoldable pub observe_progress : {W : Type 0} → String → String → Step W ProgressOutcome
observe_progress fingerprint diff s = observed_by s.progress fingerprint diff s

-- `l.pending[run.ID] = …` and `deletePending`, which leaves another digest alone.
unfoldable pub put_pending : {W : Type 0} → String → PendingApproval → Session W → Session W
put_pending id p s = record s { pending = insert id p s.pending }

abbrev pub matches_digest : Option PendingApproval → String → Bool
matches_digest none digest = false
matches_digest (some p) digest = p.digest == digest

unfoldable pub delete_pending : {W : Type 0} → String → String → Session W → Session W
delete_pending id digest s =
    if matches_digest (lookup id s.pending) digest
    then record s { pending = erase id s.pending }
    else s

unfoldable pub modify : {W : Type 0} → (Session W → Session W) → Step W (Unit {0})
modify f s = (ok tt, f s)

-- ===== src/Agent/Safety.antt =====
-- What internal/agent/loop.go keeps over a whole `run`: its prefix and any number of rounds.
use ai4se_coding_agent_harne.Prelude.{
  ℕ, zero, suc, String, ◌≡◌, refl, sym, ap, ◌∙◌, ◌≢◌, Bool, true, false, Option, none, some, List,
  lookup, Result, ok, err, arith,
}
use ai4se_coding_agent_harne.Domain.{
  Run, RunState, RunState-discrete, PermissionProfile, Action, StructuredFeedback, AgentDecision,
  created, preflight, baseline_validating, stopped, deciding, transition, allowed_transitions,
}
use ai4se_coding_agent_harne.Domain.Transitions.{is_terminal}
use ai4se_coding_agent_harne.Budget.{StopError, record_decision, record_protocol_repair}
use ai4se_coding_agent_harne.Agent.Session.{
  ValidationResult, Request, AgentError, Env, Session, Step,
}
use ai4se_coding_agent_harne.Agent.Steps.{
  budget_now, decide, take_decision, take_repair, time_left, validate_baseline,
}
use ai4se_coding_agent_harne.Agent.Turn.{
  Turn, next, finished, protocol_error, repaired, counted, answered, in_time, unless_cancelled,
  turn, is_review, is_valid, stop_turn,
}
use ai4se_coding_agent_harne.Agent.Loop.{
  begin_deciding, judged_baseline, run_baseline, begin_baseline, begin_preflight, begin, rounds,
  proceed, run, Outcome,
}
use ai4se_coding_agent_harne.Agent.Loop
use ai4se_coding_agent_harne.Agent.Triples.{Post, Triple-if, Triple-ite}
use ai4se_coding_agent_harne.Agent.Keeps.{Frame, Here, Done, Failed}
use ai4se_coding_agent_harne.Agent.Keeps.Primitives.{context_err-keeps}
use ai4se_coding_agent_harne.Agent.Keeps.Rounds.{
  TurnKept, Kept, then_go, log_then, move_then, stop_turn-keeps, next_from, govern-keeps,
}

-- What the rest of a run needs, beyond the frame of a counted decision.
pub record FullFrame {W : Type 0} (env : Env W) (id : String) (profile : PermissionProfile)
    (baselines : List (String × String)) (I : Session W → Type 0) : Type 0 where
  pub frame : Frame env id profile baselines I
  pub budget_clock : (s : Session W) → I s → I (record s { world = (env.budget_now s.world).1 })
  pub decide :
      (s : Session W) (request : Request)
      → I s
      → I (record s { world = (env.decide request s.world).1 })
  pub baseline :
      (s : Session W) (run : Run) → I s → I (record s { world = (env.baseline run s.world).1 })
  pub decision : (s : Session W) → I s → I (record s { budget = (record_decision s.budget).0 })
  pub repair : (s : Session W) → I s → I (record s { budget = (record_protocol_repair s.budget).0 })

module _ {W : Type 0} (env : Env W) (id : String) (profile : PermissionProfile)
    (baselines : List (String × String)) (I : Session W → Type 0)
    (full : FullFrame env id profile baselines I) where
  abbrev At : RunState → Run → Session W → Type 0
  At = Here id profile baselines I

  abbrev TurnKeeps : (Session W → Type 0) → Step W Turn → Type 0
  TurnKeeps = Kept env id profile baselines I full.frame

  -- A step that changes what `Here` does not read.
  moved :
      (st : RunState) (run : Run) (s s' : Session W)
      → s'.store ≡ s.store
      → s'.baselines ≡ s.baselines
      → I s'
      → At st run s
      → At st run s'
  moved st run s s' e b i h =
      let (r, found, q) = h.stored in
      record {
        inv = i;
        stored = (r, ap (λ t. lookup id t.runs) e ∙ found, q);
        run_id = h.run_id;
        run_profile = h.run_profile;
        bound = b ∙ h.bound;
        in_state = h.in_state;
      }

  stop_with :
      (st : RunState) (run : Run) (code : String)
      → transition st stopped ≡ none
      → TurnKeeps (At st run) (stop_turn env run code)
  stop_with = stop_turn-keeps env id profile baselines I full.frame

  protocol_error-keeps :
      (run : Run) (last : Option StructuredFeedback) (problem : Option String)
      → TurnKeeps (At deciding run) (protocol_error env run last problem)
  unfolding protocol_error take_repair transition allowed_transitions
  protocol_error-keeps run last problem =
      then_go env id profile baselines I full.frame (λ _. At deciding run) _ _
        (record { at = λ s h. moved deciding run s _ refl refl (full.repair s h.inv) h })
        (λ e. after e)
    where
      after : (e : Option StopError) → TurnKeeps (At deciding run) (repaired env run last problem e)
      after (some e) = stop_with deciding run _ refl
      after none =
          log_then env id profile baselines I full.frame deciding run _ _ _
            (next_from env id profile baselines I full.frame run last)

  counted-keeps :
      (run : Run) (last : Option StructuredFeedback) (action : Action) (e : Option StopError)
      → TurnKeeps (At deciding run) (counted env run last action e)
  unfolding transition allowed_transitions
  counted-keeps run last action (some e) = stop_with deciding run _ refl
  counted-keeps run last action none =
      govern-keeps env id profile baselines I full.frame run last action

  answered-keeps :
      (run : Run) (last : Option StructuredFeedback) (answer : Result String AgentDecision)
      → TurnKeeps (At deciding run) (answered env run last answer)
  unfolding take_decision
  answered-keeps run last (err problem) = protocol_error-keeps run last (some problem)
  answered-keeps run last (ok d) =
      Triple-if (is_valid env d) _ _
        (λ _.
          then_go env id profile baselines I full.frame (λ _. At deciding run) _ _
            (record { at = λ s h. moved deciding run s _ refl refl (full.decision s h.inv) h })
            (λ e. counted-keeps run last d.action e))
        (λ _. protocol_error-keeps run last none)

  in_time-keeps :
      (run : Run) (last : Option StructuredFeedback) (e : Option StopError)
      → TurnKeeps (At deciding run) (in_time env run last e)
  unfolding decide transition allowed_transitions
  in_time-keeps run last (some e) = stop_with deciding run _ refl
  in_time-keeps run last none =
      then_go env id profile baselines I full.frame (λ _. At deciding run) _ _
        (record { at = λ s h. moved deciding run s _ refl refl (full.decide s _ h.inv) h })
        (λ answer. answered-keeps run last answer)

  unless_cancelled-keeps :
      (run : Run) (last : Option StructuredFeedback) (e : Option String)
      → TurnKeeps (At deciding run) (unless_cancelled env run last e)
  unfolding budget_now time_left transition allowed_transitions
  unless_cancelled-keeps run last (some e) = stop_with deciding run _ refl
  unless_cancelled-keeps run last none =
      then_go env id profile baselines I full.frame (λ _. At deciding run) _ _
        (record { at = λ s h. moved deciding run s _ refl refl (full.budget_clock s h.inv) h })
        (λ now.
          then_go env id profile baselines I full.frame (λ _. At deciding run) _ _
            (record { at = λ s h. h }) (λ e. in_time-keeps run last e))

  pub turn-keeps :
      (run : Run) (last : Option StructuredFeedback)
      → TurnKeeps (At deciding run) (turn env run last)
  unfolding turn
  turn-keeps run last =
      then_go env id profile baselines I full.frame (λ _. At deciding run) _ _
        (context_err-keeps env id profile baselines I full.frame deciding run)
        (λ e. unless_cancelled-keeps run last e)

  -- What is known where a loop ends.
  abbrev pub Ended : Outcome env → Type 0
  Ended none = Unit {0}
  Ended (some (ok result, s)) = Done id I result s
  Ended (some (err e, s)) = Failed I e s

  proceed-Ended :
      (again : Run → Option StructuredFeedback → Session W → Outcome env)
      (x : Result AgentError Turn × Session W)
      → ((r : Run) (last : Option StructuredFeedback) (s : Session W)
          → At deciding r s
          → Ended (again r last s))
      → Post (TurnKept env id profile baselines I full.frame) (Failed I) x
      → Ended (proceed env again x)
  unfolding proceed
  proceed-Ended again (ok (next r last), s) f p = f r last s p
  proceed-Ended again (ok (finished result), s) f p = p
  proceed-Ended again (err e, s) f p = p

  rounds-Ended :
      (fuel : ℕ) (r : Run) (last : Option StructuredFeedback) (s : Session W)
      → At deciding r s
      → Ended (rounds env fuel r last s)
  unfolding rounds
  rounds-Ended zero r last s h = tt
  rounds-Ended (suc fuel) r last s h =
      proceed-Ended (rounds env fuel) (turn env r last s) (rounds-Ended fuel)
        ((turn-keeps r last).at s h)

  retarget :
      (st st' : RunState) (run : Run)
      → run.state ≡ st'
      → (s : Session W) → At st run s
      → At st' run s
  retarget st st' run e s h =
      let (r, found, q) = h.stored in
      record {
        inv = h.inv;
        stored = (r, found, q ∙ sym h.in_state ∙ e);
        run_id = h.run_id;
        run_profile = h.run_profile;
        bound = h.bound;
        in_state = e;
      }

  at_state :
      (st st' : RunState) (run : Run) (m : Step W Turn)
      → run.state ≡ st'
      → TurnKeeps (At st' run) m
      → TurnKeeps (At st run) m
  at_state st st' run m e k = record { at = λ s h. k.at s (retarget st st' run e s h) }

  begin_deciding-keeps :
      (st : RunState) (run : Run) (last : Option StructuredFeedback)
      → ((st ≢ deciding) → transition st deciding ≡ none)
      → TurnKeeps (At st run) (begin_deciding env run last)
  unfolding begin_deciding
  begin_deciding-keeps st run last v =
      Triple-ite (RunState-discrete run.state deciding) _ _
        (λ e.
          at_state st deciding run _ e (next_from env id profile baselines I full.frame run last))
        (λ ne. record {
          at = λ s h.
              (move_then env id profile baselines I full.frame st deciding run _ _
                  (v (λ e. ne (h.in_state ∙ e)))
                  (λ ready. next_from env id profile baselines I full.frame ready last)).at
                s h;
        })

  run_baseline-keeps :
      (run : Run) (last : Option StructuredFeedback)
      → TurnKeeps (At preflight run) (run_baseline env run last)
  unfolding run_baseline validate_baseline transition allowed_transitions
  run_baseline-keeps run last =
      move_then env id profile baselines I full.frame preflight baseline_validating run _ _ refl
        (λ ready.
          then_go env id profile baselines I full.frame (λ _. At baseline_validating ready) _ _
            (record {
              at = λ s h.
                  moved baseline_validating ready s _ refl refl (full.baseline s ready h.inv) h;
            })
            (λ base. judged ready base base.passed))
    where
      judged :
          (ready : Run) (base : ValidationResult) (b : Bool)
          → TurnKeeps (At baseline_validating ready) (judged_baseline env ready last base b)
      judged ready base true = stop_with baseline_validating ready _ refl
      judged ready base false =
          log_then env id profile baselines I full.frame baseline_validating ready _ _ _
            (begin_deciding-keeps baseline_validating ready last (λ _. refl))

  begin_baseline-keeps :
      (st : RunState) (run : Run) (last : Option StructuredFeedback)
      → ((st ≢ deciding) → transition st deciding ≡ none)
      → TurnKeeps (At st run) (begin_baseline env run last)
  unfolding begin_baseline
  begin_baseline-keeps st run last v =
      Triple-ite (RunState-discrete run.state preflight) _ _
        (λ e.
          Triple-if (is_review run.profile) _ _ (λ _. begin_deciding-keeps st run last v)
            (λ _. at_state st preflight run _ e (run_baseline-keeps run last)))
        (λ _. begin_deciding-keeps st run last v)

  live_deciding :
      (st : RunState)
      → is_terminal st ≡ false
      → st ≢ created
      → st ≢ deciding
      → transition st deciding ≡ none
  unfolding transition allowed_transitions
  live_deciding st l a b = ground arith

  live_stopped : (st : RunState) → is_terminal st ≡ false → transition st stopped ≡ none
  unfolding transition allowed_transitions
  live_stopped st l = ground arith

  begin_preflight-keeps :
      (st : RunState) (run : Run) (last : Option StructuredFeedback)
      → is_terminal st ≡ false
      → TurnKeeps (At st run) (begin_preflight env run last)
  unfolding begin_preflight transition allowed_transitions
  begin_preflight-keeps st run last live =
      Triple-ite (RunState-discrete run.state created) _ _
        (λ e. at_state st created run _ e (
          move_then env id profile baselines I full.frame created preflight run _ _ refl
            (λ ready. begin_baseline-keeps preflight ready last (λ _. refl))))
        (λ ne. record {
          at = λ s h.
              (begin_baseline-keeps st run last
                  (live_deciding st live (λ e. ne (h.in_state ∙ e)))).at
                s h;
        })

  pub begin-keeps :
      (st : RunState) (run : Run) (last : Option StructuredFeedback)
      → is_terminal st ≡ false
      → TurnKeeps (At st run) (begin env run last)
  unfolding begin
  begin-keeps st run last live =
      then_go env id profile baselines I full.frame (λ _. At st run) _ _
        (context_err-keeps env id profile baselines I full.frame st run) (λ e. after e)
    where
      after : (e : Option String) → TurnKeeps (At st run) (Loop.unless_cancelled env run last e)
      after (some e) = stop_with st run _ (live_stopped st live)
      after none = begin_preflight-keeps st run last live

  -- A run that is not terminal and whose record is in the store in the same state: whatever the
  -- outside world does, a result of the loop is the state that the store then holds for the run, an
  -- error is never an invalid transition, and what each primitive change keeps holds at the end. The
  -- executor is only called on actions that the policy allows for this run and its baselines.
  pub run-Ended :
      (fuel : ℕ) (r : Run) (last : Option StructuredFeedback) (s : Session W)
      → is_terminal r.state ≡ false
      → At r.state r s
      → Ended (run env fuel r last s)
  unfolding run
  run-Ended fuel r last s live h =
      proceed-Ended (rounds env fuel) (begin env r last s) (rounds-Ended fuel)
        ((begin-keeps r.state r last live).at s h)

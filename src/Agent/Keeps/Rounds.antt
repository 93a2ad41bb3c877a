-- ===== src/Agent/Keeps/Rounds.antt =====
-- The triples of the parts of a round of internal/agent/loop.go, from the counted decision on.
use ai4se_coding_agent_harne.Prelude.{
  String, ◌==◌, ◌≡◌, refl, sym, subst, ◌∙◌, Bool, true, false, Option, none, some, List, Result, ok,
  err, if◌then◌else◌,
}
use ai4se_coding_agent_harne.Domain.{
  Run, RunState, PermissionProfile, Action, StructuredFeedback, stopped, deciding,
  awaiting_approval, executing, validating, final_validating, succeeded, review_complete,
  transition, allowed_transitions,
}
use ai4se_coding_agent_harne.Budget.{StopError}
use ai4se_coding_agent_harne.Budget.Progress.{
  ProgressDetector, ProgressOutcome, observe, continue, warning, stop as halt,
}
use ai4se_coding_agent_harne.Policy.Risk.{is_mutation}
use ai4se_coding_agent_harne.Policy.Engine.{
  Decision, Verdict, allow, require_approval, deny, evaluate,
}
use ai4se_coding_agent_harne.Agent.Session.{
  ActionResult, ValidationResult, PendingApproval, Payload, AgentError, Env, Session, Step, pure,
  ◌>>=◌, ◌>>◌,
}
use ai4se_coding_agent_harne.Agent.Steps.{
  execute, validate_current, validate_final, transition_to, log_event, take_mutation,
  read_baselines, observe_progress, observed_by, put_pending, delete_pending, modify,
}
use ai4se_coding_agent_harne.Agent.Turn.{
  Turn, next, finished, loop_context, is_review, stop_turn, denied, ask_approval, judged_final,
  finish_review, finish_validated, finish_action, after_progress, judged_current, mutated,
  after_mutation, action_failed, action_complete, executed, run_action, allowed, on_verdict, govern,
}
use ai4se_coding_agent_harne.Agent.Triples.{
  Post, Triple, Triple-pure, Triple-bind, Triple-if, Triple-on_error,
}
use ai4se_coding_agent_harne.Agent.Keeps.{Frame, IsAllowed, Here, Done, Failed}
use ai4se_coding_agent_harne.Agent.Keeps.Primitives.{
  log_event-keeps, transition_payload-keeps, transition_to-keeps, stop-keeps,
}

pub if_either :
    {S : Type 0} (P : S → Type 0) (b : Bool) (x y : S) → P x → P y → P (if b then x else y)
if_either P true x y a c = a
if_either P false x y a c = c

module _ {W : Type 0} (env : Env W) (id : String) (profile : PermissionProfile)
    (baselines : List (String × String)) (I : Session W → Type 0)
    (frame : Frame env id profile baselines I) where
  abbrev At : RunState → Run → Session W → Type 0
  At = Here id profile baselines I

  -- Another round starts in `deciding`; a finished loop's result agrees with the store.
  abbrev pub TurnKept : Turn → Session W → Type 0
  TurnKept (next run last) s = At deciding run s
  TurnKept (finished result) s = Done id I result s

  abbrev pub Kept : (Session W → Type 0) → Step W Turn → Type 0
  Kept P m = Triple P m TurnKept (Failed I)

  pub then_go :
      {A : Type 0} {P : Session W → Type 0} (Q : A → Session W → Type 0) (m : Step W A)
      (f : A → Step W Turn)
      → Triple P m Q (Failed I)
      → ((a : A) → Kept (Q a) (f a))
      → Kept P (m >>= f)
  then_go Q m f x y = Triple-bind Q m f x y

  pub log_then :
      (st : RunState) (run : Run) (ty : String) (payload : Payload) (m : Step W Turn)
      → Kept (At st run) m
      → Kept (At st run) (log_event env run ty payload >> m)
  log_then st run ty payload m k =
      Triple-bind (λ _. At st run) _ _
        (log_event-keeps env id profile baselines I frame st run ty payload) (λ _. k)

  pub move_then :
      (st to : RunState) (run : Run) (event : String) (f : Run → Step W Turn)
      → transition st to ≡ none
      → ((r : Run) → Kept (At to r) (f r))
      → Kept (At st run) (transition_to env run to event >>= f)
  move_then st to run event f v k =
      Triple-bind (At to) _ _
        (transition_to-keeps env id profile baselines I frame st to run event v) k

  -- Every state in which a loop stops may be stopped.
  pub stop_turn-keeps :
      (st : RunState) (run : Run) (code : String)
      → transition st stopped ≡ none
      → Kept (At st run) (stop_turn env run code)
  unfolding stop_turn
  stop_turn-keeps st run code v =
      Triple-bind (Done id I) _ _ (stop-keeps env id profile baselines I frame st run code v)
        (λ result. Triple-pure _ _ (λ s h. h))

  pub next_from :
      (run : Run) (last : Option StructuredFeedback) → Kept (At deciding run) (pure (next run last))
  next_from run last = Triple-pure _ _ (λ s h. h)

  denied-keeps :
      (run : Run) (decision : Decision) → Kept (At deciding run) (denied env run decision)
  unfolding denied
  denied-keeps run decision =
      log_then deciding run _ _ _ (log_then deciding run _ _ _ (next_from run _))

  finish_with :
      (st : RunState) (run : Run) (code : String)
      → Kept (At st run) (pure (finished (record { state = run.state; stop_code = code })))
  finish_with st run code =
      Triple-pure _ _
        (λ s h. let (r, found, q) = h.stored in (h.inv, (r, found, q ∙ sym h.in_state)))

  update_pending :
      (st : RunState) (run : Run) (id' : String) (p : PendingApproval)
      → Triple (At st run) (modify (put_pending id' p)) (λ _. At st run) (Failed I)
  unfolding modify put_pending
  update_pending st run id' p = record {
    at = λ s h. record {
      inv = frame.pending s _ h.inv;
      stored = h.stored;
      run_id = h.run_id;
      run_profile = h.run_profile;
      bound = h.bound;
      in_state = h.in_state;
    };
  }

  delete_pending-keeps :
      (id' digest : String) (e : AgentError) (s : Session W)
      → Failed I e s
      → Failed I e (delete_pending id' digest s)
  unfolding delete_pending
  delete_pending-keeps id' digest e s (i, ne) = (if_either I _ _ _ (frame.pending s _ i) i, ne)

  ask_approval-keeps :
      (run : Run) (action : Action) (decision : Decision) (bs : List (String × String))
      → Kept (At deciding run) (ask_approval env run action decision bs)
  unfolding ask_approval
  ask_approval-keeps run action decision bs =
      Triple-bind (λ _. At deciding run) _ _ (update_pending deciding run _ _)
        (λ _.
          Triple-bind (At awaiting_approval) _ _
            (Triple-on_error _ _
              (transition_payload-keeps env id profile baselines I frame deciding awaiting_approval
                run _ _ (unfold transition allowed_transitions in refl))
              (delete_pending-keeps run.id decision.digest))
            (λ waiting. finish_with awaiting_approval waiting _))

  validate_final-keeps :
      (st : RunState) (run r : Run)
      → Triple (At st run) (validate_final env r) (λ _. At st run) (Failed I)
  unfolding validate_final
  validate_final-keeps st run r = record {
    at = λ s h. record {
      inv = frame.final s r h.inv;
      stored = h.stored;
      run_id = h.run_id;
      run_profile = h.run_profile;
      bound = h.bound;
      in_state = h.in_state;
    };
  }

  pub validate_current-keeps :
      (st : RunState) (run r : Run)
      → Triple (At st run) (validate_current env r) (λ _. At st run) (Failed I)
  unfolding validate_current
  validate_current-keeps st run r = record {
    at = λ s h. record {
      inv = frame.current s r h.inv;
      stored = h.stored;
      run_id = h.run_id;
      run_profile = h.run_profile;
      bound = h.bound;
      in_state = h.in_state;
    };
  }

  pub take_mutation-keeps :
      (st : RunState) (run : Run) → Triple (At st run) take_mutation (λ _. At st run) (Failed I)
  unfolding take_mutation
  take_mutation-keeps st run = record {
    at = λ s h. record {
      inv = frame.mutation s h.inv;
      stored = h.stored;
      run_id = h.run_id;
      run_profile = h.run_profile;
      bound = h.bound;
      in_state = h.in_state;
    };
  }

  observed_by-keeps :
      (st : RunState) (run : Run) (p : Option ProgressDetector) (f d : String)
      → Triple (At st run) (observed_by p f d) (λ _. At st run) (Failed I)
  observed_by-keeps st run none f d = record { at = λ s h. h }
  observed_by-keeps st run (some p) f d = record {
    at = λ s h. record {
      inv = frame.progress s (observe p f d).0 h.inv;
      stored = h.stored;
      run_id = h.run_id;
      run_profile = h.run_profile;
      bound = h.bound;
      in_state = h.in_state;
    };
  }

  observe_progress-keeps :
      (st : RunState) (run : Run) (f d : String)
      → Triple (At st run) (observe_progress f d) (λ _. At st run) (Failed I)
  unfolding observe_progress
  observe_progress-keeps st run f d = record {
    at = λ s h. (observed_by-keeps st run s.progress f d).at s h;
  }

  judged_final-keeps :
      (run : Run) (final : ValidationResult) (b : Bool)
      → Kept (At validating run) (judged_final env run final b)
  unfolding transition allowed_transitions
  judged_final-keeps run final false = log_then validating run _ _ _ (
      log_then validating run _ _ _
        (move_then validating deciding run _ _ refl (λ r. next_from r _)))
  judged_final-keeps run final true =
      move_then validating final_validating run _ _ refl (λ r.
        move_then final_validating succeeded r _ _ refl (λ done. finish_with succeeded done ""))

  finish_action-keeps : (run : Run) → Kept (At executing run) (finish_action env run)
  unfolding finish_action finish_review finish_validated transition allowed_transitions
  finish_action-keeps run =
      Triple-if (is_review run.profile) _ _
        (λ _. move_then executing deciding run _ _ refl (λ back.
          move_then deciding review_complete back _ _ refl
            (λ done. finish_with review_complete done "")))
        (λ _. move_then executing validating run _ _ refl (λ checking.
          then_go (λ _. At validating checking) _ _
            (validate_final-keeps validating checking checking)
            (λ final. judged_final-keeps checking final final.passed)))

  after_progress-keeps :
      (run : Run) (last : StructuredFeedback) (o : ProgressOutcome)
      → Kept (At deciding run) (after_progress env run last o)
  unfolding transition allowed_transitions
  after_progress-keeps run last halt = stop_turn-keeps deciding run _ refl
  after_progress-keeps run last continue = next_from run _
  after_progress-keeps run last warning = next_from run _

  judged_current-keeps :
      (run : Run) (result : ActionResult) (current : ValidationResult) (b : Bool)
      → Kept (At validating run) (judged_current env run result current b)
  unfolding transition allowed_transitions
  judged_current-keeps run result current false = log_then validating run _ _ _ (
      log_then validating run _ _ _ (
        move_then validating deciding run _ _ refl (λ again.
          then_go (λ _. At deciding again) _ _ (observe_progress-keeps deciding again _ _)
            (λ o. after_progress-keeps again _ o))))
  judged_current-keeps run result current true =
      log_then validating run _ _ _
        (move_then validating deciding run _ _ refl (λ again. next_from again _))

  mutated-keeps :
      (run : Run) (result : ActionResult) (e : Option StopError)
      → Kept (At executing run) (mutated env run result e)
  unfolding transition allowed_transitions
  mutated-keeps run result (some e) = stop_turn-keeps executing run _ refl
  mutated-keeps run result none = move_then executing validating run _ _ refl (λ checking.
      then_go (λ _. At validating checking) _ _
        (validate_current-keeps validating checking checking)
        (λ current. judged_current-keeps checking result current current.passed))

  executed-keeps :
      (run : Run) (last : Option StructuredFeedback) (action : Action)
      (r : Result String ActionResult)
      → Kept (At executing run) (executed env run last action r)
  unfolding action_failed after_mutation action_complete transition allowed_transitions
  executed-keeps run last action (err problem) =
      log_then executing run _ _ _
        (move_then executing deciding run _ _ refl (λ again. next_from again _))
  executed-keeps run last action (ok result) =
      Triple-if (is_mutation action.kind) _ _
        (λ _.
          then_go (λ _. At executing run) _ _ (take_mutation-keeps executing run)
            (λ e. mutated-keeps run result e))
        (λ _. move_then executing deciding run _ _ refl (λ again. next_from again last))

  -- The executor is called on an action that the policy allows for this run and these baselines.
  module _ (origin : Run) (action : Action) (same_id : origin.id ≡ id)
      (same_profile : origin.profile ≡ profile)
      (permitted : IsAllowed env origin baselines action) where
    run_action-keeps :
        (run : Run) (last : Option StructuredFeedback)
        → Kept (At executing run) (run_action env run last action)
    unfolding run_action execute
    run_action-keeps run last =
        then_go (λ _. At executing run) _ _
          (record {
            at = λ s h. record {
              inv = frame.execute s origin action same_id same_profile h.bound permitted h.inv;
              stored = h.stored;
              run_id = h.run_id;
              run_profile = h.run_profile;
              bound = h.bound;
              in_state = h.in_state;
            };
          })
          (λ r. executed-keeps run last action r)

    allowed-keeps :
        (run : Run) (last : Option StructuredFeedback)
        → Kept (At deciding run) (allowed env run last action)
    unfolding allowed transition allowed_transitions
    allowed-keeps run last = move_then deciding executing run _ _ refl (λ busy.
        Triple-if (action.kind == "finish") _ _ (λ _. finish_action-keeps busy)
          (λ _. run_action-keeps busy last))

  on_verdict-keeps :
      (run : Run) (last : Option StructuredFeedback) (action : Action) (decision : Decision)
      (v : Verdict)
      → (v ≡ allow → IsAllowed env run baselines action)
      → Kept (At deciding run) (on_verdict env run last action decision baselines v)
  on_verdict-keeps run last action decision deny f = denied-keeps run decision
  on_verdict-keeps run last action decision require_approval f =
      ask_approval-keeps run action decision baselines
  on_verdict-keeps run last action decision allow f = record {
    at = λ s h. (allowed-keeps run action h.run_id h.run_profile (f refl) run last).at s h;
  }

  -- A counted decision is denied, sent to the operator or carried out, and the run ends up deciding
  -- again or finished.
  pub govern-keeps :
      (run : Run) (last : Option StructuredFeedback) (action : Action)
      → Kept (At deciding run) (govern env run last action)
  unfolding govern read_baselines ◌>>=◌
  govern-keeps run last action = record {
    at = λ s h.
        subst
          (λ bs.
            let decision = evaluate env.platform (loop_context run bs) action in
            Post TurnKept (Failed I)
              (on_verdict env run last action decision bs decision.verdict s))
          (sym h.bound)
          ((on_verdict-keeps run last action
              (evaluate env.platform (loop_context run baselines) action) _ (λ e. e)).at
            s h);
  }

-- ===== src/Agent/Resumed.antt =====
-- internal/agent/loop.go: what `ResumeApproval` and the loop after it keep.
use ai4se_coding_agent_harne.Prelude.{
  ℕ, String, ◌≡◌, refl, sym, ap, ◌∙◌, Bool, true, false, Option, none, some, List, Result, ok, err,
  arith,
}
use ai4se_coding_agent_harne.Domain.{
  Run, RunState, PermissionProfile, executing, validating, deciding, awaiting_approval, stopped,
  StructuredFeedback, transition, allowed_transitions,
}
use ai4se_coding_agent_harne.Domain.Transitions.{is_terminal}
use ai4se_coding_agent_harne.Budget.{StopError}
use ai4se_coding_agent_harne.Policy.Risk.{is_mutation}
use ai4se_coding_agent_harne.Agent.Session.{
  ActionResult, ValidationResult, PendingApproval, Payload, AgentError, Env, Session, Step, pure,
  raise,
}
use ai4se_coding_agent_harne.Agent.Steps.{execute, modify, delete_pending, transition_to, log_event}
use ai4se_coding_agent_harne.Agent.Turn.{Turn, next, finished, stop_turn}
use ai4se_coding_agent_harne.Agent.Loop.{run, proceed}
use ai4se_coding_agent_harne.Agent.Approvals.{
  clear_pending, resumed_current, resumed_mutation, resumed, carry_out,
}
use ai4se_coding_agent_harne.Agent.Triples.{Post, Triple, Triple-pure, Triple-bind, Triple-if}
use ai4se_coding_agent_harne.Agent.Keeps.{Here, Done, Failed}
use ai4se_coding_agent_harne.Agent.Keeps.Primitives.{
  log_event-keeps, transition_to-keeps, stop-keeps,
}
use ai4se_coding_agent_harne.Agent.Keeps.Rounds.{
  validate_current-keeps, take_mutation-keeps, if_either,
}
use ai4se_coding_agent_harne.Agent.Safety.{FullFrame, Ended, run-Ended}

module _ {W : Type 0} (env : Env W) (id : String) (profile : PermissionProfile)
    (baselines : List (String × String)) (I : Session W → Type 0)
    (full : FullFrame env id profile baselines I) where
  abbrev At : RunState → Run → Session W → Type 0
  At = Here id profile baselines I

  -- The loop goes on with a live run, or is finished.
  abbrev pub Ready : Turn → Session W → Type 0
  Ready (next r last) s = At r.state r s × (is_terminal r.state ≡ false)
  Ready (finished result) s = Done id I result s

  abbrev Continues : (Session W → Type 0) → Step W Turn → Type 0
  Continues P m = Triple P m Ready (Failed I)

  ready :
      (st : RunState) (r : Run) (last : Option StructuredFeedback)
      → is_terminal st ≡ false
      → Continues (At st r) (pure (next r last))
  ready st r last live = Triple-pure _ _ (λ s h.
      let (q, found, e) = h.stored in
      (
        record {
          inv = h.inv;
          stored = (q, found, e ∙ sym h.in_state);
          run_id = h.run_id;
          run_profile = h.run_profile;
          bound = h.bound;
          in_state = refl;
        },
        ap is_terminal h.in_state ∙ live,
      ))

  -- A change of the pending approvals alone.
  modify-keeps :
      (st : RunState) (r : Run) (f : Session W → Session W)
      → ((s : Session W) → At st r s → At st r (f s))
      → Triple (At st r) (modify f) (λ _. At st r) (Failed I)
  unfolding modify
  modify-keeps st r f k = record { at = k }

  cleared :
      (st : RunState) (r : Run) (id' : String) (s : Session W)
      → At st r s
      → At st r (clear_pending id' s)
  unfolding clear_pending
  cleared st r id' s h = record {
    inv = full.frame.pending s _ h.inv;
    stored = h.stored;
    run_id = h.run_id;
    run_profile = h.run_profile;
    bound = h.bound;
    in_state = h.in_state;
  }

  deleted :
      (st : RunState) (r : Run) (id' digest : String) (s : Session W)
      → At st r s
      → At st r (delete_pending id' digest s)
  unfolding delete_pending
  deleted st r id' digest s h =
      if_either (At st r) _ _ s
        (record {
          inv = full.frame.pending s _ h.inv;
          stored = h.stored;
          run_id = h.run_id;
          run_profile = h.run_profile;
          bound = h.bound;
          in_state = h.in_state;
        })
        h

  move :
      (st to : RunState) (r : Run) (event : String)
      → transition st to ≡ none
      → Triple (At st r) (transition_to env r to event) (At to) (Failed I)
  move = transition_to-keeps env id profile baselines I full.frame

  log :
      (st : RunState) (r : Run) (ty : String) (payload : Payload)
      → Triple (At st r) (log_event env r ty payload) (λ _. At st r) (Failed I)
  log = log_event-keeps env id profile baselines I full.frame

  stops :
      (st : RunState) (r : Run) (code : String)
      → transition st stopped ≡ none
      → Continues (At st r) (stop_turn env r code)
  unfolding stop_turn
  stops st r code v =
      Triple-bind (Done id I) _ _ (stop-keeps env id profile baselines I full.frame st r code v)
        (λ result. Triple-pure _ _ (λ s h. h))

  resumed_current-keeps :
      (digest : String) (r : Run) (current : ValidationResult) (b : Bool)
      → Continues (At validating r) (resumed_current env id digest r current b)
  unfolding transition allowed_transitions
  resumed_current-keeps digest r current false =
      Triple-bind (λ _. At validating r) _ _ (log validating r _ _)
        (λ _.
          Triple-bind (λ _. At validating r) _ _ (log validating r _ _)
            (λ _. Triple-bind (At deciding) _ _ (move validating deciding r _ refl) (λ again.
              Triple-bind (λ _. At deciding again) _ _
                (modify-keeps deciding again _ (deleted deciding again id digest))
                (λ _. ready deciding again _ refl))))
  resumed_current-keeps digest r current true =
      Triple-bind (λ _. At validating r) _ _ (log validating r _ _)
        (λ _.
          Triple-bind (λ _. At validating r) _ _
            (modify-keeps validating r _ (cleared validating r id))
            (λ _.
              Triple-bind (At deciding) _ _ (move validating deciding r _ refl)
                (λ again. ready deciding again _ refl)))

  resumed_mutation-keeps :
      (digest : String) (busy : Run) (e : Option StopError)
      → Continues (At executing busy) (resumed_mutation env id digest busy e)
  unfolding transition allowed_transitions
  resumed_mutation-keeps digest busy (some e) = stops executing busy _ refl
  resumed_mutation-keeps digest busy none =
      Triple-bind (At validating) _ _ (move executing validating busy _ refl) (λ r.
        Triple-bind (λ _. At validating r) _ _
          (validate_current-keeps env id profile baselines I full.frame validating r r)
          (λ current. resumed_current-keeps digest r current current.passed))

  resumed-keeps :
      (digest : String) (busy : Run) (p : PendingApproval) (r : Result String ActionResult)
      → Continues (At executing busy) (resumed env id digest busy p r)
  unfolding raise
  resumed-keeps digest busy p (err problem) = record { at = λ s h. (h.inv, λ e. ground arith) }
  resumed-keeps digest busy p (ok result) =
      Triple-if (is_mutation p.action.kind) _ _
        (λ _.
          Triple-bind (λ _. At executing busy) _ _
            (take_mutation-keeps env id profile baselines I full.frame executing busy)
            (λ e. resumed_mutation-keeps digest busy e))
        (λ _.
          Triple-bind (λ _. At executing busy) _ _
            (modify-keeps executing busy _ (cleared executing busy id))
            (λ _. ready executing busy _ refl))

  -- The pending action may be executed once; the rest is as in a round.
  pub carry_out-keeps :
      (digest : String) (p : PendingApproval)
      → ((s : Session W) → I s → I (record s { world = (env.execute p.action s.world).1 }))
      → Continues (At awaiting_approval p.run) (carry_out env id digest p)
  unfolding carry_out execute transition allowed_transitions
  carry_out-keeps digest p executes =
      Triple-bind (At executing) _ _ (move awaiting_approval executing p.run _ refl) (λ busy.
        Triple-bind (λ _. At executing busy) _ _
          (record {
            at = λ s h. record {
              inv = executes s h.inv;
              stored = h.stored;
              run_id = h.run_id;
              run_profile = h.run_profile;
              bound = h.bound;
              in_state = h.in_state;
            };
          })
          (λ r. resumed-keeps digest busy p r))

  pub continued :
      (fuel : ℕ) (x : Result AgentError Turn × Session W)
      → Post Ready (Failed I) x
      → Ended env id profile baselines I full (proceed env (run env fuel) x)
  unfolding proceed
  continued fuel (ok (next r last), s) (h, live) =
      run-Ended env id profile baselines I full fuel r last s live h
  continued fuel (ok (finished result), s) p = p
  continued fuel (err e, s) p = p

-- ===== src/Agent/Termination.antt =====
-- Every loop of internal/agent/loop.go ends: each round that is followed by another one has used a
-- decision or a protocol repair, and the tracker has only so many.
use ai4se_coding_agent_harne.Prelude.{
  ℕ, zero, suc, ◌≤◌, ◌<◌, String, ◌≡◌, refl, sym, ap, subst, ◌∙◌, false, Option, none, some, List,
  lookup, Result, ok, err, arith,
}
use ai4se_coding_agent_harne.Domain.{
  Run, RunState, PermissionProfile, Action, StructuredFeedback, AgentDecision, deciding,
}
use ai4se_coding_agent_harne.Budget.{StopError, record_decision, record_protocol_repair}
use ai4se_coding_agent_harne.Budget.Grants.{
  remaining, record_decision-remaining, record_protocol_repair-remaining, record_mutation-remaining,
  record_decision-remaining_le, record_protocol_repair-remaining_le,
}
use ai4se_coding_agent_harne.Agent.Session.{LoopResult, AgentError, Env, Session, Step}
use ai4se_coding_agent_harne.Agent.Steps.{
  context_err, budget_now, decide, take_decision, take_repair, time_left, stop,
}
use ai4se_coding_agent_harne.Agent.Turn.{
  Turn, next, finished, protocol_error, repaired, counted, answered, in_time, unless_cancelled,
  turn, is_valid, stop_turn,
}
use ai4se_coding_agent_harne.Agent.Loop.{begin, rounds, proceed, run, Outcome}
use ai4se_coding_agent_harne.Agent.Triples.{Post, Triple, Triple-pure, Triple-bind, Triple-if}
use ai4se_coding_agent_harne.Agent.Keeps.{Frame, Here, Failed}
use ai4se_coding_agent_harne.Agent.Keeps.Primitives.{log_event-keeps}
use ai4se_coding_agent_harne.Agent.Keeps.Rounds.{TurnKept, govern-keeps}
use ai4se_coding_agent_harne.Agent.Safety.{FullFrame, begin-keeps}
use ai4se_coding_agent_harne.Domain.Transitions.{is_terminal}

module _ {W : Type 0} (env : Env W) (id : String) (profile : PermissionProfile)
    (baselines : List (String × String)) (n : ℕ) where
  -- Fewer than `n` decisions and repairs are left.
  abbrev Below : Session W → Type 0
  Below s = remaining s.budget < n

  Below-Frame : Frame env id profile baselines Below
  Below-Frame = record {
    context = λ s i. i;
    store_clock = λ s i. i;
    current = λ s run i. i;
    final = λ s run i. i;
    execute = λ s run action _ _ _ _ i. i;
    update = λ s ctx now run expected ty payload i. i;
    log = λ s ctx now run_id ty payload i. i;
    mutation = λ s i. subst (λ k. k < n) (sym (record_mutation-remaining s.budget)) i;
    progress = λ s p i. i;
    pending = λ s ps i. i;
  }

  abbrev At : (Session W → Type 0) → Run → Session W → Type 0
  At I = Here id profile baselines I deciding

  abbrev Anything : AgentError → Session W → Type 0
  Anything e s = Unit {0}

  -- Another round has less to come.
  abbrev Less : Turn → Session W → Type 0
  Less (next r last) s = At Below r s
  Less (finished result) s = Unit {0}

  Kept-Less :
      (x : Result AgentError Turn × Session W)
      → Post (TurnKept env id profile baselines Below Below-Frame) (Failed Below) x
      → Post Less Anything x
  Kept-Less (ok (next r last), s) p = p
  Kept-Less (ok (finished result), s) p = tt
  Kept-Less (err e, s) p = tt

  -- The session before anything is counted: `n` is what is left.
  abbrev Fresh : Session W → Type 0
  Fresh s = remaining s.budget ≡ n

  abbrev Counts : (Session W → Type 0) → Step W Turn → Type 0
  Counts P m = Triple P m Less Anything

  moved :
      (I J : Session W → Type 0) (run : Run) (s s' : Session W)
      → s'.store ≡ s.store
      → s'.baselines ≡ s.baselines
      → J s'
      → At I run s
      → At J run s'
  moved I J run s s' e b j h =
      let (r, found, q) = h.stored in
      record {
        inv = j;
        stored = (r, ap (λ t. lookup id t.runs) e ∙ found, q);
        run_id = h.run_id;
        run_profile = h.run_profile;
        bound = b ∙ h.bound;
        in_state = h.in_state;
      }

  anything : {A : Type 0} (x : Result AgentError A × Session W) → Post (λ _ _. Unit {0}) Anything x
  anything (ok a, s) = tt
  anything (err e, s) = tt

  stop_turn-Counts :
      (P : Session W → Type 0) (run : Run) (code : String) → Counts P (stop_turn env run code)
  unfolding stop_turn
  stop_turn-Counts P run code =
      Triple-bind (λ _ _. Unit {0}) _ _ (record { at = λ s h. anything (stop env run code s) })
        (λ result. Triple-pure _ _ (λ s h. tt))

  -- After a request to the tracker: if it was granted, less is left.
  abbrev Asked : Run → Option StopError → Session W → Type 0
  Asked run e s = (e ≡ none → At Below run s)

  take_repair-Asked : (run : Run) → Triple (At Fresh run) take_repair (Asked run) Anything
  unfolding take_repair
  take_repair-Asked run = record {
    at = λ s h granted.
        moved Fresh Below run s _ refl refl
          (subst (λ k. remaining (record_protocol_repair s.budget).0 < k) h.inv
            (record_protocol_repair-remaining s.budget granted))
          h;
  }

  take_decision-Asked : (run : Run) → Triple (At Fresh run) take_decision (Asked run) Anything
  unfolding take_decision
  take_decision-Asked run = record {
    at = λ s h granted.
        moved Fresh Below run s _ refl refl
          (subst (λ k. remaining (record_decision s.budget).0 < k) h.inv
            (record_decision-remaining s.budget granted))
          h;
  }

  repaired-Counts :
      (run : Run) (last : Option StructuredFeedback) (problem : Option String)
      (e : Option StopError)
      → Counts (Asked run e) (repaired env run last problem e)
  repaired-Counts run last problem (some e) = stop_turn-Counts _ run _
  repaired-Counts run last problem none = record {
    at = λ s h. Kept-Less _ (
        (Triple-bind (λ _. At Below run) _ _
            (log_event-keeps env id profile baselines Below Below-Frame deciding run _ _)
            (λ _. Triple-pure _ _ (λ t k. k))).at
          s (h refl));
  }

  protocol_error-Counts :
      (run : Run) (last : Option StructuredFeedback) (problem : Option String)
      → Counts (At Fresh run) (protocol_error env run last problem)
  unfolding protocol_error
  protocol_error-Counts run last problem =
      Triple-bind (Asked run) _ _ (take_repair-Asked run) (λ e. repaired-Counts run last problem e)

  counted-Counts :
      (run : Run) (last : Option StructuredFeedback) (action : Action) (e : Option StopError)
      → Counts (Asked run e) (counted env run last action e)
  counted-Counts run last action (some e) = stop_turn-Counts _ run _
  counted-Counts run last action none = record {
    at = λ s h.
        Kept-Less _
          ((govern-keeps env id profile baselines Below Below-Frame run last action).at s (h refl));
  }

  answered-Counts :
      (run : Run) (last : Option StructuredFeedback) (answer : Result String AgentDecision)
      → Counts (At Fresh run) (answered env run last answer)
  answered-Counts run last (err problem) = protocol_error-Counts run last (some problem)
  answered-Counts run last (ok d) =
      Triple-if (is_valid env d) _ _
        (λ _.
          Triple-bind (Asked run) _ _ (take_decision-Asked run)
            (λ e. counted-Counts run last d.action e))
        (λ _. protocol_error-Counts run last none)

  in_time-Counts :
      (run : Run) (last : Option StructuredFeedback) (e : Option StopError)
      → Counts (At Fresh run) (in_time env run last e)
  unfolding decide
  in_time-Counts run last (some e) = stop_turn-Counts _ run _
  in_time-Counts run last none =
      Triple-bind (λ _. At Fresh run) _ _
        (record { at = λ s h. moved Fresh Fresh run s _ refl refl h.inv h })
        (λ answer. answered-Counts run last answer)

  unless_cancelled-Counts :
      (run : Run) (last : Option StructuredFeedback) (e : Option String)
      → Counts (At Fresh run) (unless_cancelled env run last e)
  unfolding budget_now time_left
  unless_cancelled-Counts run last (some e) = stop_turn-Counts _ run _
  unless_cancelled-Counts run last none =
      Triple-bind (λ _. At Fresh run) _ _
        (record { at = λ s h. moved Fresh Fresh run s _ refl refl h.inv h })
        (λ now.
          Triple-bind (λ _. At Fresh run) _ _ (record { at = λ s h. h })
            (λ e. in_time-Counts run last e))

  turn-Counts :
      (run : Run) (last : Option StructuredFeedback) → Counts (At Fresh run) (turn env run last)
  unfolding turn context_err
  turn-Counts run last =
      Triple-bind (λ _. At Fresh run) _ _
        (record { at = λ s h. moved Fresh Fresh run s _ refl refl h.inv h })
        (λ e. unless_cancelled-Counts run last e)

abbrev pub Ends : {W : Type 0} (env : Env W) → Outcome env → Type 0
Ends {W = W} env o = (x : Result AgentError LoopResult × Session W) × (o ≡ some x)

module _ {W : Type 0} (env : Env W) (id : String) (profile : PermissionProfile)
    (baselines : List (String × String)) where
  abbrev InState : (Session W → Type 0) → RunState → Run → Session W → Type 0
  InState I = Here id profile baselines I

  proceed-Ends :
      (n : ℕ) (again : Run → Option StructuredFeedback → Session W → Outcome env)
      (x : Result AgentError Turn × Session W)
      → ((r : Run) (last : Option StructuredFeedback) (s : Session W)
          → InState (λ t. remaining t.budget < n) deciding r s
          → Ends env (again r last s))
      → Post (Less env id profile baselines n) (Anything env id profile baselines n) x
      → Ends env (proceed env again x)
  unfolding proceed
  proceed-Ends n again (ok (next r last), s) f p = f r last s p
  proceed-Ends n again (ok (finished result), s) f p = ((ok result, s), refl)
  proceed-Ends n again (err e, s) f p = ((err e, s), refl)

  rounds-Ends :
      (fuel : ℕ) (r : Run) (last : Option StructuredFeedback) (s : Session W)
      → remaining s.budget < fuel
      → InState (λ _. Unit {0}) deciding r s
      → Ends env (rounds env fuel r last s)
  unfolding rounds
  rounds-Ends zero r last s lt h = absurd (omega arith)
  rounds-Ends (suc fuel) r last s lt h =
      let n = remaining s.budget in
      proceed-Ends n (rounds env fuel) (turn env r last s)
        (λ r' last' s' k. rounds-Ends fuel r' last' s' (omega (arith, k.inv)) (record {
          inv = tt;
          stored = k.stored;
          run_id = k.run_id;
          run_profile = k.run_profile;
          bound = k.bound;
          in_state = k.in_state;
        }))
        ((turn-Counts env id profile baselines n r last).at s (record {
          inv = refl;
          stored = h.stored;
          run_id = h.run_id;
          run_profile = h.run_profile;
          bound = h.bound;
          in_state = h.in_state;
        }))

  -- No step leaves more to come than there was.
  unfoldable pub AtMost : ℕ → Session W → Type 0
  AtMost m s = remaining s.budget ≤ m

  pub AtMost-FullFrame : (m : ℕ) → FullFrame env id profile baselines (AtMost m)
  unfolding AtMost
  AtMost-FullFrame m = record {
    frame = record {
      context = λ s i. i;
      store_clock = λ s i. i;
      current = λ s run i. i;
      final = λ s run i. i;
      execute = λ s run action _ _ _ _ i. i;
      update = λ s ctx now run expected ty payload i. i;
      log = λ s ctx now run_id ty payload i. i;
      mutation = λ s i. subst (λ k. k ≤ m) (sym (record_mutation-remaining s.budget)) i;
      progress = λ s p i. i;
      pending = λ s ps i. i;
    };
    budget_clock = λ s i. i;
    decide = λ s request i. i;
    baseline = λ s run i. i;
    decision = λ s i. omega (arith, record_decision-remaining_le s.budget);
    repair = λ s i. omega (arith, record_protocol_repair-remaining_le s.budget);
  }

  begun-Ends :
      (fuel m : ℕ) (x : Result AgentError Turn × Session W)
      → m < fuel
      → Post
          (TurnKept env id profile baselines (AtMost m) (AtMost-FullFrame m).frame)
          (Failed (AtMost m))
          x
      → Ends env (proceed env (rounds env fuel) x)
  unfolding proceed AtMost
  begun-Ends fuel m (ok (next r last), s) lt p =
      rounds-Ends fuel r last s (omega (arith, p.inv)) (record {
        inv = tt;
        stored = p.stored;
        run_id = p.run_id;
        run_profile = p.run_profile;
        bound = p.bound;
        in_state = p.in_state;
      })
  begun-Ends fuel m (ok (finished result), s) lt p = ((ok result, s), refl)
  begun-Ends fuel m (err e, s) lt p = ((err e, s), refl)

  pub run-Ends :
      (fuel : ℕ) (r : Run) (last : Option StructuredFeedback) (s : Session W)
      → is_terminal r.state ≡ false
      → remaining s.budget < fuel
      → InState (λ _. Unit {0}) r.state r s
      → Ends env (run env fuel r last s)
  unfolding run
  run-Ends fuel r last s live lt h =
      let m = remaining s.budget in
      begun-Ends fuel m (begin env r last s) lt (
        (begin-keeps env id profile baselines (AtMost m) (AtMost-FullFrame m) r.state r last
            live).at
          s
          (record {
            inv = unfold AtMost in omega arith;
            stored = h.stored;
            run_id = h.run_id;
            run_profile = h.run_profile;
            bound = h.bound;
            in_state = h.in_state;
          }))

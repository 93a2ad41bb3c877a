-- ===== src/Agent/Executed.antt =====
-- internal/agent/loop.go: which actions reach `Actions.Execute` in a run. The environment is the
-- caller's, with a list of the executed actions beside its world.
use ai4se_coding_agent_harne.Prelude.{
  ℕ, String, ◌≡◌, sym, subst, ◌≢◌, Bool-cases, inl, inr, false, Option, some, List, [], ◌∷◌, Result,
}
use ai4se_coding_agent_harne.Domain.{Run, workspace_auto, Action, StructuredFeedback}
use ai4se_coding_agent_harne.Domain.Transitions.{is_terminal}
use ai4se_coding_agent_harne.Policy.Engine.{evaluate, allow}
use ai4se_coding_agent_harne.Policy.Verdicts.{evaluate_allow, acts}
use ai4se_coding_agent_harne.Agent.Session.{LoopResult, AgentError, Env, Session}
use ai4se_coding_agent_harne.Agent.Turn.{loop_context}
use ai4se_coding_agent_harne.Agent.Loop.{run}
use ai4se_coding_agent_harne.Agent.Keeps.{IsAllowed, Stored}
use ai4se_coding_agent_harne.Agent.Safety.{FullFrame}
use ai4se_coding_agent_harne.Agent.Runs.{kept_at_end}

-- The outside world, and the actions that were executed, the last first.
pub record Traced (W : Type 0) : Type 0 where
  pub world : W
  pub executed : List Action

abbrev carry : {W A : Type 0} → List Action → A × W → A × Traced W
carry actions (a, w) = (a, record { world = w; executed = actions })

-- The same environment, which keeps a list of what it executes.
abbrev pub traced : {W : Type 0} → Env W → Env (Traced W)
traced env = record {
  platform = env.platform;
  patterns = env.patterns;
  pipeline = env.pipeline;
  valid_json = env.valid_json;
  marshal = env.marshal;
  context_err = λ t. carry t.executed (env.context_err t.world);
  store_now = λ t. carry t.executed (env.store_now t.world);
  budget_now = λ t. carry t.executed (env.budget_now t.world);
  decide = λ request t. carry t.executed (env.decide request t.world);
  execute = λ action t. carry (action ∷ t.executed) (env.execute action t.world);
  baseline = λ run t. carry t.executed (env.baseline run t.world);
  current = λ run t. carry t.executed (env.current run t.world);
  final = λ run t. carry t.executed (env.final run t.world);
}

-- Every action of a list has a property.
abbrev pub Each : (Action → Type 0) → List Action → Type 0
Each P [] = Unit {0}
Each P (a ∷ rest) = P a × Each P rest

Each-map :
    {P Q : Action → Type 0}
    → ((a : Action) → P a → Q a)
    → (actions : List Action) → Each P actions
    → Each Q actions
Each-map f [] h = tt
Each-map f (a ∷ rest) (p, h) = (f a p, Each-map f rest h)

-- The policy allows the action for the run and the baselines of the session.
abbrev pub AllowedFor : {W : Type 0} → Env W → Run → List (String × String) → Action → Type 0
AllowedFor env r baselines action =
    (evaluate env.platform (loop_context r baselines) action).verdict ≡ allow

pub same_context :
    {W : Type 0} (env : Env W) (r run : Run) (baselines : List (String × String)) (action : Action)
    → run.id ≡ r.id
    → run.profile ≡ r.profile
    → IsAllowed env run baselines action
    → AllowedFor env r baselines action
same_context env r run baselines action i p h =
    subst
      (λ id.
        (evaluate env.platform (record (loop_context r baselines) { run_id = id }) action).verdict
        ≡ allow)
      i
      (subst
        (λ q.
          (evaluate env.platform (record (loop_context run baselines) { profile = q })
            action).verdict
          ≡ allow)
        p h)

keeps_trace :
    {W : Type 0} (env : Env W) (r : Run) (baselines : List (String × String))
    → FullFrame
        (traced env)
        r.id
        r.profile
        baselines
        (λ s. Each (AllowedFor env r baselines) s.world.executed)
keeps_trace env r baselines = record {
  frame = record {
    context = λ s i. i;
    store_clock = λ s i. i;
    current = λ s run i. i;
    final = λ s run i. i;
    execute = λ s run action e p b h i. (same_context env r run baselines action e p h, i);
    update = λ s ctx now run expected ty payload i. i;
    log = λ s ctx now run_id ty payload i. i;
    mutation = λ s i. i;
    progress = λ s p i. i;
    pending = λ s ps i. i;
  };
  budget_clock = λ s i. i;
  decide = λ s request i. i;
  baseline = λ s run i. i;
  decision = λ s i. i;
  repair = λ s i. i;
}

-- Where a loop ends for a run that is in no terminal state, whose record the store holds in that
-- state, and with nothing executed at its start: the policy allows, for this run and the session's
-- baselines, every action that was executed, whatever the provider proposed.
pub run_executes_allowed :
    {W : Type 0} (env : Env W) (fuel : ℕ) (r : Run) (last : Option StructuredFeedback)
    (s : Session (Traced W))
    → is_terminal r.state ≡ false
    → Stored r.id r.state s
    → s.world.executed ≡ []
    → (x : Result AgentError LoopResult × Session (Traced W))
    → run (traced env) fuel r last s ≡ some x
    → Each (AllowedFor env r s.baselines) x.1.world.executed
run_executes_allowed env fuel r last s live stored none_yet x e =
    (kept_at_end (traced env) r s (λ t. Each (AllowedFor env r s.baselines) t.world.executed) fuel
      last (keeps_trace env r s.baselines) live stored
      (subst (Each (AllowedFor env r s.baselines)) (sym none_yet) tt) x e).0

-- Under any profile but workspace-auto, where a loop ends for a run that is in no terminal state,
-- whose record the store holds in that state, and with nothing executed at its start: no executed
-- action is a mutation or a `run_check`.
pub run_executes_reads :
    {W : Type 0} (env : Env W) (fuel : ℕ) (r : Run) (last : Option StructuredFeedback)
    (s : Session (Traced W))
    → r.profile ≢ workspace_auto
    → is_terminal r.state ≡ false
    → Stored r.id r.state s
    → s.world.executed ≡ []
    → (x : Result AgentError LoopResult × Session (Traced W))
    → run (traced env) fuel r last s ≡ some x
    → Each (λ action. acts action ≡ false) x.1.world.executed
run_executes_reads env fuel r last s guarded live stored none_yet x e =
    Each-map reads x.1.world.executed
      (run_executes_allowed env fuel r last s live stored none_yet x e)
  where
    reads : (action : Action) → AllowedFor env r s.baselines action → acts action ≡ false
    reads action h = elim (Bool-cases (acts action)) [
      | inl yes_acts ↦ absurd (
          guarded
            ((evaluate_allow env.platform (loop_context r s.baselines) action h).1 yes_acts).0)
      | inr idle ↦ idle
    ]

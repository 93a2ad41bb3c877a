-- ===== src/Agent/Keeps.antt =====
-- What each step of the loop keeps: the record of the run in the store stays in step with the run in
-- hand, no step fails for an invalid transition, and whatever the primitive changes keep is kept.
pub mod Primitives
pub mod Rounds
use ai4se_coding_agent_harne.Prelude.{String, ◌≡◌, ◌≢◌, Option, some, List, lookup, Result}
use ai4se_coding_agent_harne.Domain.{Time, Run, RunState, PermissionProfile, Action}
use ai4se_coding_agent_harne.Store.{update_run_if_state, append_event}
use ai4se_coding_agent_harne.Budget.{record_mutation}
use ai4se_coding_agent_harne.Budget.Progress.{ProgressDetector}
use ai4se_coding_agent_harne.Policy.Engine.{evaluate, allow}
use ai4se_coding_agent_harne.Agent.Session.{
  PendingApproval, LoopResult, Request, AgentError, transition_error, Env, Session,
}
use ai4se_coding_agent_harne.Agent.Turn.{loop_context}

module _ {W : Type 0} (env : Env W) where
  -- The policy allows the action for a run with this name and profile, and these baselines.
  abbrev pub IsAllowed : Run → List (String × String) → Action → Type 0
  IsAllowed run baselines action =
      (evaluate env.platform (loop_context run baselines) action).verdict ≡ allow

  -- A property that every primitive change of a round keeps, after the decision is counted. The
  -- executor may assume that the policy allowed the action.
  pub record Frame (id : String) (profile : PermissionProfile) (baselines : List (String × String))
      (I : Session W → Type 0) : Type 0 where
    pub context : (s : Session W) → I s → I (record s { world = (env.context_err s.world).1 })
    pub store_clock : (s : Session W) → I s → I (record s { world = (env.store_now s.world).1 })
    pub current :
        (s : Session W) (run : Run) → I s → I (record s { world = (env.current run s.world).1 })
    pub final :
        (s : Session W) (run : Run) → I s → I (record s { world = (env.final run s.world).1 })
    pub execute :
        (s : Session W) (run : Run) (action : Action)
        → run.id ≡ id
        → run.profile ≡ profile
        → s.baselines ≡ baselines
        → IsAllowed run baselines action
        → I s
        → I (record s { world = (env.execute action s.world).1 })
    pub update :
        (s : Session W) (ctx : Option String) (now : Time) (run : Run) (expected : RunState)
        (ty payload : String)
        → I s
        → I (record s {
          store =
              (update_run_if_state env.platform.sha256_hex s.store ctx now run expected ty
                payload).0;
        })
    pub log :
        (s : Session W) (ctx : Option String) (now : Time) (run_id ty payload : String)
        → I s
        → I (record s {
          store = (append_event env.platform.sha256_hex s.store ctx now run_id ty payload).0;
        })
    pub mutation : (s : Session W) → I s → I (record s { budget = (record_mutation s.budget).0 })
    pub progress : (s : Session W) (p : ProgressDetector) → I s → I (record s { progress = some p })
    pub pending :
        (s : Session W) (ps : List (String × PendingApproval)) → I s → I (record s { pending = ps })

-- The store's record of the run is in state `st`.
abbrev pub Stored : {W : Type 0} → String → RunState → Session W → Type 0
Stored id st s = (r : Run) × (lookup id s.store.runs ≡ some r) × (r.state ≡ st)

-- The run in hand is in state `st`, and so is its record in the store.
pub record Here {W : Type 0} (id : String) (profile : PermissionProfile)
    (baselines : List (String × String)) (I : Session W → Type 0) (st : RunState) (run : Run)
    (s : Session W) : Type 0 where
  pub inv : I s
  pub stored : Stored id st s
  pub run_id : run.id ≡ id
  pub run_profile : run.profile ≡ profile
  pub bound : s.baselines ≡ baselines
  pub in_state : run.state ≡ st

-- A result that the store agrees with.
abbrev pub Done : {W : Type 0} → String → (Session W → Type 0) → LoopResult → Session W → Type 0
Done id I result s = I s × Stored id result.state s

-- An error, but never that of an invalid transition.
abbrev pub Failed : {W : Type 0} → (Session W → Type 0) → AgentError → Session W → Type 0
Failed I e s = I s × (e ≢ transition_error)

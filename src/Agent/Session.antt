-- ===== src/Agent/Session.antt =====
-- internal/agent/loop.go: the state of a loop, and what stands outside it. The provider, the action
-- executor, the validator, the context and the clocks are interfaces in Go: here they are functions
-- on a state `W` of the outside world, with no assumption about them.
use ai4se_coding_agent_harne.Prelude.{String, Bool, Option, List, Result, ok, err}
use ai4se_coding_agent_harne.Domain.{
  Time, Run, RunState, PermissionProfile, Action, AgentDecision, Observation, StructuredFeedback,
}
use ai4se_coding_agent_harne.Platform.{Platform}
use ai4se_coding_agent_harne.Policy.Approval.{ApprovalStore}
use ai4se_coding_agent_harne.Policy.Engine.{Decision}
use ai4se_coding_agent_harne.Store.{MemoryStore, StoreError}
use ai4se_coding_agent_harne.Budget.{Tracker}
use ai4se_coding_agent_harne.Budget.Progress.{ProgressDetector}
use ai4se_coding_agent_harne.Feedback.Process.{Patterns, Pipeline}

pub record ActionResult : Type 0 where
  pub diff_digest : String
  pub observation : Observation

pub record ValidationResult : Type 0 where
  pub stage_id : String
  pub passed : Bool
  pub observation : Observation

pub record PendingApproval : Type 0 where
  pub run : Run
  pub action : Action
  pub digest : String

pub record LoopResult : Type 0 where
  pub state : RunState
  pub stop_code : String

-- The fields of `provider.Request` that the loop sets.
pub record Request : Type 0 where
  pub task : String
  pub last_feedback : Option StructuredFeedback

-- The values that the loop hands to `json.Marshal` for an event. `approval_required` holds the
-- arguments of `newApprovalRequired`, whose display form is not modelled.
pub data Payload : Type 0 where
  empty_object : Payload
  stop_reason : String → Payload
  validation : ValidationResult → Payload
  policy_decision : Decision → Payload
  feedback_payload : StructuredFeedback → Payload
  fault : Option String → Payload
  approval_required : PermissionProfile → Action → Decision → List (String × String) → Payload
  approval_digest : String → Payload

pub data AgentError : Type 0 where
  transition_error marshal_error : AgentError
  store_error : StoreError → AgentError
  execution_error : String → AgentError
  approval_not_granted approval_rejection_mismatch : AgentError

pub record Env (W : Type 0) : Type 0 where
  pub platform : Platform
  pub patterns : Patterns
  pub pipeline : Pipeline
  -- `json.Valid`, and `json.Marshal`, which gives `none` where it fails.
  pub valid_json : String → Bool
  pub marshal : Payload → Option String
  -- `ctx.Err()`, the store's clock and the budget's clock.
  pub context_err : W → Option String × W
  pub store_now : W → Time × W
  pub budget_now : W → Time × W
  pub decide : Request → W → Result String AgentDecision × W
  pub execute : Action → W → Result String ActionResult × W
  pub baseline : Run → W → ValidationResult × W
  pub current : Run → W → ValidationResult × W
  pub final : Run → W → ValidationResult × W

pub record Session (W : Type 0) : Type 0 where
  pub store : MemoryStore
  pub budget : Tracker
  pub progress : Option ProgressDetector
  pub approvals : Option ApprovalStore
  pub pending : List (String × PendingApproval)
  pub baselines : List (String × String)
  pub world : W

-- A step of the loop: it may fail, and what it wrote before that stays written.
abbrev pub Step : Type 0 → Type 0 → Type 0
Step W A = Session W → Result AgentError A × Session W

module _ {W A : Type 0} where
  unfoldable pub pure : A → Step W A
  pure a s = (ok a, s)

  unfoldable pub raise : AgentError → Step W A
  raise e s = (err e, s)

  -- Runs `handler` after an error, and then fails with it: `if err != nil { …; return err }`.
  abbrev pub handled :
      Result AgentError A → (Session W → Session W) → Session W → Result AgentError A × Session W
  handled (ok a) handler s = (ok a, s)
  handled (err e) handler s = (err e, handler s)

  unfoldable pub on_error : Step W A → (Session W → Session W) → Step W A
  on_error m handler s = let (r, s') = m s in handled r handler s'

module _ {W A B : Type 0} where
  abbrev pub continue : Result AgentError A → (A → Step W B) → Step W B
  continue (ok a) f s = f a s
  continue (err e) f s = (err e, s)

  infixl 10 ◌>>=◌ ◌>>◌
  unfoldable pub ◌>>=◌ : Step W A → (A → Step W B) → Step W B
  unfolding pure raise
  ◌>>=◌ m f s = let (r, s') = m s in continue r f s'

  abbrev pub ◌>>◌ : Step W A → Step W B → Step W B
  m >> n = m >>= λ _. n

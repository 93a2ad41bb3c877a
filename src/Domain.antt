-- ===== src/Domain.antt =====
-- The data that every component shares, from internal/domain: runs and their states, actions,
-- observations, feedback, events and artifacts.
pub mod Transitions
use ai4se_coding_agent_harne.Text.{Text}
use ai4se_coding_agent_harne.Prelude.{
  ℕ, ℤ, String, Bool, true, false, Option, none, some, List, if◌then◌else◌,
}

-- The constants of `RunState`.
pub data RunState : Type 0 where
  created preflight baseline_validating deciding awaiting_approval executing : RunState
  validating final_validating succeeded review_complete stopped : RunState

unfoldable pub RunState-discrete : Discrete RunState
RunState-discrete = hlevel

-- The constants of `PermissionProfile`; `other` is any other text.
pub data PermissionProfile : Type 0 where
  review supervised workspace_auto : PermissionProfile
  other : String → PermissionProfile

-- A point in time: nanoseconds since Go's zero time, and the name of the location it is shown in.
pub record Time : Type 0 where
  pub nanos : ℕ
  pub location : String

pub record Action : Type 0 where
  pub kind : String
  pub args : String

pub record AgentDecision : Type 0 where
  pub version : String
  pub action : Action
  pub expected_outcome : String

pub record Observation : Type 0 where
  pub code : String
  pub exit_code : Option ℤ
  pub stdout : String
  pub stderr : String
  pub output_truncated : Bool
  pub started_at : Time
  pub ended_at : Time
  pub raw_data : String

pub record Evidence : Type 0 where
  pub source : String
  pub message : Text
  pub path : String
  pub line : ℤ

pub record StructuredFeedback : Type 0 where
  pub category : String
  pub stage_id : String
  pub summary : Text
  pub fingerprint : String
  pub evidence : List Evidence
  pub retryable : Bool
  pub output_truncated : Bool
  pub previous_occurrences : ℤ

pub record Run : Type 0 where
  pub id : String
  pub state : RunState
  pub profile : PermissionProfile
  pub task : String
  pub repo_root : String
  pub current_stage : String
  pub created_at : Time
  pub updated_at : Time

pub record RunEvent : Type 0 where
  pub run_id : String
  pub sequence : ℕ
  pub type : String
  pub at : Time
  pub payload : String
  pub previous_hash : String
  pub hash : String

pub record Artifact : Type 0 where
  pub id : String
  pub run_id : String
  pub kind : String
  pub sha256 : String
  pub content : String
  pub truncated : Bool

pub data TransitionError : Type 0 where
  invalid_transition : TransitionError

-- `allowedTransitions[from][to]`; a missing entry reads as false.
unfoldable pub allowed_transitions : RunState → RunState → Bool
allowed_transitions created preflight = true
allowed_transitions created stopped = true
allowed_transitions preflight baseline_validating = true
allowed_transitions preflight deciding = true
allowed_transitions preflight awaiting_approval = true
allowed_transitions preflight stopped = true
allowed_transitions baseline_validating deciding = true
allowed_transitions baseline_validating stopped = true
allowed_transitions deciding awaiting_approval = true
allowed_transitions deciding executing = true
allowed_transitions deciding review_complete = true
allowed_transitions deciding stopped = true
allowed_transitions awaiting_approval preflight = true
allowed_transitions awaiting_approval executing = true
allowed_transitions awaiting_approval deciding = true
allowed_transitions awaiting_approval stopped = true
allowed_transitions executing deciding = true
allowed_transitions executing validating = true
allowed_transitions executing stopped = true
allowed_transitions validating deciding = true
allowed_transitions validating final_validating = true
allowed_transitions validating stopped = true
allowed_transitions final_validating succeeded = true
allowed_transitions final_validating deciding = true
allowed_transitions final_validating stopped = true
allowed_transitions _ _ = false

unfoldable pub transition : RunState → RunState → Option TransitionError
transition from to = if allowed_transitions from to then none else some invalid_transition

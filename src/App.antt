-- ===== src/App.antt =====
-- internal/app/service.go: the types of the service that owns the runs, its state, and what it
-- relies on. The loops, the preflight checks, the lock of a repository, the clocks and the encoding
-- of payloads are functions on a world `W`; a loop also acts on the store.
pub mod Lifecycle
pub mod Creation
pub mod Service
pub mod Stopping
pub mod Cancelling
pub mod Approving
pub mod Recovery
pub mod Reads
use ai4se_coding_agent_harne.Prelude.{ℕ, String, Bool, Option, List, Table, ◌==◌, any}
use ai4se_coding_agent_harne.Domain.{Time, Run, PermissionProfile, TransitionError}
use ai4se_coding_agent_harne.Store.{MemoryStore, StoreError}
use ai4se_coding_agent_harne.Config.{Config}

pub record CreateRunRequest : Type 0 where
  pub repo_root : String
  pub task : String
  pub provider : String
  pub model : String
  pub endpoint : String
  pub confirm_custom_endpoint : Bool
  pub profile : PermissionProfile
  pub config_path : String

pub data Severity : Type 0 where
  severity_info severity_warning severity_error : Severity

pub record Finding : Type 0 where
  pub code : String
  pub severity : Severity
  pub message : String

pub record PreflightReport : Type 0 where
  pub passes : Bool
  pub findings : List Finding
  pub repo_root : String
  pub baseline_commit : String
  pub baseline_diff_hash : String

pub record PreflightResult : Type 0 where
  pub report : PreflightReport
  pub config : Config

pub record RunInput : Type 0 where
  pub request : CreateRunRequest
  pub report : PreflightReport
  pub config : Config

pub record RunSetup : Type 0 where
  pub run : Run
  pub request : CreateRunRequest
  pub report : PreflightReport
  pub config : Config

pub record PreflightApproval : Type 0 where
  pub digest : String
  pub input : RunInput

-- The errors of the service. `exhausted` stands for a call of `stopIfActive` that has not ended.
pub data AppError : Type 0 where
  preflight_failed : PreflightReport → AppError
  run_terminal approval_stale marshal_failed exhausted : AppError
  approval_not_granted approval_rejection_mismatch loop_session_busy cancelled : AppError
  store_error : StoreError → AppError
  transition_error : TransitionError → AppError
  other_error : String → AppError
  joined : AppError → AppError → AppError

-- The methods of the interfaces that the service is given. Each gives an error or none.
pub record Env (W : Type 0) : Type 0 where
  pub sha256_hex : List ℕ → String
  -- `s.clock.Now()`, the clock of the store, `s.newID()`.
  pub now : W → Time × W
  pub store_now : W → Time × W
  pub new_id : W → String × W
  -- `s.preflight(ctx, request)`.
  pub preflight : CreateRunRequest → W → PreflightResult × W
  -- `preflightDigest(run, report)`.
  pub preflight_digest : Run → PreflightReport → String
  -- `json.Marshal` of the payloads; `none` is an error.
  pub created_payload : CreateRunRequest → PreflightReport → Option String
  pub approval_payload : String → PreflightReport → Option String
  pub reason_payload : String → Option String
  -- `RepoLocks`.
  pub acquire : String → String → W → Option AppError × W
  pub release_run : String → W → W
  -- The cancel function of the context that a run was started with.
  pub cancel_context : String → W → W
  -- `LoopController`.
  pub start : RunSetup → MemoryStore → W → Option AppError × (MemoryStore × W)
  pub approve : String → String → MemoryStore → W → Option AppError × (MemoryStore × W)
  pub reject : String → String → Bool → MemoryStore → W → Option AppError × (MemoryStore × W)
  pub cancel : String → MemoryStore → W → Option AppError × (MemoryStore × W)

-- `Service`, with the store that it is given. `spawned` are the runs for which a goroutine was
-- started that has not run yet.
pub record App (W : Type 0) : Type 0 where
  pub store : MemoryStore
  pub world : W
  pub cancels : Table (Unit {0})
  pub inputs : Table RunInput
  pub pending : Table PreflightApproval
  pub stopping : Table (Unit {0})
  pub spawned : List Run

abbrev pub Outcome : Type 0 → Type 0
Outcome W = Option AppError × App W

-- What other goroutines do to the store between a read and the conditional write that follows it,
-- one entry for each round of the loop in `stopIfActive`.
abbrev pub Schedule : Type 0
Schedule = List (MemoryStore → MemoryStore)

-- `hasFinding(report, code)`.
unfoldable pub has_finding : PreflightReport → String → Bool
has_finding report code = any (λ f. f.code == code) report.findings

-- ===== src/Validation.antt =====
-- internal/validation/pipeline.go and result.go: the stages that validate a repository, run one
-- after the other. What runs a command is an interface in Go, here a function on a world `W`.
pub mod Outcomes
use ai4se_coding_agent_harne.Prelude.{
  ℕ, zero, suc, ℤ, pos, negsuc, String, ◌==◌, Bool, true, false, not, ◌&&◌, Option, none, some,
  List, [], ◌∷◌, drop, is_some, eqb, if◌then◌else◌,
}
use ai4se_coding_agent_harne.Domain.{Observation, Time}
use ai4se_coding_agent_harne.Config.{CommandSpec}

-- `Executor.Run`: an observation, the error beside it, and the world after it.
abbrev pub Executor : Type 0 → Type 0
Executor W = CommandSpec → W → (Observation × Option String) × W

pub record Pipeline (W : Type 0) : Type 0 where
  pub stages : List CommandSpec
  pub executor : Executor W

pub record StageResult : Type 0 where
  pub stage : CommandSpec
  pub observation : Observation
  pub passed : Bool

pub record Result : Type 0 where
  pub stages : List StageResult
  pub failed_stage : String
  pub complete : Bool

abbrev is_zero : Option ℤ → Bool
is_zero (some (pos n)) = eqb n 0
is_zero _ = false

unfoldable pub passed : Observation → Bool
passed obs = obs.code == "EXIT" && is_zero obs.exit_code

abbrev zero_time : Time
zero_time = record { nanos = 0; location = "UTC" }

-- `StageResult{}`.
abbrev pub no_stage : StageResult
no_stage = record {
  stage = record {
    id = "";
    kind = "";
    executable = "";
    args = [];
    working_directory = "";
    timeout = pos 0;
    max_output_bytes = pos 0;
    required = false;
    classifiers = [];
  };
  observation = record {
    code = "";
    exit_code = none;
    stdout = "";
    stderr = "";
    output_truncated = false;
    started_at = zero_time;
    ended_at = zero_time;
    raw_data = "";
  };
  passed = false;
}

abbrev pub all_done : Result
all_done = record { stages = []; failed_stage = ""; complete = true }

abbrev pub stopped_at : StageResult → Result
stopped_at r = record { stages = r ∷ []; failed_stage = r.stage.id; complete = false }

-- `if start < 0 { start = 0 }`.
abbrev pub from_zero : ℤ → ℕ
from_zero (pos n) = n
from_zero (negsuc _) = 0

module _ {W : Type 0} where
  unfoldable pub new : List CommandSpec → Executor W → Pipeline W
  new stages executor = record { stages = stages; executor = executor }

  -- The result of a stage, from what the executor gave.
  unfoldable pub observed : CommandSpec → (Observation × Option String) × W → StageResult × W
  unfolding passed
  observed stage ((obs, e), w) =
      let coded =
        if is_some e && obs.code == "" then record obs { code = "START_ERROR" } else obs in
      (record { stage = stage; observation = coded; passed = passed coded }, w)

  abbrev pub at_stage : Pipeline W → List CommandSpec → W → StageResult × W
  at_stage p [] w = (no_stage, w)
  at_stage p (stage ∷ _) w = observed stage (p.executor stage w)

  unfoldable pub run_stage : Pipeline W → ℤ → W → StageResult × W
  unfolding observed
  run_stage p (negsuc n) w = (no_stage, w)
  run_stage p (pos n) w = at_stage p (drop n p.stages) w

  abbrev pub after_stage : StageResult → Result × W → Result × W
  after_stage r (result, w) = (record result { stages = r ∷ result.stages }, w)

  -- What the loop does with the result of a stage.
  abbrev pub on_stage : StageResult × W → (W → Result × W) → Result × W
  on_stage (r, w) continue = elim (not r.passed && r.stage.required) [
    | true ↦ (stopped_at r, w)
    | false ↦ after_stage r (continue w)
  ]

  -- The loop of `run` from the position `i` on, with what is left of the stages.
  unfoldable pub run_rest : Pipeline W → Bool → ℕ → List CommandSpec → W → Result × W
  unfolding run_stage
  run_rest p required_only i [] w = (all_done, w)
  run_rest p required_only i (stage ∷ rest) w = elim (required_only && not stage.required) [
    | true ↦ run_rest p required_only (suc i) rest w
    | false ↦ on_stage (run_stage p (pos i) w) (λ w'. run_rest p required_only (suc i) rest w')
  ]

  unfoldable pub run : Pipeline W → ℤ → Bool → W → Result × W
  unfolding run_rest
  run p start required_only w =
      let i = from_zero start in run_rest p required_only i (drop i p.stages) w

  unfoldable pub run_from : Pipeline W → ℤ → W → Result × W
  unfolding run
  run_from p start w = run p start false w

  unfoldable pub run_all_required : Pipeline W → W → Result × W
  unfolding run
  run_all_required p w = run p (pos 0) true w

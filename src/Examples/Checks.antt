-- ===== src/Examples/Checks.antt =====
-- The laws of the configuration and of the validation stages at a small configuration.
use ai4se_coding_agent_harne.Prelude.{
  pos, String, ◌≡◌, ◌↔◌, refl, Bool, true, false, none, some, [], ◌∷◌, ok, All,
}
use ai4se_coding_agent_harne.Domain.{supervised}
use ai4se_coding_agent_harne.Text.{has_prefix}
use ai4se_coding_agent_harne.Config.{
  ValidationStage, Config, CommandSpec, Loader, default_config, load, is_valid_profile,
  validate_budget, stages_error, stage_error, parse_positive_duration,
  is_absolute_working_directory,
}
use ai4se_coding_agent_harne.Config.Loading.{IsValid, load-IsValid}
use ai4se_coding_agent_harne.Config.Resolving.{Resolves, load-resolve_stage}
use ai4se_coding_agent_harne.Validation.{Pipeline, run}
use ai4se_coding_agent_harne.Validation.Outcomes.{Outcome, selected, run_outcome}
use ai4se_coding_agent_harne.Examples.Fixtures.{noon}

abbrev go_test : ValidationStage
go_test = record {
  id = "test";
  kind = "test";
  executable = "go";
  args = "test" ∷ [];
  working_directory = ".";
  timeout = "5m";
  max_output_bytes = pos 100;
  required = true;
  windows = some (record { executable = "go.exe"; args = none });
  linux = none;
  classifiers = [];
}

abbrev small : Config
unfolding default_config
small = record default_config {
  version = pos 1;
  default_profile = supervised;
  validation = go_test ∷ [];
}

-- A decoder that reads any text as that configuration, over the defaults that it is given.
abbrev fixed : Loader
fixed = record {
  decode = λ config text. ok (
    record config { version = pos 1; default_profile = supervised; validation = go_test ∷ [] },
    [],
  );
  parse_duration = λ s. some (pos 300);
  is_abs = λ s. false;
}

load-IsValid_example :
    (load fixed "t" ≡ ok small)
    ↔ ((fixed.decode default_config "t" ≡ ok (small, [])) × IsValid fixed small)
load-IsValid_example = load-IsValid fixed "t" small

load-resolve_stage_example : All (Resolves fixed "windows") (go_test ∷ [])
unfolding default_config load is_valid_profile validate_budget stages_error stage_error
    parse_positive_duration is_absolute_working_directory has_prefix
load-resolve_stage_example = load-resolve_stage fixed "t" small "windows" refl

abbrev command : String → Bool → CommandSpec
command id required = record {
  id = id;
  kind = "test";
  executable = "go";
  args = [];
  working_directory = ".";
  timeout = pos 300;
  max_output_bytes = pos 100;
  required = required;
  classifiers = [];
}

-- Two stages, of which the command of the required one fails.
abbrev failing : Pipeline Unit
failing = record {
  stages = command "lint" false ∷ (command "test" true ∷ []);
  executor = λ stage w. (
    (
      record {
        code = "EXIT";
        exit_code = some (pos 1);
        stdout = "";
        stderr = "";
        output_truncated = false;
        started_at = noon;
        ended_at = noon;
        raw_data = "";
      },
      none,
    ),
    w,
  );
}

run_outcome_example :
    Outcome
      (selected true (command "lint" false ∷ (command "test" true ∷ [])))
      (run failing (pos 0) true tt).0
run_outcome_example = run_outcome failing true (pos 0) tt

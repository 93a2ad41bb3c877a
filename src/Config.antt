-- ===== src/Config.antt =====
-- internal/config/config.go, load.go and resolve.go: the configuration, what `Load` refuses, and the
-- command that a validation stage stands for on a platform.
pub mod Loading
pub mod Resolving
use ai4se_coding_agent_harne.Prelude.{
  ℕ, ℤ, pos, String, ◌==◌, Bool, true, false, not, ◌&&◌, ◌||◌, Option, none, some, List, [], ◌∷◌,
  leb, eqb, if◌then◌else◌, is_nonpositive, Result, ok, err,
}
use ai4se_coding_agent_harne.Domain.{PermissionProfile, other}
use ai4se_coding_agent_harne.Text.{Text, codes, has_prefix}
use ai4se_coding_agent_harne.Feedback.Classify.{ClassifierRule}

pub record BudgetConfig : Type 0 where
  pub max_decisions : ℤ
  pub max_mutations : ℤ
  pub max_protocol_repairs : ℤ
  pub wall_clock : String

-- `args` is absent where the slice is nil.
pub record CommandOverride : Type 0 where
  pub executable : String
  pub args : Option (List String)

pub record ValidationStage : Type 0 where
  pub id : String
  pub kind : String
  pub executable : String
  pub args : List String
  pub working_directory : String
  pub timeout : String
  pub max_output_bytes : ℤ
  pub required : Bool
  pub windows : Option CommandOverride
  pub linux : Option CommandOverride
  pub classifiers : List ClassifierRule

pub record PolicyConfig : Type 0 where
  pub max_files : ℤ
  pub max_changed_lines : ℤ
  pub max_file_bytes : ℤ
  pub protected : List String

pub record Config : Type 0 where
  pub version : ℤ
  pub default_profile : PermissionProfile
  pub budget : BudgetConfig
  pub validation : List ValidationStage
  pub policy : PolicyConfig

pub record CommandSpec : Type 0 where
  pub id : String
  pub kind : String
  pub executable : String
  pub args : List String
  pub working_directory : String
  -- In nanoseconds.
  pub timeout : ℤ
  pub max_output_bytes : ℤ
  pub required : Bool
  pub classifiers : List ClassifierRule

-- The sentinel errors, with the stage or the value that the message names; `decode_failed` is an
-- error of the TOML decoder.
pub data ConfigError : Type 0 where
  decode_failed : String → ConfigError
  unknown_field : List String → ConfigError
  invalid_version : ConfigError
  duplicate_stage_id absolute_working_directory empty_executable invalid_timeout :
      String → ConfigError
  invalid_profile : PermissionProfile → ConfigError
  empty_working_directory invalid_budget : String → ConfigError

-- What the packages toml, time and path/filepath do.
pub record Loader : Type 0 where
  -- `toml.NewDecoder(r).Decode(&cfg)` into a configuration: what it then holds, and the keys that
  -- were not decoded.
  pub decode : Config → String → Result String (Config × List String)
  -- `time.ParseDuration`, in nanoseconds; `none` is an error.
  pub parse_duration : String → Option ℤ
  -- `filepath.IsAbs` on the host.
  pub is_abs : String → Bool

-- `validProfiles[profile]`.
unfoldable pub is_valid_profile : PermissionProfile → Bool
is_valid_profile (other _) = false
is_valid_profile _ = true

abbrev is_letter : ℕ → Bool
is_letter c = (leb b'A' c && leb c b'Z') || (leb b'a' c && leb c b'z')

abbrev starts_with_drive : Text → Bool
starts_with_drive [] = false
starts_with_drive (a ∷ []) = false
starts_with_drive (a ∷ (b ∷ rest)) = is_letter a && eqb b b':'

-- What a decoded configuration starts from.
unfoldable pub default_config : Config
default_config = record {
  version = pos 0;
  default_profile = other "";
  budget = record {
    max_decisions = pos 30;
    max_mutations = pos 5;
    max_protocol_repairs = pos 2;
    wall_clock = "20m";
  };
  validation = [];
  policy = record {
    max_files = pos 0;
    max_changed_lines = pos 0;
    max_file_bytes = pos 0;
    protected = [];
  };
}

-- An override that is there and names no executable.
abbrev pub lacks_executable : Option CommandOverride → Bool
lacks_executable none = false
lacks_executable (some o) = o.executable == ""

abbrev pub seen_before : String → List String → Bool
seen_before id [] = false
seen_before id (used ∷ seen) = id == used || seen_before id seen

abbrev pub executable_of : Option CommandOverride → String → String
executable_of none base = base
executable_of (some o) base = o.executable

abbrev args_or : Option (List String) → List String → List String
args_or none base = base
args_or (some args) base = args

abbrev pub args_of : Option CommandOverride → List String → List String
args_of none base = base
args_of (some o) base = args_or o.args base

module _ (l : Loader) where
  unfoldable pub is_absolute_working_directory : String → Bool
  is_absolute_working_directory path =
      l.is_abs path
      || (has_prefix (codes path) (b'/' ∷ [])
          || (has_prefix (codes path) (b'\\' ∷ []) || starts_with_drive (codes path)))

  abbrev pub positive : Option ℤ → Option ℤ
  positive none = none
  positive (some d) = if is_nonpositive d then none else some d

  unfoldable pub parse_positive_duration : String → Option ℤ
  parse_positive_duration s = positive (l.parse_duration s)

  abbrev pub wall_clock_error : Option ℤ → Option ConfigError
  wall_clock_error none = some (invalid_budget "wall_clock")
  wall_clock_error (some d) =
      if is_nonpositive d then some (invalid_budget "wall_clock must be positive") else none

  unfoldable pub validate_budget : BudgetConfig → Option ConfigError
  validate_budget budget =
      if is_nonpositive budget.max_decisions
      then some (invalid_budget "max_decisions must be positive")
      else if is_nonpositive budget.max_mutations
      then some (invalid_budget "max_mutations must be positive")
      else if is_nonpositive budget.max_protocol_repairs
      then some (invalid_budget "max_protocol_repairs must be positive")
      else wall_clock_error (l.parse_duration budget.wall_clock)

  abbrev pub timeout_error : String → Option ℤ → Option ConfigError
  timeout_error id none = some (invalid_timeout id)
  timeout_error id (some d) = none

  -- The body of the loop over the stages, with the identifiers seen before.
  unfoldable pub stage_error : List String → ValidationStage → Option ConfigError
  unfolding parse_positive_duration is_absolute_working_directory
  stage_error seen stage =
      if seen_before stage.id seen
      then some (duplicate_stage_id stage.id)
      else if stage.working_directory == ""
      then some (empty_working_directory stage.id)
      else if is_absolute_working_directory stage.working_directory
      then some (absolute_working_directory stage.working_directory)
      else if stage.executable == ""
      then some (empty_executable stage.id)
      else if lacks_executable stage.windows || lacks_executable stage.linux
      then some (empty_executable stage.id)
      else timeout_error stage.id (parse_positive_duration stage.timeout)

  abbrev first_error : Option ConfigError → Option ConfigError → Option ConfigError
  first_error (some e) rest = some e
  first_error none rest = rest

  unfoldable pub stages_error : List String → List ValidationStage → Option ConfigError
  unfolding stage_error
  stages_error seen [] = none
  stages_error seen (stage ∷ stages) =
      first_error (stage_error seen stage) (stages_error (stage.id ∷ seen) stages)

  abbrev pub checked : Config → Option ConfigError → Result ConfigError Config
  checked config none = ok config
  checked config (some e) = err e

  -- The checks of `Load`, on what was decoded.
  abbrev pub load_decoded : Result String (Config × List String) → Result ConfigError Config
  load_decoded (err e) = err (decode_failed e)
  load_decoded (ok (config, key ∷ keys)) = err (unknown_field (key ∷ keys))
  load_decoded (ok (config, [])) =
      if not (elim config.version [ pos n ↦ eqb n 1 | _ ↦ false ])
      then err invalid_version
      else if not (is_valid_profile config.default_profile)
      then err (invalid_profile config.default_profile)
      else checked config
          (first_error (validate_budget config.budget) (stages_error [] config.validation))

  unfoldable pub load : String → Result ConfigError Config
  unfolding default_config is_valid_profile validate_budget stages_error
  load text = load_decoded (l.decode default_config text)

  abbrev resolved :
      ValidationStage → Option CommandOverride → Option ℤ → Result ConfigError CommandSpec
  resolved stage override none = err (invalid_timeout stage.id)
  resolved stage override (some timeout) = ok (record {
    id = stage.id;
    kind = stage.kind;
    executable = executable_of override stage.executable;
    args = args_of override stage.args;
    working_directory = stage.working_directory;
    timeout = timeout;
    max_output_bytes = stage.max_output_bytes;
    required = stage.required;
    classifiers = stage.classifiers;
  })

  abbrev pub override_for : ValidationStage → String → Option CommandOverride
  override_for stage goos =
      if goos == "windows" then stage.windows else if goos == "linux" then stage.linux else none

  unfoldable pub resolve_stage : ValidationStage → String → Result ConfigError CommandSpec
  unfolding parse_positive_duration
  resolve_stage stage goos =
      resolved stage (override_for stage goos) (parse_positive_duration stage.timeout)

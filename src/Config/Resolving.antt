-- ===== src/Config/Resolving.antt =====
-- internal/config/resolve.go: the stages of a configuration that was loaded.
use ai4se_coding_agent_harne.Prelude.{
  suc, pos, String, All, ◌≡◌, ◌≢◌, refl, false, Option, none, some, List, [], ◌∷◌, ok, arith,
}
use ai4se_coding_agent_harne.Config.{
  CommandOverride, ValidationStage, Config, CommandSpec, Loader, is_absolute_working_directory,
  parse_positive_duration, load, resolve_stage, executable_of, override_for, args_of,
}
use ai4se_coding_agent_harne.Config.Loading.{IsPositive, HasExecutable, IsValidStage, load-IsValid}

module _ (l : Loader) where
  -- What a stage of a platform runs.
  abbrev pub Runnable : CommandSpec → Type 0
  Runnable spec =
      (spec.executable ≢ "")
      × (is_absolute_working_directory l spec.working_directory ≡ false)
      × IsPositive (some spec.timeout)

  abbrev pub Resolves : String → ValidationStage → Type 0
  Resolves goos stage =
      (spec : CommandSpec) × (resolve_stage l stage goos ≡ ok spec)
      × (spec.id ≡ stage.id)
      × Runnable spec

  override_executable :
      (o : Option CommandOverride) (base : String)
      → HasExecutable o
      → base ≢ ""
      → executable_of o base ≢ ""
  override_executable none base h h' = h'
  override_executable (some c) base h h' = h

  override_valid :
      (stage : ValidationStage) (goos : String)
      → IsValidStage l stage
      → HasExecutable (override_for l stage goos)
  override_valid stage goos v = ground arith

  resolve_valid :
      (goos : String) (stage : ValidationStage) → IsValidStage l stage → Resolves goos stage
  unfolding resolve_stage parse_positive_duration IsPositive
  resolve_valid goos stage (dir, relative, executable, on_windows, on_linux, (n, d)) = (
    record {
      id = stage.id;
      kind = stage.kind;
      executable = executable_of (override_for l stage goos) stage.executable;
      args = args_of (override_for l stage goos) stage.args;
      working_directory = stage.working_directory;
      timeout = pos (suc n);
      max_output_bytes = stage.max_output_bytes;
      required = stage.required;
      classifiers = stage.classifiers;
    },
    ground (arith, d),
    refl,
    (
      override_executable (override_for l stage goos) stage.executable
          (override_valid stage goos (dir, relative, executable, on_windows, on_linux, (n, d)))
          executable,
      relative,
      (n, refl),
    ),
  )

  stages_resolve :
      (goos : String) (stages : List ValidationStage)
      → All (IsValidStage l) stages
      → All (Resolves goos) stages
  stages_resolve goos [] v = tt
  stages_resolve goos (stage ∷ stages) (v, vs) =
      (resolve_valid goos stage v, stages_resolve goos stages vs)

  -- Every stage of a configuration that was loaded resolves on every platform, to a command under its
  -- identifier with an executable, a relative working directory and a positive timeout.
  pub load-resolve_stage :
      (text : String) (config : Config) (goos : String)
      → load l text ≡ ok config
      → All (Resolves goos) config.validation
  load-resolve_stage text config goos h =
      stages_resolve goos config.validation ((load-IsValid l text config).0 h).1.3

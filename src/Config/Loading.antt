-- ===== src/Config/Loading.antt =====
-- internal/config/load.go: which configurations load.
use ai4se_coding_agent_harne.Prelude.{
  ℕ, suc, zero, ℤ, pos, negsuc, String, eq_iff, ap, subst, sym, All, ◌≡◌, ◌≢◌, ◌↔◌, refl, true,
  false, Option, none, some, List, [], ◌∷◌, Result, ok, err, arith, is_nonpositive,
}
use ai4se_coding_agent_harne.Domain.{PermissionProfile, review, supervised, workspace_auto, other}
use ai4se_coding_agent_harne.Config.{
  BudgetConfig, CommandOverride, ValidationStage, Config, Loader, is_valid_profile, default_config,
  lacks_executable, seen_before, is_absolute_working_directory, parse_positive_duration,
  validate_budget, stage_error, stages_error, positive, timeout_error, wall_clock_error, load,
  load_decoded,
}

unfoldable pub IsPositive : Option ℤ → Type 0
IsPositive d = (n : ℕ) × (d ≡ some (pos (suc n)))

abbrev pub HasExecutable : Option CommandOverride → Type 0
HasExecutable none = Unit
HasExecutable (some c) = c.executable ≢ ""

abbrev pub IsAbsent : String → List ValidationStage → Type 0
IsAbsent id [] = Unit
IsAbsent id (stage ∷ stages) = (id ≢ stage.id) × IsAbsent id stages

abbrev pub IsDistinct : List ValidationStage → Type 0
IsDistinct [] = Unit
IsDistinct (stage ∷ stages) = IsAbsent stage.id stages × IsDistinct stages

module _ (l : Loader) where
  abbrev pub IsValidStage : ValidationStage → Type 0
  IsValidStage stage =
      (stage.working_directory ≢ "")
      × (is_absolute_working_directory l stage.working_directory ≡ false)
      × (stage.executable ≢ "")
      × HasExecutable stage.windows
      × HasExecutable stage.linux
      × IsPositive (l.parse_duration stage.timeout)

  abbrev pub IsValidBudget : BudgetConfig → Type 0
  IsValidBudget budget =
      IsPositive (some budget.max_decisions)
      × IsPositive (some budget.max_mutations)
      × IsPositive (some budget.max_protocol_repairs)
      × IsPositive (l.parse_duration budget.wall_clock)

  abbrev pub IsValid : Config → Type 0
  IsValid config =
      (config.version ≡ pos 1)
      × ((name : String) → config.default_profile ≢ other name)
      × IsValidBudget config.budget
      × All IsValidStage config.validation
      × IsDistinct config.validation

lacks_executable_iff : (o : Option CommandOverride) → (lacks_executable o ≡ false) ↔ HasExecutable o
lacks_executable_iff none = (λ _. tt, λ _. refl)
lacks_executable_iff (some c) = ground (arith, eq_iff c.executable "")

positive_lem : (d : ℤ) → (is_nonpositive d ≡ false) ↔ IsPositive (some d)
unfolding IsPositive
positive_lem (pos zero) = (λ h. cc, λ (n, h). ground arith)
positive_lem (pos (suc n)) = (λ h. (n, refl), λ (m, h). ground arith)
positive_lem (negsuc n) = (λ h. cc, λ (m, h). ground arith)

seen_apart :
    (stage id : String) (seen : List String)
    → (seen_before stage (id ∷ seen) ≡ false) ↔ ((id ≢ stage) × (seen_before stage seen ≡ false))
seen_apart stage id seen = ground (arith, eq_iff stage id)

module _ (l : Loader) where
  abbrev AreFresh : List String → List ValidationStage → Type 0
  AreFresh seen [] = Unit
  AreFresh seen (stage ∷ stages) = (seen_before stage.id seen ≡ false) × AreFresh seen stages

  timeout_iff :
      (id : String) (d : Option ℤ) → (timeout_error l id (positive l d) ≡ none) ↔ IsPositive d
  unfolding IsPositive
  timeout_iff id none = (λ h. cc, λ (n, h). cc)
  timeout_iff id (some (pos zero)) = (λ h. cc, λ (n, h). ground arith)
  timeout_iff id (some (pos (suc n))) = (λ h. (n, refl), λ h. ground arith)
  timeout_iff id (some (negsuc n)) = (λ h. cc, λ (n, h). ground arith)

  stage_error_iff :
      (seen : List String) (stage : ValidationStage)
      → (stage_error l seen stage ≡ none)
        ↔ ((seen_before stage.id seen ≡ false) × IsValidStage l stage)
  unfolding stage_error parse_positive_duration
  stage_error_iff seen stage = ground (
    arith,
    eq_iff stage.working_directory "",
    eq_iff stage.executable "",
    lacks_executable_iff stage.windows,
    lacks_executable_iff stage.linux,
    timeout_iff stage.id (l.parse_duration stage.timeout),
  )

  fresh_iff :
      (id : String) (seen : List String) (stages : List ValidationStage)
      → AreFresh (id ∷ seen) stages ↔ (IsAbsent id stages × AreFresh seen stages)
  fresh_iff id seen [] = (λ _. (tt, tt), λ _. tt)
  fresh_iff id seen (stage ∷ stages) =
      ground (arith, fresh_iff id seen stages, seen_apart stage.id id seen)

  fresh_new : (stages : List ValidationStage) → AreFresh [] stages
  fresh_new [] = tt
  fresh_new (stage ∷ stages) = (refl, fresh_new stages)

  stages_error_iff :
      (seen : List String) (stages : List ValidationStage)
      → (stages_error l seen stages ≡ none)
        ↔ (AreFresh seen stages × All (IsValidStage l) stages × IsDistinct stages)
  unfolding stages_error
  stages_error_iff seen [] = (λ _. (tt, tt, tt), λ _. refl)
  stages_error_iff seen (stage ∷ stages) = ground (
    arith,
    stage_error_iff seen stage,
    stages_error_iff (stage.id ∷ seen) stages,
    fresh_iff stage.id seen stages,
  )

  wall_clock_iff : (d : Option ℤ) → (wall_clock_error l d ≡ none) ↔ IsPositive d
  unfolding IsPositive
  wall_clock_iff none = (λ h. cc, λ (n, h). cc)
  wall_clock_iff (some (pos zero)) = (λ h. cc, λ (n, h). ground arith)
  wall_clock_iff (some (pos (suc n))) = (λ h. (n, refl), λ h. ground arith)
  wall_clock_iff (some (negsuc n)) = (λ h. cc, λ (n, h). ground arith)

  budget_iff : (budget : BudgetConfig) → (validate_budget l budget ≡ none) ↔ IsValidBudget l budget
  unfolding validate_budget
  budget_iff budget = ground (
    arith,
    positive_lem budget.max_decisions,
    positive_lem budget.max_mutations,
    positive_lem budget.max_protocol_repairs,
    wall_clock_iff (l.parse_duration budget.wall_clock),
  )

  valid_profile_iff :
      (profile : PermissionProfile)
      → (is_valid_profile profile ≡ true) ↔ ((name : String) → profile ≢ other name)
  unfolding is_valid_profile
  valid_profile_iff review = (λ _ name h. cc, λ _. refl)
  valid_profile_iff supervised = (λ _ name h. cc, λ _. refl)
  valid_profile_iff workspace_auto = (λ _ name h. cc, λ _. refl)
  valid_profile_iff (other name) = (λ h. cc, λ h. absurd (h name refl))

  checked_iff :
      (config loaded : Config)
      → (load_decoded l (ok (config, [])) ≡ ok loaded) ↔ ((config ≡ loaded) × IsValid l config)
  checked_iff config loaded = ground (
    arith,
    valid_profile_iff config.default_profile,
    budget_iff config.budget,
    stages_error_iff [] config.validation,
    fresh_new config.validation,
  )

  loaded_iff :
      (r : Result String (Config × List String)) (config : Config)
      → (load_decoded l r ≡ ok config) ↔ ((r ≡ ok (config, [])) × IsValid l config)
  loaded_iff (err e) config = (λ h. cc, λ (h, _). cc)
  loaded_iff (ok (c, key ∷ keys)) config = (λ h. cc, λ (h, _). cc)
  loaded_iff (ok (c, [])) config = (
    λ h.
        let (same, valid) = (checked_iff c config).0 h in
        (ap (λ x. ok (x, [])) same, subst (IsValid l) same valid),
    λ (h, valid).
        let same : c ≡ config = cc in
        (checked_iff c config).1 (same, subst (IsValid l) (sym same) valid),
  )

  -- `load` gives a configuration exactly if the text decodes to it, starting from the defaults and
  -- without unknown keys, and it is valid: the version is 1, the profile is a known one, the budget
  -- and the wall clock are positive, no two stages share an identifier, and every stage has a
  -- relative working directory, executables and a positive timeout.
  pub load-IsValid :
      (text : String) (config : Config)
      → (load l text ≡ ok config)
        ↔ ((l.decode default_config text ≡ ok (config, [])) × IsValid l config)
  unfolding load
  load-IsValid text config = loaded_iff (l.decode default_config text) config

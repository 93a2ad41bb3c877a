-- ===== src/Feedback/Classify.antt =====
-- internal/feedback/classify.go: the category of an observation, and the cache of compiled patterns.
use ai4se_coding_agent_harne.Prelude.{
  ℕ, suc, ℤ, pos, negsuc, String, ◌==◌, Bool, true, false, not, ◌||◌, Option, none, some, List, [],
  ◌∷◌, ltb, eqb, if◌then◌else◌, length, lookup, insert,
}
use ai4se_coding_agent_harne.Domain.{Observation, Evidence}
use ai4se_coding_agent_harne.Text.{Text, codes, Unicode, text_eq, contains, to_lower, to_upper}

pub record ClassifierRule : Type 0 where
  pub category : String
  pub pattern : String

pub record Input : Type 0 where
  pub stage_id : String
  pub code : String
  pub observation : Observation
  pub rules : List ClassifierRule
  pub prior_occurrences : ℤ
  pub secrets : List String

-- `regexp.Compile` and `MatchString`; `none` is a pattern that does not compile.
abbrev pub Compile : Type 0
Compile = String → Option (Text → Bool)

pub record CompiledRule : Type 0 where
  pub category : String
  pub re : Text → Bool

-- The message of the diagnostic is `fmt.Sprintf` of the rule's index: a parameter.
abbrev pub Diagnose : Type 0
Diagnose = ℕ → Text

module _ (compile : Compile) (diagnose : Diagnose) where
  abbrev add_rule :
      ℕ
      → ClassifierRule
      → Option (Text → Bool)
      → List CompiledRule × List Evidence
      → List CompiledRule × List Evidence
  add_rule index rule none (compiled, diagnostics) = (
    compiled,
    record { source = "classifier"; message = diagnose index; path = ""; line = pos 0 }
        ∷ diagnostics,
  )
  add_rule index rule (some re) (compiled, diagnostics) =
      (record { category = rule.category; re = re } ∷ compiled, diagnostics)

  -- The rules from `index` on, in order.
  unfoldable pub compile_rules : ℕ → List ClassifierRule → List CompiledRule × List Evidence
  compile_rules index [] = ([], [])
  compile_rules index (rule ∷ rules) =
      let rest = compile_rules (suc index) rules in
      if rule.category == "" || rule.pattern == ""
      then rest
      else add_rule index rule (compile rule.pattern) rest

unfoldable pub is_one : Text → List String → Bool
is_one text [] = false
is_one text (name ∷ names) = text_eq text (codes name) || is_one text names

unfoldable pub contains_one : Text → List String → Bool
contains_one text [] = false
contains_one text (part ∷ parts) = contains text (codes part) || contains_one text parts

unfoldable pub missing_executable : Unicode → Text → Bool
unfolding contains_one
missing_executable u text =
    contains_one (to_lower u text)
      ("executable file not found" ∷ ("file not found" ∷ ("no such file or directory" ∷ [])))

abbrev pub protocol_codes : List String
protocol_codes =
    "INVALID_JSON"
    ∷ ("INVALID_AGENT_JSON" ∷ ("INVALID_DECISION_JSON" ∷ ("INVALID_ACTION_ARGS" ∷ [])))

abbrev pub policy_codes : List String
policy_codes =
    "POLICY_DENIED"
    ∷ ("UNKNOWN_ACTION"
        ∷ ("REPOSITORY_ESCAPE"
            ∷ ("PATH_DENIED"
                ∷ ("SYMLINK_ESCAPE"
                    ∷ ("CREDENTIAL_ACCESS"
                        ∷ ("GIT_INTERNALS"
                            ∷ ("PROTECTED_PATH"
                                ∷ ("UNCONFIGURED_CHECK" ∷ ("RAW_SHELL_DENIED" ∷ [])))))))))

-- The category that the code alone decides, if it does. `code` is in upper case.
unfoldable pub category_of_code : Unicode → Text → Text → Option String
unfolding is_one
category_of_code u code text =
    if is_one code protocol_codes
    then some "PROTOCOL_ERROR"
    else if text_eq code (codes "APPROVAL_REQUIRED")
    then some "APPROVAL_REQUIRED"
    else if text_eq code (codes "APPROVAL_REJECTED")
    then some "APPROVAL_REJECTED"
    else if is_one code policy_codes
    then some "POLICY_DENIED"
    else if text_eq code (codes "STALE_PATCH")
    then some "STALE_PATCH"
    else if text_eq code (codes "EMPTY_PATCH")
    then some "EMPTY_PATCH"
    else if is_one code ("PATCH_CONFLICT" ∷ ("INVALID_PATCH_SCHEMA" ∷ []))
    then some "PATCH_FAILURE"
    else if text_eq code (codes "REGRESSION")
    then some "REGRESSION"
    else if text_eq code (codes "TIMEOUT")
    then some "TIMEOUT"
    else if is_one code ("CANCELLED" ∷ ("USER_CANCELLED" ∷ []))
    then some "CANCELLED"
    else if text_eq code (codes "START_ERROR")
    then some (if missing_executable u text then "MISSING_EXECUTABLE" else "ENVIRONMENT_FAILURE")
    else if text_eq code (codes "EXECUTION_ERROR")
    then some "ENVIRONMENT_FAILURE"
    else if text_eq code (codes "CLEANUP_ERROR")
    then some "INCOMPLETE_PROCESS_CLEANUP"
    else none

-- The first rule that matches.
unfoldable pub category_of_rules : List CompiledRule → Text → Option String
category_of_rules [] text = none
category_of_rules (rule ∷ rules) text =
    if rule.re text then some rule.category else category_of_rules rules text

-- The texts that decide, in lower case.
unfoldable pub category_of_text : Text → Option String
unfolding contains_one
category_of_text lower =
    if contains_one lower ("syntax error" ∷ ("compile error" ∷ ("compilation failed" ∷ [])))
    then some "COMPILE_FAILURE"
    else if contains_one lower
        ("cannot use " ∷ ("undefined:" ∷ ("type error" ∷ ("mismatched types" ∷ []))))
    then some "TYPE_FAILURE"
    else if contains_one lower ("lint" ∷ ("gofmt" ∷ ("go vet" ∷ ("eslint" ∷ []))))
    then some "LINT_FAILURE"
    else if contains_one lower ("build failed" ∷ ("build failure" ∷ []))
    then some "BUILD_FAILURE"
    else if contains_one lower ("--- fail:" ∷ ("fail " ∷ (" expected " ∷ [])))
    then some "TEST_FAILURE"
    else none

-- `ExitCode != nil && *ExitCode != 0`.
abbrev pub exit_failed : Option ℤ → Bool
exit_failed none = false
exit_failed (some (pos n)) = not (eqb n 0)
exit_failed (some (negsuc n)) = true

abbrev is_positive : ℤ → Bool
is_positive (pos n) = ltb 0 n
is_positive (negsuc n) = false

abbrev or_else {ℓ} : {A : Type ℓ} → Option A → A → A
or_else none a = a
or_else (some b) a = b

unfoldable pub classify_category : Unicode → List CompiledRule → Input → Text → String
classify_category u rules input text =
    let code = if input.code == "" then input.observation.code else input.code in
    or_else (category_of_code u (to_upper u (codes code)) text) (
      or_else (category_of_rules rules text) (
        or_else (category_of_text (to_lower u text)) (
          if exit_failed input.observation.exit_code
          then "VALIDATION_FAILED"
          else if is_positive input.prior_occurrences
          then "NO_PROGRESS"
          else "PROGRESS")))

unfoldable pub classify : Unicode → Compile → Diagnose → Input → Text → String × List Evidence
unfolding classify_category
classify u compile diagnose input text =
    let (rules, diagnostics) = compile_rules compile diagnose 0 input.rules in
    (classify_category u rules input text, diagnostics)

unfoldable pub retryable : String → Bool
retryable category = not (
    category == "APPROVAL_REQUIRED"
    || (category == "POLICY_DENIED"
        || (category == "PROTOCOL_ERROR" || category == "INCOMPLETE_PROCESS_CLEANUP")))

-- The cache of compiled patterns; the second look under the write lock sees the same entries, since
-- one call is one step here.
pub record RegexpCache : Type 0 where
  pub limit : ℕ
  pub entries : List (String × Option (Text → Bool))

unfoldable pub new_cache : ℕ → RegexpCache
new_cache limit = record { limit = limit; entries = [] }

abbrev load_or :
    RegexpCache
    → String
    → Option (Text → Bool)
    → Option (Option (Text → Bool))
    → RegexpCache × Option (Text → Bool)
load_or c pattern value (some cached) = (c, cached)
load_or c pattern value none = (
  if ltb (length c.entries) c.limit
      then record c { entries = insert pattern value c.entries }
      else c,
  value,
)

unfoldable pub load_or_store : Compile → RegexpCache → String → RegexpCache × Option (Text → Bool)
load_or_store compile c pattern = load_or c pattern (compile pattern) (lookup pattern c.entries)

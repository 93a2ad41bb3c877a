-- ===== src/Policy/Risk.antt =====
-- internal/policy/risk.go: the risk of an action, from its kind and its JSON arguments.
-- Decoding (encoding/json) and the Unicode tables are the parameter `Platform`.
pub mod Paths
pub mod Arguments
use ai4se_coding_agent_harne.Prelude.{
  ℕ, zero, suc, ◌+◌, ◌≡◌, String, ◌==◌, Bool, true, false, ◌&&◌, ◌||◌, not, Option, none, some,
  List, [], ◌∷◌, ltb, eqb, if◌then◌else◌, length, any,
}
use ai4se_coding_agent_harne.Domain.{Action, PermissionProfile}
use ai4se_coding_agent_harne.Json.{
  Json, null, boolean, num, str, arr, obj, Items, nil, cons, Fields, end, entry,
}
use ai4se_coding_agent_harne.Text.{
  Text, codes, text_eq, has_prefix, drop_prefix, trim_prefix, has_suffix, contains, replace_char,
  split, to_lower, first_field, byte_len, has_drive,
}
use ai4se_coding_agent_harne.Text.PathClean.{path_clean}
use ai4se_coding_agent_harne.Platform.{Platform}

pub data Risk : Type 0 where
  normal guarded hard_denied : Risk

pub record Context : Type 0 where
  pub run_id : String
  pub profile : PermissionProfile
  pub repo_root : String
  pub dirty : Bool
  pub baselines : List (String × String)
  pub configured_checks : List String

abbrev pub max_files : ℕ
max_files = 5

abbrev pub max_changed_lines : ℕ
max_changed_lines = 500

abbrev pub max_file_bytes : ℕ
max_file_bytes = 1048576

pub record ActionFacts : Type 0 where
  pub hard_denied : Bool
  pub guarded : Bool
  pub code : String
  pub message : String

abbrev pub no_facts : ActionFacts
no_facts = record { hard_denied = false; guarded = false; code = ""; message = "" }

abbrev pub deny : ActionFacts → String → String → ActionFacts
deny facts code message = record facts { hard_denied = true; code = code; message = message }

abbrev pub guard : ActionFacts → String → String → ActionFacts
guard facts code message = record facts { guarded = true; code = code; message = message }

unfoldable pub is_mutation : String → Bool
is_mutation kind = kind == "apply_patch" || kind == "create_file"

unfoldable pub is_canonical : String → Bool
is_canonical kind =
    kind == "list_files"
    || (kind == "search_text"
        || (kind == "read_file"
            || (kind == "apply_patch"
                || (kind == "create_file" || (kind == "run_check" || kind == "finish")))))

unfoldable pub truthy : Json → Bool
truthy (boolean b) = b
truthy _ = false

unfoldable pub is_hard_deny_key : Text → Bool
is_hard_deny_key key =
    text_eq key (codes "repository_escape")
    || (text_eq key (codes "symlink_escape")
        || (text_eq key (codes "binary")
            || (text_eq key (codes "credential_access")
                || (text_eq key (codes "network")
                    || (text_eq key (codes "raw_shell")
                        || text_eq key (codes "key_endpoint_mismatch"))))))

unfoldable pub truthy_hard_deny : Text → Json → Bool
unfolding truthy is_hard_deny_key
truthy_hard_deny key value = truthy value && is_hard_deny_key key

unfoldable pub truthy_guard : Text → Json → Bool
unfolding truthy
truthy_guard key value =
    truthy value && (text_eq key (codes "protected") || text_eq key (codes "large"))

unfoldable pub is_path_key : Text → Bool
is_path_key key =
    text_eq key (codes "path")
    || (text_eq key (codes "paths") || (text_eq key (codes "file") || text_eq key (codes "files")))

-- The tests of `inspectPath`, on the path with its backslashes replaced, and on the cleaned path
-- and its lower case.
unfoldable pub is_absolute : Text → Bool
is_absolute slashed = has_prefix slashed (codes "/") || has_drive slashed

unfoldable pub climbs_out : Text → Bool
climbs_out clean = text_eq clean (codes "..") || has_prefix clean (codes "../")

unfoldable pub is_git_internal : Text → Bool
is_git_internal lower = text_eq lower (codes ".git") || has_prefix lower (codes ".git/")

unfoldable pub is_credential : Text → Bool
is_credential lower =
    contains lower (codes "credential")
    || (contains lower (codes "secret")
        || (contains lower (codes "vault") || has_suffix lower (codes ".env")))

unfoldable pub is_protected : Text → Bool
is_protected lower =
    has_prefix lower (codes ".github/")
    || (text_eq lower (codes "go.mod")
        || (text_eq lower (codes "go.sum") || has_prefix lower (codes "vendor/")))

module _ (p : Platform) where
  unfoldable pub inspect_path : Text → ActionFacts → ActionFacts
  inspect_path raw_path facts =
      let slashed = replace_char 0x5c b'/' raw_path in
      let clean = path_clean slashed in
      let lower = to_lower p.unicode clean in
      if is_absolute slashed
      then deny facts "REPOSITORY_ESCAPE" "action path escapes the repository"
      else if climbs_out clean
      then deny facts "REPOSITORY_ESCAPE" "action path escapes the repository"
      else if is_git_internal lower
      then deny facts "GIT_INTERNALS" "action targets repository internals"
      else if is_credential lower
      then deny facts "CREDENTIAL_ACCESS" "action targets credential material"
      else if is_protected lower
      then guard facts "PROTECTED_PATH" "action targets a protected path"
      else facts

  abbrev unless_denied : ActionFacts → ActionFacts → ActionFacts
  unless_denied facts rest = if facts.hard_denied then facts else rest

  abbrev pub note_guard : Text → Json → ActionFacts → ActionFacts
  note_guard lower nested facts =
      if truthy_guard lower nested
      then guard facts "GUARDED_MUTATION" "action exceeds normal mutation limits"
      else facts

  unfoldable mutual
    pub inspect_value : Json → Text → ActionFacts → ActionFacts
    inspect_value null key facts = facts
    inspect_value (boolean b) key facts = facts
    inspect_value (num n) key facts = facts
    inspect_value (str s) key facts =
        unless_denied facts (if is_path_key key then inspect_path (codes s) facts else facts)
    inspect_value (arr items) key facts =
        let rest = inspect_items items key facts in unless_denied facts rest
    inspect_value (obj fields) key facts =
        let rest = inspect_fields fields facts in unless_denied facts rest

    pub inspect_items : Items → Text → ActionFacts → ActionFacts
    inspect_items nil key facts = facts
    inspect_items (cons nested items) key facts =
        inspect_items items key (inspect_value nested key facts)

    -- A key that denies returns from the loop at once.
    pub inspect_fields : Fields → ActionFacts → ActionFacts
    inspect_fields end facts = facts
    inspect_fields (entry k nested fields) facts =
        let lower = to_lower p.unicode (codes k) in
        let rest =
          inspect_fields fields (inspect_value nested lower (note_guard lower nested facts)) in
        if truthy_hard_deny lower nested
        then deny facts "UNSAFE_ACTION_FACT" "action includes a prohibited workspace risk"
        else rest

  unfoldable pub inspect_args : Json → ActionFacts
  unfolding inspect_value
  inspect_args args = inspect_value args [] no_facts

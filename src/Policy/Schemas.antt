-- ===== src/Policy/Schemas.antt =====
-- internal/policy/risk.go: the schemas of `run_check`, `create_file` and `apply_patch`, and the
-- classification as a whole. Each schema decodes the same argument bytes, so it takes the decoded value.
use ai4se_coding_agent_harne.Prelude.{
  ℕ, suc, String, ◌==◌, Bool, true, false, ◌||◌, not, Option, none, some, List, [], ◌∷◌, ltb, eqb,
  if◌then◌else◌, length, any, is_some,
}
use ai4se_coding_agent_harne.Domain.{Action}
use ai4se_coding_agent_harne.Json.{Json, null, str, obj, Fields, end, entry}
use ai4se_coding_agent_harne.Text.{
  Text, codes, text_eq, has_prefix, drop_prefix, trim_prefix, split, first_field, byte_len,
}
use ai4se_coding_agent_harne.Platform.{Platform}
use ai4se_coding_agent_harne.Policy.Risk.{
  Risk, normal, guarded, hard_denied, Context, max_files, max_changed_lines, max_file_bytes,
  ActionFacts, guard, is_mutation, is_canonical, inspect_path, inspect_args,
}

-- A risk with its code and message.
pub record Assessment : Type 0 where
  pub risk : Risk
  pub code : String
  pub message : String

abbrev pub assess : Risk → String → String → Assessment
assess risk code message = record { risk = risk; code = code; message = message }

abbrev pub harmless : Assessment
harmless = assess normal "" ""

-- `fields[key]`.
unfoldable pub field_of : String → Fields → Option Json
field_of key end = none
field_of key (entry k v fields) = if k == key then some v else field_of key fields

unfoldable pub field_count : Fields → ℕ
field_count end = 0
field_count (entry k v fields) = suc (field_count fields)

-- `json.Unmarshal` into a map; `null` leaves it empty.
unfoldable pub decode_fields : Json → Option Fields
decode_fields (obj fields) = some fields
decode_fields null = some end
decode_fields _ = none

-- `json.Unmarshal` into a string; `null` leaves it empty.
unfoldable pub decode_string : Option Json → Option String
decode_string (some (str s)) = some s
decode_string (some null) = some ""
decode_string _ = none

abbrev check_schema : Assessment
check_schema =
    assess hard_denied "INVALID_CHECK_SCHEMA" "run_check requires one configured check identifier"

abbrev check_id : Context → Option String → Assessment
check_id ctx none = check_schema
check_id ctx (some id) =
    if id == ""
    then check_schema
    else if any (λ configured. id == configured) ctx.configured_checks
    then harmless
    else assess hard_denied "UNCONFIGURED_CHECK" "run_check identifier is not configured"

abbrev check_fields : Context → Option Fields → Assessment
check_fields ctx none = check_schema
check_fields ctx (some fields) =
    if not (eqb (field_count fields) 1) || not (is_some (field_of "id" fields))
    then check_schema
    else check_id ctx (decode_string (field_of "id" fields))

unfoldable pub validate_run_check : Context → Json → Assessment
unfolding field_of field_count decode_fields decode_string
validate_run_check ctx args = check_fields ctx (decode_fields args)

abbrev create_schema : Assessment
create_schema =
    assess hard_denied "INVALID_CREATE_SCHEMA" "create_file requires a path and UTF-8 content"

-- `rawContent.(string)`.
abbrev as_content : Option Json → Option String
as_content (some (str s)) = some s
as_content _ = none

-- The variables of the loop over the lines of a patch; the empty `old_path` means none.
pub record PatchScan : Type 0 where
  pub files : List Text
  pub changed_lines : ℕ
  pub old_path : Text
  pub pairs : ℕ
  pub facts : ActionFacts

abbrev patch_schema : Assessment
patch_schema =
    assess hard_denied "INVALID_PATCH_SCHEMA" "apply_patch requires unified diff file headers"

abbrev patch_payload : Assessment
patch_payload = assess hard_denied "INVALID_PATCH_SCHEMA" "apply_patch requires a patch payload"

abbrev is_empty : Text → Bool
is_empty [] = true
is_empty (_ ∷ _) = false

-- `files[path] = struct{}{}`.
unfoldable pub add_file : Text → List Text → List Text
add_file path files = if any (λ f. text_eq f path) files then files else path ∷ files

module _ (p : Platform) where
  abbrev denied_or_normal : ActionFacts → Assessment
  denied_or_normal facts =
      if facts.hard_denied then assess hard_denied facts.code facts.message else harmless

  abbrev create_parts : Option String → Option String → ActionFacts → Assessment × ActionFacts
  create_parts none content facts = (create_schema, facts)
  create_parts (some path) none facts = (create_schema, facts)
  create_parts (some path) (some content) facts =
      let seen = inspect_path p (codes path) facts in
      let sized =
        if ltb max_file_bytes (byte_len (codes content))
        then guard seen "FILE_TOO_LARGE" "mutation writes too many bytes"
        else seen in
      if path == ""
      then (create_schema, facts)
      else if seen.hard_denied
      then (assess hard_denied seen.code seen.message, seen)
      else (harmless, sized)

  abbrev create_fields : Option Fields → ActionFacts → Assessment × ActionFacts
  create_fields none facts = (create_schema, facts)
  create_fields (some fields) facts =
      create_parts (decode_string (field_of "path" fields)) (as_content (field_of "content" fields))
        facts

  unfoldable pub validate_create_file : Json → ActionFacts → Assessment × ActionFacts
  unfolding field_of decode_fields decode_string
  validate_create_file args facts = create_fields (decode_fields args) facts

  unfoldable pub diff_path : Text → Text → Text
  unfolding trim_prefix
  diff_path header prefix = trim_prefix (first_field p.unicode header) prefix

  -- The body of the loop over both paths of a pair of headers.
  unfoldable pub note_path : Text → PatchScan → PatchScan
  unfolding add_file
  note_path path scan =
      if text_eq path (codes "/dev/null")
      then scan
      else record scan { files = add_file path scan.files; facts = inspect_path p path scan.facts }

  -- One line of the patch; `none` is the early return for a bad header.
  unfoldable pub scan_line : Text → PatchScan → Option PatchScan
  unfolding diff_path note_path
  scan_line line scan =
      if has_prefix line (codes "--- ")
      then (let old = diff_path (drop_prefix line (codes "--- ")) (codes "a/") in
          if is_empty old then none else some (record scan { old_path = old }))
      else if has_prefix line (codes "+++ ")
      then (let new = diff_path (drop_prefix line (codes "+++ ")) (codes "b/") in
          if is_empty scan.old_path || is_empty new
          then none
          else (let noted = note_path new (note_path scan.old_path scan) in
              some (record noted { pairs = suc noted.pairs; old_path = [] })))
      else if has_prefix line (codes "+") || has_prefix line (codes "-")
      then some (record scan { changed_lines = suc scan.changed_lines })
      else some scan

  abbrev scan_then : Option PatchScan → (PatchScan → Option PatchScan) → Option PatchScan
  scan_then none f = none
  scan_then (some scan) f = f scan

  unfoldable pub scan_lines : List Text → PatchScan → Option PatchScan
  unfolding scan_line
  scan_lines [] scan = some scan
  scan_lines (line ∷ lines) scan = scan_then (scan_line line scan) (scan_lines lines)

  abbrev limit_files : PatchScan → ActionFacts
  limit_files scan =
      if ltb max_files (length scan.files)
      then guard scan.facts "TOO_MANY_FILES" "mutation affects too many files"
      else scan.facts

  abbrev limit_lines : PatchScan → ActionFacts → ActionFacts
  limit_lines scan facts =
      if ltb max_changed_lines scan.changed_lines
      then guard facts "TOO_MANY_CHANGED_LINES" "mutation changes too many lines"
      else facts

  -- What follows the loop. On the early return the facts are never read again.
  abbrev judge_scan : ActionFacts → Option PatchScan → Assessment × ActionFacts
  judge_scan facts none = (patch_schema, facts)
  judge_scan facts (some scan) =
      if eqb scan.pairs 0 || (not (is_empty scan.old_path) || eqb (length scan.files) 0)
      then (patch_schema, scan.facts)
      else if scan.facts.hard_denied
      then (assess hard_denied scan.facts.code scan.facts.message, scan.facts)
      else (harmless, limit_lines scan (limit_files scan))

  abbrev patch_text : Option String → ActionFacts → Assessment × ActionFacts
  patch_text none facts = (patch_payload, facts)
  patch_text (some patch) facts =
      if patch == ""
      then (patch_payload, facts)
      else judge_scan facts (
          scan_lines (split 10 (codes patch))
            (record { files = []; changed_lines = 0; old_path = []; pairs = 0; facts = facts }))

  abbrev patch_fields : Option Fields → ActionFacts → Assessment × ActionFacts
  patch_fields none facts = (patch_payload, facts)
  patch_fields (some fields) facts = patch_text (decode_string (field_of "patch" fields)) facts

  unfoldable pub validate_patch : Json → ActionFacts → Assessment × ActionFacts
  unfolding field_of decode_fields decode_string scan_lines
  validate_patch args facts = patch_fields (decode_fields args) facts

  unfoldable pub validate_canonical_action :
      Context → String → Json → ActionFacts → Assessment × ActionFacts
  unfolding validate_run_check validate_create_file validate_patch
  validate_canonical_action ctx kind args facts =
      if kind == "run_check"
      then (validate_run_check ctx args, facts)
      else if kind == "create_file"
      then validate_create_file args facts
      else if kind == "apply_patch"
      then validate_patch args facts
      else (harmless, facts)

  abbrev pub is_normal : Risk → Bool
  is_normal normal = true
  is_normal _ = false

  abbrev pub classify_facts : Context → String → Assessment × ActionFacts → Assessment
  classify_facts ctx kind (found, facts) =
      if not (is_normal found.risk)
      then found
      else if not (is_mutation kind)
      then harmless
      else if facts.guarded
      then assess guarded facts.code facts.message
      else if ctx.dirty
      then assess guarded "DIRTY_WORKTREE" "mutation targets a dirty worktree"
      else harmless

  abbrev pub classify_args : Context → String → Option Json → Assessment
  classify_args ctx kind none =
      assess hard_denied "INVALID_ACTION_ARGS" "action arguments must be valid JSON"
  classify_args ctx kind (some args) =
      let facts = inspect_args p args in
      if facts.hard_denied
      then assess hard_denied facts.code facts.message
      else classify_facts ctx kind (validate_canonical_action ctx kind args facts)

  abbrev pub parse_args : String → Option Json
  parse_args args = if args == "" then none else p.unmarshal args

  unfoldable pub classify_risk : Context → Action → Assessment
  unfolding is_mutation is_canonical inspect_args validate_canonical_action
  classify_risk ctx action =
      if not (is_canonical action.kind)
      then assess hard_denied "UNKNOWN_ACTION" "action is not in the course-delivery registry"
      else classify_args ctx action.kind (parse_args action.args)

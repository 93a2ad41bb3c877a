-- ===== src/Tools/PatchHeaders.antt =====
-- internal/tools/patch_headers.go, with `boundedPatchLimits` of patch.go: the paths and the number of
-- changed lines of a unified diff.
pub mod Limits
use ai4se_coding_agent_harne.Prelude.{
  ℕ, zero, suc, ℤ, pos, negsuc, ◌+◌, ◌-◌, ◌*◌, String, Bool, true, false, not, ◌&&◌, ◌||◌, Option,
  none, some, List, [], ◌∷◌, ◌++◌, drop, length, any, ltb, leb, eqb, if◌then◌else◌, is_nonpositive,
  Result, ok, err,
}
use ai4se_coding_agent_harne.Text.{
  Text, Unicode, codes, text_eq, has_prefix, trim_prefix, contains, split, cons_head, is_space,
}

pub data PatchError : Type 0 where
  invalid_patch patch_limit : PatchError

pub record PatchLimits : Type 0 where
  pub max_files : ℤ
  pub max_changed_lines : ℤ

pub record PatchHeaders : Type 0 where
  pub paths : List Text
  pub changed_lines : ℕ

-- `n > limit`.
abbrev pub exceeds : ℕ → ℤ → Bool
exceeds n (pos limit) = ltb limit n
exceeds n (negsuc limit) = true

-- `limit > most`.
abbrev above : ℤ → ℕ → Bool
above (pos limit) most = ltb most limit
above (negsuc limit) most = false

abbrev pub bounded : ℤ → ℕ → ℤ
bounded limit most = if is_nonpositive limit || above limit most then pos most else limit

-- `boundedPatchLimits`.
unfoldable pub bounded_patch_limits : PatchLimits → PatchLimits
bounded_patch_limits limits = record {
  max_files = bounded limits.max_files 5;
  max_changed_lines = bounded limits.max_changed_lines 500;
}

-- The variables of the loop: `old_path` is empty where no old path is pending. The keys of `seen`
-- are the paths.
pub record Scan : Type 0 where
  pub old_path : Text
  pub current_has_hunk : Bool
  pub in_hunk : Bool
  pub old_remaining : ℕ
  pub new_remaining : ℕ
  pub paths : List Text
  pub changed_lines : ℕ

abbrev pub new_scan : Scan
new_scan = record {
  old_path = [];
  current_has_hunk = false;
  in_hunk = false;
  old_remaining = 0;
  new_remaining = 0;
  paths = [];
  changed_lines = 0;
}

abbrev pub is_none : {A : Type 0} → List A → Bool
is_none [] = true
is_none (_ ∷ _) = false

abbrev pub starts : Text → String → Bool
starts line prefix = has_prefix line (codes prefix)

-- The value of decimal digits, after the value of those before.
unfoldable pub digits : ℕ → Text → Option ℕ
digits value [] = some value
digits value (c ∷ cs) =
    let rest = digits (value * 10 + (c - b'0')) cs in
    if leb b'0' c && leb c b'9' then rest else none

abbrev magnitude : Text → Option ℕ
magnitude [] = none
magnitude (c ∷ cs) = digits 0 (c ∷ cs)

abbrev negative : ℕ → ℤ
negative zero = pos 0
negative (suc n) = negsuc n

abbrev in_range : ℕ → (ℕ → ℤ) → Option ℕ → Option ℤ
in_range most sign none = none
in_range most sign (some n) = if leb n most then some (sign n) else none

-- `strconv.Atoi` for an `int` of 64 bits.
unfoldable pub atoi : Text → Option ℤ
unfolding digits
atoi [] = none
atoi (c ∷ cs) =
    if eqb c b'-'
    then in_range 9223372036854775808 negative (magnitude cs)
    else if eqb c b'+'
    then in_range 9223372036854775807 pos (magnitude cs)
    else in_range 9223372036854775807 pos (magnitude (c ∷ cs))

abbrev nonnegative : Option ℤ → Result PatchError ℕ
nonnegative (some (pos n)) = ok n
nonnegative _ = err invalid_patch

abbrev count_of : List Text → Result PatchError ℕ
count_of [] = err invalid_patch
count_of ([] ∷ parts) = err invalid_patch
count_of ((c ∷ cs) ∷ []) = ok 1
count_of ((c ∷ cs) ∷ (count ∷ [])) = nonnegative (atoi count)
count_of ((c ∷ cs) ∷ (count ∷ (part ∷ parts))) = err invalid_patch

unfoldable pub hunk_count : Text → Text → Result PatchError ℕ
unfolding atoi
hunk_count value prefix =
    if has_prefix value prefix
    then count_of (split b',' (trim_prefix value prefix))
    else err invalid_patch

-- `consumeHunkLine`: what the line adds to the changed lines, and what is left of the hunk.
unfoldable pub consume_hunk_line : Text → ℕ → ℕ → Result PatchError (ℕ × ℕ × ℕ)
consume_hunk_line line old_remaining new_remaining =
    if starts line "\\ No newline at end of file"
    then ok (0, old_remaining, new_remaining)
    else if starts line "+"
    then (if eqb new_remaining 0
        then err invalid_patch
        else ok (1, old_remaining, new_remaining - 1))
    else if starts line "-"
    then (if eqb old_remaining 0
        then err invalid_patch
        else ok (1, old_remaining - 1, new_remaining))
    else if starts line " "
    then (if eqb old_remaining 0 || eqb new_remaining 0
        then err invalid_patch
        else ok (0, old_remaining - 1, new_remaining - 1))
    else err invalid_patch

module _ (u : Unicode) where
  -- The pieces between white space, empty ones included.
  unfoldable pub pieces : Text → List Text
  pieces [] = [] ∷ []
  pieces (c ∷ s) = let rest = pieces s in if is_space u c then [] ∷ rest else cons_head c rest

  abbrev without_empty : List Text → List Text
  without_empty [] = []
  without_empty ([] ∷ ws) = without_empty ws
  without_empty ((c ∷ w) ∷ ws) = (c ∷ w) ∷ without_empty ws

  -- `strings.Fields(s)`.
  unfoldable pub fields : Text → List Text
  unfolding pieces
  fields s = without_empty (pieces s)

  abbrev pair_of : Result PatchError ℕ → Result PatchError ℕ → Result PatchError (ℕ × ℕ)
  pair_of (err e) r = err e
  pair_of (ok a) (err e) = err e
  pair_of (ok a) (ok b) = ok (a, b)

  abbrev header_of : List Text → Result PatchError (ℕ × ℕ)
  header_of (a ∷ (b ∷ (c ∷ (d ∷ rest)))) =
      if text_eq a (codes "@@") && text_eq d (codes "@@")
      then pair_of (hunk_count b (b'-' ∷ [])) (hunk_count c (b'+' ∷ []))
      else err invalid_patch
  header_of _ = err invalid_patch

  unfoldable pub parse_hunk_header : Text → Result PatchError (ℕ × ℕ)
  unfolding hunk_count fields
  parse_hunk_header line = header_of (fields line)

  abbrev path_of : Text → List Text → Result PatchError Text
  path_of prefix [] = err invalid_patch
  path_of prefix (word ∷ rest) =
      if text_eq word (codes "/dev/null") || not (has_prefix word prefix)
      then err invalid_patch
      else if is_none (trim_prefix word prefix)
      then err invalid_patch
      else ok (trim_prefix word prefix)

  unfoldable pub patch_path : Text → String → Result PatchError Text
  unfolding fields
  patch_path header prefix = path_of (codes prefix) (fields header)

  abbrev pub is_refused : Text → Bool
  is_refused line =
      starts line "rename from "
      || (starts line "rename to "
          || (starts line "similarity index "
              || (starts line "old mode "
                  || (starts line "new mode "
                      || (starts line "new file mode " || starts line "deleted file mode ")))))

  module _ (limits : PatchLimits) where
    abbrev pub after_hunk_line : Scan → Result PatchError (ℕ × ℕ × ℕ) → Result PatchError Scan
    after_hunk_line s (err e) = err e
    after_hunk_line s (ok (changed, old_remaining, new_remaining)) =
        if exceeds (s.changed_lines + changed) limits.max_changed_lines
        then err patch_limit
        else ok (record s {
          changed_lines = s.changed_lines + changed;
          old_remaining = old_remaining;
          new_remaining = new_remaining;
          in_hunk = not (eqb old_remaining 0) || not (eqb new_remaining 0);
        })

    abbrev pub after_old_path : Scan → Result PatchError Text → Result PatchError Scan
    after_old_path s (err e) = err e
    after_old_path s (ok path) = ok (record s { old_path = path })

    abbrev pub after_new_path : Scan → Result PatchError Text → Result PatchError Scan
    after_new_path s (err e) = err invalid_patch
    after_new_path s (ok path) =
        if not (text_eq path s.old_path)
        then err invalid_patch
        else if any (text_eq path) s.paths
        then err invalid_patch
        else if exceeds (length (s.paths ++ (path ∷ []))) limits.max_files
        then err patch_limit
        else ok
            (record s { paths = s.paths ++ (path ∷ []); old_path = []; current_has_hunk = false })

    abbrev pub after_header : Scan → Result PatchError (ℕ × ℕ) → Result PatchError Scan
    after_header s (err e) = err e
    after_header s (ok (old_remaining, new_remaining)) = ok (record s {
      old_remaining = old_remaining;
      new_remaining = new_remaining;
      current_has_hunk = true;
      in_hunk = not (eqb old_remaining 0) || not (eqb new_remaining 0);
    })

    -- The body of the loop.
    unfoldable pub scan_line : Text → Scan → Result PatchError Scan
    unfolding consume_hunk_line
    scan_line line s =
        if s.in_hunk
        then after_hunk_line s (consume_hunk_line line s.old_remaining s.new_remaining)
        else if is_refused line
        then err invalid_patch
        else if starts line "--- "
        then (if not (is_none s.old_path) || (not (is_none s.paths) && not s.current_has_hunk)
            then err invalid_patch
            else after_old_path s (patch_path (drop 4 line) "a/"))
        else if starts line "+++ "
        then (if is_none s.old_path
            then err invalid_patch
            else after_new_path s (patch_path (drop 4 line) "b/"))
        else if starts line "@@ "
        then (if is_none s.paths || not (is_none s.old_path)
            then err invalid_patch
            else after_header s (parse_hunk_header line))
        else ok s

    abbrev pub finished : Scan → Result PatchError PatchHeaders
    finished s =
        if is_none s.paths || (not (is_none s.old_path) || (not s.current_has_hunk || s.in_hunk))
        then err invalid_patch
        else ok (record { paths = s.paths; changed_lines = s.changed_lines })

    unfoldable pub scan_lines : List Text → Scan → Result PatchError PatchHeaders
    unfolding scan_line
    scan_lines [] s = finished s
    scan_lines (line ∷ rest) s = elim (scan_line line s) [
      | err e ↦ err e
      | ok s' ↦ scan_lines rest s'
    ]

  unfoldable pub parse_patch_headers : Text → PatchLimits → Result PatchError PatchHeaders
  unfolding scan_lines bounded_patch_limits
  parse_patch_headers patch limits =
      if is_none patch
        || (contains patch (0 ∷ [])
            || (contains patch (codes "GIT binary patch")
                || contains patch (codes "Binary files ")))
      then err invalid_patch
      else scan_lines (bounded_patch_limits limits) (split 10 patch) new_scan

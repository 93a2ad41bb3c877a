-- ===== src/Tools/PatchHeaders/Limits.antt =====
-- internal/tools/patch_headers.go: what holds of the headers of a patch that is accepted.
use ai4se_coding_agent_harne.Prelude.{
  ℕ, zero, suc, ℤ, pos, negsuc, ◌+◌, ◌≤◌, String, ◌≡◌, ◌≢◌, refl, subst, inl, inr, Bool, Bool-cases,
  true, false, not, ◌&&◌, ◌||◌, List, [], ◌∷◌, ◌++◌, drop, length, any, All, if◌then◌else◌, Result,
  ok, err, arith,
}
use ai4se_coding_agent_harne.Text.{Text, Unicode, codes, text_eq, text_eq_iff, trim_prefix, split}
use ai4se_coding_agent_harne.Tools.PatchHeaders.{
  PatchError, invalid_patch, PatchLimits, PatchHeaders, exceeds, bounded, bounded_patch_limits,
  Scan, is_none, fields, path_of, patch_path, after_hunk_line, after_old_path, after_new_path,
  after_header, consume_hunk_line, parse_hunk_header, scan_line, starts, is_refused, scan_lines,
  new_scan, parse_patch_headers,
}

abbrev pub IsUnique : List Text → Type 0
IsUnique [] = Unit
IsUnique (path ∷ paths) = (any (text_eq path) paths ≡ false) × IsUnique paths

abbrev pub AreNamed : List Text → Type 0
AreNamed paths = All (λ path. path ≢ []) paths

any-append :
    (path last : Text) (paths : List Text)
    → any (text_eq path) paths ≡ false
    → text_eq last path ≡ false
    → any (text_eq path) (paths ++ (last ∷ [])) ≡ false
any-append path last [] h e = ground (arith, text_eq_iff last path, text_eq_iff path last)
any-append path last (p ∷ paths) h e = ground (arith, any-append path last paths)

IsUnique-append :
    (last : Text) (paths : List Text)
    → IsUnique paths
    → any (text_eq last) paths ≡ false
    → IsUnique (paths ++ (last ∷ []))
IsUnique-append last [] u h = (refl, tt)
IsUnique-append last (p ∷ paths) (fresh, u) h =
    (any-append p last paths fresh (ground arith), IsUnique-append last paths u (ground arith))

AreNamed-append :
    (last : Text) (paths : List Text) → AreNamed paths → last ≢ [] → AreNamed (paths ++ (last ∷ []))
AreNamed-append last [] n h = (h, tt)
AreNamed-append last (p ∷ paths) (m, n) h = (m, AreNamed-append last paths n h)

abbrev pub IsWithin : PatchLimits → List Text → ℕ → Type 0
IsWithin limits paths changed_lines =
    IsUnique paths
    × AreNamed paths
    × (exceeds (length paths) limits.max_files ≡ false)
    × (exceeds changed_lines limits.max_changed_lines ≡ false)

checked_named :
    (b : Bool) (word path : Text)
    → (if b then err invalid_patch else if is_none word then err invalid_patch else ok word)
      ≡ ok path
    → path ≢ []
checked_named true word path h = cc
checked_named false [] path h = cc
checked_named false (c ∷ cs) path h = λ e. cc

module _ (u : Unicode) where
  path_of_nonempty :
      (prefix : Text) (words : List Text) (path : Text)
      → path_of u prefix words ≡ ok path
      → path ≢ []
  path_of_nonempty prefix [] path h = cc
  path_of_nonempty prefix (word ∷ rest) path h = checked_named _ (trim_prefix word prefix) path h

  patch_path_named :
      (header : Text) (prefix : String) (path : Text)
      → patch_path u header prefix ≡ ok path
      → path ≢ []
  unfolding patch_path
  patch_path_named header prefix path = path_of_nonempty (codes prefix) (fields u header) path

  module _ (limits : PatchLimits) where
    unfoldable Keeps : Result PatchError Scan → Type 0
    Keeps (err e) = Unit
    Keeps (ok s) = IsWithin limits s.paths s.changed_lines

    Keeps-hunk :
        (s : Scan) (r : Result PatchError (ℕ × ℕ × ℕ))
        → IsWithin limits s.paths s.changed_lines
        → Keeps (after_hunk_line u limits s r)
    unfolding Keeps
    Keeps-hunk s (err e) (a, b, c, d) = tt
    Keeps-hunk s (ok (changed, old, new)) (a, b, c, d) =
        elim (Bool-cases (exceeds (s.changed_lines + changed) limits.max_changed_lines)) [
          | inl e ↦ rw (after_hunk_line, e) tt
          | inr e ↦ rw (after_hunk_line, e) (a, b, c, e)
        ]

    Keeps-old :
        (s : Scan) (r : Result PatchError Text)
        → IsWithin limits s.paths s.changed_lines
        → Keeps (after_old_path u limits s r)
    unfolding Keeps
    Keeps-old s (err e) w = tt
    Keeps-old s (ok path) w = w

    Keeps-header :
        (s : Scan) (r : Result PatchError (ℕ × ℕ))
        → IsWithin limits s.paths s.changed_lines
        → Keeps (after_header u limits s r)
    unfolding Keeps
    Keeps-header s (err e) w = tt
    Keeps-header s (ok (a, b)) w = w

    Keeps-new :
        (s : Scan) (r : Result PatchError Text)
        → ((path : Text) → r ≡ ok path → path ≢ [])
        → IsWithin limits s.paths s.changed_lines
        → Keeps (after_new_path u limits s r)
    unfolding Keeps
    Keeps-new s (err e) named w = tt
    Keeps-new s (ok path) named (a, b, c, d) = elim (Bool-cases (text_eq path s.old_path)) [
      | inr e ↦ rw (after_new_path, e) tt
      | inl e ↦ elim (Bool-cases (any (text_eq path) s.paths)) [
        | inl dup ↦ rw (after_new_path, e, dup) tt
        | inr fresh ↦
            elim (Bool-cases (exceeds (length (s.paths ++ (path ∷ []))) limits.max_files)) [
              | inl many ↦ rw (after_new_path, e, fresh, many) tt
              | inr few ↦
                  rw (after_new_path, e, fresh, few)
                    (
                      IsUnique-append path s.paths a fresh,
                      AreNamed-append path s.paths b (named path refl),
                      few,
                      d,
                    )
            ]
      ]
    ]

    Keeps-err : (e : PatchError) → Keeps (err e)
    unfolding Keeps
    Keeps-err e = tt

    Keeps-if :
        (b : Bool) (x y : Result PatchError Scan) → Keeps x → Keeps y → Keeps (if b then x else y)
    unfolding Keeps
    Keeps-if true x y k l = k
    Keeps-if false x y k l = l

    Keeps-ok : (s : Scan) → IsWithin limits s.paths s.changed_lines → Keeps (ok s)
    unfolding Keeps
    Keeps-ok s w = w

    scan_line-Keeps :
        (line : Text) (s : Scan)
        → IsWithin limits s.paths s.changed_lines
        → Keeps (scan_line u limits line s)
    unfolding scan_line
    scan_line-Keeps line s w =
        Keeps-if s.in_hunk _ _
          (Keeps-hunk s (consume_hunk_line line s.old_remaining s.new_remaining) w)
          (Keeps-if (is_refused u line) _ _ (Keeps-err invalid_patch) (
            Keeps-if (starts line "--- ") _ _
              (Keeps-if
                (not (is_none s.old_path) || (not (is_none s.paths) && not s.current_has_hunk)) _ _
                (Keeps-err invalid_patch) (Keeps-old s (patch_path u (drop 4 line) "a/") w))
              (Keeps-if (starts line "+++ ") _ _
                (Keeps-if (is_none s.old_path) _ _ (Keeps-err invalid_patch) (
                  Keeps-new s (patch_path u (drop 4 line) "b/")
                    (patch_path_named (drop 4 line) "b/") w))
                (Keeps-if (starts line "@@ ") _ _
                  (Keeps-if (is_none s.paths || not (is_none s.old_path)) _ _
                    (Keeps-err invalid_patch) (Keeps-header s (parse_hunk_header u line) w))
                  (Keeps-ok s w)))))

    finished-IsWithin :
        (paths : List Text) (changed_lines : ℕ) (b : Bool) (headers : PatchHeaders)
        → IsWithin limits paths changed_lines
        → (if is_none paths || b
            then err invalid_patch
            else ok (record { paths = paths; changed_lines = changed_lines }))
          ≡ ok headers
        → (headers.paths ≢ []) × IsWithin limits headers.paths headers.changed_lines
    finished-IsWithin [] changed_lines b headers w h = cc
    finished-IsWithin (p ∷ paths) changed_lines true headers w h = cc
    finished-IsWithin (p ∷ paths) changed_lines false headers w h =
        let same : record { paths = p ∷ paths; changed_lines = changed_lines } ≡ headers = cc in
        subst (λ h. (h.paths ≢ []) × IsWithin limits h.paths h.changed_lines) same ((λ e. cc), w)

    abbrev Accepts : Result PatchError PatchHeaders → Type 0
    Accepts r =
        (headers : PatchHeaders)
        → r ≡ ok headers
        → (headers.paths ≢ []) × IsWithin limits headers.paths headers.changed_lines

    line-IsWithin :
        (lines : List Text) (r : Result PatchError Scan)
        → Keeps r
        → ((s : Scan)
            → IsWithin limits s.paths s.changed_lines
            → Accepts (scan_lines u limits lines s))
        → Accepts (elim r [ err e ↦ err e | ok s ↦ scan_lines u limits lines s ])
    unfolding Keeps
    line-IsWithin lines (err e) w rest = λ headers h. cc
    line-IsWithin lines (ok s) w rest = rest s w

    lines-IsWithin :
        (lines : List Text) (s : Scan)
        → IsWithin limits s.paths s.changed_lines
        → Accepts (scan_lines u limits lines s)
    unfolding scan_lines
    lines-IsWithin [] s w = λ headers. finished-IsWithin s.paths s.changed_lines _ headers w
    lines-IsWithin (line ∷ lines) s w =
        line-IsWithin lines (scan_line u limits line s) (scan_line-Keeps line s w)
          (λ s'. lines-IsWithin lines s')

bounded_exceeds : (limit : ℤ) (most : ℕ) → exceeds 0 (bounded limit most) ≡ false
bounded_exceeds (pos zero) most = ground arith
bounded_exceeds (pos (suc n)) most = ground arith
bounded_exceeds (negsuc n) most = ground arith

bounded_most : (limit : ℤ) (most n : ℕ) → exceeds n (bounded limit most) ≡ false → n ≤ most
bounded_most (pos zero) most n h = ground arith
bounded_most (pos (suc l)) most n h = ground arith
bounded_most (negsuc l) most n h = ground arith

not_refused :
    (b : Bool) (r : Result PatchError PatchHeaders) {headers : PatchHeaders}
    → (if b then err invalid_patch else r) ≡ ok headers
    → r ≡ ok headers
not_refused true r h = cc
not_refused false r h = h

-- Of a patch that is accepted, the paths are there, none is empty and no two are the same; their
-- number and the number of changed lines are within the limits that are asked for, once these are
-- bounded, and never above 5 paths and 500 lines.
pub parse_patch_headers-IsWithin :
    (u : Unicode) (patch : Text) (limits : PatchLimits) (headers : PatchHeaders)
    → parse_patch_headers u patch limits ≡ ok headers
    → (headers.paths ≢ [])
      × IsWithin (bounded_patch_limits limits) headers.paths headers.changed_lines
      × (length headers.paths ≤ 5)
      × (headers.changed_lines ≤ 500)
unfolding parse_patch_headers bounded_patch_limits
parse_patch_headers-IsWithin u patch limits headers h =
    let limits' = bounded_patch_limits limits in
    let (some_path, within) =
      lines-IsWithin u limits' (split 10 patch) new_scan
        (tt, tt, bounded_exceeds limits.max_files 5, bounded_exceeds limits.max_changed_lines 500)
        headers (not_refused _ (scan_lines u limits' (split 10 patch) new_scan) h) in
    (
      some_path,
      within,
      bounded_most limits.max_files 5 (length headers.paths) within.2,
      bounded_most limits.max_changed_lines 500 headers.changed_lines within.3,
    )

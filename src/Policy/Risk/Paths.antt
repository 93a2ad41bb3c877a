-- ===== src/Policy/Risk/Paths.antt =====
-- What `inspectPath` of internal/policy/risk.go lets through.
use ai4se_coding_agent_harne.Prelude.{
  ℕ, ◌<◌, ◌≡◌, refl, subst, ◌⊎◌, inl, inr, true, false, [], ◌∷◌, ◌++◌, arith,
}
use ai4se_coding_agent_harne.Text.{
  Text, codes, has_prefix, has_suffix, contains, has_drive, text_eq, text_eq_refl, text_eq_iff,
  to_lower, replace_char,
}
use ai4se_coding_agent_harne.Text.PathClean.{
  path_clean, components, has_up, is_rooted, escapes-components,
}
use ai4se_coding_agent_harne.Platform.{Platform}
use ai4se_coding_agent_harne.Policy.Risk.{
  ActionFacts, inspect_path, is_absolute, climbs_out, is_git_internal, is_credential,
}

-- The path that the checks read: backslashes are slashes.
abbrev pub slashed : Text → Text
slashed = replace_char 0x5c b'/'

module _ (p : Platform) (path : Text) (facts : ActionFacts) where
  -- An inspection only ever adds a denial.
  pub inspect_path_mono : facts.hard_denied ≡ true → (inspect_path p path facts).hard_denied ≡ true
  unfolding inspect_path
  inspect_path_mono h = ground arith

  inspect_path_passed :
      (inspect_path p path facts).hard_denied ≡ false
      → (is_absolute (slashed path) ≡ false)
        × (climbs_out (path_clean (slashed path)) ≡ false)
        × (is_git_internal (to_lower p.unicode (path_clean (slashed path))) ≡ false)
        × (is_credential (to_lower p.unicode (path_clean (slashed path))) ≡ false)
  unfolding inspect_path
  inspect_path_passed h = ground arith

relative_unrooted : (s : Text) → is_absolute s ≡ false → is_rooted s ≡ false
unfolding is_absolute has_prefix text_eq
relative_unrooted [] h = refl
relative_unrooted (c ∷ s) h = ground arith

has_prefix-append : (word rest : Text) → has_prefix (word ++ rest) word ≡ true
unfolding has_prefix
has_prefix-append [] rest = refl
has_prefix-append (c ∷ word) rest = ground (arith, has_prefix-append word rest)

contains_here : (s part : Text) → has_prefix s part ≡ true → contains s part ≡ true
unfolding contains
contains_here [] part h = h
contains_here (c ∷ s) part h = ground (arith, h)

contains-append : (before word after : Text) → contains (before ++ (word ++ after)) word ≡ true
unfolding contains
contains-append [] word after = contains_here (word ++ after) word (has_prefix-append word after)
contains-append (c ∷ before) word after = ground (arith, contains-append before word after)

has_suffix_self : (s : Text) → has_suffix s s ≡ true
unfolding has_suffix
has_suffix_self [] = text_eq_refl []
has_suffix_self (c ∷ s) = ground (arith, text_eq_refl (c ∷ s))

has_suffix-append : (before word : Text) → has_suffix (before ++ word) word ≡ true
unfolding has_suffix
has_suffix-append [] word = has_suffix_self word
has_suffix-append (c ∷ before) word = ground (arith, has_suffix-append before word)

-- The path starts with a drive, such as `C:`.
abbrev pub NamesDrive : Text → Type 0
NamesDrive t = (a : ℕ) × (rest : Text) × (a < 0x80) × (t ≡ a ∷ (b':' ∷ rest))

-- The path is `.git`, or starts with `.git/`.
abbrev pub NamesGit : Text → Type 0
NamesGit t = (t ≡ codes ".git") ⊎ ((rest : Text) × (t ≡ codes ".git/" ++ rest))

-- The word stands somewhere in the path.
abbrev pub Holds : Text → Text → Type 0
Holds word t = (before : Text) × (after : Text) × (t ≡ before ++ (word ++ after))

abbrev pub EndsIn : Text → Text → Type 0
EndsIn word t = (before : Text) × (t ≡ before ++ word)

relative_driveless : (s : Text) → is_absolute s ≡ false → ¬ NamesDrive s
unfolding is_absolute has_drive has_prefix
relative_driveless s h (a, rest, small, e) = ground (arith, subst (λ t. is_absolute t ≡ false) e h)

outside_git : (s : Text) → is_git_internal s ≡ false → ¬ NamesGit s
unfolding is_git_internal
outside_git s h (inl e) = ground (arith, text_eq_iff s (codes ".git"))
outside_git s h (inr (rest, e)) =
    ground
      (arith, subst (λ t. is_git_internal t ≡ false) e h, has_prefix-append (codes ".git/") rest)

module _ (s : Text) (h : is_credential s ≡ false) where
  lacks : (word : Text) → contains s word ≡ false → ¬ Holds word s
  lacks word k (before, after, e) =
      cc (subst (λ t. contains t word ≡ false) e k, contains-append before word after)

  not_credential :
      ¬ Holds (codes "credential") s
      × ¬ Holds (codes "secret") s
      × ¬ Holds (codes "vault") s
      × ¬ EndsIn (codes ".env") s
  unfolding is_credential
  not_credential = (
    lacks (codes "credential") (ground arith),
    lacks (codes "secret") (ground arith),
    lacks (codes "vault") (ground arith),
    λ w. cc (
      subst (λ t. has_suffix t (codes ".env") ≡ false) w.1 (ground arith),
      has_suffix-append w.0 (codes ".env"),
    ),
  )

-- A path that is not denied stays inside the repository: after its backslashes become slashes it
-- does not start with a slash or with a drive (a character of one byte and a colon), and no
-- component of its cleaned form is `..`. Nor is that form, in lower case, `.git` or a path that
-- starts with `.git/`, nor does it hold `credential`, `secret` or `vault` or end in `.env`.
pub inspect_path_inside :
    (p : Platform) (path : Text) (facts : ActionFacts)
    → (inspect_path p path facts).hard_denied ≡ false
    → (is_rooted (slashed path) ≡ false)
      × ¬ NamesDrive (slashed path)
      × (has_up (components (slashed path)) ≡ false)
      × ¬ NamesGit (to_lower p.unicode (path_clean (slashed path)))
      × ¬ Holds (codes "credential") (to_lower p.unicode (path_clean (slashed path)))
      × ¬ Holds (codes "secret") (to_lower p.unicode (path_clean (slashed path)))
      × ¬ Holds (codes "vault") (to_lower p.unicode (path_clean (slashed path)))
      × ¬ EndsIn (codes ".env") (to_lower p.unicode (path_clean (slashed path)))
unfolding climbs_out
inspect_path_inside p path facts h =
    let (a, c, g, k) = inspect_path_passed p path facts h in
    let r = relative_unrooted (slashed path) a in
    let (x, y, z, w) = not_credential (to_lower p.unicode (path_clean (slashed path))) k in
    (
      r,
      relative_driveless (slashed path) a,
      escapes-components (slashed path) r c,
      outside_git (to_lower p.unicode (path_clean (slashed path))) g,
      x,
      y,
      z,
      w,
    )

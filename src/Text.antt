-- ===== src/Text.antt =====
-- What the code uses of Go's packages strings, path and unicode/utf8, over the code points of a
-- text. Beyond ASCII the case and space tables of Unicode are a parameter.
pub mod PathClean
pub mod Keyed
use Prim.Native.Char.{code}
use Prim.Native.Nat.{◌/◌, ◌%◌}
use ai4se_coding_agent_harne.Prelude.{
  ℕ, zero, suc, ◌+◌, ◌-◌, ◌≤◌, ◌≡◌, refl, ap, subst, ◌↔◌, String, Bool, true, false, ◌&&◌, ◌||◌,
  List, [], ◌∷◌, ◌++◌, map, ltb, leb, eqb, if◌then◌else◌, arith, length,
}

abbrev pub Text : Type 0
Text = List ℕ

-- The code points of a text.
abbrev pub codes : String → Text
codes String.[] = []
codes (String.◌∷◌ c s) = code c ∷ codes s

pub record Unicode : Type 0 where
  -- `unicode.ToLower` from U+0080 on.
  pub lower_rune : ℕ → ℕ
  -- `unicode.ToUpper` from U+0080 on.
  pub upper_rune : ℕ → ℕ
  -- `unicode.IsSpace` from U+0080 on.
  pub is_space_rune : ℕ → Bool

unfoldable pub text_eq : Text → Text → Bool
text_eq [] [] = true
text_eq [] (_ ∷ _) = false
text_eq (_ ∷ _) [] = false
text_eq (a ∷ s) (b ∷ t) = eqb a b && text_eq s t

-- `strings.HasPrefix(s, prefix)`.
unfoldable pub has_prefix : Text → Text → Bool
has_prefix s [] = true
has_prefix [] (_ ∷ _) = false
has_prefix (a ∷ s) (b ∷ t) = eqb a b && has_prefix s t

-- `strings.TrimPrefix(s, prefix)`, the rest after a prefix that is known to be there.
unfoldable pub drop_prefix : Text → Text → Text
drop_prefix s [] = s
drop_prefix [] (_ ∷ _) = []
drop_prefix (_ ∷ s) (_ ∷ t) = drop_prefix s t

unfoldable pub trim_prefix : Text → Text → Text
unfolding has_prefix drop_prefix
trim_prefix s prefix = if has_prefix s prefix then drop_prefix s prefix else s

-- `strings.HasSuffix(s, suffix)`.
unfoldable pub has_suffix : Text → Text → Bool
unfolding text_eq
has_suffix [] suffix = text_eq [] suffix
has_suffix (a ∷ s) suffix = text_eq (a ∷ s) suffix || has_suffix s suffix

-- `strings.Contains(s, part)`.
unfoldable pub contains : Text → Text → Bool
unfolding has_prefix
contains [] part = has_prefix [] part
contains (a ∷ s) part = has_prefix (a ∷ s) part || contains s part

-- `strings.ReplaceAll` of one character by another.
unfoldable pub replace_char : ℕ → ℕ → Text → Text
replace_char from to [] = []
replace_char from to (c ∷ s) = (if eqb c from then to else c) ∷ replace_char from to s

abbrev pub cons_head : ℕ → List Text → List Text
cons_head c [] = (c ∷ []) ∷ []
cons_head c (w ∷ ws) = (c ∷ w) ∷ ws

-- `strings.Split(s, sep)` at a separator of one character: always at least one part.
unfoldable pub split : ℕ → Text → List Text
split sep [] = [] ∷ []
split sep (c ∷ s) = let rest = split sep s in if eqb c sep then [] ∷ rest else cons_head c rest

-- `strings.Join(parts, sep)` for a separator of one character.
unfoldable pub join : ℕ → List Text → Text
join sep [] = []
join sep (w ∷ []) = w
join sep (w ∷ (v ∷ ws)) = w ++ (sep ∷ join sep (v ∷ ws))

-- `strings.ReplaceAll(s, old, new)` for a non-empty `old`; the number is what is left to skip of an
-- occurrence that was replaced.
unfoldable pub replace_from : Text → Text → ℕ → Text → Text
unfolding has_prefix
replace_from old new skip [] = []
replace_from old new (suc skip) (c ∷ s) = replace_from old new skip s
replace_from old new zero (c ∷ s) =
    let hit = new ++ replace_from old new (length old - 1) s in
    let miss = c ∷ replace_from old new zero s in if has_prefix (c ∷ s) old then hit else miss

unfoldable pub replace_all : Text → Text → Text → Text
unfolding replace_from
replace_all old new s = replace_from old new zero s

-- How many bytes UTF-8 takes for a code point, and for a text: Go's `len`.
unfoldable pub rune_len : ℕ → ℕ
rune_len c = if ltb c 0x80 then 1 else if ltb c 0x800 then 2 else if ltb c 0x10000 then 3 else 4

unfoldable pub byte_len : Text → ℕ
unfolding rune_len
byte_len [] = 0
byte_len (c ∷ s) = rune_len c + byte_len s

-- The longest prefix of whole characters within a number of bytes.
unfoldable pub take_bytes : ℕ → Text → Text
unfolding rune_len
take_bytes limit [] = []
take_bytes limit (c ∷ s) =
    let rest = take_bytes (limit - rune_len c) s in if leb (rune_len c) limit then c ∷ rest else []

module _ (u : Unicode) where
  unfoldable pub lower_char : ℕ → ℕ
  lower_char c =
      if ltb c 0x80 then (if leb b'A' c && leb c b'Z' then c + 32 else c) else u.lower_rune c

  -- `strings.ToLower(s)`.
  unfoldable pub to_lower : Text → Text
  unfolding lower_char
  to_lower [] = []
  to_lower (c ∷ s) = lower_char c ∷ to_lower s

  unfoldable pub upper_char : ℕ → ℕ
  upper_char c =
      if ltb c 0x80 then (if leb b'a' c && leb c b'z' then c - 32 else c) else u.upper_rune c

  -- `strings.ToUpper(s)`.
  unfoldable pub to_upper : Text → Text
  unfolding upper_char
  to_upper [] = []
  to_upper (c ∷ s) = upper_char c ∷ to_upper s

  unfoldable pub is_space : ℕ → Bool
  is_space c =
      if ltb c 0x80
      then eqb c 9 || (eqb c 10 || (eqb c 11 || (eqb c 12 || (eqb c 13 || eqb c 32))))
      else u.is_space_rune c

  -- The characters up to the first space.
  unfoldable pub until_space : Text → Text
  unfolding is_space
  until_space [] = []
  until_space (c ∷ s) = let rest = until_space s in if is_space c then [] else c ∷ rest

  unfoldable pub trim_left : Text → Text
  unfolding is_space
  trim_left [] = []
  trim_left (c ∷ s) = let rest = trim_left s in if is_space c then rest else c ∷ s

  abbrev pub keep_char : ℕ → Text → Text
  keep_char c [] = if is_space c then [] else c ∷ []
  keep_char c (d ∷ s) = c ∷ (d ∷ s)

  unfoldable pub trim_right : Text → Text
  unfolding is_space
  trim_right [] = []
  trim_right (c ∷ s) = keep_char c (trim_right s)

  -- `strings.TrimSpace(s)`.
  unfoldable pub trim_space : Text → Text
  unfolding trim_left trim_right
  trim_space s = trim_right (trim_left s)

  -- `strings.Fields(s)[0]`, or the empty text where there is no field.
  unfoldable pub first_field : Text → Text
  unfolding until_space trim_left
  first_field s = until_space (trim_left s)

-- A leading drive letter, `len(s) >= 2 && s[1] == ':'`: the second byte is the colon.
unfoldable pub has_drive : Text → Bool
has_drive [] = false
has_drive (a ∷ []) = false
has_drive (a ∷ (b ∷ s)) = ltb a 0x80 && eqb b b':'

pub text_eq→eq : (s t : Text) → text_eq s t ≡ true → s ≡ t
unfolding text_eq
text_eq→eq [] [] h = refl
text_eq→eq [] (_ ∷ _) h = cc
text_eq→eq (_ ∷ _) [] h = cc
text_eq→eq (a ∷ s) (b ∷ t) h = ground (arith, text_eq→eq s t)

pub text_eq_refl : (s : Text) → text_eq s s ≡ true
unfolding text_eq
text_eq_refl [] = refl
text_eq_refl (a ∷ s) = ground (arith, text_eq_refl s)

pub text_eq_iff : (s t : Text) → (text_eq s t ≡ true) ↔ (s ≡ t)
text_eq_iff s t = (text_eq→eq s t, λ e. subst (λ u. text_eq s u ≡ true) e (text_eq_refl s))

-- ===== src/Feedback/Printed.antt =====
-- What internal/feedback reads of an observation, and the lines that it takes from it.
use ai4se_coding_agent_harne.Prelude.{
  ℕ, ◌≡◌, refl, ap, ◌∙◌, inl, inr, Bool-cases, List, [], ◌∷◌, ◌++◌, map, eqb, All, arith,
}
use ai4se_coding_agent_harne.Text.{Text, codes, Unicode, join, split, trim_space}
use ai4se_coding_agent_harne.Feedback.Compress.{trim_lines, meaningful_lines, keep_line}
use ai4se_coding_agent_harne.Feedback.Classify.{Input}
use ai4se_coding_agent_harne.Feedback.Process.{
  Patterns, drop_newlines, drop_newlines_right, keep_unless_newline, observation_text,
}

abbrev pub Newlines : Text → Type 0
Newlines = All (λ c. c ≡ 10)

-- The lines that are not empty, in order.
abbrev pub nonempty : List Text → List Text
nonempty [] = []
nonempty ([] ∷ lines) = nonempty lines
nonempty ((c ∷ s) ∷ lines) = (c ∷ s) ∷ nonempty lines

-- Every line of a text, without the blanks around it, less those that nothing is left of.
abbrev pub lines_of : Unicode → Text → List Text
lines_of u text = nonempty (map (trim_space u) (split 10 text))

keep_line_lem :
    (trimmed : Text) (lines rest : List Text)
    → lines ≡ nonempty rest
    → keep_line trimmed lines ≡ nonempty (trimmed ∷ rest)
keep_line_lem [] lines rest e = e
keep_line_lem (c ∷ s) lines rest e = ap (λ ls. (c ∷ s) ∷ ls) e

trim_lines_lem :
    (u : Unicode) (lines : List Text) → trim_lines u lines ≡ nonempty (map (trim_space u) lines)
unfolding trim_lines
trim_lines_lem u [] = refl
trim_lines_lem u (line ∷ lines) =
    keep_line_lem (trim_space u line) (trim_lines u lines) (map (trim_space u) lines)
      (trim_lines_lem u lines)

pub meaningful_lines_lem : (u : Unicode) (text : Text) → meaningful_lines u text ≡ lines_of u text
unfolding meaningful_lines
meaningful_lines_lem u text = trim_lines_lem u (split 10 text)

module _ (p : Patterns) where
  before_text : (s : Text) → (before : Text) × Newlines before × (s ≡ before ++ drop_newlines p s)
  before_text [] = ([], tt, refl)
  before_text (c ∷ s) = elim (Bool-cases (eqb c 10)) [
    | inl e ↦
        let (before, newlines, split_s) = before_text s in
        rw (drop_newlines, e) (c ∷ before, (ground (arith, e), newlines), ap (λ t. c ∷ t) split_s)
    | inr e ↦ rw (drop_newlines, e) ([], tt, refl)
  ]

  keeps :
      (c : ℕ) (rest after : Text)
      → Newlines after
      → (after' : Text) × Newlines after'
        × (c ∷ (rest ++ after) ≡ keep_unless_newline p c rest ++ after')
  keeps c [] after newlines = elim (Bool-cases (eqb c 10)) [
    | inl e ↦ rw e (c ∷ after, (ground (arith, e), newlines), refl)
    | inr e ↦ rw e (after, newlines, refl)
  ]
  keeps c (d ∷ rest) after newlines = (after, newlines, refl)

  after_text : (s : Text) → (after : Text) × Newlines after × (s ≡ drop_newlines_right p s ++ after)
  after_text [] = ([], tt, refl)
  after_text (c ∷ s) =
      let (after, newlines, shape) = after_text s in
      let (after', newlines', shape') = keeps c (drop_newlines_right p s) after newlines in
      (after', newlines', ap (λ t. c ∷ t) shape ∙ shape')

  -- All that the observation holds: the output, the error output and the raw data, each on lines of
  -- its own.
  abbrev pub all_printed : Input → Text
  all_printed input =
      let o = input.observation in
      codes o.stdout ++ (10 ∷ (codes o.stderr ++ (10 ∷ codes o.raw_data)))

  -- The text that is read is what was printed, less newlines at its ends.
  pub observation_text_lem :
      (input : Input)
      → (before : Text) × (after : Text) × Newlines before
        × Newlines after
        × (all_printed input ≡ before ++ (observation_text p input ++ after))
  unfolding observation_text join
  observation_text_lem input =
      let (before, b, shape) = before_text (all_printed input) in
      let (after, a, shape') = after_text (drop_newlines p (all_printed input)) in
      (before, after, b, a, shape ∙ ap (λ t. before ++ t) shape')

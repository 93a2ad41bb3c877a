-- ===== src/Feedback/Compress.antt =====
-- internal/feedback/compress.go: the evidence lines and the summary.
use Prim.Native.Nat.{◌/◌}
use ai4se_coding_agent_harne.Prelude.{
  ℕ, zero, suc, ◌-◌, pos, String, Bool, true, false, List, [], ◌∷◌, ◌++◌, map, ltb, if◌then◌else◌,
  length, take, drop,
}
use ai4se_coding_agent_harne.Domain.{Evidence}
use ai4se_coding_agent_harne.Text.{Text, codes, Unicode, split, trim_space, byte_len, take_bytes}

abbrev pub keep_line : Text → List Text → List Text
keep_line [] lines = lines
keep_line (c ∷ s) lines = (c ∷ s) ∷ lines

module _ (u : Unicode) where
  unfoldable pub trim_lines : List Text → List Text
  trim_lines [] = []
  trim_lines (line ∷ lines) = keep_line (trim_space u line) (trim_lines lines)

  unfoldable pub meaningful_lines : Text → List Text
  unfolding trim_lines
  meaningful_lines text = trim_lines (split 10 text)

-- The lines that are kept, and whether some are not: half of the room for the first ones and the
-- rest for the last ones.
unfoldable pub keep_lines : List Text → ℕ → List Text × Bool
keep_lines lines max_evidence =
    let head = max_evidence / 2 in
    let tail = max_evidence - head in
    if ltb max_evidence (length lines)
    then (take head lines ++ drop (length lines - tail) lines, true)
    else (lines, false)

abbrev pub observed : Text → Evidence
observed line = record { source = "observation"; message = line; path = ""; line = pos 0 }

unfoldable pub compress_evidence : Unicode → Text → ℕ → List Evidence × Bool
unfolding keep_lines
compress_evidence u text max_evidence =
    let (lines, truncated) = keep_lines (meaningful_lines u text) max_evidence in
    (map observed lines, truncated)

unfoldable pub summary_text : String → List Text → Text
summary_text category [] = codes category
summary_text category (line ∷ lines) = codes category ++ (codes ": " ++ line)

-- The cut at a byte limit goes back to the last whole character.
unfoldable pub summarize : Unicode → String → Text → ℕ → Text × Bool
unfolding summary_text
summarize u category text zero = ([], true)
summarize u category text (suc n) =
    let summary = summary_text category (meaningful_lines u text) in
    (take_bytes (suc n) summary, ltb (suc n) (byte_len summary))

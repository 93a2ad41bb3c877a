-- ===== src/Feedback/Process.antt =====
-- internal/feedback: redact.go, normalize.go, fingerprint.go and `Pipeline.Process`.
use ai4se_coding_agent_harne.Prelude.{
  ℕ, zero, suc, ◌-◌, ℤ, pos, negsuc, String, Bool, true, false, ◌||◌, Option, none, some, List, [],
  ◌∷◌, ◌++◌, map, ltb, leb, eqb, if◌then◌else◌, length, take, any, length,
}
use ai4se_coding_agent_harne.Domain.{Evidence, StructuredFeedback}
use ai4se_coding_agent_harne.Text.{
  Text, codes, Unicode, text_eq, split, join, replace_char, replace_all, trim_space, byte_len,
}
use ai4se_coding_agent_harne.Store.Bytes.{text_bytes}
use ai4se_coding_agent_harne.Feedback.Compress.{compress_evidence, summarize, meaningful_lines}
use ai4se_coding_agent_harne.Feedback.Classify.{Input, Compile, Diagnose, classify, retryable}

-- What package regexp, encoding/json and crypto/sha256 do for this component.
pub record Patterns : Type 0 where
  pub unicode : Unicode
  pub compile : Compile
  pub diagnose : Diagnose
  pub strip_ansi : Text → Text
  pub mask_line_numbers : Text → Text
  pub mask_durations : Text → Text
  pub mask_hex : Text → Text
  pub mask_uuids : Text → Text
  pub mask_temp_roots : Text → Text
  pub collapse_spaces : Text → Text
  -- `secretPatterns`, each with its replacement.
  pub mask_secrets : List (Text → Text)
  -- `json.Marshal(secret)` without its quotes; `none` where that fails.
  pub json_escape : Text → Option Text
  pub sha256_hex : List ℕ → String

-- The runtime-known secrets.
pub record Redactor : Type 0 where
  pub secrets : List Text

-- Longer secrets first.
unfoldable pub insert_secret : Text → List Text → List Text
insert_secret s [] = s ∷ []
insert_secret s (t ∷ ts) =
    if ltb (byte_len s) (byte_len t) then t ∷ insert_secret s ts else s ∷ (t ∷ ts)

unfoldable pub sort_secrets : List Text → List Text
unfolding insert_secret
sort_secrets [] = []
sort_secrets (s ∷ ss) = insert_secret s (sort_secrets ss)

abbrev is_empty : Text → Bool
is_empty [] = true
is_empty (_ ∷ _) = false

-- `add` of `Register`: a secret that is empty or known is not added again.
unfoldable pub add_secret : Text → List Text → List Text
add_secret secret known =
    if is_empty secret || any (λ t. text_eq t secret) known then known else known ++ secret ∷ []

abbrev add_escaped : Option Text → List Text → List Text
add_escaped none known = known
add_escaped (some escaped) known = add_secret escaped known

module _ (p : Patterns) where
  unfoldable pub register : Redactor → Text → Redactor
  unfolding add_secret sort_secrets
  register r [] = r
  register r (c ∷ s) = record {
    secrets = sort_secrets (add_escaped (p.json_escape (c ∷ s)) (add_secret (c ∷ s) r.secrets));
  }

  abbrev register_all : Redactor → List String → Redactor
  register_all r [] = r
  register_all r (s ∷ ss) = register_all (register r (codes s)) ss

  unfoldable pub new_redactor : List String → Redactor
  unfolding register
  new_redactor secrets = register_all (record { secrets = [] }) secrets

  abbrev apply_all : List (Text → Text) → Text → Text
  apply_all [] text = text
  apply_all (f ∷ fs) text = apply_all fs (f text)

  unfoldable pub redact : Redactor → Text → Text
  unfolding replace_all
  redact r text =
      apply_all p.mask_secrets
        (apply_all (map (λ s t. replace_all s (codes "[REDACTED]") t) r.secrets) text)

  unfoldable pub normalize_human_text : Text → Text
  unfolding replace_all replace_char
  normalize_human_text text =
      replace_char 13 10 (replace_all (13 ∷ (10 ∷ [])) (10 ∷ []) (p.strip_ansi text))

  unfoldable pub normalize_fingerprint_text : Text → Text
  unfolding normalize_human_text split join trim_space
  normalize_fingerprint_text text =
      let slashed = replace_char 0x5c b'/' (normalize_human_text text) in
      let masked =
        p.mask_temp_roots
          (p.mask_uuids (p.mask_hex (p.mask_durations (p.mask_line_numbers slashed)))) in
      join 10 (map (λ line. trim_space p.unicode (p.collapse_spaces line)) (split 10 masked))

  unfoldable pub fingerprint : String → String → Text → String
  unfolding normalize_fingerprint_text
  fingerprint stage_id category text = p.sha256_hex (
      text_bytes
        (join 0 (codes stage_id ∷ (codes category ∷ (normalize_fingerprint_text text ∷ [])))))

  -- `strings.Trim(s, "\n")`.
  abbrev pub drop_newlines : Text → Text
  drop_newlines [] = []
  drop_newlines (c ∷ s) = let rest = drop_newlines s in if eqb c 10 then rest else c ∷ s

  abbrev pub keep_unless_newline : ℕ → Text → Text
  keep_unless_newline c [] = if eqb c 10 then [] else c ∷ []
  keep_unless_newline c (d ∷ s) = c ∷ (d ∷ s)

  abbrev pub drop_newlines_right : Text → Text
  drop_newlines_right [] = []
  drop_newlines_right (c ∷ s) = keep_unless_newline c (drop_newlines_right s)

  unfoldable pub observation_text : Input → Text
  unfolding join
  observation_text input =
      let o = input.observation in
      drop_newlines_right
        (drop_newlines (join 10 (codes o.stdout ∷ (codes o.stderr ∷ (codes o.raw_data ∷ [])))))

-- `if p.MaxEvidence > 0 { return p.MaxEvidence }; return 6`, and so for the summary.
abbrev positive_or : ℤ → ℕ → ℕ
positive_or (pos zero) default = default
positive_or (pos (suc n)) default = suc n
positive_or (negsuc n) default = default

pub record Pipeline : Type 0 where
  pub max_evidence : ℤ
  pub max_summary_bytes : ℤ

unfoldable pub evidence_limit : Pipeline → ℕ
evidence_limit l = positive_or l.max_evidence 6

unfoldable pub summary_limit : Pipeline → ℕ
summary_limit l = positive_or l.max_summary_bytes 240

abbrev is_nonempty : List Text → Bool
is_nonempty [] = false
is_nonempty (_ ∷ _) = true

-- The diagnostics first, then as many lines as there is room for.
unfoldable pub gather_evidence : Unicode → List Evidence → Text → ℕ → List Evidence × Bool
unfolding meaningful_lines compress_evidence
gather_evidence u diagnostics text most =
    let room = most - length diagnostics in
    let (lines, truncated) = compress_evidence u text room in
    if leb most (length diagnostics)
    then (
      take most diagnostics,
      ltb most (length diagnostics) || is_nonempty (meaningful_lines u text),
    )
    else (diagnostics ++ lines, truncated)

unfoldable pub process : Patterns → Pipeline → Input → StructuredFeedback
process p limits input =
    let redacted = redact p (new_redactor p input.secrets) (observation_text p input) in
    let human = normalize_human_text p redacted in
    let (category, diagnostics) = classify p.unicode p.compile p.diagnose input human in
    let (evidence, evidence_truncated) =
      gather_evidence p.unicode diagnostics human (evidence_limit limits) in
    let (summary, summary_truncated) = summarize p.unicode category human (summary_limit limits) in
    record {
      category = category;
      stage_id = input.stage_id;
      summary = summary;
      fingerprint = fingerprint p input.stage_id category redacted;
      evidence = evidence;
      retryable = retryable category;
      output_truncated =
          input.observation.output_truncated || (evidence_truncated || summary_truncated);
      previous_occurrences = input.prior_occurrences;
    }

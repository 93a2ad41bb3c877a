-- ===== src/Feedback/Laws.antt =====
-- What the feedback of internal/feedback guarantees, whatever was printed.
use Prim.Native.Nat.{◌/◌, min}
use ai4se_coding_agent_harne.Prelude.{
  ℕ, zero, suc, ◌-◌, ◌≤◌, ◌≡◌, refl, ap, ◌∙◌, inl, inr, String, eq_iff, Bool, false, ◌||◌, Option,
  some, Option-cases, Bool-cases, List, [], ◌∷◌, ◌++◌, map, ltb, if◌then◌else◌, length, take, drop,
  length-append, length-take, length-drop, arith, lookup, insert, lookup-insert,
}
use mathlib.Core.List.{append-nil}
use ai4se_coding_agent_harne.Domain.{Evidence}
use ai4se_coding_agent_harne.Text.{Text, codes, Unicode, byte_len, take_bytes, rune_len}
use ai4se_coding_agent_harne.Feedback.Compress.{
  keep_lines, compress_evidence, meaningful_lines, summarize, observed, summary_text,
}
use ai4se_coding_agent_harne.Feedback.Classify.{
  Input, Compile, RegexpCache, load_or_store, classify,
}
use ai4se_coding_agent_harne.Feedback.Printed.{
  Newlines, all_printed, lines_of, meaningful_lines_lem, observation_text_lem,
}
use ai4se_coding_agent_harne.Feedback.Process.{
  Patterns, Pipeline, process, gather_evidence, evidence_limit, summary_limit, normalize_human_text,
  redact, new_redactor, observation_text,
}

length-keep_lines :
    (lines : List Text) (most : ℕ) → length (keep_lines lines most).0 ≡ min most (length lines)
unfolding keep_lines
length-keep_lines lines most = ground (
  arith,
  length-append (take (most / 2) lines) (drop (length lines - (most - most / 2)) lines),
  length-take (most / 2) lines,
  length-drop (length lines - (most - most / 2)) lines,
)

length-map : (xs : List Text) → length (map observed xs) ≡ length xs
length-map [] = refl
length-map (x ∷ xs) = ap suc (length-map xs)

length-compress_evidence :
    (u : Unicode) (text : Text) (most : ℕ) → length (compress_evidence u text most).0 ≤ most
unfolding compress_evidence
length-compress_evidence u text most = omega (
  arith,
  length-map (keep_lines (meaningful_lines u text) most).0,
  length-keep_lines (meaningful_lines u text) most,
)

length-gather_evidence :
    (u : Unicode) (ds : List Evidence) (text : Text) (most : ℕ)
    → length (gather_evidence u ds text most).0 ≤ most
unfolding gather_evidence
length-gather_evidence u ds text most = ground (
  arith,
  length-take most ds,
  length-append ds (compress_evidence u text (most - length ds)).0,
  length-compress_evidence u text (most - length ds),
)

take_bytes_bound : (n : ℕ) (s : Text) → byte_len (take_bytes n s) ≤ n
unfolding take_bytes byte_len
take_bytes_bound n [] = omega arith
take_bytes_bound n (c ∷ s) = ground (arith, take_bytes_bound (n - rune_len c) s)

take_bytes_all : (n : ℕ) (s : Text) → byte_len s ≤ n → take_bytes n s ≡ s
unfolding take_bytes byte_len
take_bytes_all n [] h = refl
take_bytes_all n (c ∷ s) h = ground (arith, take_bytes_all (n - rune_len c) s)

summarize_bound :
    (u : Unicode) (category : String) (text : Text) (n : ℕ)
    → (byte_len (summarize u category text n).0 ≤ n)
      × ((summarize u category text n).1 ≡ false
          → (summarize u category text n).0 ≡ summary_text category (meaningful_lines u text))
unfolding summarize byte_len
summarize_bound u category text zero = (omega arith, λ h. cc)
summarize_bound u category text (suc n) =
    let summary = summary_text category (meaningful_lines u text) in
    (take_bytes_bound (suc n) summary, λ h. take_bytes_all (suc n) summary (ground (arith, h)))

take_all {ℓ} : {A : Type ℓ} (n : ℕ) (xs : List A) → length xs ≤ n → take n xs ≡ xs
take_all zero [] h = refl
take_all zero (x ∷ xs) h = absurd (omega arith)
take_all (suc n) [] h = refl
take_all (suc n) (x ∷ xs) h = ap (◌∷◌ x) (take_all n xs (omega arith))

keep_lines_all :
    (lines : List Text) (most : ℕ)
    → (keep_lines lines most).1 ≡ false
    → (keep_lines lines most).0 ≡ lines
unfolding keep_lines
keep_lines_all lines most h = ground arith

compress_evidence_all :
    (u : Unicode) (text : Text) (most : ℕ)
    → (compress_evidence u text most).1 ≡ false
    → (compress_evidence u text most).0 ≡ map observed (meaningful_lines u text)
unfolding compress_evidence
compress_evidence_all u text most h =
    ap (map observed) (keep_lines_all (meaningful_lines u text) most h)

gather_evidence_all :
    (u : Unicode) (ds : List Evidence) (text : Text) (most : ℕ)
    → (gather_evidence u ds text most).1 ≡ false
    → (gather_evidence u ds text most).0 ≡ ds ++ map observed (meaningful_lines u text)
unfolding gather_evidence
gather_evidence_all u ds text most h =
    ground
      (arith, h, take_all most ds, append-nil ds, compress_evidence_all u text (most - length ds))

or_false : (a b c : Bool) → (a || (b || c)) ≡ false → (a ≡ false) × (b ≡ false) × (c ≡ false)
or_false a b c h = ground arith

-- What a summary says: the category, and the first line where there is one.
abbrev pub headline : String → List Text → Text
headline category [] = codes category
headline category (line ∷ lines) = codes category ++ (codes ": " ++ line)

summary_text_lem :
    (category : String) (lines : List Text) → summary_text category lines ≡ headline category lines
unfolding summary_text
summary_text_lem category [] = refl
summary_text_lem category (line ∷ lines) = refl

module _ (p : Patterns) (limits : Pipeline) (input : Input) where
  -- The feedback is bounded: never more evidence than the limit, and never a summary of more bytes.
  pub process_bounded :
      (length (process p limits input).evidence ≤ evidence_limit limits)
      × (byte_len (process p limits input).summary ≤ summary_limit limits)
  unfolding process
  process_bounded = (
    length-gather_evidence p.unicode _ _ (evidence_limit limits),
    (summarize_bound p.unicode _ _ (summary_limit limits)).0,
  )

  -- The text that the feedback reports on: redacted, then freed of escapes and carriage returns.
  abbrev pub human_text : Text → Text
  human_text text = normalize_human_text p (redact p (new_redactor p input.secrets) text)

  -- Feedback that is not marked as truncated loses nothing that was printed: there is a text such that
  -- the output, the error output and the raw data, each on lines of its own, are that text between
  -- newlines, and the evidence is the diagnostics found in that text, once redacted and normalized,
  -- followed by each of its lines, trimmed, in order, less the blank ones. The summary is the
  -- category, with the first of these lines where there is one.
  pub process_complete :
      (process p limits input).output_truncated ≡ false
      → (before : Text) × (text : Text) × (after : Text) × Newlines before
        × Newlines after
        × (all_printed p input ≡ before ++ (text ++ after))
        × ((process p limits input).evidence
            ≡ (classify p.unicode p.compile p.diagnose input (human_text text)).1
              ++ map observed (lines_of p.unicode (human_text text)))
        × ((process p limits input).summary
            ≡ headline (process p limits input).category (lines_of p.unicode (human_text text)))
  unfolding process
  process_complete h =
      let (before, after, b, a, shape) = observation_text_lem p input in
      let text = observation_text p input in
      let human = human_text text in
      let (_, e, s) = or_false input.observation.output_truncated _ _ h in
      (
        before,
        text,
        after,
        b,
        a,
        shape,
        gather_evidence_all p.unicode _ human (evidence_limit limits) e
            ∙ ap (λ ls. (classify p.unicode p.compile p.diagnose input human).1 ++ map observed ls)
                (meaningful_lines_lem p.unicode human),
        (summarize_bound p.unicode _ human (summary_limit limits)).1 s
            ∙ ap (summary_text _) (meaningful_lines_lem p.unicode human)
            ∙ summary_text_lem _ (lines_of p.unicode human),
      )

-- The cache never changes what a pattern means, and never outgrows its limit.
pub record IsConsistent (compile : Compile) (c : RegexpCache) : Type 0 where
  pub faithful :
      (k : String) (v : Option (Text → Bool)) → lookup k c.entries ≡ some v → v ≡ compile k
  pub bounded : length c.entries ≤ c.limit

length-insert :
    (k : String) (v : Option (Text → Bool)) (m : List (String × Option (Text → Bool)))
    → length (insert k v m) ≤ suc (length m)
unfolding insert
length-insert k v [] = omega arith
length-insert k v ((j, w) ∷ m) = ground (arith, length-insert k v m)

stored_IsConsistent :
    (compile : Compile) (c : RegexpCache) (pattern : String)
    → IsConsistent compile c
    → IsConsistent compile (
        if ltb (length c.entries) c.limit
        then record c { entries = insert pattern (compile pattern) c.entries }
        else c)
stored_IsConsistent compile c pattern k = elim (Bool-cases (ltb (length c.entries) c.limit)) [
  | inl e ↦ rw e (record {
    faithful = λ j v h. ground (
      arith,
      lookup-insert pattern j (compile pattern) c.entries,
      eq_iff pattern j,
      k.faithful j v,
    );
    bounded = ground (arith, e, length-insert pattern (compile pattern) c.entries);
  })
  | inr e ↦ rw e k
]

-- A lookup through the cache gives what compiling the pattern gives, and keeps the cache consistent.
pub load_or_store_lem :
    (compile : Compile) (c : RegexpCache) (pattern : String)
    → IsConsistent compile c
    → ((load_or_store compile c pattern).1 ≡ compile pattern)
      × IsConsistent compile (load_or_store compile c pattern).0
unfolding load_or_store
load_or_store_lem compile c pattern k = elim (Option-cases (lookup pattern c.entries)) [
  | inl e ↦ rw e (refl, stored_IsConsistent compile c pattern k)
  | inr (v, e) ↦ rw e (k.faithful pattern v e, k)
]

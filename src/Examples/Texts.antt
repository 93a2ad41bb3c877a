-- ===== src/Examples/Texts.antt =====
-- The laws of the feedback at concrete inputs.
use ai4se_coding_agent_harne.Prelude.{◌≤◌, ◌≡◌, refl, [], ◌++◌, length, map, pos, lookup, arith}
use ai4se_coding_agent_harne.Text.{Text, byte_len}
use ai4se_coding_agent_harne.Agent.Steps.{printed}
use ai4se_coding_agent_harne.Feedback.Classify.{Input, new_cache, load_or_store, classify}
use ai4se_coding_agent_harne.Feedback.Compress.{meaningful_lines, observed, summary_text}
use ai4se_coding_agent_harne.Feedback.Process.{process, evidence_limit, summary_limit}
use ai4se_coding_agent_harne.Feedback.Printed.{Newlines, all_printed, lines_of}
use ai4se_coding_agent_harne.Feedback.Laws.{
  process_bounded, process_complete, load_or_store_lem, IsConsistent, human_text, headline,
}
use ai4se_coding_agent_harne.Feedback.Process.{
  gather_evidence, normalize_human_text, redact, new_redactor, observation_text, add_secret,
  fingerprint, insert_secret, normalize_fingerprint_text, register, sort_secrets,
}
use ai4se_coding_agent_harne.Feedback.Classify.{
  compile_rules, category_of_code, category_of_rules, category_of_text, classify_category,
  contains_one, is_one, missing_executable, retryable,
}
use ai4se_coding_agent_harne.Feedback.Compress.{
  summarize, compress_evidence, keep_lines, trim_lines,
}
use ai4se_coding_agent_harne.Text.{
  split, trim_space, text_eq, to_upper, contains, has_prefix, is_space, join, lower_char,
  replace_all, replace_char, replace_from, rune_len, take_bytes, to_lower, trim_left, trim_right,
  upper_char,
}
use ai4se_coding_agent_harne.Store.Bytes.{rune_bytes, text_bytes}
use ai4se_coding_agent_harne.Examples.Fixtures.{patterns, pipeline, ascii}

abbrev input : Input
input = record {
  stage_id = "s";
  code = "POLICY_DENIED";
  observation = printed "no";
  rules = [];
  prior_occurrences = pos 0;
  secrets = [];
}

process_bounded_example :
    (length (process patterns pipeline input).evidence ≤ evidence_limit pipeline)
    × (byte_len (process patterns pipeline input).summary ≤ summary_limit pipeline)
process_bounded_example = process_bounded patterns pipeline input

process_complete_example :
    (before : Text) × (text : Text) × (after : Text) × Newlines before
    × Newlines after
    × (all_printed patterns input ≡ before ++ (text ++ after))
    × ((process patterns pipeline input).evidence
        ≡ (classify ascii patterns.compile patterns.diagnose input
            (human_text patterns pipeline input text)).1
          ++ map observed (lines_of ascii (human_text patterns pipeline input text)))
    × ((process patterns pipeline input).summary
        ≡ headline
            (process patterns pipeline input).category
            (lines_of ascii (human_text patterns pipeline input text)))
unfolding process evidence_limit classify summary_limit byte_len meaningful_lines summary_text
    gather_evidence normalize_human_text redact new_redactor observation_text add_secret fingerprint
    insert_secret normalize_fingerprint_text register sort_secrets compile_rules category_of_code
    category_of_rules category_of_text classify_category contains_one is_one missing_executable
    retryable summarize compress_evidence keep_lines trim_lines split trim_space text_eq to_upper
    contains has_prefix is_space join lower_char replace_all replace_char replace_from rune_len
    take_bytes to_lower trim_left trim_right upper_char rune_bytes text_bytes
process_complete_example = process_complete patterns pipeline input refl

empty_cache_IsConsistent : IsConsistent patterns.compile (new_cache 4)
unfolding new_cache lookup
empty_cache_IsConsistent = record { faithful = λ k v e. cc; bounded = omega arith }

load_or_store_lem_example :
    ((load_or_store patterns.compile (new_cache 4) "x+").1 ≡ patterns.compile "x+")
    × IsConsistent patterns.compile (load_or_store patterns.compile (new_cache 4) "x+").0
load_or_store_lem_example =
    load_or_store_lem patterns.compile (new_cache 4) "x+" empty_cache_IsConsistent

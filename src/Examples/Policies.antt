-- ===== src/Examples/Policies.antt =====
-- The laws of the policy at concrete actions.
use ai4se_coding_agent_harne.Prelude.{
  ◌+◌, ◌≤◌, ◌≡◌, refl, ◌≢◌, ◌↔◌, ◌⊎◌, String, true, false, ◌&&◌, ◌||◌, [], ◌∷◌,
}
use ai4se_coding_agent_harne.Domain.{supervised, workspace_auto, review, other}
use ai4se_coding_agent_harne.Text.{Text, codes, to_lower}
use ai4se_coding_agent_harne.Text.PathClean.{path_clean, components, has_up, is_rooted}
use ai4se_coding_agent_harne.Policy.Risk.{
  hard_denied, normal, guarded, is_mutation, inspect_path, inspect_args, no_facts, is_git_internal,
  is_credential,
}
use ai4se_coding_agent_harne.Policy.Risk.Paths.{
  inspect_path_inside, slashed, NamesDrive, NamesGit, Holds, EndsIn,
}
use ai4se_coding_agent_harne.Policy.Risk.Arguments.{inspect_args_denied, unsafe_value}
use ai4se_coding_agent_harne.Policy.Engine.{evaluate, deny, is_guarded}
use ai4se_coding_agent_harne.Policy.Approval.{digest, new_approval_store}
use ai4se_coding_agent_harne.Policy.Approval.Grants.{
  consumed_le_granted, grants, consumes, times_consumed, times_granted, digit, is_granted,
}
use ai4se_coding_agent_harne.Policy.Verdicts.{
  evaluate_allow, evaluate-deny, evaluate_require, risk_of, acts,
}
use ai4se_coding_agent_harne.Policy.Risk.{
  truthy_hard_deny, truthy_guard, is_path_key, is_absolute, climbs_out, inspect_value, is_canonical,
  is_hard_deny_key, is_protected, truthy,
}
use ai4se_coding_agent_harne.Policy.Schemas.{
  classify_risk, add_file, decode_fields, decode_string, field_count, field_of,
  validate_canonical_action, validate_create_file,
}
use ai4se_coding_agent_harne.Text.{
  text_eq, replace_char, has_drive, join, split, contains, byte_len, has_prefix, has_suffix,
  lower_char, rune_len,
}
use ai4se_coding_agent_harne.Text.PathClean.{clean_components}
use ai4se_coding_agent_harne.Examples.Fixtures.{plain, context_for, create_note, note_args}

evaluate_allow_example :
    (risk_of plain (context_for workspace_auto) create_note ≢ hard_denied)
    × (acts create_note ≡ true
        → (workspace_auto ≡ workspace_auto)
          × (risk_of plain (context_for workspace_auto) create_note ≡ normal)
          × ((is_mutation "create_file" && false) ≡ false))
unfolding evaluate truthy_hard_deny truthy_guard is_path_key inspect_path is_absolute climbs_out
    is_git_internal is_credential inspect_args inspect_value is_canonical is_hard_deny_key
    is_mutation is_protected truthy classify_risk add_file decode_fields decode_string field_count
    field_of validate_canonical_action validate_create_file text_eq to_lower replace_char has_drive
    join split contains byte_len has_prefix has_suffix lower_char rune_len path_clean
    clean_components components
evaluate_allow_example = evaluate_allow plain (context_for workspace_auto) create_note (refl)

evaluate-deny_example : ((evaluate plain (context_for review) create_note).verdict ≡ deny) ↔ (
    (risk_of plain (context_for review) create_note ≡ hard_denied)
    ⊎ ((name : String) × (review ≡ other name))
    ⊎ ((review ≡ review) × (acts create_note ≡ true))
    ⊎ ((review ≡ workspace_auto) × ((false && is_mutation "create_file") ≡ true)))
evaluate-deny_example = evaluate-deny plain (context_for review) create_note

evaluate_require_example :
    ((evaluate plain (context_for supervised) create_note).digest
      ≡ digest plain "r1" supervised create_note [])
    × (risk_of plain (context_for supervised) create_note ≢ hard_denied)
    × (((supervised ≡ supervised)
          × ((acts create_note || is_guarded (risk_of plain (context_for supervised) create_note))
              ≡ true))
        ⊎ ((supervised ≡ workspace_auto)
            × (risk_of plain (context_for supervised) create_note ≡ guarded)))
unfolding evaluate truthy_hard_deny truthy_guard is_path_key inspect_path is_absolute climbs_out
    is_git_internal is_credential inspect_args inspect_value is_canonical is_hard_deny_key
    is_mutation is_protected truthy classify_risk add_file decode_fields decode_string field_count
    field_of validate_canonical_action validate_create_file text_eq to_lower replace_char has_drive
    join split contains byte_len has_prefix has_suffix lower_char rune_len path_clean
    clean_components components
evaluate_require_example = evaluate_require plain (context_for supervised) create_note (refl)

-- The cleaned form of `src/notes.txt`, in lower case.
abbrev notes_clean : Text
notes_clean = to_lower plain.unicode (path_clean (slashed (codes "src/notes.txt")))

inspect_path_inside_example :
    (is_rooted (slashed (codes "src/notes.txt")) ≡ false)
    × ¬ NamesDrive (slashed (codes "src/notes.txt"))
    × (has_up (components (slashed (codes "src/notes.txt"))) ≡ false)
    × ¬ NamesGit notes_clean
    × ¬ Holds (codes "credential") notes_clean
    × ¬ Holds (codes "secret") notes_clean
    × ¬ Holds (codes "vault") notes_clean
    × ¬ EndsIn (codes ".env") notes_clean
unfolding inspect_path is_absolute has_prefix replace_char has_drive climbs_out text_eq path_clean
    join split is_git_internal to_lower is_credential contains has_suffix is_protected
inspect_path_inside_example = inspect_path_inside plain (codes "src/notes.txt") no_facts (refl)

inspect_args_denied_example :
    (inspect_args plain note_args).hard_denied ≡ unsafe_value plain note_args []
inspect_args_denied_example = inspect_args_denied plain note_args

consumed_le_granted_example :
    times_consumed "d" new_approval_store (grants "d" ∷ (consumes "d" ∷ (consumes "d" ∷ [])))
    ≤ times_granted "d" (grants "d" ∷ (consumes "d" ∷ (consumes "d" ∷ [])))
      + digit (is_granted new_approval_store "d")
consumed_le_granted_example =
    consumed_le_granted "d" new_approval_store (grants "d" ∷ (consumes "d" ∷ (consumes "d" ∷ [])))

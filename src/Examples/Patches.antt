-- ===== src/Examples/Patches.antt =====
-- The law of patch headers at a small patch.
use ai4se_coding_agent_harne.Prelude.{pos, ◌≢◌, refl, ◌≤◌, [], ◌∷◌, length}
use ai4se_coding_agent_harne.Text.{
  Text, codes, text_eq, has_prefix, drop_prefix, trim_prefix, contains, split, is_space,
}
use ai4se_coding_agent_harne.Tools.PatchHeaders.{
  PatchLimits, PatchHeaders, bounded_patch_limits, parse_patch_headers, scan_lines, scan_line,
  consume_hunk_line, parse_hunk_header, hunk_count, atoi, digits, fields, pieces, patch_path,
}
use ai4se_coding_agent_harne.Tools.PatchHeaders.Limits.{IsWithin, parse_patch_headers-IsWithin}
use ai4se_coding_agent_harne.Examples.Fixtures.{ascii}

abbrev one_line : Text
one_line = codes "--- a/f\n+++ b/f\n@@ -1 +1,1 @@\n-x\n+y\n"

abbrev any_limits : PatchLimits
any_limits = record { max_files = pos 0; max_changed_lines = pos 9 }

abbrev read_off : PatchHeaders
read_off = record { paths = (b'f' ∷ []) ∷ []; changed_lines = 2 }

parse_patch_headers-IsWithin_example :
    (read_off.paths ≢ [])
    × IsWithin (bounded_patch_limits any_limits) read_off.paths read_off.changed_lines
    × (length read_off.paths ≤ 5)
    × (read_off.changed_lines ≤ 500)
unfolding parse_patch_headers scan_lines scan_line consume_hunk_line parse_hunk_header hunk_count
    atoi digits fields pieces patch_path bounded_patch_limits text_eq has_prefix drop_prefix
    trim_prefix contains split is_space
parse_patch_headers-IsWithin_example =
    parse_patch_headers-IsWithin ascii one_line any_limits read_off refl

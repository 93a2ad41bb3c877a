-- ===== src/Examples/Fixtures.antt =====
-- Small concrete instances of what stands outside the program, and the values that the examples use.
use ai4se_coding_agent_harne.Prelude.{ℕ, suc, Bool, true, false, none, some, [], ◌∷◌, pos, ok}
use ai4se_coding_agent_harne.Domain.{
  Time, Run, RunState, awaiting_approval, PermissionProfile, supervised, Action,
}
use ai4se_coding_agent_harne.Json.{Json, str, obj, end, entry}
use ai4se_coding_agent_harne.Text.{Text, Unicode}
use ai4se_coding_agent_harne.Platform.{Platform}
use ai4se_coding_agent_harne.Budget.{Limits, new}
use ai4se_coding_agent_harne.Store.{MemoryStore}
use ai4se_coding_agent_harne.Policy.Risk.{Context}
use ai4se_coding_agent_harne.Feedback.Process.{Patterns, Pipeline}
use ai4se_coding_agent_harne.Agent.Session.{Env, Session, ValidationResult, PendingApproval}
use ai4se_coding_agent_harne.Agent.Steps.{printed}

abbrev pub ascii : Unicode
ascii = record { lower_rune = λ c. c; upper_rune = λ c. c; is_space_rune = λ c. false }

-- The arguments of a `create_file`, whatever the bytes are.
abbrev pub note_args : Json
note_args = obj (entry "path" (str "a") (entry "content" (str "b") end))

abbrev pub plain : Platform
plain = record {
  unicode = ascii;
  unmarshal = λ bytes. some note_args;
  marshal = λ value. some "{}";
  marshal_request = λ request. 123 ∷ [];
  sha256_hex = λ bytes. "00";
}

abbrev pub create_note : Action
create_note = record { kind = "create_file"; args = "{}" }

abbrev pub context_for : PermissionProfile → Context
context_for profile = record {
  run_id = "r1";
  profile = profile;
  repo_root = "";
  dirty = false;
  baselines = [];
  configured_checks = [];
}

abbrev pub noon : Time
noon = record { nanos = 5; location = "UTC" }

abbrev pub run_in : RunState → PermissionProfile → Run
run_in state profile = record {
  id = "r1";
  state = state;
  profile = profile;
  task = "fix";
  repo_root = "";
  current_stage = "";
  created_at = noon;
  updated_at = noon;
}

abbrev pub no_change : Text → Text
no_change t = t

abbrev pub patterns : Patterns
patterns = record {
  unicode = ascii;
  compile = λ pattern. some (λ t. false);
  diagnose = λ index. [];
  strip_ansi = no_change;
  mask_line_numbers = no_change;
  mask_durations = no_change;
  mask_hex = no_change;
  mask_uuids = no_change;
  mask_temp_roots = no_change;
  collapse_spaces = no_change;
  mask_secrets = [];
  json_escape = λ t. none;
  sha256_hex = λ bytes. "00";
}

abbrev pub pipeline : Pipeline
pipeline = record { max_evidence = pos 2; max_summary_bytes = pos 40 }

abbrev pub judged : Bool → ValidationResult
judged passed = record { stage_id = "unit"; passed = passed; observation = printed "output" }

-- A provider that always proposes the note, an executor that always succeeds, and a baseline that
-- fails. The world counts the calls of the provider.
abbrev pub env : Env ℕ
env = record {
  platform = plain;
  patterns = patterns;
  pipeline = pipeline;
  valid_json = λ bytes. true;
  marshal = λ payload. some "{}";
  context_err = λ w. (none, w);
  store_now = λ w. (noon, w);
  budget_now = λ w. (noon, w);
  decide = λ request w.
      (ok (record { version = "1"; action = create_note; expected_outcome = "" }), suc w);
  execute = λ action w. (ok (record { diff_digest = "d"; observation = printed "done" }), w);
  baseline = λ run w. (judged false, w);
  current = λ run w. (judged true, w);
  final = λ run w. (judged true, w);
}

abbrev pub limits : Limits
limits = record {
  max_decisions = pos 2;
  max_mutations = pos 2;
  max_protocol_repairs = pos 1;
  wall_clock = pos 100;
}

abbrev pub store_of : Run → MemoryStore
store_of run = record { runs = (run.id, run) ∷ []; events = []; artifacts = [] }

abbrev pub session : {W : Type 0} → W → Run → Session W
session world run = record {
  store = store_of run;
  budget = new limits noon;
  progress = none;
  approvals = none;
  pending = [];
  baselines = [];
  world = world;
}

abbrev pub pending_note : PendingApproval
pending_note = record {
  run = run_in awaiting_approval supervised;
  action = create_note;
  digest = "00";
}

-- A session in which the operator has granted the pending note.
abbrev pub granted_session : {W : Type 0} → W → Session W
granted_session world = record (session world (run_in awaiting_approval supervised)) {
  approvals = some (record { grants = ("00", tt) ∷ [] });
  pending = ("r1", pending_note) ∷ [];
}

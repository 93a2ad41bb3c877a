-- ===== src/Examples/Services.antt =====
-- The laws of the application service at one recorded run.
use ai4se_coding_agent_harne.Prelude.{
  String, Bool, ◌==◌, if◌then◌else◌, eq_iff, subst, ◌≡◌, refl, true, false, none, some, [], ◌∷◌, ok,
  lookup, insert,
}
use ai4se_coding_agent_harne.Domain.{
  stopped, Run, RunState, deciding, awaiting_approval, supervised, transition, allowed_transitions,
  RunState-discrete,
}
use ai4se_coding_agent_harne.Store.{
  MemoryStore, get_run, validate_run_id, check_context, update_run_if_state, validate_event,
  checked, if_in_state, append_locked, new_event, last_hash, normalize_run, normalize_time,
}
use ai4se_coding_agent_harne.Store.Bytes.{hash_event}
use ai4se_coding_agent_harne.Config.{default_config}
use ai4se_coding_agent_harne.App.{CreateRunRequest, PreflightReport, PreflightApproval, Env, App}
use ai4se_coding_agent_harne.App.Creation.{transition_state, start_run}
use ai4se_coding_agent_harne.App.Lifecycle.{active_run, stop_if_active}
use ai4se_coding_agent_harne.App.Service.{approve, approve_pending, is_stale, cancel_run}
use ai4se_coding_agent_harne.App.Stopping.{IsStopped, stop_if_active_ends}
use ai4se_coding_agent_harne.App.Cancelling.{Answers, cancelled_world, cancel_run_outcome}
use ai4se_coding_agent_harne.App.Approving.{IsFresh, GoesOn, approve-IsFresh}
use ai4se_coding_agent_harne.Domain.Transitions.{is_terminal}
use ai4se_coding_agent_harne.Store.Listing.{
  list_runs, page_of, candidates, sort_runs, insert_run, before, text_lt,
}
use ai4se_coding_agent_harne.App.Recovery.{
  start_service, new_service, recover_runs, recover_each, stop_left,
}
use ai4se_coding_agent_harne.App.Recovery.Ahead.{IsKeyed}
use ai4se_coding_agent_harne.App.Recovery.Complete.{start_service-AllTerminal}
use ai4se_coding_agent_harne.Examples.Fixtures.{noon, run_in}

abbrev clean : PreflightReport
clean = record {
  passes = true;
  findings = [];
  repo_root = "";
  baseline_commit = "c";
  baseline_diff_hash = "d";
}

abbrev fix : CreateRunRequest
fix = record {
  repo_root = "";
  task = "fix";
  provider = "p";
  model = "m";
  endpoint = "e";
  confirm_custom_endpoint = false;
  profile = supervised;
  config_path = "";
}

-- Loops that do nothing, and a repository that does not change.
abbrev still : Env Unit
still = record {
  sha256_hex = λ bytes. "00";
  now = λ w. (noon, w);
  store_now = λ w. (noon, w);
  new_id = λ w. ("r2", w);
  preflight = λ request w. (record { report = clean; config = default_config }, w);
  preflight_digest = λ run report. "h";
  created_payload = λ request report. some "{}";
  approval_payload = λ digest report. some "{}";
  reason_payload = λ reason. some reason;
  acquire = λ root run_id w. (none, w);
  release_run = λ run_id w. w;
  cancel_context = λ run_id w. w;
  start = λ setup s w. (none, (s, w));
  approve = λ run_id digest s w. (none, (s, w));
  reject = λ run_id digest terminate s w. (none, (s, w));
  cancel = λ run_id s w. (none, (s, w));
}

abbrev holding : RunState → App Unit
holding state = record {
  store = record { runs = ("r1", run_in state supervised) ∷ []; events = []; artifacts = [] };
  world = tt;
  cancels = [];
  inputs = [];
  pending = [];
  stopping = [];
  spawned = [];
}

abbrev waiting : PreflightApproval
waiting = record {
  digest = "h";
  input = record { request = fix; report = clean; config = default_config };
}

stop_if_active_ends_example :
    ((stop_if_active still ((λ s. s) ∷ []) none "r1" "USER_CANCELLED" (holding deciding)).0 ≡ none)
    × IsStopped "r1"
        (stop_if_active still ((λ s. s) ∷ []) none "r1" "USER_CANCELLED" (holding deciding)).1.store
unfolding lookup
stop_if_active_ends_example =
    stop_if_active_ends still "r1" "USER_CANCELLED" refl ((λ s. s) ∷ []) "USER_CANCELLED"
      (holding deciding) refl ((λ s kept. kept), tt) (run_in deciding supervised, refl, refl)

cancel_run_outcome_example :
    Answers still "r1"
      (holding deciding)
      (still.cancel "r1"
        (holding deciding).store
        (cancelled_world still "r1" (holding deciding).cancels (holding deciding).world))
      (cancel_run still [] none "r1" (holding deciding))
unfolding lookup active_run get_run validate_run_id check_context
cancel_run_outcome_example =
    cancel_run_outcome still [] "r1" "USER_CANCELLED" refl none (holding deciding)
      (run_in deciding supervised) refl refl refl tt (λ w. (run_in deciding supervised, refl, refl))

abbrev asked : App Unit
asked = record (holding awaiting_approval) { pending = ("r1", waiting) ∷ [] }

approve-IsFresh_example :
    (run : Run) × (active_run still none "r1" asked ≡ ok run)
    × IsFresh still [] none "r1" "h" run waiting clean
    × GoesOn still [] none "r1" "h" waiting
        (record { report = clean; config = default_config })
        asked
        (approve still [] none "r1" "h" asked).1
unfolding lookup active_run get_run validate_run_id check_context approve approve_pending is_stale
    transition_state start_run transition allowed_transitions update_run_if_state validate_event
    checked if_in_state append_locked new_event last_hash normalize_run normalize_time hash_event
    insert RunState-discrete
approve-IsFresh_example = approve-IsFresh still [] none "r1" "h" waiting asked refl refl

abbrev left_over : MemoryStore
left_over = (holding deciding).store

one_keyed :
    (b : Bool) (r run : Run) (id : String)
    → (if b then some r else none) ≡ some run
    → (b ≡ true → r.id ≡ id)
    → run.id ≡ id
one_keyed true r run id l e = let same : r ≡ run = cc in subst (λ q. q.id ≡ id) same (e refl)
one_keyed false r run id l e = cc

IsKeyed-left_over : IsKeyed left_over
unfolding lookup
IsKeyed-left_over id run l =
    one_keyed ("r1" == id) (run_in deciding supervised) run id l (λ e. (eq_iff "r1" id).0 e)

start_service-AllTerminal_example : is_terminal (stopped) ≡ true
unfolding lookup start_service new_service recover_runs recover_each stop_left list_runs page_of
    candidates sort_runs insert_run before text_lt check_context transition allowed_transitions
    update_run_if_state validate_event validate_run_id checked if_in_state append_locked new_event
    last_hash normalize_run normalize_time hash_event insert RunState-discrete
start_service-AllTerminal_example =
    start_service-AllTerminal still none left_over tt IsKeyed-left_over refl "r1"
      (run_in stopped supervised) refl

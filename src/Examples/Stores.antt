-- ===== src/Examples/Stores.antt =====
-- The laws of the store at concrete calls.
use ai4se_coding_agent_harne.Prelude.{
  arith, ok, inr, pos, ◌++◌, ◌-◌, ◌≡◌, refl, none, [], ◌∷◌, List, drop, lookup, insert,
}
use ai4se_coding_agent_harne.Domain.{
  Run, RunEvent, created, preflight, deciding, workspace_auto, RunState-discrete,
}
use ai4se_coding_agent_harne.Store.{
  MemoryStore, create_run_with_event, append_event, new_memory, events_of, update_run_if_state,
  list_events, run_state_changed, append_locked, check_context, validate_event, validate_run_id,
  checked, if_in_state, normalize_run, normalize_time, events_from,
}
use ai4se_coding_agent_harne.Store.Chain.{IsWellFormed}
use ai4se_coding_agent_harne.Store.History.{
  run, step, create_with_event, update_if_state, append, Call, run_new-IsWellFormed, run-Extends,
}
use ai4se_coding_agent_harne.Store.Updates.{update_run_if_state_err, list_events_lem}
use ai4se_coding_agent_harne.Store.Listing.{RunPage, list_runs}
use ai4se_coding_agent_harne.Store.Listing.Ordered.{IsPage, list_runs-IsPage}
use ai4se_coding_agent_harne.Examples.Fixtures.{plain, run_in, store_of, noon}

abbrev calls : List Call
calls =
    create_with_event none noon (run_in created workspace_auto) "RunCreated" "{}"
    ∷ (update_if_state none noon (run_in preflight workspace_auto) created "PreflightComplete" "{}"
        ∷ (append none noon "r1" "ActionFailed" "{}" ∷ []))

run_new-IsWellFormed_example : IsWellFormed plain.sha256_hex (run plain.sha256_hex new_memory calls)
run_new-IsWellFormed_example = run_new-IsWellFormed plain.sha256_hex calls

run-Extends_example :
    (added : List RunEvent) × (events_of
        (run plain.sha256_hex (store_of (run_in created workspace_auto)) calls)
        "r1"
      ≡ events_of (store_of (run_in created workspace_auto)) "r1" ++ added)
run-Extends_example =
    run-Extends plain.sha256_hex (store_of (run_in created workspace_auto)) calls "r1"

-- The event that moving the run to `preflight` writes.
abbrev moved : RunEvent
moved =
    (append_locked plain.sha256_hex (store_of (run_in created workspace_auto)) noon "r1"
      "PreflightComplete" "{}").1

update_run_if_state_err_example :
    (update_run_if_state plain.sha256_hex
      (store_of (run_in created workspace_auto))
      none
      noon
      (run_in preflight workspace_auto)
      deciding
      "PreflightComplete"
      "{}").0
    ≡ store_of (run_in created workspace_auto)
unfolding update_run_if_state checked check_context validate_event validate_run_id if_in_state
    lookup RunState-discrete
update_run_if_state_err_example =
    update_run_if_state_err plain.sha256_hex (store_of (run_in created workspace_auto)) none noon
      (run_in preflight workspace_auto) deciding "PreflightComplete" "{}" {x = run_state_changed}
      refl

abbrev logged : MemoryStore
logged = run plain.sha256_hex new_memory (
    create_with_event none noon (run_in created workspace_auto) "RunCreated" "{}"
    ∷ (append none noon "r1" "ActionFailed" "{}" ∷ []))

list_events_lem_example :
    events_from 2 (events_of logged "r1") ≡ drop (2 - 1) (events_of logged "r1")
unfolding list_events check_context validate_run_id run step create_run_with_event append_event
    checked validate_event append_locked lookup insert new_memory normalize_run normalize_time
list_events_lem_example =
    list_events_lem plain.sha256_hex logged none "r1" 2
      (run_new-IsWellFormed plain.sha256_hex (
        create_with_event none noon (run_in created workspace_auto) "RunCreated" "{}"
        ∷ (append none noon "r1" "ActionFailed" "{}" ∷ [])))
      refl

abbrev later : Run
later = record (run_in deciding workspace_auto) {
  id = "r2";
  updated_at = record { nanos = 9; location = "UTC" };
}

abbrev two_runs : MemoryStore
two_runs = record {
  runs = ("r1", run_in created workspace_auto) ∷ (("r2", later) ∷ []);
  events = [];
  artifacts = [];
}

list_runs-IsPage_example :
    (page : RunPage) × (list_runs two_runs none
        (record { limit = pos 1; offset = pos 0; ids = none })
      ≡ ok page)
    × IsPage 1 0 none two_runs page
list_runs-IsPage_example = list_runs-IsPage two_runs none 1 0 (inr (omega arith))

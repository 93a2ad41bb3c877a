-- ===== src/App/Service.antt =====
-- internal/app/service.go: approving, rejecting, cancelling and starting a run. The calls of one
-- service are taken one after the other, but for the schedule of `stopIfActive`. A run is recorded
-- under its own identifier, so `run.ID` and `runID` are one where both are at hand.
use ai4se_coding_agent_harne.Prelude.{
  String, ◌==◌, Bool, true, false, not, ◌||◌, Option, none, some, if◌then◌else◌, is_some, lookup,
  insert, erase, Result, ok, err,
}
use ai4se_coding_agent_harne.Domain.{Run, preflight}
use ai4se_coding_agent_harne.Store.{MemoryStore}
use ai4se_coding_agent_harne.App.{
  PreflightReport, PreflightResult, PreflightApproval, RunInput, AppError, run_terminal,
  approval_stale, approval_not_granted, approval_rejection_mismatch, loop_session_busy, cancelled,
  joined, Env, App, Outcome, Schedule,
}
use ai4se_coding_agent_harne.App.Lifecycle.{
  active_run, stop_if_active, release_if_terminal, stop_and_release,
}
use ai4se_coding_agent_harne.App.Creation.{Created, join_errors, transition_state, start_run}

-- The controller's errors after which the run goes on.
unfoldable pub keeps_approval : AppError → Bool
keeps_approval approval_not_granted = true
keeps_approval loop_session_busy = true
keeps_approval _ = false

unfoldable pub keeps_rejection : AppError → Bool
keeps_rejection approval_rejection_mismatch = true
keeps_rejection loop_session_busy = true
keeps_rejection _ = false

unfoldable pub failure_reason : AppError → String
failure_reason cancelled = "USER_CANCELLED"
failure_reason _ = "LOOP_FAILED"

module _ {W : Type 0} (env : Env W) (schedule : Schedule) where
  abbrev pub started : String → Option AppError × (MemoryStore × W) → App W → Outcome W
  started run_id (none, (s, w)) a =
      release_if_terminal env none run_id (record a { store = s; world = w })
  started run_id (some e, (s, w)) a =
      let (_, a') =
        stop_if_active env schedule none run_id (failure_reason e)
          (record a { store = s; world = w }) in
      release_if_terminal env none run_id a'

  abbrev pub start_with : Run → Option RunInput → App W → Outcome W
  start_with run none a =
      let (_, a') = stop_if_active env schedule none run.id "LOOP_SETUP_MISSING" a in
      release_if_terminal env none run.id a'
  start_with run (some input) a =
      started run.id
        (env.start
          (record {
            run = run;
            request = input.request;
            report = input.report;
            config = input.config;
          })
          a.store a.world)
        a

  -- The goroutine of a run.
  unfoldable pub start : Run → App W → App W
  unfolding stop_if_active release_if_terminal failure_reason
  start run a = let (_, a') = start_with run (lookup run.id a.inputs) a in a'

  unfoldable pub fail_active_control : Run → String → AppError → App W → Outcome W
  unfolding stop_and_release
  fail_active_control run reason cause a =
      let (cancel_error, (s, w)) = env.cancel run.id a.store a.world in
      let (stop_error, a') =
        stop_and_release env schedule none run.id reason (record a { store = s; world = w }) in
      (
        some (elim cancel_error [
          | none ↦ join_errors cause stop_error
          | some e ↦ join_errors (joined cause e) stop_error
        ]),
        a',
      )

  abbrev pub go_on : String → PreflightApproval → PreflightResult → Created W → Outcome W
  go_on run_id pending current (err e, a) = (some e, a)
  go_on run_id pending current (ok run, a) = (
    none,
    start_run run (record a {
      pending = erase run_id a.pending;
      inputs =
          insert run_id
            (record {
              request = pending.input.request;
              report = current.report;
              config = current.config;
            })
            a.inputs;
    }),
  )

  -- The approval of a preflight, once the fresh report is found to be the one approved.
  abbrev pub grant_pending :
      Option String → String → Run → PreflightApproval → PreflightResult → App W → Outcome W
  grant_pending ctx run_id run pending current a =
      if is_some (lookup run_id a.stopping)
      then (some run_terminal, a)
      else go_on run_id pending current
          (transition_state env ctx run preflight "PreflightApprovalGranted" "{}" a)

  unfoldable pub is_stale : Run → PreflightApproval → PreflightReport → String → Bool
  is_stale run pending current digest =
      not current.passes
      || (not (current.baseline_commit == pending.input.report.baseline_commit)
          || (not (current.baseline_diff_hash == pending.input.report.baseline_diff_hash)
              || not (env.preflight_digest run current == digest)))

  unfoldable pub approve_pending :
      Option String → String → Run → PreflightApproval → String → App W → Outcome W
  unfolding is_stale transition_state start_run
  approve_pending ctx run_id run pending digest a =
      if digest == pending.digest
      then (let (current, w) = env.preflight pending.input.request a.world in
          let seen = record a { world = w } in
          if is_stale run pending current.report digest
          then (some approval_stale, seen)
          else grant_pending ctx run_id run pending current seen)
      else (some approval_stale, a)

  abbrev pub controlled :
      (AppError → Bool)
      → Run
      → String
      → (App W → Outcome W)
      → Option AppError × (MemoryStore × W)
      → App W
      → Outcome W
  controlled keeps run reason next (none, (s, w)) a = next (record a { store = s; world = w })
  controlled keeps run reason next (some e, (s, w)) a =
      let seen = record a { store = s; world = w } in
      if keeps e then (some e, seen) else fail_active_control run reason e seen

  abbrev pub approve_active :
      Option String → String → String → Result AppError Run → App W → Outcome W
  approve_active ctx run_id digest (err e) a = (some e, a)
  approve_active ctx run_id digest (ok run) a =
      if is_some (lookup run_id a.stopping)
      then (some run_terminal, a)
      else elim (lookup run_id a.pending) [
        | some pending ↦ approve_pending ctx run_id run pending digest a
        | none ↦
            controlled keeps_approval run "LOOP_APPROVAL_FAILED"
              (release_if_terminal env ctx run.id) (env.approve run_id digest a.store a.world) a
      ]

  unfoldable pub approve : Option String → String → String → App W → Outcome W
  unfolding active_run approve_pending fail_active_control release_if_terminal keeps_approval
  approve ctx run_id digest a = approve_active ctx run_id digest (active_run env ctx run_id a) a

  abbrev rejected : Option String → Run → Bool → App W → Outcome W
  rejected ctx run terminate a =
      if terminate
      then stop_and_release env schedule ctx run.id "APPROVAL_REJECTED" a
      else release_if_terminal env ctx run.id a

  abbrev reject_active :
      Option String → String → String → Bool → Result AppError Run → App W → Outcome W
  reject_active ctx run_id digest terminate (err e) a = (some e, a)
  reject_active ctx run_id digest terminate (ok run) a =
      if is_some (lookup run_id a.stopping)
      then (some run_terminal, a)
      else elim (lookup run_id a.pending) [
        | some pending ↦
            if digest == pending.digest
            then (if terminate
                then stop_and_release env schedule ctx run.id "APPROVAL_REJECTED" a
                else (none, a))
            else (some approval_stale, a)
        | none ↦
            controlled keeps_rejection run "LOOP_REJECTION_FAILED" (rejected ctx run terminate)
              (env.reject run_id digest terminate a.store a.world) a
      ]

  unfoldable pub reject : Option String → String → String → Bool → App W → Outcome W
  unfolding active_run fail_active_control stop_and_release release_if_terminal keeps_rejection
  reject ctx run_id digest terminate a =
      reject_active ctx run_id digest terminate (active_run env ctx run_id a) a

  abbrev pub loop_cancelled : String → Option AppError × (MemoryStore × W) → App W → Outcome W
  loop_cancelled run_id (some e, (s, w)) a =
      (some e, record a { store = s; world = w; stopping = erase run_id a.stopping })
  loop_cancelled run_id (none, (s, w)) a =
      stop_and_release env schedule none run_id "USER_CANCELLED" (record a { store = s; world = w })

  abbrev pub cancel_active : String → Result AppError Run → App W → Outcome W
  cancel_active run_id (err e) a = (some e, a)
  cancel_active run_id (ok run) a =
      if is_some (lookup run_id a.stopping)
      then (some run_terminal, a)
      else (let w =
            if is_some (lookup run_id a.cancels)
            then env.cancel_context run_id a.world
            else a.world in
          loop_cancelled run_id (env.cancel run_id a.store w)
            (record a { world = w; stopping = insert run_id tt a.stopping }))

  unfoldable pub cancel_run : Option String → String → App W → Outcome W
  unfolding active_run stop_and_release
  cancel_run ctx run_id a = cancel_active run_id (active_run env ctx run_id a) a

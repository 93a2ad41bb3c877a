-- ===== src/App/Creation.antt =====
-- internal/app/service.go: creating a run. A run is recorded under its own identifier, so `run.ID`
-- and `runID` are one where both are at hand.
use ai4se_coding_agent_harne.Prelude.{
  String, Option, none, some, [], ◌∷◌, ◌++◌, if◌then◌else◌, insert, Result, ok, err,
}
use ai4se_coding_agent_harne.Domain.{
  Run, RunState, RunEvent, created, preflight, awaiting_approval, transition,
}
use ai4se_coding_agent_harne.Store.{
  to_utc, MemoryStore, StoreError, create_run_with_event, update_run_if_state,
}
use ai4se_coding_agent_harne.App.{
  CreateRunRequest, PreflightResult, RunInput, AppError, preflight_failed, marshal_failed,
  store_error, transition_error, joined, Env, App, Schedule, has_finding,
}
use ai4se_coding_agent_harne.App.Lifecycle.{stop_and_release}

-- `errors.Join(cause, ...)` for a cause that is an error.
abbrev pub join_errors : AppError → Option AppError → AppError
join_errors cause none = cause
join_errors cause (some e) = joined cause e

-- What gives a run or an error.
abbrev pub Created : Type 0 → Type 0
Created W = Result AppError Run × App W

abbrev pub changed :
    {W : Type 0} → Run → MemoryStore × Result StoreError RunEvent → App W → Created W
changed run (s, ok event) a = (ok run, record a { store = s })
changed run (s, err e) a = (err (store_error e), record a { store = s })

module _ {W : Type 0} where
  unfoldable pub start_run : Run → App W → App W
  start_run run a = record a {
    cancels = insert run.id tt a.cancels;
    spawned = a.spawned ++ (run ∷ []);
  }

module _ {W : Type 0} (env : Env W) where
  unfoldable pub transition_state :
      Option String → Run → RunState → String → String → App W → Created W
  transition_state ctx run next event_type payload a = elim (transition run.state next) [
    | some e ↦ (err (transition_error e), a)
    | none ↦
        let (now, w) = env.now a.world in
        let (at, w') = env.store_now w in
        let moved = record run { state = next; updated_at = to_utc now } in
        changed moved
          (update_run_if_state env.sha256_hex a.store ctx at moved run.state event_type payload)
          (record a { world = w' })
  ]

module _ {W : Type 0} (env : Env W) (schedule : Schedule) where
  unfoldable pub cleanup_create_failure : Run → AppError → App W → Created W
  unfolding stop_and_release
  cleanup_create_failure run cause a =
      let (e, a') = stop_and_release env schedule none run.id "RUN_SETUP_FAILED" a in
      (err (join_errors cause e), a')

  abbrev pub or_clean : Run → Created W → (Run → App W → Created W) → Created W
  or_clean run (err e, a) next = cleanup_create_failure run e a
  or_clean run (ok run', a) next = next run' a

  abbrev pend : String → RunInput → Run → App W → Created W
  pend digest input run a = (
    ok run,
    record a { pending = insert run.id (record { digest = digest; input = input }) a.pending },
  )

  abbrev pub await_approval :
      Option String → Run → String → RunInput → Option String → App W → Created W
  await_approval ctx run digest input none a = cleanup_create_failure run marshal_failed a
  await_approval ctx run digest input (some payload) a =
      or_clean run
        (transition_state env ctx run awaiting_approval "PreflightApprovalRequired" payload a)
        (pend digest input)

  -- A dirty worktree under the supervised profile waits for the operator before it starts.
  unfoldable pub await_preflight : Option String → Run → RunInput → App W → Created W
  unfolding transition_state cleanup_create_failure
  await_preflight ctx run input a =
      let digest = env.preflight_digest run input.report in
      or_clean run (transition_state env ctx run preflight "PreflightStarted" "{}" a) (λ run' a'.
        await_approval ctx run' digest input (env.approval_payload digest input.report) a')

  abbrev pub recorded :
      Option String → Run → RunInput → MemoryStore × Result StoreError RunEvent → App W → Created W
  recorded ctx run input (s, err e) a =
      (err (store_error e), record a { store = s; world = env.release_run run.id a.world })
  recorded ctx run input (s, ok event) a =
      let kept = record a { store = s; inputs = insert run.id input a.inputs } in
      if has_finding input.report "DIRTY_WORKTREE_APPROVAL_REQUIRED"
      then await_preflight ctx run input kept
      else (ok run, start_run run kept)

  abbrev pub record_run : Option String → Run → RunInput → Option String → App W → Created W
  record_run ctx run input none a =
      (err marshal_failed, record a { world = env.release_run run.id a.world })
  record_run ctx run input (some payload) a =
      let (at, w) = env.store_now a.world in
      recorded ctx run input
        (create_run_with_event env.sha256_hex a.store ctx at run "RunCreated" payload)
        (record a { world = w })

  abbrev pub acquired : Option String → Run → RunInput → Option AppError × W → App W → Created W
  acquired ctx run input (some e, w) a = (err e, record a { world = w })
  acquired ctx run input (none, w) a =
      record_run ctx run input (env.created_payload input.request input.report)
        (record a { world = w })

  abbrev pub create_passed : Option String → CreateRunRequest → PreflightResult → App W → Created W
  create_passed ctx request result a =
      let (now, w) = env.now a.world in
      let (id, w') = env.new_id w in
      let run : Run = record {
        id = id;
        state = created;
        profile = request.profile;
        task = request.task;
        repo_root = result.report.repo_root;
        current_stage = "";
        created_at = to_utc now;
        updated_at = to_utc now;
      } in
      acquired ctx run
        (record { request = request; report = result.report; config = result.config })
        (env.acquire run.repo_root run.id w') a

  unfoldable pub create_run : Option String → CreateRunRequest → App W → Created W
  unfolding await_preflight start_run
  create_run ctx request a =
      let (result, w) = env.preflight request a.world in
      let seen = record a { world = w } in
      if result.report.passes
      then create_passed ctx request result seen
      else (err (preflight_failed result.report), seen)

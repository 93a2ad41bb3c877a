-- ===== src/App/Approving.antt =====
-- internal/app/service.go: what `Approve` makes sure of before a run that waits for its preflight goes on.
use ai4se_coding_agent_harne.Prelude.{
  String, ◌==◌, eq_iff, ◌≡◌, refl, ap, inl, inr, Bool-cases, Option-cases, true, false, Option,
  none, some, [], ◌∷◌, ◌++◌, lookup, lookup-erase_self, lookup-insert_self, Result, ok, err, arith,
  is_some,
}
use ai4se_coding_agent_harne.Domain.{Run, RunState, Time, preflight, transition, RunEvent}
use ai4se_coding_agent_harne.Store.{MemoryStore, StoreError, normalize_run, update_run_if_state}
use ai4se_coding_agent_harne.Store.Updates.{update_run_if_state_ok}
use ai4se_coding_agent_harne.App.{
  AppError, Env, App, Schedule, PreflightApproval, PreflightResult, PreflightReport,
}
use ai4se_coding_agent_harne.App.Lifecycle.{active_run}
use ai4se_coding_agent_harne.App.Creation.{Created, changed, transition_state, start_run}
use ai4se_coding_agent_harne.App.Service.{
  is_stale, go_on, grant_pending, approve_pending, approve_active, approve,
}

module _ {W : Type 0} (env : Env W) (schedule : Schedule) (ctx : Option String)
    (run_id digest : String) where
  -- What the operator approved is what the repository still is.
  abbrev pub IsFresh : Run → PreflightApproval → PreflightReport → Type 0
  IsFresh run pending current =
      (digest ≡ pending.digest)
      × (current.passes ≡ true)
      × (current.baseline_commit ≡ pending.input.report.baseline_commit)
      × (current.baseline_diff_hash ≡ pending.input.report.baseline_diff_hash)
      × (env.preflight_digest run current ≡ digest)

  -- The run goes on from its preflight, with the fresh report, and waits no more.
  abbrev pub GoesOn : PreflightApproval → PreflightResult → App W → App W → Type 0
  GoesOn pending current a a' =
      (run : Run) × (run.state ≡ preflight)
      × (lookup run.id a'.store.runs ≡ some (normalize_run run))
      × (a'.spawned ≡ a.spawned ++ (run ∷ []))
      × (lookup run_id a'.pending ≡ none)
      × (lookup run_id a'.inputs
          ≡ some (record {
            request = pending.input.request;
            report = current.report;
            config = current.config;
          }))

  fresh_lem :
      (run : Run) (pending : PreflightApproval) (current : PreflightReport)
      → digest ≡ pending.digest
      → is_stale env schedule run pending current digest ≡ false
      → IsFresh run pending current
  unfolding is_stale
  fresh_lem run pending current h q = ground (
    arith,
    eq_iff current.baseline_commit pending.input.report.baseline_commit,
    eq_iff current.baseline_diff_hash pending.input.report.baseline_diff_hash,
    eq_iff (env.preflight_digest run current) digest,
  )

  -- A change of the state that succeeds is in the store.
  abbrev Moves : RunState → App W → Created W → Type 0
  Moves next a (err e, a') = Unit
  Moves next a (ok run, a') =
      (run.state ≡ next)
      × (lookup run.id a'.store.runs ≡ some (normalize_run run))
      × (a'.spawned ≡ a.spawned)

  changed-Moves :
      (s : MemoryStore) (at : Time) (run : Run) (expected : RunState) (ty payload : String)
      (a : App W) (r : Result StoreError RunEvent)
      → (update_run_if_state env.sha256_hex s ctx at run expected ty payload).1 ≡ r
      → Moves run.state a (
          changed run
            ((update_run_if_state env.sha256_hex s ctx at run expected ty payload).0, r)
            a)
  changed-Moves s at run expected ty payload a (err e) q = tt
  changed-Moves s at run expected ty payload a (ok event) q =
      let (_, _, _, w) = update_run_if_state_ok env.sha256_hex s ctx at run expected ty payload q in
      (refl, w.run_stored, refl)

  transition_state-Moves :
      (run : Run) (next : RunState) (ty payload : String) (a : App W)
      → Moves next a (transition_state env ctx run next ty payload a)
  unfolding transition_state
  transition_state-Moves run next ty payload a = elim (Option-cases (transition run.state next)) [
    | inl e ↦ rw (transition_state, e) (changed-Moves a.store _ _ run.state ty payload _ _ refl)
    | inr (x, e) ↦ rw (transition_state, e) tt
  ]

  go_on_lem :
      (pending : PreflightApproval) (current : PreflightResult) (a : App W) (m : Created W)
      → Moves preflight a m
      → (go_on env schedule run_id pending current m).0 ≡ none
      → GoesOn pending current a (go_on env schedule run_id pending current m).1
  unfolding start_run
  go_on_lem pending current a (err e, a') moved h = cc
  go_on_lem pending current a (ok run, a') (st, stored, same) h = (
    run,
    st,
    stored,
    ap (λ runs. runs ++ (run ∷ [])) same,
    lookup-erase_self run_id a'.pending,
    lookup-insert_self run_id _ a'.inputs,
  )

  granted :
      (run : Run) (pending : PreflightApproval) (current : PreflightResult) (a : App W)
      → (grant_pending env schedule ctx run_id run pending current a).0 ≡ none
      → GoesOn pending current a (grant_pending env schedule ctx run_id run pending current a).1
  granted run pending current a = elim (Bool-cases (is_some (lookup run_id a.stopping))) [
    | inl e ↦ rw (grant_pending, e) (λ h. cc)
    | inr e ↦
        rw (grant_pending, e)
          (go_on_lem pending current a
            (transition_state env ctx run preflight "PreflightApprovalGranted" "{}" a)
            (transition_state-Moves run preflight "PreflightApprovalGranted" "{}" a))
  ]

  abbrev fresh_result : PreflightApproval → App W → PreflightResult
  fresh_result pending a = (env.preflight pending.input.request a.world).0

  approved_pending :
      (run : Run) (pending : PreflightApproval) (a : App W)
      → (approve_pending env schedule ctx run_id run pending digest a).0 ≡ none
      → IsFresh run pending (fresh_result pending a).report
        × GoesOn pending
            (fresh_result pending a)
            a
            (approve_pending env schedule ctx run_id run pending digest a).1
  unfolding approve_pending
  approved_pending run pending a =
      let current = fresh_result pending a in
      elim (Bool-cases (digest == pending.digest)) [
        | inl e ↦ elim (Bool-cases (is_stale env schedule run pending current.report digest)) [
          | inl stale ↦ rw (approve_pending, e, stale) (λ h. cc)
          | inr fresh ↦
              rw (approve_pending, e, fresh)
                (λ h. (
                  fresh_lem run pending current.report ((eq_iff digest pending.digest).0 e) fresh,
                  granted run pending current _ h,
                ))
        ]
        | inr e ↦ rw (approve_pending, e) (λ h. cc)
      ]

  approved_active :
      (pending : PreflightApproval) (a : App W) (r : Result AppError Run)
      → active_run env ctx run_id a ≡ r
      → lookup run_id a.pending ≡ some pending
      → (approve_active env schedule ctx run_id digest r a).0 ≡ none
      → (run : Run) × (active_run env ctx run_id a ≡ ok run)
        × IsFresh run pending (fresh_result pending a).report
        × GoesOn pending
            (fresh_result pending a)
            a
            (approve_active env schedule ctx run_id digest r a).1
  approved_active pending a (err e) q l = λ h. cc
  approved_active pending a (ok run) q l = elim (Bool-cases (is_some (lookup run_id a.stopping))) [
    | inl e ↦ rw (approve_active, e) (λ h. cc)
    | inr e ↦
        rw (approve_active, e, l)
          (λ h. let (fresh, on) = approved_pending run pending a h in (run, q, fresh, on))
  ]

  -- Where a run waits for the approval of its preflight, an approval that gives no error had the digest
  -- that the operator was shown, for an active run; a new preflight passed, found the commit and the
  -- changes that were approved, and digests to the same; and the run then goes on from its preflight,
  -- recorded and with the new report, and waits no more.
  pub approve-IsFresh :
      (pending : PreflightApproval) (a : App W)
      → lookup run_id a.pending ≡ some pending
      → (approve env schedule ctx run_id digest a).0 ≡ none
      → (run : Run) × (active_run env ctx run_id a ≡ ok run)
        × IsFresh run pending (env.preflight pending.input.request a.world).0.report
        × GoesOn pending
            (env.preflight pending.input.request a.world).0
            a
            (approve env schedule ctx run_id digest a).1
  unfolding approve
  approve-IsFresh pending a l h = approved_active pending a (active_run env ctx run_id a) refl l h

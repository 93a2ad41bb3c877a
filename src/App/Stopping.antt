-- ===== src/App/Stopping.antt =====
-- internal/app/service.go: `stopIfActive` ends, whatever the other goroutines do to the run.
pub mod Holdings
use ai4se_coding_agent_harne.Prelude.{
  ℕ, String, ◌==◌, ◌≡◌, refl, sym, ap, subst, ◌∙◌, ◌≢◌, inl, inr, Bool, Bool-cases, true, false,
  Option, none, some, List, [], ◌∷◌, if◌then◌else◌, lookup, Result, ok, err, All,
}
use mathlib.Core.Logic.{ite}
use ai4se_coding_agent_harne.Domain.{Time, Run, RunState, RunState-discrete, stopped, RunEvent}
use ai4se_coding_agent_harne.Domain.Transitions.{is_terminal, terminal-transition}
use ai4se_coding_agent_harne.Store.{
  MemoryStore, StoreError, run_state_changed, get_run, update_run_if_state, validate_run_id,
  validate_event, check_context, checked, if_in_state, normalize_run, first_error, empty_run_id,
  then_put, append_locked,
}
use ai4se_coding_agent_harne.Store.Updates.{update_run_if_state_ok, update_run_if_state_err}
use ai4se_coding_agent_harne.App.{Env, App, Outcome, Schedule}
use ai4se_coding_agent_harne.App.Lifecycle.{
  Round, again, ended, ended_with, written, write_stopped, stop_found, stop_round, stop_loop,
  stop_if_active,
}

-- The run is recorded, under its own identifier.
abbrev pub IsRecorded : String → MemoryStore → Type 0
IsRecorded run_id s = (run : Run) × (lookup run_id s.runs ≡ some run) × (run.id ≡ run_id)

-- The run is recorded, and its state is terminal.
abbrev pub IsStopped : String → MemoryStore → Type 0
IsStopped run_id s =
    (run : Run) × (lookup run_id s.runs ≡ some run)
    × (run.id ≡ run_id)
    × (is_terminal run.state ≡ true)

-- What others may do: change the run as they like, but not remove it.
abbrev pub KeepsRun : String → (MemoryStore → MemoryStore) → Type 0
KeepsRun run_id others = (s : MemoryStore) → IsRecorded run_id s → IsRecorded run_id (others s)

pub get_run_recorded :
    (s : MemoryStore) (run_id : String) (run : Run)
    → (run_id == "") ≡ false
    → lookup run_id s.runs ≡ some run
    → get_run s none run_id ≡ ok run
unfolding get_run validate_run_id check_context
get_run_recorded s run_id run h l = rw (h, l) refl

unequal_changed :
    (current : Run) (expected : RunState) (d : Dec (current.state ≡ expected)) (s : MemoryStore)
    (rest : MemoryStore × Result StoreError RunEvent) {e : StoreError}
    → (rest.1 ≡ err e → ⊥)
    → (ite d rest (s, err run_state_changed)).1 ≡ err e
    → (e ≡ run_state_changed) × (current.state ≢ expected)
unequal_changed current expected (yes p) s rest k q = absurd (k q)
unequal_changed current expected (no n) s rest k q = (cc, n)

refused_by :
    (b : Bool) (o : Option Run) (current : Run) (expected : RunState) (s : MemoryStore) (run : Run)
    (x : MemoryStore × RunEvent) {e : StoreError}
    → b ≡ false
    → o ≡ some current
    → (checked
        (first_error (first_error (if b then some empty_run_id else none) none) none)
        s
        (if_in_state o expected s (then_put run x))).1
      ≡ err e
    → (e ≡ run_state_changed) × (current.state ≢ expected)
unfolding checked if_in_state
refused_by true o current expected s run x h l q = cc
refused_by false none current expected s run x h l q = cc
refused_by false (some r) current expected s run x h l q =
    let same : r ≡ current = cc in
    let (changed, unlike) =
      unequal_changed r expected (RunState-discrete r.state expected) s (then_put run x) (λ g. cc)
        q in
    (changed, subst (λ r. r.state ≢ expected) same unlike)

module _ (sha256_hex : List ℕ → String) where
  refused_changed :
      (s : MemoryStore) (at : Time) (run current : Run) (expected : RunState) (payload : String)
      {e : StoreError}
      → (run.id == "") ≡ false
      → lookup run.id s.runs ≡ some current
      → (update_run_if_state sha256_hex s none at run expected "RunStopped" payload).1 ≡ err e
      → (e ≡ run_state_changed) × (current.state ≢ expected)
  unfolding update_run_if_state validate_event validate_run_id check_context
  refused_changed s at run current expected payload h l q =
      refused_by (run.id == "") (lookup run.id s.runs) current expected s (normalize_run run)
        (append_locked sha256_hex s at run.id "RunStopped" payload) h l q

normalized_stopped :
    (run : Run) → run.state ≡ stopped → is_terminal (normalize_run run).state ≡ true
unfolding normalize_run
normalized_stopped run st = rw st refl

normalized_id : (run : Run) → (normalize_run run).id ≡ run.id
unfolding normalize_run
normalized_id run = refl

module _ {W : Type 0} (env : Env W) (run_id payload : String) (named : (run_id == "") ≡ false) where
  abbrev Goes : Type 0 → Round W → Type 0
  Goes C (again a) = IsRecorded run_id a.store × C
  Goes C (ended e a) = (e ≡ none) × IsStopped run_id a.store

  -- A failed write found the state changed, and left the store alone.
  refused-Goes :
      (C : Type 0) (s s' : MemoryStore) (e : StoreError) (a : App W)
      → IsRecorded run_id s
      → s' ≡ s
      → e ≡ run_state_changed
      → C
      → Goes C (written env (s', err e) a)
  refused-Goes C s s' e a kept same c x =
      subst (λ e. Goes C (written env (s', err e) a)) (sym c)
        (subst (IsRecorded run_id) (sym same) kept, x)

  -- What another goroutine did to the state that was read.
  abbrev Interferes : MemoryStore → RunState → Type 0
  Interferes s expected = (run : Run) × (lookup run_id s.runs ≡ some run) × (run.state ≢ expected)

  written-Goes :
      (s : MemoryStore) (at : Time) (run : Run) (expected : RunState) (a : App W)
      (r : Result StoreError RunEvent)
      → IsRecorded run_id s
      → run.id ≡ run_id
      → run.state ≡ stopped
      → (update_run_if_state env.sha256_hex s none at run expected "RunStopped" payload).1 ≡ r
      → Goes (Interferes s expected) (
          written env
            ((update_run_if_state env.sha256_hex s none at run expected "RunStopped" payload).0, r)
            a)
  written-Goes s at run expected a (ok event) kept i st q =
      let s' = (update_run_if_state env.sha256_hex s none at run expected "RunStopped" payload).0 in
      let (_, _, _, w) =
        update_run_if_state_ok env.sha256_hex s none at run expected "RunStopped" payload q in
      (
        refl,
        (
          normalize_run run,
          subst (λ id. lookup id s'.runs ≡ some (normalize_run run)) i w.run_stored,
          normalized_id run ∙ i,
          normalized_stopped run st,
        ),
      )
  written-Goes s at run expected a (err e) (current, l, k) i st q =
      let here = subst (λ id. lookup id s.runs ≡ some current) (sym i) l in
      let (changed, unlike) =
        refused_changed env.sha256_hex s at run current expected payload
          (subst (λ id. (id == "") ≡ false) (sym i) named) here q in
      refused-Goes (Interferes s expected) s _ e a (current, l, k)
        (update_run_if_state_err env.sha256_hex s none at run expected "RunStopped" payload q)
        changed (current, l, unlike)

  write-Goes :
      (others : MemoryStore → MemoryStore) (run : Run) (a : App W)
      → IsRecorded run_id (others a.store)
      → run.id ≡ run_id
      → Goes (Interferes (others a.store) run.state) (write_stopped env others none payload run a)
  unfolding write_stopped
  write-Goes others run a kept i = written-Goes (others a.store) _ _ run.state _ _ kept i refl refl

  found-Goes :
      (others : MemoryStore → MemoryStore) (run : Run) (a : App W)
      → IsRecorded run_id (others a.store)
      → lookup run_id a.store.runs ≡ some run
      → run.id ≡ run_id
      → Goes (Interferes (others a.store) run.state) (stop_found env others none payload a (ok run))
  found-Goes others run a kept l i = elim (Bool-cases (is_terminal run.state)) [
    | inl e ↦ rw (stop_found, e) (refl, (run, l, i, e))
    | inr e ↦
        rw (stop_found, e, (terminal-transition run.state).1.0 e) (write-Goes others run a kept i)
  ]

  round-Goes :
      (others : MemoryStore → MemoryStore) (run : Run) (a : App W)
      → IsRecorded run_id (others a.store)
      → lookup run_id a.store.runs ≡ some run
      → run.id ≡ run_id
      → Goes (Interferes (others a.store) run.state) (stop_round env others none run_id payload a)
  unfolding stop_round
  round-Goes others run a kept l i =
      rw (get_run_recorded a.store run_id run named l) (found-Goes others run a kept l i)

  last_round :
      (r : Round W) (C : Type 0)
      → Goes C r
      → ¬ C
      → ((ended_with r).0 ≡ none) × IsStopped run_id (ended_with r).1.store
  last_round (again a) C (_, c) no_c = absurd (no_c c)
  last_round (ended e a) C done no_c = done

  abbrev Ends : Outcome W → Type 0
  Ends (e, a) = (e ≡ none) × IsStopped run_id a.store

  loop-Goes :
      (schedule : Schedule) (C : Type 0) (r : Round W)
      → Goes C r
      → ((a : App W)
          → IsRecorded run_id a.store
          → Ends (stop_loop env schedule none run_id payload a))
      → Ends
          (elim r [ again a ↦ stop_loop env schedule none run_id payload a | ended e a ↦ (e, a) ])
  loop-Goes schedule C (again a) (kept, _) rest = rest a kept
  loop-Goes schedule C (ended e a) done rest = done

  loop-Ends :
      (schedule : Schedule) (a : App W)
      → All (KeepsRun run_id) schedule
      → IsRecorded run_id a.store
      → Ends (stop_loop env schedule none run_id payload a)
  unfolding stop_loop
  loop-Ends [] a tame (run, l, i) =
      last_round (stop_round env (λ s. s) none run_id payload a) (Interferes a.store run.state)
        (round-Goes (λ s. s) run a (run, l, i) l i)
        (λ (current, l', unlike). let same : current ≡ run = cc in unlike (ap (λ r. r.state) same))
  loop-Ends (others ∷ schedule) a (keeps, tame) (run, l, i) =
      loop-Goes schedule (Interferes (others a.store) run.state)
        (stop_round env others none run_id payload a)
        (round-Goes others run a (keeps a.store (run, l, i)) l i)
        (λ a' kept. loop-Ends schedule a' tame kept)

  -- Stopping a recorded run, under a context that is not cancelled, ends without an error and leaves
  -- the run in a terminal state, whatever the other goroutines write to it between the reads and the
  -- conditional writes of the loop, as long as none of them removes it and they stop at last.
  pub stop_if_active_ends :
      (schedule : Schedule) (reason : String) (a : App W)
      → env.reason_payload reason ≡ some payload
      → All (KeepsRun run_id) schedule
      → IsRecorded run_id a.store
      → ((stop_if_active env schedule none run_id reason a).0 ≡ none)
        × IsStopped run_id (stop_if_active env schedule none run_id reason a).1.store
  unfolding stop_if_active
  stop_if_active_ends schedule reason a h tame kept =
      rw (stop_if_active, h) (loop-Ends schedule a tame kept)

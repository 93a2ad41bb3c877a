-- ===== src/App/Lifecycle.antt =====
-- internal/app/service.go: how a run is stopped, and what is released once it is terminal.
use ai4se_coding_agent_harne.Prelude.{
  String, Option, none, some, [], ◌∷◌, if◌then◌else◌, is_some, lookup, erase, Result, ok, err,
}
use ai4se_coding_agent_harne.Domain.{Run, stopped, transition, RunEvent}
use ai4se_coding_agent_harne.Domain.Transitions.{is_terminal}
use ai4se_coding_agent_harne.Store.{
  to_utc, MemoryStore, StoreError, run_state_changed, get_run, update_run_if_state,
}
use ai4se_coding_agent_harne.App.{
  AppError, run_terminal, marshal_failed, exhausted, store_error, transition_error, Env, App,
  Outcome, Schedule,
}

-- One round of the loop of `stopIfActive`: it ends the call, or the state changed meanwhile.
pub data Round (W : Type 0) : Type 0 where
  again : App W → Round W
  ended : Option AppError → App W → Round W

abbrev pub ended_with : {W : Type 0} → Round W → Outcome W
ended_with (again a) = (some exhausted, a)
ended_with (ended e a) = (e, a)

module _ {W : Type 0} (env : Env W) where
  abbrev active_of : Result StoreError Run → Result AppError Run
  active_of (err e) = err (store_error e)
  active_of (ok run) = if is_terminal run.state then err run_terminal else ok run

  unfoldable pub active_run : Option String → String → App W → Result AppError Run
  active_run ctx run_id a = active_of (get_run a.store ctx run_id)

  abbrev pub written : MemoryStore × Result StoreError RunEvent → App W → Round W
  written (s, ok event) a = ended none (record a { store = s })
  written (s, err run_state_changed) a = again (record a { store = s })
  written (s, err e) a = ended (some (store_error e)) (record a { store = s })

  -- The write, after the others have acted on the store.
  unfoldable pub write_stopped :
      (MemoryStore → MemoryStore) → Option String → String → Run → App W → Round W
  write_stopped others ctx payload run a =
      let (now, w) = env.now a.world in
      let (at, w') = env.store_now w in
      written
        (update_run_if_state env.sha256_hex (others a.store) ctx at
          (record run { state = stopped; updated_at = to_utc now }) run.state "RunStopped" payload)
        (record a { world = w' })

  abbrev pub stop_found :
      (MemoryStore → MemoryStore) → Option String → String → App W → Result StoreError Run → Round W
  stop_found others ctx payload a (err e) = ended (some (store_error e)) a
  stop_found others ctx payload a (ok run) =
      if is_terminal run.state then ended none a else elim (transition run.state stopped) [
        | some e ↦ ended (some (transition_error e)) a
        | none ↦ write_stopped others ctx payload run a
      ]

  unfoldable pub stop_round :
      (MemoryStore → MemoryStore) → Option String → String → String → App W → Round W
  unfolding write_stopped
  stop_round others ctx run_id payload a =
      stop_found others ctx payload a (get_run a.store ctx run_id)

  -- The loop, with the rounds in which others act, and then one in which none do.
  unfoldable pub stop_loop : Schedule → Option String → String → String → App W → Outcome W
  unfolding stop_round
  stop_loop [] ctx run_id payload a = ended_with (stop_round (λ s. s) ctx run_id payload a)
  stop_loop (others ∷ schedule) ctx run_id payload a =
      elim (stop_round others ctx run_id payload a) [
        | again a' ↦ stop_loop schedule ctx run_id payload a'
        | ended e a' ↦ (e, a')
      ]

  unfoldable pub stop_if_active : Schedule → Option String → String → String → App W → Outcome W
  unfolding stop_loop
  stop_if_active schedule ctx run_id reason a = elim (env.reason_payload reason) [
    | none ↦ (some marshal_failed, a)
    | some payload ↦ stop_loop schedule ctx run_id payload a
  ]

  abbrev cancel_in_world : String → App W → App W
  cancel_in_world run_id a =
      if is_some (lookup run_id a.cancels)
      then record a { world = env.cancel_context run_id a.world }
      else a

  -- What `releaseIfTerminal` does for a run that is terminal.
  unfoldable pub release : String → App W → App W
  release run_id a =
      let released = record a { world = env.release_run run_id a.world } in
      let done = cancel_in_world run_id released in
      record done {
        cancels = erase run_id a.cancels;
        pending = erase run_id a.pending;
        inputs = erase run_id a.inputs;
        stopping = erase run_id a.stopping;
      }

  abbrev pub released_found : App W → Result StoreError Run → Outcome W
  released_found a (err e) = (some (store_error e), a)
  released_found a (ok current) =
      let done = release current.id a in
      if is_terminal current.state then (none, done) else (none, a)

  unfoldable pub release_if_terminal : Option String → String → App W → Outcome W
  unfolding release
  release_if_terminal ctx run_id a = released_found a (get_run a.store ctx run_id)

  -- A call that goes on only where the one before gave no error.
  abbrev pub then_do : Outcome W → (App W → Outcome W) → Outcome W
  then_do (none, a) next = next a
  then_do (some e, a) next = (some e, a)

  unfoldable pub stop_and_release : Schedule → Option String → String → String → App W → Outcome W
  unfolding stop_if_active release_if_terminal
  stop_and_release schedule ctx run_id reason a =
      then_do (stop_if_active schedule ctx run_id reason a) (release_if_terminal ctx run_id)

-- ===== src/App/Recovery.antt =====
-- internal/app/service.go: the recovery of the runs when a service starts, and `Close`.
pub mod Ahead
pub mod Complete
use ai4se_coding_agent_harne.Prelude.{
  String, Bool, true, false, Option, none, some, List, [], ◌∷◌, pos, if◌then◌else◌, Result, ok, err,
}
use ai4se_coding_agent_harne.Domain.{Run, RunEvent, stopped, transition}
use ai4se_coding_agent_harne.Domain.Transitions.{is_terminal}
use ai4se_coding_agent_harne.Store.{to_utc, MemoryStore, StoreError, update_run_if_state}
use ai4se_coding_agent_harne.Store.Listing.{RunListQuery, RunPage, list_runs}
use ai4se_coding_agent_harne.App.{
  AppError, store_error, transition_error, joined, Env, App, Outcome, Schedule,
}
use ai4se_coding_agent_harne.App.Service.{cancel_run}

-- `storeport.RunListQuery{}`.
abbrev pub every_run : RunListQuery
every_run = record { limit = pos 0; offset = pos 0; ids = none }

module _ {W : Type 0} where
  unfoldable pub new_service : MemoryStore → W → App W
  new_service s w = record {
    store = s;
    world = w;
    cancels = [];
    inputs = [];
    pending = [];
    stopping = [];
    spawned = [];
  }

module _ {W : Type 0} (env : Env W) where
  abbrev pub release_lock : String → App W → App W
  release_lock run_id a = record a { world = env.release_run run_id a.world }

  -- The write of one run that was left in the middle.
  unfoldable pub stop_left :
      Option String → Run → App W → (MemoryStore × Result StoreError RunEvent) × W
  stop_left ctx run a =
      let (now, w) = env.now a.world in
      let (at, w') = env.store_now w in
      (
        update_run_if_state env.sha256_hex a.store ctx at
            (record run { state = stopped; updated_at = to_utc now }) run.state "RunRecovered"
            "{\"reason\":\"STARTUP_RECOVERY\"}",
        w',
      )

  abbrev pub left_stopped :
      Run → (MemoryStore × Result StoreError RunEvent) × W → App W → (App W → Outcome W) → Outcome W
  left_stopped run ((s, err e), w) a next =
      (some (store_error e), record a { store = s; world = w })
  left_stopped run ((s, ok event), w) a next =
      next (release_lock run.id (record a { store = s; world = w }))

  -- The body of the loop, then the rest of it.
  abbrev pub recover_run : Option String → Run → App W → (App W → Outcome W) → Outcome W
  recover_run ctx run a next =
      if is_terminal run.state
      then next (release_lock run.id a)
      else elim (transition run.state stopped) [
        | some e ↦ (some (transition_error e), a)
        | none ↦ left_stopped run (stop_left ctx run a) a next
      ]

  unfoldable pub recover_each : Option String → List Run → App W → Outcome W
  unfolding stop_left
  recover_each ctx [] a = (none, a)
  recover_each ctx (run ∷ runs) a = recover_run ctx run a (λ a'. recover_each ctx runs a')

  abbrev pub recover_page : Option String → Result StoreError RunPage → App W → Outcome W
  recover_page ctx (err e) a = (some (store_error e), a)
  recover_page ctx (ok page) a = recover_each ctx page.runs a

  unfoldable pub recover_runs : Option String → App W → Outcome W
  unfolding recover_each
  recover_runs ctx a = recover_page ctx (list_runs a.store ctx every_run) a

  -- `NewService`, over the store and the world that it is given.
  unfoldable pub start_service : Option String → MemoryStore → W → Outcome W
  unfolding new_service recover_runs
  start_service ctx s w = recover_runs ctx (new_service s w)

  abbrev pub join_all : Option AppError → Option AppError → Option AppError
  join_all none e = e
  join_all (some e) none = some e
  join_all (some e) (some e') = some (joined e e')

  unfoldable pub close_each : Schedule → List Run → Option AppError → App W → Outcome W
  close_each schedule [] e a = (e, a)
  close_each schedule (run ∷ runs) e a = elim (is_terminal run.state) [
    | true ↦ close_each schedule runs e a
    | false ↦
        let (e', a') = cancel_run env schedule none run.id a in
        close_each schedule runs (join_all e e') a'
  ]

  abbrev close_page : Schedule → Result StoreError RunPage → App W → Outcome W
  close_page schedule (err e) a = (some (store_error e), a)
  close_page schedule (ok page) a = close_each schedule page.runs none a

  unfoldable pub close : Schedule → App W → Outcome W
  unfolding close_each
  close schedule a = close_page schedule (list_runs a.store none every_run) a

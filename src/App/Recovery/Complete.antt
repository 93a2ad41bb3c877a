-- ===== src/App/Recovery/Complete.antt =====
-- internal/app/service.go: no run is active any more once a service has recovered.
use ai4se_coding_agent_harne.Prelude.{
  ℕ, zero, suc, String, ◌==◌, ◌≡◌, refl, sym, subst, inl, inr, Bool, Bool-cases, true, false,
  Option, none, some, List, [], ◌∷◌, pos, lookup, Result, ok, err, if◌then◌else◌,
}
use mathlib.Core.List.{Mem, not-mem-nil, mem-cons_self, mem-cons_of_mem}
use mathlib.Core.List.Perm
use ai4se_coding_agent_harne.Domain.{Run, RunEvent, stopped, Time}
use ai4se_coding_agent_harne.Domain.Transitions.{is_terminal, terminal-transition}
use ai4se_coding_agent_harne.Store.{to_utc, MemoryStore, StoreError, update_run_if_state}
use ai4se_coding_agent_harne.Store.Updates.{update_run_if_state_ok}
use ai4se_coding_agent_harne.Store.Listing.{candidates, RunPage, list_runs}
use ai4se_coding_agent_harne.Store.Listing.Ordered.{ok-IsPage, IsPage}
use ai4se_coding_agent_harne.App.{Env, App, Outcome}
use ai4se_coding_agent_harne.App.Recovery.{
  every_run, stop_left, left_stopped, recover_run, recover_each, recover_page, recover_runs,
  release_lock, start_service, new_service,
}
use ai4se_coding_agent_harne.App.Recovery.Ahead.{
  IsKeyed, AllTerminal, IsAhead, IsAhead-terminal, IsKeyed-written, IsAhead-written,
}

abbrev Completes : {W : Type 0} → Outcome W → Type 0
Completes (e, a) = e ≡ none → AllTerminal a.store

module _ {W : Type 0} (env : Env W) (ctx : Option String) where
  stopped_Completes :
      (run : Run) (runs : List Run) (s : MemoryStore) (at now : Time) (w : W) (a : App W)
      (next : App W → Outcome W) (r : Result StoreError RunEvent)
      → IsKeyed s
      → IsAhead (run ∷ runs) s
      → ((a' : App W) → IsKeyed a'.store → IsAhead runs a'.store → Completes (next a'))
      → (payload : String)
      → (update_run_if_state env.sha256_hex s ctx at
          (record run { state = stopped; updated_at = to_utc now })
          run.state
          "RunRecovered"
          payload).1
        ≡ r
      → Completes (
          left_stopped env run
            (
              (
                (update_run_if_state env.sha256_hex s ctx at
                    (record run { state = stopped; updated_at = to_utc now })
                    run.state
                    "RunRecovered"
                    payload).0,
                r,
              ),
              w,
            )
            a
            next)
  stopped_Completes run runs s at now w a next (err e) keyed ahead rest payload q = λ h. cc
  stopped_Completes run runs s at now w a next (ok event) keyed ahead rest payload q =
      let moved : Run = record run { state = stopped; updated_at = to_utc now } in
      let s' =
        (update_run_if_state env.sha256_hex s ctx at moved run.state "RunRecovered" payload).0 in
      let (_, _, _, written) =
        update_run_if_state_ok env.sha256_hex s ctx at moved run.state "RunRecovered" payload q in
      rest _ (IsKeyed-written s s' moved "RunRecovered" payload event written keyed) (
        IsAhead-written s s' moved "RunRecovered" payload event written run runs refl refl keyed
          ahead)

  left_Completes :
      (run : Run) (runs : List Run) (a : App W) (next : App W → Outcome W)
      → IsKeyed a.store
      → IsAhead (run ∷ runs) a.store
      → ((a' : App W) → IsKeyed a'.store → IsAhead runs a'.store → Completes (next a'))
      → Completes (left_stopped env run (stop_left env ctx run a) a next)
  unfolding stop_left
  left_Completes run runs a next keyed ahead rest =
      stopped_Completes run runs a.store _ (env.now a.world).0 _ a next _ keyed ahead rest _ refl

  run_Completes :
      (run : Run) (runs : List Run) (a : App W) (next : App W → Outcome W)
      → IsKeyed a.store
      → IsAhead (run ∷ runs) a.store
      → ((a' : App W) → IsKeyed a'.store → IsAhead runs a'.store → Completes (next a'))
      → Completes (recover_run env ctx run a next)
  run_Completes run runs a next keyed ahead rest = elim (Bool-cases (is_terminal run.state)) [
    | inl e ↦
        rw (recover_run, e)
          (rest (release_lock env run.id a) keyed (IsAhead-terminal run runs a.store ahead e))
    | inr e ↦
        rw (recover_run, e, (terminal-transition run.state).1.0 e)
          (left_Completes run runs a next keyed ahead rest)
  ]

  each_Completes :
      (runs : List Run) (a : App W)
      → IsKeyed a.store
      → IsAhead runs a.store
      → Completes (recover_each env ctx runs a)
  unfolding recover_each
  each_Completes [] a keyed ahead = λ _ id run l. elim (Bool-cases (is_terminal run.state)) [
    | inl e ↦ e
    | inr e ↦ absurd (not-mem-nil (ahead id run l e))
  ]
  each_Completes (run ∷ runs) a keyed ahead =
      run_Completes run runs a (λ a'. recover_each env ctx runs a') keyed ahead
        (λ a'. each_Completes runs a')

found_first :
    (b : Bool) (r run : Run) (o : Option Run)
    → (if b then some r else o) ≡ some run
    → b ≡ true
    → r ≡ run
found_first true r run o l e = cc
found_first false r run o l e = cc

found_later :
    (b : Bool) (r run : Run) (o : Option Run)
    → (if b then some r else o) ≡ some run
    → b ≡ false
    → o ≡ some run
found_later true r run o l e = cc
found_later false r run o l e = l

candidates_Mem :
    (id : String) (run : Run) (table : List (String × Run))
    → lookup id table ≡ some run
    → Mem run (candidates none table)
unfolding lookup candidates
candidates_Mem id run [] l = cc
candidates_Mem id run ((name, r) ∷ table) l = elim (Bool-cases (name == id)) [
  | inl e ↦
      subst (λ q. Mem run (q ∷ candidates none table))
        (sym (found_first (name == id) r run (lookup id table) l e)) mem-cons_self
  | inr e ↦
      mem-cons_of_mem r
        (candidates_Mem id run table (found_later (name == id) r run (lookup id table) l e))
]

page_IsAhead :
    (limit offset : ℕ) (s : MemoryStore) (page : RunPage)
    → pos 0 ≡ pos limit
    → pos 0 ≡ pos offset
    → IsPage limit offset none s page
    → IsAhead page.runs s
page_IsAhead zero zero s page a b (sorted, perm, _, cut, _) id run l t =
    subst (Mem run) (sym cut) ((Perm.mem_iff perm).1 (candidates_Mem id run s.runs l))
page_IsAhead zero (suc o) s page a b p id run l t = cc
page_IsAhead (suc n) o s page a b p id run l t = cc

module _ {W : Type 0} (env : Env W) (ctx : Option String) where
  page_Completes :
      (a : App W) (r : Result StoreError RunPage)
      → IsKeyed a.store
      → list_runs a.store ctx every_run ≡ r
      → Completes (recover_page env ctx r a)
  page_Completes a (err e) keyed q = λ h. cc
  page_Completes a (ok page) keyed q =
      let (limit, offset, l, o, p) = ok-IsPage a.store ctx every_run page q in
      each_Completes env ctx page.runs a keyed (page_IsAhead limit offset a.store page l o p)

  -- Once a service has started without an error over a store that keeps each run under its own
  -- identifier, every run in the store is terminal: those that were left in the middle are stopped.
  pub start_service-AllTerminal :
      (s : MemoryStore) (w : W)
      → IsKeyed s
      → (start_service env ctx s w).0 ≡ none
      → AllTerminal (start_service env ctx s w).1.store
  unfolding start_service recover_runs new_service
  start_service-AllTerminal s w keyed =
      page_Completes (new_service s w) (list_runs s ctx every_run) keyed refl

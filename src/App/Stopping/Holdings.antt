-- ===== src/App/Stopping/Holdings.antt =====
-- internal/app/service.go: `stopIfActive` leaves the service's cancel functions alone.
use ai4se_coding_agent_harne.Prelude.{
  String, ◌≡◌, refl, ◌∙◌, inl, inr, Bool-cases, Option, Option-cases, [], ◌∷◌, Result, ok, err,
}
use ai4se_coding_agent_harne.Domain.{Run, RunEvent, transition, stopped}
use ai4se_coding_agent_harne.Domain.Transitions.{is_terminal}
use ai4se_coding_agent_harne.Store.{MemoryStore, StoreError, run_state_changed, get_run}
use ai4se_coding_agent_harne.App.{Env, App, Outcome, Schedule}
use ai4se_coding_agent_harne.App.Lifecycle.{
  Round, again, ended, ended_with, written, write_stopped, stop_found, stop_round, stop_loop,
  stop_if_active,
}

-- Where the service stands after a round.
abbrev after : {W : Type 0} → Round W → App W
after (again a) = a
after (ended e a) = a

module _ {W : Type 0} (env : Env W) where
  written_cancels :
      (s : MemoryStore) (r : Result StoreError RunEvent) (a : App W)
      → (after (written env (s, r) a)).cancels ≡ a.cancels
  written_cancels s (ok event) a = refl
  written_cancels s (err run_state_changed) a = refl
  written_cancels s (err e) a = refl

  write_cancels :
      (others : MemoryStore → MemoryStore) (ctx : Option String) (payload : String) (run : Run)
      (a : App W)
      → (after (write_stopped env others ctx payload run a)).cancels ≡ a.cancels
  unfolding write_stopped
  write_cancels others ctx payload run a =
      written_cancels _ _ (record a { world = (env.store_now (env.now a.world).1).1 })

  found_cancels :
      (others : MemoryStore → MemoryStore) (ctx : Option String) (payload : String) (a : App W)
      (r : Result StoreError Run)
      → (after (stop_found env others ctx payload a r)).cancels ≡ a.cancels
  found_cancels others ctx payload a (err e) = refl
  found_cancels others ctx payload a (ok run) = elim (Bool-cases (is_terminal run.state)) [
    | inl e ↦ rw (stop_found, e) refl
    | inr e ↦ elim (Option-cases (transition run.state stopped)) [
      | inl t ↦ rw (stop_found, e, t) (write_cancels others ctx payload run a)
      | inr (x, t) ↦ rw (stop_found, e, t) refl
    ]
  ]

  round_cancels :
      (others : MemoryStore → MemoryStore) (ctx : Option String) (run_id payload : String)
      (a : App W)
      → (after (stop_round env others ctx run_id payload a)).cancels ≡ a.cancels
  unfolding stop_round
  round_cancels others ctx run_id payload a =
      found_cancels others ctx payload a (get_run a.store ctx run_id)

  last_cancels : (r : Round W) → (ended_with r).1.cancels ≡ (after r).cancels
  last_cancels (again a) = refl
  last_cancels (ended e a) = refl

  rest_cancels :
      (schedule : Schedule) (ctx : Option String) (run_id payload : String) (r : Round W)
      → ((a : App W) → (stop_loop env schedule ctx run_id payload a).1.cancels ≡ a.cancels)
      → (elim r as (λ _. Outcome W) [
        | again a ↦ stop_loop env schedule ctx run_id payload a
        | ended e a ↦ (e, a)
      ]).1.cancels
        ≡ (after r).cancels
  rest_cancels schedule ctx run_id payload (again a) rest = rest a
  rest_cancels schedule ctx run_id payload (ended e a) rest = refl

  loop_cancels :
      (schedule : Schedule) (ctx : Option String) (run_id payload : String) (a : App W)
      → (stop_loop env schedule ctx run_id payload a).1.cancels ≡ a.cancels
  unfolding stop_loop
  loop_cancels [] ctx run_id payload a =
      last_cancels (stop_round env (λ s. s) ctx run_id payload a)
      ∙ round_cancels (λ s. s) ctx run_id payload a
  loop_cancels (others ∷ schedule) ctx run_id payload a =
      rest_cancels schedule ctx run_id payload (stop_round env others ctx run_id payload a)
        (loop_cancels schedule ctx run_id payload)
      ∙ round_cancels others ctx run_id payload a

  pub stop_if_active_cancels :
      (schedule : Schedule) (ctx : Option String) (run_id reason : String) (a : App W)
      → (stop_if_active env schedule ctx run_id reason a).1.cancels ≡ a.cancels
  unfolding stop_if_active
  stop_if_active_cancels schedule ctx run_id reason a =
      elim (Option-cases (env.reason_payload reason)) [
        | inl e ↦ rw (stop_if_active, e) refl
        | inr (payload, e) ↦ rw (stop_if_active, e) (loop_cancels schedule ctx run_id payload a)
      ]

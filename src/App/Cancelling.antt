-- ===== src/App/Cancelling.antt =====
-- internal/app/service.go: what `CancelRun` leaves.
use ai4se_coding_agent_harne.Prelude.{
  String, ◌==◌, ◌≡◌, refl, sym, subst, ◌∙◌, Table, insert, if◌then◌else◌, inl, inr, Bool-cases,
  true, false, Option, none, some, lookup, lookup-erase_self, ok, All, is_some,
}
use ai4se_coding_agent_harne.Domain.{Run}
use ai4se_coding_agent_harne.Domain.Transitions.{is_terminal}
use ai4se_coding_agent_harne.Store.{MemoryStore}
use ai4se_coding_agent_harne.App.{AppError, Env, App, Outcome, Schedule}
use ai4se_coding_agent_harne.App.Lifecycle.{
  active_run, release, released_found, release_if_terminal, stop_and_release, then_do,
  stop_if_active,
}
use ai4se_coding_agent_harne.App.Service.{cancel_run, cancel_active, loop_cancelled}
use ai4se_coding_agent_harne.App.Stopping.Holdings.{stop_if_active_cancels}
use ai4se_coding_agent_harne.App.Stopping.{
  IsRecorded, IsStopped, KeepsRun, get_run_recorded, stop_if_active_ends,
}

module _ {W : Type 0} (env : Env W) (run_id : String) where
  -- The world once the cancel function of the run is called, if `cancels` has one.
  abbrev pub cancelled_world : Table (Unit {0}) → W → W
  cancelled_world cancels w =
      if is_some (lookup run_id cancels) then env.cancel_context run_id w else w

  -- The service holds nothing any more for the run: its setup, its pending approval, its stopping mark
  -- and its cancel function are gone, its locks are released in the world `w`, and the cancel function
  -- that `before` had is called after that.
  abbrev pub IsReleased : App W → App W → Type 0
  IsReleased before a =
      (lookup run_id a.inputs ≡ none)
      × (lookup run_id a.pending ≡ none)
      × (lookup run_id a.stopping ≡ none)
      × (lookup run_id a.cancels ≡ none)
      × ((w : W) × (a.world ≡ cancelled_world before.cancels (env.release_run run_id w)))

  abbrev pub IsCancelled : App W → Outcome W → Type 0
  IsCancelled before (e, a) = (e ≡ none) × IsStopped run_id a.store × IsReleased before a

  -- What a cancellation gives, from what the loop's own cancellation gives. Where the loop refuses, its
  -- error is returned, the store and the world are as the loop left them, and the run has no stopping
  -- mark and still has its cancel function.
  abbrev pub Answers : App W → Option AppError × (MemoryStore × W) → Outcome W → Type 0
  Answers before (none, _) out = IsCancelled before out
  Answers before (some x, (s, w)) (e, a) =
      (e ≡ some x)
      × (a.store ≡ s)
      × (a.world ≡ w)
      × (lookup run_id a.stopping ≡ none)
      × (a.cancels ≡ before.cancels)

module _ {W : Type 0} (env : Env W) (schedule : Schedule) (run_id payload : String)
    (named : (run_id == "") ≡ false) where
  release_store : (a : App W) → (release env run_id a).store ≡ a.store
  unfolding release
  release_store a = elim (Bool-cases (is_some (lookup run_id a.cancels))) [
    | inl e ↦ rw e refl
    | inr e ↦ rw e refl
  ]

  release-IsReleased :
      (before a : App W)
      → a.cancels ≡ before.cancels
      → IsReleased env run_id before (release env run_id a)
  unfolding release
  release-IsReleased before a same = (
    lookup-erase_self run_id a.inputs,
    lookup-erase_self run_id a.pending,
    lookup-erase_self run_id a.stopping,
    lookup-erase_self run_id a.cancels,
    (
      a.world,
      elim (Bool-cases (is_some (lookup run_id a.cancels))) [
        | inl e ↦ rw (e, sym same, e) refl
        | inr e ↦ rw (e, sym same, e) refl
      ],
    ),
  )

  found_released :
      (before a : App W) (run : Run)
      → a.cancels ≡ before.cancels
      → lookup run_id a.store.runs ≡ some run
      → run.id ≡ run_id
      → is_terminal run.state ≡ true
      → IsCancelled env run_id before (released_found env a (ok run))
  found_released before a run same l i t =
      rw (released_found, t, i)
        (
          refl,
          (run, subst (λ s. lookup run_id s.runs ≡ some run) (sym (release_store a)) l, i, t),
          release-IsReleased before a same,
        )

  release_stopped :
      (before a : App W)
      → a.cancels ≡ before.cancels
      → IsStopped run_id a.store
      → IsCancelled env run_id before (release_if_terminal env none run_id a)
  unfolding release_if_terminal
  release_stopped before a same (run, l, i, t) =
      subst (λ g. IsCancelled env run_id before (released_found env a g))
        (sym (get_run_recorded a.store run_id run named l)) (found_released before a run same l i t)

  then_released :
      (before : App W) (o : Outcome W)
      → o.1.cancels ≡ before.cancels
      → o.0 ≡ none
      → IsStopped run_id o.1.store
      → IsCancelled env run_id before (then_do env o (release_if_terminal env none run_id))
  then_released before (none, a) same e stopped = release_stopped before a same stopped
  then_released before (some x, a) same e stopped = cc

  cancel_outcome :
      (before : App W) (x : Option AppError × (MemoryStore × W)) (a : App W)
      → a.cancels ≡ before.cancels
      → env.reason_payload "USER_CANCELLED" ≡ some payload
      → All (KeepsRun run_id) schedule
      → IsRecorded run_id x.1.0
      → Answers env run_id before x (loop_cancelled env schedule run_id x a)
  unfolding stop_and_release
  cancel_outcome before (some e, (s, w)) a same h tame kept =
      (refl, refl, refl, lookup-erase_self run_id a.stopping, same)
  cancel_outcome before (none, (s, w)) a same h tame kept =
      let reached = record a { store = s; world = w } in
      let (e, stopped) =
        stop_if_active_ends env run_id payload named schedule "USER_CANCELLED" reached h tame
          kept in
      then_released before (stop_if_active env schedule none run_id "USER_CANCELLED" reached)
        (stop_if_active_cancels env schedule none run_id "USER_CANCELLED" reached ∙ same) e stopped

  -- What cancelling an active run gives, where no other cancellation of it is under way, the reason
  -- can be encoded, and the loop and the other goroutines may write to the run but not remove it. If
  -- the loop accepts its cancellation, in a world in which the run's cancel function was called where
  -- there is one, then the call gives no error, the run's recorded state is terminal, the service
  -- holds nothing for the run any more and its locks are released. If the loop refuses, the call gives
  -- the loop's error, writes nothing more to the store, and removes the mark that would keep the run
  -- from being cancelled again.
  pub cancel_run_outcome :
      (ctx : Option String) (a : App W) (run : Run)
      → active_run env ctx run_id a ≡ ok run
      → lookup run_id a.stopping ≡ none
      → env.reason_payload "USER_CANCELLED" ≡ some payload
      → All (KeepsRun run_id) schedule
      → ((w : W) → IsRecorded run_id (env.cancel run_id a.store w).1.0)
      → Answers env run_id a
          (env.cancel run_id a.store (cancelled_world env run_id a.cancels a.world))
          (cancel_run env schedule ctx run_id a)
  unfolding cancel_run
  cancel_run_outcome ctx a run active free h tame kept =
      let w = cancelled_world env run_id a.cancels a.world in
      rw (active, cancel_active, free)
        (cancel_outcome a (env.cancel run_id a.store w)
          (record a { world = w; stopping = insert run_id tt a.stopping }) refl h tame (kept w))

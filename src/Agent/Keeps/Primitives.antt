-- ===== src/Agent/Keeps/Primitives.antt =====
-- The triples of the helpers of internal/agent/loop.go that write to the store.
use ai4se_coding_agent_harne.Prelude.{
  String, ◌≡◌, refl, sym, ap, subst, ◌∙◌, ◌≢◌, Option, none, some, List, lookup, Result, ok, err,
}
use ai4se_coding_agent_harne.Domain.{
  Time, Run, RunState, PermissionProfile, stopped, transition, RunEvent, TransitionError,
  RunState-discrete,
}
use ai4se_coding_agent_harne.Store.{
  MemoryStore, StoreError, update_run_if_state, append_event, normalize_run,
}
use ai4se_coding_agent_harne.Store.Updates.{update_run_if_state_ok, append_event-runs}
use ai4se_coding_agent_harne.Agent.Session.{
  Payload, AgentError, transition_error, marshal_error, Env, Session, Step, raise,
}
use ai4se_coding_agent_harne.Agent.Steps.{
  context_err, store_now, update_store, append_store, transition_payload, transition_to, log_event,
  stop, stored, if_valid, write_transition, write_stop,
}
use ai4se_coding_agent_harne.Agent.Triples.{Post, Triple, Triple-pure, Triple-bind, Triple-ite}
use ai4se_coding_agent_harne.Agent.Keeps.{Frame, Here, Done, Failed}

normalize_run-state : (run : Run) → (normalize_run run).state ≡ run.state
unfolding normalize_run
normalize_run-state run = refl

Triple-if_valid :
    {W A : Type 0} {P : Session W → Type 0} {Q : A → Session W → Type 0}
    {E : AgentError → Session W → Type 0} (o : Option TransitionError) (m : Step W A)
    → o ≡ none
    → Triple P m Q E
    → Triple P (if_valid o m) Q E
unfolding if_valid
Triple-if_valid none m q t = t
Triple-if_valid (some e) m q t = cc

module _ {W : Type 0} (env : Env W) (id : String) (profile : PermissionProfile)
    (baselines : List (String × String)) (I : Session W → Type 0)
    (frame : Frame env id profile baselines I) where
  abbrev At : RunState → Run → Session W → Type 0
  At = Here id profile baselines I

  pub context_err-keeps :
      (st : RunState) (run : Run) → Triple (At st run) (context_err env) (λ _. At st run) (Failed I)
  unfolding context_err
  context_err-keeps st run = record {
    at = λ s h. record {
      inv = frame.context s h.inv;
      stored = h.stored;
      run_id = h.run_id;
      run_profile = h.run_profile;
      bound = h.bound;
      in_state = h.in_state;
    };
  }

  store_now-keeps :
      (st : RunState) (run : Run) → Triple (At st run) (store_now env) (λ _. At st run) (Failed I)
  unfolding store_now
  store_now-keeps st run = record {
    at = λ s h. record {
      inv = frame.store_clock s h.inv;
      stored = h.stored;
      run_id = h.run_id;
      run_profile = h.run_profile;
      bound = h.bound;
      in_state = h.in_state;
    };
  }

  stored-Post :
      (Q : Unit {0} → Session W → Type 0) (s : Session W)
      (x : MemoryStore × Result StoreError RunEvent)
      → ((e : RunEvent) → x.1 ≡ ok e → Q tt (record s { store = x.0 }))
      → ((y : StoreError) → x.1 ≡ err y → I (record s { store = x.0 }))
      → Post Q (Failed I) (stored env x.1, record s { store = x.0 })
  stored-Post Q s (m, ok e) f g = f e refl
  stored-Post Q s (m, err y) f g = (g y refl, λ q. cc)

  update_store-keeps :
      (st to : RunState) (run : Run) (ctx : Option String) (now : Time) (ty payload : String)
      → Triple
          (At st run)
          (update_store env ctx now (record run { state = to }) run.state ty payload)
          (λ _. At to (record run { state = to }))
          (Failed I)
  unfolding update_store
  update_store-keeps st to run ctx now ty payload = record {
    at = λ s h.
        let moved : Run = record run { state = to } in
        let kept = frame.update s ctx now moved run.state ty payload h.inv in
        stored-Post _ s
          (update_run_if_state env.platform.sha256_hex s.store ctx now moved run.state ty payload)
          (λ e q.
            let (_, _, _, w) =
              update_run_if_state_ok env.platform.sha256_hex s.store ctx now moved run.state ty
                payload q in
            record {
              inv = kept;
              stored = (
                normalize_run moved,
                subst
                    (λ k.
                      lookup k
                        (update_run_if_state env.platform.sha256_hex s.store ctx now moved run.state
                          ty payload).0.runs
                      ≡ some (normalize_run moved))
                    h.run_id w.run_stored,
                normalize_run-state moved,
              );
              run_id = h.run_id;
              run_profile = h.run_profile;
              bound = h.bound;
              in_state = refl;
            })
          (λ y q. kept);
  }

  append_store-keeps :
      (st : RunState) (run : Run) (ctx : Option String) (now : Time) (run_id ty payload : String)
      → Triple (At st run) (append_store env ctx now run_id ty payload) (λ _. At st run) (Failed I)
  unfolding append_store
  append_store-keeps st run ctx now run_id ty payload = record {
    at = λ s h.
        let kept = frame.log s ctx now run_id ty payload h.inv in
        let (r, found, q) = h.stored in
        stored-Post _ s (append_event env.platform.sha256_hex s.store ctx now run_id ty payload)
          (λ e _. record {
            inv = kept;
            stored = (
              r,
              ap (lookup id)
                    (append_event-runs env.platform.sha256_hex s.store ctx now run_id ty payload)
                  ∙ found,
              q,
            );
            run_id = h.run_id;
            run_profile = h.run_profile;
            bound = h.bound;
            in_state = h.in_state;
          })
          (λ y _. kept);
  }

  -- Logging an event keeps everything.
  pub log_event-keeps :
      (st : RunState) (run : Run) (ty : String) (payload : Payload)
      → Triple (At st run) (log_event env run ty payload) (λ _. At st run) (Failed I)
  unfolding log_event
  log_event-keeps st run ty payload =
      Triple-bind (λ _. At st run) (context_err env) _ (context_err-keeps st run)
        (λ ctx.
          Triple-bind (λ _. At st run) (store_now env) _ (store_now-keeps st run)
            (λ now. append_store-keeps st run ctx now run.id ty _))

  raise-Failed :
      {A : Type 0} {P : Session W → Type 0} (e : AgentError) (Q : A → Session W → Type 0)
      → e ≢ transition_error
      → ((s : Session W) → P s → I s)
      → Triple P (raise e) Q (Failed I)
  unfolding raise
  raise-Failed e Q ne f = record { at = λ s h. (f s h, ne) }

  write_transition-keeps :
      (st to : RunState) (run : Run) (event : String) (payload : Option String)
      → Triple (At st run) (write_transition env run to event payload) (At to) (Failed I)
  write_transition-keeps st to run event none =
      raise-Failed marshal_error _ (λ q. cc) (λ s h. h.inv)
  write_transition-keeps st to run event (some payload) =
      let moved : Run = record run { state = to } in
      Triple-bind (λ _. At st run) (context_err env) _ (context_err-keeps st run)
        (λ ctx.
          Triple-bind (λ _. At st run) (store_now env) _ (store_now-keeps st run)
            (λ now.
              Triple-bind (λ _. At to moved) _ _
                (update_store-keeps st to run ctx now event payload)
                (λ _. Triple-pure moved _ (λ s h. h))))

  -- A permitted transition moves the run and its record together, or fails, and never for being
  -- invalid.
  pub transition_payload-keeps :
      (st to : RunState) (run : Run) (event : String) (value : Payload)
      → transition st to ≡ none
      → Triple (At st run) (transition_payload env run to event value) (At to) (Failed I)
  unfolding transition_payload
  transition_payload-keeps st to run event value ok_to = record {
    at = λ s h.
        let q : transition run.state to ≡ none = ap (λ x. transition x to) h.in_state ∙ ok_to in
        (Triple-if_valid (transition run.state to) _ q
            (write_transition-keeps st to run event (env.marshal value))).at
          s h;
  }

  pub transition_to-keeps :
      (st to : RunState) (run : Run) (event : String)
      → transition st to ≡ none
      → Triple (At st run) (transition_to env run to event) (At to) (Failed I)
  unfolding transition_to
  transition_to-keeps st to run event ok_to = transition_payload-keeps st to run event _ ok_to

  write_stop-keeps :
      (st : RunState) (run : Run) (code : String)
      → Triple (At st run) (write_stop env run code) (Done id I) (Failed I)
  write_stop-keeps st run code =
      Triple-bind (λ _. At st run) (store_now env) _ (store_now-keeps st run)
        (λ now.
          Triple-bind (λ _. At stopped (record run { state = stopped })) _ _
            (update_store-keeps st stopped run none now "RunStopped" _)
            (λ _. Triple-pure _ _ (λ s h. (h.inv, h.stored))))

  -- A stop from any state but a terminal one leaves the run stopped in the store too.
  pub stop-keeps :
      (st : RunState) (run : Run) (code : String)
      → transition st stopped ≡ none
      → Triple (At st run) (stop env run code) (Done id I) (Failed I)
  unfolding stop
  stop-keeps st run code ok_stop =
      Triple-ite (RunState-discrete run.state stopped) _ _
        (λ _.
          Triple-pure _ _
            (λ s h. let (r, found, q) = h.stored in (h.inv, (r, found, q ∙ sym h.in_state))))
        (λ _. record {
          at = λ s h.
              (Triple-if_valid (transition run.state stopped) _
                  (ap (λ x. transition x stopped) h.in_state ∙ ok_stop)
                  (write_stop-keeps st run code)).at
                s h;
        })

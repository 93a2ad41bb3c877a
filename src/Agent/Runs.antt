-- ===== src/Agent/Runs.antt =====
-- What a whole `Loop.run` of internal/agent/loop.go guarantees, in terms of its result, the store's
-- log and the actions that reached the executor.
use ai4se_coding_agent_harne.Prelude.{
  ℕ, ◌<◌, String, ◌≡◌, refl, sym, subst, ◌≢◌, false, Option, some, List, [], Result, ok, err,
}
use ai4se_coding_agent_harne.Domain.{Run, PermissionProfile, StructuredFeedback}
use ai4se_coding_agent_harne.Domain.Transitions.{is_terminal}
use mathlib.Core.List.{append-nil}
use ai4se_coding_agent_harne.Store.{MemoryStore, events_of}
use ai4se_coding_agent_harne.Store.Chain.{IsWellFormed}
use ai4se_coding_agent_harne.Store.History.{
  Extends, Call, step, update_if_state, append, step-IsWellFormed, step-Extends,
}
use ai4se_coding_agent_harne.Budget.Grants.{remaining}
use ai4se_coding_agent_harne.Agent.Session.{LoopResult, AgentError, transition_error, Env, Session}
use ai4se_coding_agent_harne.Agent.Loop.{run}
use ai4se_coding_agent_harne.Agent.Keeps.{Stored, Here}
use ai4se_coding_agent_harne.Agent.Safety.{FullFrame, Ended, run-Ended}
use ai4se_coding_agent_harne.Agent.Termination.{run-Ends}

-- A result names the state that the store holds for the run; an error is not an invalid transition.
abbrev pub Agrees : {W : Type 0} → String → Result AgentError LoopResult × Session W → Type 0
Agrees id (ok result, s) = Stored id result.state s
Agrees id (err e, s) = e ≢ transition_error

module _ {W : Type 0} (env : Env W) (r : Run) (s : Session W) (I : Session W → Type 0) where
  start : I s → Stored r.id r.state s → Here r.id r.profile s.baselines I r.state r s
  start i stored = record {
    inv = i;
    stored = stored;
    run_id = refl;
    run_profile = refl;
    bound = refl;
    in_state = refl;
  }

  -- What a primitive change keeps holds where the loop ends.
  pub kept_at_end :
      (fuel : ℕ) (last : Option StructuredFeedback)
      (full : FullFrame env r.id r.profile s.baselines I)
      → is_terminal r.state ≡ false
      → Stored r.id r.state s
      → I s
      → (x : Result AgentError LoopResult × Session W) → run env fuel r last s ≡ some x
      → I x.1 × Agrees r.id x
  kept_at_end fuel last full live stored i x e = split x (
      subst (Ended env r.id r.profile s.baselines I full) e
        (run-Ended env r.id r.profile s.baselines I full fuel r last s live (start i stored)))
    where
      split :
          (y : Result AgentError LoopResult × Session W)
          → Ended env r.id r.profile s.baselines I full (some y)
          → I y.1 × Agrees r.id y
      split (ok result, t) p = p
      split (err e, t) p = p

-- Nothing is asked of the state: every change keeps it.
anything :
    {W : Type 0} (env : Env W) (id : String) (profile : PermissionProfile)
    (baselines : List (String × String))
    → FullFrame env id profile baselines (λ _. Unit {0})
anything env id profile baselines = record {
  frame = record {
    context = λ s i. i;
    store_clock = λ s i. i;
    current = λ s run i. i;
    final = λ s run i. i;
    execute = λ s run action _ _ _ _ i. i;
    update = λ s ctx now run expected ty payload i. i;
    log = λ s ctx now run_id ty payload i. i;
    mutation = λ s i. i;
    progress = λ s p i. i;
    pending = λ s ps i. i;
  };
  budget_clock = λ s i. i;
  decide = λ s request i. i;
  baseline = λ s run i. i;
  decision = λ s i. i;
  repair = λ s i. i;
}

-- For a run that is in no terminal state and whose record the store holds in that state, with more
-- fuel than there are decisions and protocol repairs left, and whatever the outside world answers:
-- the loop ends, its result is the state that the store then holds for the run, and an error is
-- never that of an invalid transition.
pub run_total :
    {W : Type 0} (env : Env W) (fuel : ℕ) (r : Run) (last : Option StructuredFeedback)
    (s : Session W)
    → is_terminal r.state ≡ false
    → Stored r.id r.state s
    → remaining s.budget < fuel
    → (x : Result AgentError LoopResult × Session W) × (run env fuel r last s ≡ some x)
      × Agrees r.id x
run_total env fuel r last s live stored enough =
    let (x, e) =
      run-Ends env r.id r.profile s.baselines fuel r last s live enough
        (start env r s (λ _. Unit {0}) tt stored) in
    (
      x,
      e,
      (kept_at_end env r s (λ _. Unit {0}) fuel last (anything env r.id r.profile s.baselines) live
          stored tt x e).1,
    )

-- The event log of the store: linked, and an extension of the one at the start.
abbrev pub Audited : {W : Type 0} → Env W → MemoryStore → Session W → Type 0
Audited env before s =
    IsWellFormed env.platform.sha256_hex s.store × Extends env.platform.sha256_hex before s.store

Audited-step :
    {W : Type 0} (env : Env W) (before : MemoryStore) (s : Session W) (c : Call)
    → Audited env before s
    → Audited env before (record s { store = step env.platform.sha256_hex s.store c })
Audited-step env before s c (w, x) = (
  step-IsWellFormed env.platform.sha256_hex s.store c w,
  step-Extends env.platform.sha256_hex before s.store c x,
)

audited :
    {W : Type 0} (env : Env W) (before : MemoryStore) (id : String) (profile : PermissionProfile)
    (baselines : List (String × String))
    → FullFrame env id profile baselines (Audited env before)
unfolding step
audited env before id profile baselines = record {
  frame = record {
    context = λ s i. i;
    store_clock = λ s i. i;
    current = λ s run i. i;
    final = λ s run i. i;
    execute = λ s run action _ _ _ _ i. i;
    update = λ s ctx now run expected ty payload i.
        Audited-step env before s (update_if_state ctx now run expected ty payload) i;
    log = λ s ctx now run_id ty payload i.
        Audited-step env before s (append ctx now run_id ty payload) i;
    mutation = λ s i. i;
    progress = λ s p i. i;
    pending = λ s ps i. i;
  };
  budget_clock = λ s i. i;
  decide = λ s request i. i;
  baseline = λ s run i. i;
  decision = λ s i. i;
  repair = λ s i. i;
}

-- Where a loop ends for a run that is in no terminal state and whose record the store holds in that
-- state, if the store's log was linked then it still is, and each run's events at the start are a
-- prefix of its events at the end.
pub run-Audited :
    {W : Type 0} (env : Env W) (fuel : ℕ) (r : Run) (last : Option StructuredFeedback)
    (s : Session W)
    → is_terminal r.state ≡ false
    → Stored r.id r.state s
    → IsWellFormed env.platform.sha256_hex s.store
    → (x : Result AgentError LoopResult × Session W) → run env fuel r last s ≡ some x
    → Audited env s.store x.1
run-Audited env fuel r last s live stored linked x e =
    (kept_at_end env r s (Audited env s.store) fuel last
      (audited env s.store r.id r.profile s.baselines) live stored (linked, unchanged) x e).0
  where
    unchanged : Extends env.platform.sha256_hex s.store s.store
    unchanged id = ([], sym (append-nil (events_of s.store id)))

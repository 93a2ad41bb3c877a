-- ===== src/Store/History.antt =====
-- Sequences of calls on the store of internal/store/memory.go: the log only grows, and a call that
-- fails changes nothing.
use ai4se_coding_agent_harne.Prelude.{
  ℕ, ◌≡◌, refl, sym, subst, ◌∙◌, String, ◌==◌, true, Option, none, some, List, [], ◌∷◌, ◌++◌,
  if◌then◌else◌, is_some, lookup, insert, not, lookup-insert_self, Result, ok, err, arith,
}
use mathlib.Core.List.{append-nil, append_assoc}
use mathlib.Core.Logic.{if_pos, if_neg}
use ai4se_coding_agent_harne.Domain.{Time, Run, RunState, RunState-discrete, RunEvent, Artifact}
use ai4se_coding_agent_harne.Store.{
  MemoryStore, StoreError, put_run, if_in_state, events_of, append_locked, create_run,
  create_run_with_event, update_run, update_run_if_state, append_event, put_artifact, normalize_run,
  new_memory, run_state_changed, run_not_found, artifact_exists, owned_elsewhere,
}
use ai4se_coding_agent_harne.Store.Chain.{
  IsWellFormed, checked_cases, if_cases, append_locked-events, put_run-IsWellFormed,
  append_locked-IsWellFormed,
}

-- The calls that may write, each with what the context and the clock give it.
pub data Call : Type 0 where
  create : Option String → Run → Call
  create_with_event : Option String → Time → Run → String → String → Call
  update : Option String → Time → Run → String → String → Call
  update_if_state : Option String → Time → Run → RunState → String → String → Call
  append : Option String → Time → String → String → String → Call
  put : Option String → Artifact → Call

module _ (sha256_hex : List ℕ → String) where
  unfoldable pub step : MemoryStore → Call → MemoryStore
  step s (create ctx run) = (create_run s ctx run).0
  step s (create_with_event ctx now run ty payload) =
      (create_run_with_event sha256_hex s ctx now run ty payload).0
  step s (update ctx now run ty payload) = (update_run sha256_hex s ctx now run ty payload).0
  step s (update_if_state ctx now run expected ty payload) =
      (update_run_if_state sha256_hex s ctx now run expected ty payload).0
  step s (append ctx now id ty payload) = (append_event sha256_hex s ctx now id ty payload).0
  step s (put ctx artifact) = (put_artifact s ctx artifact).0

  unfoldable pub run : MemoryStore → List Call → MemoryStore
  run s [] = s
  run s (c ∷ cs) = run (step s c) cs

normalized_known :
    (s : MemoryStore) (r : Run) → is_some (lookup r.id (put_run (normalize_run r) s).runs) ≡ true
unfolding normalize_run
normalized_known s r = rw (lookup-insert_self r.id (normalize_run r) s.runs)

-- A property that the primitive changes keep is kept by every call.
module _ (sha256_hex : List ℕ → String) (P : MemoryStore → Type 0)
    (puts : (s : MemoryStore) (r : Run) → P s → P (put_run r s))
    (appends : (s : MemoryStore) (now : Time) (id ty payload : String)
      → is_some (lookup id s.runs) ≡ true
      → P s
      → P (append_locked sha256_hex s now id ty payload).0)
    (stores : (s : MemoryStore) (xs : List (String × Artifact))
      → P s
      → P (record s { artifacts = xs })) where
  update_cases :
      (s : MemoryStore) (now : Time) (r : Run) (ty payload : String)
      → is_some (lookup r.id s.runs) ≡ true
      → P s
      → P (put_run (normalize_run r) (append_locked sha256_hex s now r.id ty payload).0)
  update_cases s now r ty payload known h =
      puts _ (normalize_run r) (appends s now r.id ty payload known h)

  state_cases :
      (o : Option Run) (expected : RunState) (s : MemoryStore)
      (rest : MemoryStore × Result StoreError RunEvent)
      → P s
      → (is_some o ≡ true → P rest.0)
      → P (if_in_state o expected s rest).0
  unfolding if_in_state
  state_cases none expected s rest h k = h
  state_cases (some r) expected s rest h k = elim (RunState-discrete r.state expected) [
    | yes e ↦
        subst (λ x. P x.0)
          (sym (if_pos (RunState-discrete r.state expected) e rest (s, err run_state_changed)))
          (k refl)
    | no ne ↦
        subst (λ x. P x.0)
          (sym (if_neg (RunState-discrete r.state expected) ne rest (s, err run_state_changed))) h
  ]

  pub step_cases : (s : MemoryStore) (c : Call) → P s → P (step sha256_hex s c)
  unfolding step create_run create_run_with_event update_run update_run_if_state append_event
      put_artifact
  step_cases s (create ctx r) h =
      checked_cases P _ s _ h (if_cases P _ _ _ (λ _. h) (λ _. puts s (normalize_run r) h))
  step_cases s (create_with_event ctx now r ty payload) h = checked_cases P _ s _ h (
      if_cases P _ _ _ (λ _. h)
        (λ _.
          appends (put_run (normalize_run r) s) now r.id ty payload (normalized_known s r)
            (puts s (normalize_run r) h)))
  step_cases s (update ctx now r ty payload) h =
      checked_cases P _ s _ h
        (if_cases P _ _ _ (λ known. update_cases s now r ty payload known h) (λ _. h))
  step_cases s (update_if_state ctx now r expected ty payload) h = checked_cases P _ s _ h (
      state_cases (lookup r.id s.runs) expected s _ h
        (λ known. update_cases s now r ty payload known h))
  step_cases s (append ctx now id ty payload) h =
      checked_cases P _ s _ h
        (if_cases P _ _ _ (λ known. appends s now id ty payload known h) (λ _. h))
  step_cases s (put ctx artifact) h =
      let stored = insert artifact.id artifact s.artifacts in
      checked_cases P _ s _ h (
        if_cases {A = Unit {0}} P (not (is_some (lookup artifact.run_id s.runs)))
          (s, err run_not_found)
          (if owned_elsewhere (lookup artifact.id s.artifacts) artifact.run_id
            then (s, err artifact_exists)
            else (record s { artifacts = stored }, ok tt))
          (λ _. h)
          (λ _.
            if_cases {A = Unit {0}} P
              (owned_elsewhere (lookup artifact.id s.artifacts) artifact.run_id)
              (s, err artifact_exists) (record s { artifacts = stored }, ok tt) (λ _. h)
              (λ _. stores s stored h)))

module _ (sha256_hex : List ℕ → String) where
  pub step-IsWellFormed :
      (s : MemoryStore) (c : Call)
      → IsWellFormed sha256_hex s
      → IsWellFormed sha256_hex (step sha256_hex s c)
  step-IsWellFormed =
      step_cases sha256_hex (IsWellFormed sha256_hex) (put_run-IsWellFormed sha256_hex)
        (append_locked-IsWellFormed sha256_hex)
        (λ s xs w. record { linked = w.linked; recorded = w.recorded; keyed = w.keyed })

  new_memory-IsWellFormed : IsWellFormed sha256_hex new_memory
  unfolding new_memory lookup
  new_memory-IsWellFormed = record {
    linked = λ id. tt;
    recorded = λ id e. refl;
    keyed = λ id r e. cc;
  }

  run-IsWellFormed :
      (s : MemoryStore) (cs : List Call)
      → IsWellFormed sha256_hex s
      → IsWellFormed sha256_hex (run sha256_hex s cs)
  unfolding run
  run-IsWellFormed s [] w = w
  run-IsWellFormed s (c ∷ cs) w =
      run-IsWellFormed (step sha256_hex s c) cs (step-IsWellFormed s c w)

  -- After any calls on a new store, the events of every run are numbered from 1 without gaps and
  -- each carries the hash of the one before it and its own; a run without a record has no events.
  pub run_new-IsWellFormed :
      (cs : List Call) → IsWellFormed sha256_hex (run sha256_hex new_memory cs)
  run_new-IsWellFormed cs = run-IsWellFormed new_memory cs new_memory-IsWellFormed

  -- What is logged stays logged.
  abbrev pub Extends : MemoryStore → MemoryStore → Type 0
  Extends s s' =
      (id : String) → (added : List RunEvent) × (events_of s' id ≡ events_of s id ++ added)

  append_locked-Extends :
      (s s' : MemoryStore) (now : Time) (id ty payload : String)
      → Extends s s'
      → Extends s (append_locked sha256_hex s' now id ty payload).0
  append_locked-Extends s s' now id ty payload x j =
      let (added, e) = x j in
      let event = (append_locked sha256_hex s' now id ty payload).1 in
      (
        if id == j then added ++ event ∷ [] else added,
        append_locked-events sha256_hex s' now id ty payload j
            ∙ ground (arith, e, append_assoc (events_of s j) added (event ∷ [])),
      )

  pub step-Extends :
      (s s' : MemoryStore) (c : Call) → Extends s s' → Extends s (step sha256_hex s' c)
  step-Extends s s' c x =
      step_cases sha256_hex (Extends s) (λ t r x. x)
        (λ t now id ty payload known x. append_locked-Extends s t now id ty payload x) (λ t xs x. x)
        s' c x

  run-Extends_trans :
      (s s' : MemoryStore) (cs : List Call) → Extends s s' → Extends s (run sha256_hex s' cs)
  unfolding run
  run-Extends_trans s s' [] x = x
  run-Extends_trans s s' (c ∷ cs) x =
      run-Extends_trans s (step sha256_hex s' c) cs (step-Extends s s' c x)

  -- No sequence of calls removes, changes or reorders an event of any run.
  pub run-Extends : (s : MemoryStore) (cs : List Call) → Extends s (run sha256_hex s cs)
  run-Extends s cs = run-Extends_trans s s cs (λ id. ([], sym (append-nil (events_of s id))))

-- ===== src/Store/Updates.antt =====
-- The conditional update of internal/store/memory.go, which the agent loop writes through, and the
-- listing of events.
use ai4se_coding_agent_harne.Prelude.{
  ℕ, zero, suc, ◌-◌, ◌≡◌, refl, sym, ap, subst, ◌∙◌, String, ◌==◌, eq_refl, Bool, true, false,
  Option, none, some, List, [], ◌∷◌, ◌++◌, if◌then◌else◌, drop, is_some, lookup, lookup-insert,
  lookup-insert_self, Result, ok, err, arith,
}
use native.Mathlib.Decide.{dec_le}
use mathlib.Core.Logic.{if_pos, if_neg}
use ai4se_coding_agent_harne.Domain.{Time, Run, RunState, RunState-discrete, RunEvent}
use ai4se_coding_agent_harne.Store.{
  MemoryStore, StoreError, checked, put_run, if_in_state, events_of, append_locked,
  update_run_if_state, run_state_changed, run_not_found, then_put, returned, returned,
  run_not_found, append_event, normalize_run, events_from, list_events,
}
use ai4se_coding_agent_harne.Store.Chain.{
  IsWellFormed, append_locked-events, append_locked-runs, append_locked-type, Linked,
}

ok-injective : {a b : RunEvent} → ◌≡◌ {A = Result StoreError RunEvent} (ok a) (ok b) → a ≡ b
ok-injective h = cc

-- What a successful write of `run` leaves: the new event at the end of its log, of the given type
-- and payload, its record replaced, and nothing else touched.
pub record Written (s s' : MemoryStore) (run : Run) (ty payload : String) (e : RunEvent)
    : Type 0 where
  pub run_stored : lookup run.id s'.runs ≡ some (normalize_run run)
  pub logged : events_of s' run.id ≡ events_of s run.id ++ e ∷ []
  pub event_type : e.type ≡ ty
  pub event_payload : e.payload ≡ payload
  pub others : (id : String) → (run.id == id) ≡ false → lookup id s'.runs ≡ lookup id s.runs
  pub other_logs : (id : String) → (run.id == id) ≡ false → events_of s' id ≡ events_of s id

checked_ok :
    {A : Type 0} (e : Option StoreError) (s : MemoryStore)
    (rest : MemoryStore × Result StoreError A) {a : A}
    → (checked e s rest).1 ≡ ok a
    → (e ≡ none) × (checked e s rest ≡ rest)
unfolding checked
checked_ok none s rest h = (refl, refl)
checked_ok (some e) s rest h = cc

checked_err :
    {A : Type 0} (e : Option StoreError) (s : MemoryStore)
    (rest : MemoryStore × Result StoreError A) {x : StoreError}
    → ((y : StoreError) → rest.1 ≡ err y → rest.0 ≡ s)
    → (checked e s rest).1 ≡ err x
    → (checked e s rest).0 ≡ s
unfolding checked
checked_err none s rest k h = k _ h
checked_err (some e) s rest k h = refl

if_in_state_ok :
    (o : Option Run) (expected : RunState) (s : MemoryStore)
    (rest : MemoryStore × Result StoreError RunEvent) {e : RunEvent}
    → (if_in_state o expected s rest).1 ≡ ok e
    → (r : Run) × (o ≡ some r) × (r.state ≡ expected) × (if_in_state o expected s rest ≡ rest)
unfolding if_in_state
if_in_state_ok none expected s rest h = cc
if_in_state_ok (some r) expected s rest h = elim (RunState-discrete r.state expected) [
  | yes q ↦
      (r, refl, q, if_pos (RunState-discrete r.state expected) q rest (s, err run_state_changed))
  | no ne ↦ cc (
      ap (λ x. x.1)
        (if_neg (RunState-discrete r.state expected) ne rest (s, err run_state_changed)))
]

if_in_state_err :
    (o : Option Run) (expected : RunState) (s : MemoryStore)
    (rest : MemoryStore × Result StoreError RunEvent) {x : StoreError}
    → ((y : StoreError) → rest.1 ≡ err y → rest.0 ≡ s)
    → (if_in_state o expected s rest).1 ≡ err x
    → (if_in_state o expected s rest).0 ≡ s
unfolding if_in_state
if_in_state_err none expected s rest k h = refl
if_in_state_err (some r) expected s rest {x = x} k h = elim (RunState-discrete r.state expected) [
  | yes q ↦
      let p = if_pos (RunState-discrete r.state expected) q rest (s, err run_state_changed) in
      ap (λ y. y.0) p ∙ k x (sym (ap (λ y. y.1) p) ∙ h)
  | no ne ↦
      ap (λ y. y.0) (if_neg (RunState-discrete r.state expected) ne rest (s, err run_state_changed))
]

module _ (sha256_hex : List ℕ → String) where
  normalize_run-id : (run : Run) → (normalize_run run).id ≡ run.id
  unfolding normalize_run
  normalize_run-id run = refl

  write-Written :
      (s : MemoryStore) (now : Time) (run : Run) (ty payload : String)
      → let r = append_locked sha256_hex s now run.id ty payload in
        Written s (put_run (normalize_run run) r.0) run ty payload r.1
  unfolding normalize_run
  write-Written s now run ty payload =
      let r = append_locked sha256_hex s now run.id ty payload in
      let (t, p) = append_locked-type sha256_hex s now run.id ty payload in
      let same = append_locked-events sha256_hex s now run.id ty payload in
      record {
        run_stored = lookup-insert_self run.id (normalize_run run) r.0.runs;
        logged = same run.id ∙ rw (eq_refl run.id);
        event_type = t;
        event_payload = p;
        others = λ id ne.
            lookup-insert run.id id (normalize_run run) r.0.runs
            ∙ rw (ne, append_locked-runs sha256_hex s now run.id ty payload);
        other_logs = λ id ne. same id ∙ rw ne;
      }

  pub update_run_if_state_ok :
      (s : MemoryStore) (ctx : Option String) (now : Time) (run : Run) (expected : RunState)
      (ty payload : String) {e : RunEvent}
      → (update_run_if_state sha256_hex s ctx now run expected ty payload).1 ≡ ok e
      → (r : Run) × (lookup run.id s.runs ≡ some r)
        × (r.state ≡ expected)
        × Written s
            (update_run_if_state sha256_hex s ctx now run expected ty payload).0
            run
            ty
            payload
            e
  unfolding update_run_if_state
  update_run_if_state_ok s ctx now run expected ty payload {e = e} h =
      let a = append_locked sha256_hex s now run.id ty payload in
      let body = then_put (normalize_run run) a in
      let tested = if_in_state (lookup run.id s.runs) expected s body in
      let (_, c) = checked_ok _ s tested h in
      let (r, found, q, i) =
        if_in_state_ok (lookup run.id s.runs) expected s body (sym (ap (λ x. x.1) c) ∙ h) in
      let ev : a.1 ≡ e = ok-injective (sym (ap (λ x. x.1) (c ∙ i)) ∙ h) in
      (
        r,
        found,
        q,
        subst (λ x. Written s x.0 run ty payload e) (sym (c ∙ i))
            (subst (λ v. Written s body.0 run ty payload v) ev
              (write-Written s now run ty payload)),
      )

  -- A conditional update that fails changes nothing.
  pub update_run_if_state_err :
      (s : MemoryStore) (ctx : Option String) (now : Time) (run : Run) (expected : RunState)
      (ty payload : String) {x : StoreError}
      → (update_run_if_state sha256_hex s ctx now run expected ty payload).1 ≡ err x
      → (update_run_if_state sha256_hex s ctx now run expected ty payload).0 ≡ s
  unfolding update_run_if_state
  update_run_if_state_err s ctx now run expected ty payload h =
      checked_err _ s _ (λ y. if_in_state_err (lookup run.id s.runs) expected s _ (λ z. λ g. cc)) h

module _ (sha256_hex : List ℕ → String) where
  drop-nil : (k : ℕ) → drop {A = RunEvent} k [] ≡ []
  drop-nil zero = refl
  drop-nil (suc k) = refl

  events_from-drop :
      (id previous : String) (n from : ℕ) (es : List RunEvent)
      → Linked sha256_hex id previous n es
      → events_from from es ≡ drop (from - suc n) es
  unfolding events_from
  events_from-drop id previous n from [] l = sym (drop-nil (from - suc n))
  events_from-drop id previous n from (e ∷ es) (_, q, _, _, l) =
      let ih = events_from-drop id e.hash (suc n) from es l in
      elim (dec_le from (suc n)) [
        | yes h ↦
            let a : from - suc n ≡ 0 = omega arith in
            let b : from - suc (suc n) ≡ 0 = omega arith in rw (a, q) (ground (arith, ih, b))
        | no h ↦
            let a : from - suc n ≡ suc (from - suc (suc n)) = omega arith in
            rw (a, q) (ground (arith, ih))
      ]

  -- In a well-formed store, a listing from a sequence number that succeeds skips exactly the events
  -- before that number.
  pub list_events_lem :
      (s : MemoryStore) (ctx : Option String) (id : String) (from : ℕ) {es : List RunEvent}
      → IsWellFormed sha256_hex s
      → list_events s ctx id from ≡ ok es
      → es ≡ drop (from - 1) (events_of s id)
  unfolding list_events
  list_events_lem s ctx id from w h =
      ground (arith, events_from-drop id "" 0 from (events_of s id) (w.linked id))

-- Logging an event leaves the records of the runs alone.
module _ (sha256_hex : List ℕ → String) where
  runs_checked :
      {A : Type 0} (e : Option StoreError) (s : MemoryStore)
      (rest : MemoryStore × Result StoreError A)
      → rest.0.runs ≡ s.runs
      → (checked e s rest).0.runs ≡ s.runs
  unfolding checked
  runs_checked none s rest h = h
  runs_checked (some e) s rest h = refl

  runs_if :
      (b : Bool) (s : MemoryStore) (x : MemoryStore × RunEvent) (y : StoreError)
      → x.0.runs ≡ s.runs
      → (if b then returned x else (s, err y)).0.runs ≡ s.runs
  runs_if true s x y h = h
  runs_if false s x y h = refl

  pub append_event-runs :
      (s : MemoryStore) (ctx : Option String) (now : Time) (id ty payload : String)
      → (append_event sha256_hex s ctx now id ty payload).0.runs ≡ s.runs
  unfolding append_event
  append_event-runs s ctx now id ty payload = runs_checked _ s _ (
      runs_if (is_some (lookup id s.runs)) s (append_locked sha256_hex s now id ty payload)
        run_not_found (append_locked-runs sha256_hex s now id ty payload))

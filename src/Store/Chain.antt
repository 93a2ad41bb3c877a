-- ===== src/Store/Chain.antt =====
-- The event log of internal/store/memory.go is a hash chain, kept by every operation.
use ai4se_coding_agent_harne.Prelude.{
  ℕ, suc, ◌+◌, ◌≡◌, refl, subst, ◌∙◌, inl, inr, String, ◌==◌, eq_iff, Bool, true, false, Option,
  none, some, Bool-cases, List, [], ◌∷◌, ◌++◌, if◌then◌else◌, length, is_some, lookup,
  lookup-insert, Result, arith,
}
use ai4se_coding_agent_harne.Domain.{Time, Run, RunEvent}
use ai4se_coding_agent_harne.Store.Bytes.{hash_event}
use ai4se_coding_agent_harne.Store.{
  MemoryStore, StoreError, checked, put_run, events_of, last_hash, new_event, append_locked,
}

module _ (sha256_hex : List ℕ → String) where
  -- The events after one with hash `previous`, which was number `n` of the run.
  abbrev pub Linked : String → String → ℕ → List RunEvent → Type 0
  Linked run_id previous n [] = Unit {0}
  Linked run_id previous n (e ∷ es) =
      (e.run_id ≡ run_id)
      × (e.sequence ≡ suc n)
      × (e.previous_hash ≡ previous)
      × (e.hash ≡ hash_event sha256_hex e)
      × Linked run_id e.hash (suc n) es

  -- The hash that the next event links to, after one with hash `previous`.
  tip : String → List RunEvent → String
  tip previous [] = previous
  tip previous (e ∷ es) = tip e.hash es

  last_hash-tip :
      (p : String) (e : RunEvent) (es : List RunEvent) → last_hash (e ∷ es) ≡ tip p (e ∷ es)
  unfolding last_hash tip
  last_hash-tip p e [] = refl
  last_hash-tip p e (f ∷ es) = last_hash-tip e.hash f es

  last_hash_lem : (es : List RunEvent) → last_hash es ≡ tip "" es
  unfolding last_hash tip
  last_hash_lem [] = refl
  last_hash_lem (e ∷ es) = last_hash-tip "" e es

  Linked-append :
      (run_id previous : String) (n : ℕ) (es : List RunEvent) (e : RunEvent)
      → Linked run_id previous n es
      → e.run_id ≡ run_id
      → e.sequence ≡ suc (n + length es)
      → e.previous_hash ≡ tip previous es
      → e.hash ≡ hash_event sha256_hex e
      → Linked run_id previous n (es ++ e ∷ [])
  unfolding tip
  Linked-append run_id previous n [] e l i s h d = (i, omega arith, h, d, tt)
  Linked-append run_id previous n (x ∷ es) e (a, b, c, f, l) i s h d =
      (a, b, c, f, Linked-append run_id x.hash (suc n) es e l i (omega arith) h d)

  new_event_parts :
      (run_id : String) (n : ℕ) (ty payload previous : String) (at : Time)
      → let e = new_event sha256_hex run_id n ty payload previous at in
        (e.run_id ≡ run_id)
        × (e.sequence ≡ n)
        × (e.previous_hash ≡ previous)
        × (e.hash ≡ hash_event sha256_hex e)
        × (e.type ≡ ty)
        × (e.payload ≡ payload)
  unfolding new_event hash_event
  new_event_parts run_id n ty payload previous at = (refl, refl, refl, refl, refl, refl)

-- The cases of an operation, each with the fact that it is in.
module _ {A : Type 0} (P : MemoryStore → Type 0) where
  pub checked_cases :
      (e : Option StoreError) (s : MemoryStore) (rest : MemoryStore × Result StoreError A)
      → P s
      → P rest.0
      → P (checked e s rest).0
  unfolding checked
  checked_cases none s rest a b = b
  checked_cases (some e) s rest a b = a

  pub if_cases :
      (b : Bool) (x y : MemoryStore × Result StoreError A)
      → (b ≡ true → P x.0)
      → (b ≡ false → P y.0)
      → P (if b then x else y).0
  if_cases true x y a c = a refl
  if_cases false x y a c = c refl

module _ (sha256_hex : List ℕ → String) where
  pub record IsWellFormed (s : MemoryStore) : Type 0 where
    pub linked : (id : String) → Linked sha256_hex id "" 0 (events_of s id)
    pub recorded : (id : String) → is_some (lookup id s.runs) ≡ false → events_of s id ≡ []
    pub keyed : (id : String) (r : Run) → lookup id s.runs ≡ some r → r.id ≡ id

  pub append_locked-events :
      (s : MemoryStore) (now : Time) (id ty payload j : String)
      → let r = append_locked sha256_hex s now id ty payload in
        events_of r.0 j ≡ (if id == j then events_of s j ++ r.1 ∷ [] else events_of s j)
  unfolding append_locked
  append_locked-events s now id ty payload j = ground (
    arith,
    lookup-insert id j (events_of s id ++ (append_locked sha256_hex s now id ty payload).1 ∷ [])
        s.events,
    eq_iff id j,
  )

  pub append_locked-runs :
      (s : MemoryStore) (now : Time) (id ty payload : String)
      → (append_locked sha256_hex s now id ty payload).0.runs ≡ s.runs
  unfolding append_locked
  append_locked-runs s now id ty payload = refl

  append_locked-Linked :
      (s : MemoryStore) (now : Time) (id ty payload : String)
      → Linked sha256_hex id "" 0 (events_of s id)
      → Linked sha256_hex id "" 0
          (events_of s id ++ (append_locked sha256_hex s now id ty payload).1 ∷ [])
  unfolding append_locked
  append_locked-Linked s now id ty payload l =
      let (i, n, h, d, _, _) =
        new_event_parts sha256_hex id (length (events_of s id) + 1) ty payload
          (last_hash (events_of s id)) now in
      Linked-append sha256_hex id "" 0 (events_of s id) _ l i (omega (arith, n))
        (h ∙ last_hash_lem sha256_hex (events_of s id)) d

  pub append_locked-IsWellFormed :
      (s : MemoryStore) (now : Time) (id ty payload : String)
      → is_some (lookup id s.runs) ≡ true
      → IsWellFormed s
      → IsWellFormed (append_locked sha256_hex s now id ty payload).0
  append_locked-IsWellFormed s now id ty payload known w = record {
    linked = λ j. rw (append_locked-events s now id ty payload j) (elim (Bool-cases (id == j)) [
      | inl e ↦ rw e (
          subst
            (λ k.
              Linked sha256_hex k "" 0
                (events_of s k ++ (append_locked sha256_hex s now id ty payload).1 ∷ []))
            ((eq_iff id j).0 e) (append_locked-Linked s now id ty payload (w.linked id)))
      | inr e ↦ rw e (w.linked j)
    ]);
    recorded = λ j absent.
        let gone : is_some (lookup j s.runs) ≡ false =
          subst (λ m. is_some (lookup j m) ≡ false) (append_locked-runs s now id ty payload)
            absent in
        rw (append_locked-events s now id ty payload j) (elim (Bool-cases (id == j)) [
          | inl e ↦ cc (gone, known, (eq_iff id j).0 e)
          | inr e ↦ rw e (w.recorded j gone)
        ]);
    keyed = λ j r e.
        w.keyed j r (subst (λ m. lookup j m ≡ some r) (append_locked-runs s now id ty payload) e);
  }

  pub put_run-IsWellFormed :
      (s : MemoryStore) (run : Run) → IsWellFormed s → IsWellFormed (put_run run s)
  put_run-IsWellFormed s run w = record {
    linked = w.linked;
    recorded = λ j absent. w.recorded j (ground (arith, lookup-insert run.id j run s.runs));
    keyed =
        λ j r e. ground (arith, lookup-insert run.id j run s.runs, eq_iff run.id j, w.keyed j r);
  }

  pub append_locked-type :
      (s : MemoryStore) (now : Time) (id ty payload : String)
      → let e = (append_locked sha256_hex s now id ty payload).1 in
        (e.type ≡ ty) × (e.payload ≡ payload)
  unfolding append_locked new_event
  append_locked-type s now id ty payload = (refl, refl)

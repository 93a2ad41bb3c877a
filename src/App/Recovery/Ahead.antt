-- ===== src/App/Recovery/Ahead.antt =====
-- internal/app/service.go: which runs are still to come while a service recovers.
use ai4se_coding_agent_harne.Prelude.{
  String, ◌==◌, eq_iff, ◌≡◌, refl, sym, ap, subst, ◌∙◌, ◌⊎◌, inl, inr, Bool-cases, true, false,
  some, List, ◌∷◌, lookup,
}
use mathlib.Core.Logic.Or
use mathlib.Core.List.{Mem, Mem-prop, eq-or-mem_of_mem-cons}
use ai4se_coding_agent_harne.Domain.{Run, RunEvent, stopped}
use ai4se_coding_agent_harne.Domain.Transitions.{is_terminal}
use ai4se_coding_agent_harne.Store.{MemoryStore, normalize_run}
use ai4se_coding_agent_harne.Store.Updates.{Written}

-- Runs are recorded under their own identifiers.
abbrev pub IsKeyed : MemoryStore → Type 0
IsKeyed s = (id : String) (run : Run) → lookup id s.runs ≡ some run → run.id ≡ id

abbrev pub AllTerminal : MemoryStore → Type 0
AllTerminal s =
    (id : String) (run : Run) → lookup id s.runs ≡ some run → is_terminal run.state ≡ true

-- The runs that are not terminal are still to come.
abbrev pub IsAhead : List Run → MemoryStore → Type 0
IsAhead runs s =
    (id : String) (run : Run)
    → lookup id s.runs ≡ some run
    → is_terminal run.state ≡ false
    → Mem run runs

later_Ahead : (r run : Run) (runs : List Run) → Mem run (r ∷ runs) → (run ≡ r → ⊥) → Mem run runs
later_Ahead r run runs m apart = Or.resolve_left Mem-prop (eq-or-mem_of_mem-cons m) apart

pub IsAhead-terminal :
    (r : Run) (runs : List Run) (s : MemoryStore)
    → IsAhead (r ∷ runs) s
    → is_terminal r.state ≡ true
    → IsAhead runs s
IsAhead-terminal r runs s ahead done id run l t =
    later_Ahead r run runs (ahead id run l t)
      (λ e. let other : is_terminal run.state ≡ true = ap (λ r. is_terminal r.state) e ∙ done in cc)

normalized_state : (run : Run) → (normalize_run run).state ≡ run.state
unfolding normalize_run
normalized_state run = refl

normalized_id : (run : Run) → (normalize_run run).id ≡ run.id
unfolding normalize_run
normalized_id run = refl

module _ (s s' : MemoryStore) (moved : Run) (ty payload : String) (event : RunEvent)
    (written : Written s s' moved ty payload event) where
  elsewhere :
      (id : String) (run : Run)
      → lookup id s'.runs ≡ some run
      → ((moved.id ≡ id) × (run ≡ normalize_run moved))
        ⊎ ((moved.id ≡ id → ⊥) × (lookup id s.runs ≡ some run))
  elsewhere id run l = elim (Bool-cases (moved.id == id)) [
    | inl e ↦
        let same : moved.id ≡ id = (eq_iff moved.id id).0 e in
        let here : lookup id s'.runs ≡ some (normalize_run moved) =
          subst (λ i. lookup i s'.runs ≡ some (normalize_run moved)) same written.run_stored in
        inl (same, cc)
    | inr e ↦ inr (
      λ same. let held : (moved.id == id) ≡ true = (eq_iff moved.id id).1 same in cc,
      sym (written.others id e) ∙ l,
    )
  ]

  pub IsKeyed-written : IsKeyed s → IsKeyed s'
  IsKeyed-written keyed id run l = elim (elsewhere id run l) [
    | inl (same, e) ↦ ap (λ r. r.id) e ∙ normalized_id moved ∙ same
    | inr (_, l') ↦ keyed id run l'
  ]

  pub IsAhead-written :
      (r : Run) (runs : List Run)
      → moved.id ≡ r.id
      → moved.state ≡ stopped
      → IsKeyed s
      → IsAhead (r ∷ runs) s
      → IsAhead runs s'
  IsAhead-written r runs i st keyed ahead id run l t = elim (elsewhere id run l) [
    | inl (same, e) ↦
        let ended : run.state ≡ stopped = ap (λ r. r.state) e ∙ normalized_state moved ∙ st in
        let done : is_terminal run.state ≡ true = ap is_terminal ended in absurd cc
    | inr (apart, l') ↦
        later_Ahead r run runs (ahead id run l' t)
          (λ e. apart (i ∙ sym (ap (λ r. r.id) e) ∙ keyed id run l'))
  ]

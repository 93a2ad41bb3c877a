-- ===== src/Domain/Transitions.antt =====
-- The run state machine of internal/domain/state.go as a graph, and the paths through it.
use mathlib.Core.List.{append_assoc}
use ai4se_coding_agent_harne.Prelude.{
  ◌≡◌, refl, subst, ap, List, [], ◌∷◌, ◌++◌, ◌≢◌, ◌↔◌, true, false, none, some, arith, Bool,
}
use ai4se_coding_agent_harne.Domain.{
  RunState, executing, validating, final_validating, succeeded, review_complete, stopped,
  allowed_transitions, transition, invalid_transition,
}

abbrev pub is_terminal : RunState → Bool
is_terminal succeeded = true
is_terminal review_complete = true
is_terminal stopped = true
is_terminal _ = false

-- A state is terminal exactly when `transition` refuses every successor; every other state may be
-- stopped.
pub terminal-transition :
    (s : RunState)
    → ((is_terminal s ≡ true) ↔ ((t : RunState) → transition s t ≡ some invalid_transition))
      × ((is_terminal s ≡ false) ↔ (transition s stopped ≡ none))
unfolding transition allowed_transitions
terminal-transition succeeded = ((λ _ t. refl, λ _. refl), ground arith)
terminal-transition review_complete = ((λ _ t. refl, λ _. refl), ground arith)
terminal-transition stopped = ((λ _ t. refl, λ _. refl), ground arith)
terminal-transition s = ((λ e. cc, λ h. cc (h stopped)), ground arith)

-- Accepted transitions, one after another.
pub data Route : RunState → RunState → Type 0 where
  here : {s : RunState} → Route s s
  step : {s t u : RunState} → transition s t ≡ none → Route t u → Route s u

-- The state before `succeeded` is `final_validating`, the one before that is `validating`, and the one
-- before that `executing`.
before_succeeded : (s : RunState) → transition s succeeded ≡ none → s ≡ final_validating
unfolding transition allowed_transitions
before_succeeded s h = ground arith

before_final : (s : RunState) → transition s final_validating ≡ none → s ≡ validating
unfolding transition allowed_transitions
before_final s h = ground arith

before_validating : (s : RunState) → transition s validating ≡ none → s ≡ executing
unfolding transition allowed_transitions
before_validating s h = ground arith

-- The states that a path goes through, its two ends included.
abbrev pub states : {s t : RunState} → Route s t → List RunState
states {s = s} here = s ∷ []
states {s = s} (step _ p) = s ∷ states p

states_end :
    {s t : RunState} (p : Route s t) → (before : List RunState) × (states p ≡ before ++ t ∷ [])
states_end here = ([], refl)
states_end {s = s} (step h p) = let (before, e) = states_end p in (s ∷ before, ap (λ x. s ∷ x) e)

-- Where every transition into `u` comes from `v`, a path that ends at `u` comes from `v` last.
module _ (u v : RunState) (only : (s : RunState) → transition s u ≡ none → s ≡ v) where
  abbrev ComesFrom : RunState → List RunState → Type 0
  ComesFrom s passed = (t : RunState) × (q : Route s t) × (t ≡ v) × (passed ≡ states q ++ u ∷ [])

  last_step :
      {s m t : RunState} (h : transition s m ≡ none) (p : Route m t)
      → t ≡ u
      → ComesFrom s (states (step h p))
  last_step {s = s} {m = m} h here e =
      (s, here, only s (subst (λ x. transition s x ≡ none) e h), ap (λ x. s ∷ (x ∷ [])) e)
  last_step {s = s} h (step h' p) e =
      let (t, q, w, shape) = last_step h' p e in (t, step h q, w, ap (λ x. s ∷ x) shape)

  comes_from : {s t : RunState} (p : Route s t) → t ≡ u → s ≢ u → ComesFrom s (states p)
  comes_from here e ne = absurd (ne e)
  comes_from (step h p) e ne = last_step h p e

passed :
    {a b c d : List RunState} (before : List RunState) {s : RunState}
    → s ≡ executing
    → a ≡ b ++ succeeded ∷ []
    → b ≡ c ++ final_validating ∷ []
    → c ≡ d ++ validating ∷ []
    → d ≡ before ++ s ∷ []
    → a ≡ before ++ executing ∷ (validating ∷ (final_validating ∷ (succeeded ∷ [])))
passed before e x y z w = simp (x, y, z, w, e, append_assoc)

-- A run that succeeds has executed, then validated, then passed final validation, in this order and
-- at the end: the states of every path of accepted transitions, from a state before those three to
-- `succeeded`, end with the four.
pub states-succeeded :
    {s : RunState} (p : Route s succeeded)
    → s ≢ succeeded
    → s ≢ final_validating
    → s ≢ validating
    → (before : List RunState) × (states p
        ≡ before ++ executing ∷ (validating ∷ (final_validating ∷ (succeeded ∷ []))))
states-succeeded p a b c =
    let (t, q, e, x) = comes_from succeeded final_validating before_succeeded p refl a in
    let (t', q', e', y) = comes_from final_validating validating before_final q e b in
    let (t'', q'', e'', z) = comes_from validating executing before_validating q' e' c in
    let (before, w) = states_end q'' in (before, passed before e'' x y z w)

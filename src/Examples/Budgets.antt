-- ===== src/Examples/Budgets.antt =====
-- The laws of the tracker, the progress detector and the state machine at concrete inputs.
use ai4se_coding_agent_harne.Prelude.{
  List, ◌++◌, ◌+◌, ◌*◌, ◌≤◌, ◌≡◌, refl, ◌↔◌, pos, some, none, false, true, [], ◌∷◌,
}
use ai4se_coding_agent_harne.Budget.{new}
use ai4se_coding_agent_harne.Budget.Grants.{
  granted_bounded, ask-remaining, granted, decision, mutation, protocol_repair, ask, weight,
  unit_if_none, remaining,
}
use ai4se_coding_agent_harne.Budget.Progress.{
  watch-stop, observe, watch, stop, run_length, new_progress_detector, is_blank,
}
use ai4se_coding_agent_harne.Domain.{
  deciding, executing, validating, final_validating, succeeded, stopped, transition,
  allowed_transitions, invalid_transition, RunState,
}
use ai4se_coding_agent_harne.Domain.Transitions.{
  terminal-transition, states-succeeded, is_terminal, Route, here, step, states,
}
use ai4se_coding_agent_harne.Examples.Fixtures.{limits, noon}

granted_bounded_example :
    (granted decision (new limits noon) (decision ∷ (decision ∷ (decision ∷ []))) ≤ 2)
    × (granted mutation (new limits noon) (decision ∷ (decision ∷ (decision ∷ []))) ≤ 2)
granted_bounded_example = granted_bounded limits noon (decision ∷ (decision ∷ (decision ∷ [])))

ask-remaining_example :
    weight decision decision * unit_if_none (ask (new limits noon) decision).1
      + weight protocol_repair decision * unit_if_none (ask (new limits noon) decision).1
      + remaining (ask (new limits noon) decision).0
    ≤ remaining (new limits noon)
ask-remaining_example = ask-remaining (new limits noon) decision

watch-stop_example : ((observe (watch (pos 2) (("f", "d") ∷ [])) "f" "d").1 ≡ stop) ↔ (
    (is_blank ("f", "d") ≡ false)
    × ((new_progress_detector (pos 2)).threshold
        ≤ run_length ("f", "d") (("f", "d") ∷ (("f", "d") ∷ []))))
watch-stop_example = watch-stop (pos 2) (("f", "d") ∷ []) "f" "d"

terminal-transition_example :
    ((is_terminal deciding ≡ true)
      ↔ ((t : RunState) → transition deciding t ≡ some invalid_transition))
    × ((is_terminal deciding ≡ false) ↔ (transition deciding stopped ≡ none))
terminal-transition_example = terminal-transition deciding

-- From `deciding` through the whole success path.
abbrev success : Route deciding succeeded
unfolding transition allowed_transitions
success =
    step {t = executing} refl (
      step {t = validating} refl
        (step {t = final_validating} refl (step {t = succeeded} refl here)))

states-succeeded_example :
    (before : List RunState) × (states success
      ≡ before ++ executing ∷ (validating ∷ (final_validating ∷ (succeeded ∷ []))))
states-succeeded_example = states-succeeded success (λ e. cc) (λ e. cc) (λ e. cc)

-- ===== src/Policy/Verdicts.antt =====
-- The laws of the verdict of internal/policy/policy.go.
use ai4se_coding_agent_harne.Prelude.{
  ◌≡◌, ◌≢◌, ◌↔◌, ◌⊎◌, String, ◌==◌, Bool, true, false, ◌&&◌, ◌||◌, arith,
}
use ai4se_coding_agent_harne.Domain.{Action, review, supervised, workspace_auto, other}
use ai4se_coding_agent_harne.Platform.{Platform}
use ai4se_coding_agent_harne.Policy.Risk.{Risk, normal, guarded, hard_denied, Context, is_mutation}
use ai4se_coding_agent_harne.Policy.Schemas.{classify_risk}
use ai4se_coding_agent_harne.Policy.Approval.{digest}
use ai4se_coding_agent_harne.Policy.Engine.{allow, require_approval, deny, evaluate, is_guarded}

-- Whether an action changes the workspace or starts a process.
abbrev pub acts : Action → Bool
acts action = is_mutation action.kind || action.kind == "run_check"

module _ (p : Platform) (ctx : Context) (action : Action) where
  abbrev pub risk_of : Risk
  risk_of = (classify_risk p ctx action).risk

  -- An action that is allowed without the operator is not hard-denied; and if it acts, the profile
  -- is workspace-auto, its risk is normal, and a mutation finds the worktree clean.
  pub evaluate_allow :
      (evaluate p ctx action).verdict ≡ allow
      → (risk_of ≢ hard_denied)
        × (acts action ≡ true
            → (ctx.profile ≡ workspace_auto)
              × (risk_of ≡ normal)
              × ((is_mutation action.kind && ctx.dirty) ≡ false))
  unfolding evaluate
  evaluate_allow h = ground arith

  -- The verdict is a denial exactly for a hard-denied risk, an unknown profile, an action that acts
  -- under review, and a mutation of a dirty worktree under workspace-auto.
  pub evaluate-deny : ((evaluate p ctx action).verdict ≡ deny) ↔ (
      (risk_of ≡ hard_denied)
      ⊎ ((name : String) × (ctx.profile ≡ other name))
      ⊎ ((ctx.profile ≡ review) × (acts action ≡ true))
      ⊎ ((ctx.profile ≡ workspace_auto) × ((ctx.dirty && is_mutation action.kind) ≡ true)))
  unfolding evaluate
  evaluate-deny = (λ h. ground arith, λ h. ground arith)

  -- An action goes to the operator only under supervised, if it acts or is guarded, or under
  -- workspace-auto, if it is guarded; the request is bound to the digest of this run, profile,
  -- action and baselines.
  pub evaluate_require :
      (evaluate p ctx action).verdict ≡ require_approval
      → ((evaluate p ctx action).digest ≡ digest p ctx.run_id ctx.profile action ctx.baselines)
        × (risk_of ≢ hard_denied)
        × (((ctx.profile ≡ supervised) × ((acts action || is_guarded risk_of) ≡ true))
            ⊎ ((ctx.profile ≡ workspace_auto) × (risk_of ≡ guarded)))
  unfolding evaluate
  evaluate_require h = ground arith

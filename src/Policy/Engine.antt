-- ===== src/Policy/Engine.antt =====
-- internal/policy/policy.go: the verdict on an action under a permission profile.
use ai4se_coding_agent_harne.Prelude.{String, ◌==◌, Bool, true, false, ◌&&◌, ◌||◌, if◌then◌else◌}
use ai4se_coding_agent_harne.Domain.{
  Action, PermissionProfile, review, supervised, workspace_auto, other,
}
use ai4se_coding_agent_harne.Platform.{Platform}
use ai4se_coding_agent_harne.Policy.Risk.{Risk, guarded, hard_denied, Context, is_mutation}
use ai4se_coding_agent_harne.Policy.Schemas.{Assessment, classify_risk}
use ai4se_coding_agent_harne.Policy.Approval.{digest}

pub data Verdict : Type 0 where
  allow require_approval deny : Verdict

pub record Decision : Type 0 where
  pub verdict : Verdict
  pub risk : Risk
  pub code : String
  pub message : String
  pub digest : String

abbrev pub is_workspace_auto : PermissionProfile → Bool
is_workspace_auto workspace_auto = true
is_workspace_auto _ = false

abbrev pub is_guarded : Risk → Bool
is_guarded guarded = true
is_guarded _ = false

abbrev pub is_hard_denied : Risk → Bool
is_hard_denied hard_denied = true
is_hard_denied _ = false

abbrev decide : Verdict → Assessment → String → Decision
decide verdict a digest = record {
  verdict = verdict;
  risk = a.risk;
  code = a.code;
  message = a.message;
  digest = digest;
}

abbrev unknown_profile : Decision
unknown_profile = record {
  verdict = deny;
  risk = hard_denied;
  code = "UNKNOWN_PROFILE";
  message = "permission profile is not recognized";
  digest = "";
}

module _ (p : Platform) where
  abbrev ask_operator : Context → Action → Assessment → Decision
  ask_operator ctx action a =
      decide require_approval a (digest p ctx.run_id ctx.profile action ctx.baselines)

  -- The `switch` on the profile.
  abbrev by_profile : PermissionProfile → Context → Action → Assessment → Decision
  by_profile review ctx action a =
      if is_mutation action.kind || action.kind == "run_check"
      then record {
        verdict = deny;
        risk = a.risk;
        code = "REVIEW_READ_ONLY";
        message = "review profile is read-only";
        digest = "";
      }
      else decide allow a ""
  by_profile supervised ctx action a =
      if is_mutation action.kind || (action.kind == "run_check" || is_guarded a.risk)
      then ask_operator ctx action a
      else decide allow a ""
  by_profile workspace_auto ctx action a =
      if is_guarded a.risk then ask_operator ctx action a else decide allow a ""
  by_profile (other name) ctx action a = unknown_profile

  abbrev judge : Context → Action → Assessment → Decision
  judge ctx action a =
      if is_hard_denied a.risk
      then decide deny a ""
      else if is_workspace_auto ctx.profile && (ctx.dirty && is_mutation action.kind)
      then record {
        verdict = deny;
        risk = guarded;
        code = "DIRTY_WORKTREE";
        message = "workspace-auto mutations require a clean worktree";
        digest = "";
      }
      else by_profile ctx.profile ctx action a

  unfoldable pub evaluate : Context → Action → Decision
  unfolding is_mutation
  evaluate ctx action = judge ctx action (classify_risk p ctx action)

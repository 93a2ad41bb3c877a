-- ===== src/Agent/ResumeEnds.antt =====
-- `ResumeApproval` of internal/agent/loop.go ends.
use ai4se_coding_agent_harne.Prelude.{
  ℕ, ◌<◌, String, ◌≡◌, refl, sym, subst, some, List, Result, ok, err, lookup, arith,
}
use ai4se_coding_agent_harne.Domain.{awaiting_approval}
use ai4se_coding_agent_harne.Budget.Grants.{remaining}
use ai4se_coding_agent_harne.Policy.Approval.{consume}
use ai4se_coding_agent_harne.Agent.Session.{
  PendingApproval, LoopResult, AgentError, approval_not_granted, Env, Session, ◌>>=◌, continue,
}
use ai4se_coding_agent_harne.Agent.Turn.{Turn, next, finished}
use ai4se_coding_agent_harne.Agent.Loop.{run, proceed}
use ai4se_coding_agent_harne.Agent.Approvals.{
  resume_approval, take_granted, take_pending, carry_out,
}
use ai4se_coding_agent_harne.Agent.Triples.{Post}
use ai4se_coding_agent_harne.Agent.Keeps.{Stored, Failed}
use ai4se_coding_agent_harne.Agent.Termination.{Ends, run-Ends, AtMost, AtMost-FullFrame}
use ai4se_coding_agent_harne.Agent.Resumed.{Ready, carry_out-keeps}
use ai4se_coding_agent_harne.Agent.Resumption.{Guarded, refuses, spends, guarded}

module _ {W : Type 0} (env : Env W) (p : PendingApproval) (baselines : List (String × String)) where
  continued-Ends :
      (fuel m : ℕ) (x : Result AgentError Turn × Session W)
      → m < fuel
      → Post
          (Ready env p.run.id p.run.profile baselines
            (AtMost env p.run.id p.run.profile baselines m)
            (AtMost-FullFrame env p.run.id p.run.profile baselines m))
          (Failed (AtMost env p.run.id p.run.profile baselines m))
          x
      → Ends env (proceed env (run env fuel) x)
  unfolding proceed AtMost
  continued-Ends fuel m (ok (next r last), s) lt (h, live) =
      run-Ends env p.run.id p.run.profile baselines fuel r last s live (omega (arith, h.inv))
        (record {
          inv = tt;
          stored = h.stored;
          run_id = h.run_id;
          run_profile = h.run_profile;
          bound = h.bound;
          in_state = refl;
        })
  continued-Ends fuel m (ok (finished result), s) lt h = ((ok result, s), refl)
  continued-Ends fuel m (err e, s) lt h = ((err e, s), refl)

  after_guard :
      (fuel : ℕ) (s : Session W) (x : Result AgentError PendingApproval × Session W)
      → Guarded p p.digest s x
      → p.run.state ≡ awaiting_approval
      → Stored p.run.id awaiting_approval s
      → s.baselines ≡ baselines
      → remaining s.budget < fuel
      → Ends env
          (proceed env (run env fuel) (continue x.0 (λ q. carry_out env p.run.id p.digest q) x.1))
  unfolding proceed AtMost
  after_guard fuel s x (refuses h) waits stored bound lt = ((err approval_not_granted, s), refl)
  after_guard fuel s x (spends a e) waits stored bound lt =
      let m = remaining s.budget in
      let spent : Session W = record s { approvals = some (consume a p.digest).0 } in
      continued-Ends fuel m _ lt (
        (carry_out-keeps env p.run.id p.run.profile baselines
            (AtMost env p.run.id p.run.profile baselines m)
            (AtMost-FullFrame env p.run.id p.run.profile baselines m) p.digest p (λ t i. i)).at
          spent
          (record {
            inv = omega arith;
            stored = stored;
            run_id = refl;
            run_profile = refl;
            bound = bound;
            in_state = waits;
          }))

-- The resumption of the pending approval of a run that awaits approval ends, with more fuel than
-- there are decisions and protocol repairs left, whatever the outside world answers.
pub resume_total :
    {W : Type 0} (env : Env W) (p : PendingApproval) (fuel : ℕ) (s : Session W)
    → p.run.state ≡ awaiting_approval
    → lookup p.run.id s.pending ≡ some p
    → Stored p.run.id awaiting_approval s
    → remaining s.budget < fuel
    → (x : Result AgentError LoopResult × Session W) × (resume_approval env p.run.id p.digest fuel s
        ≡ some x)
unfolding resume_approval take_granted ◌>>=◌
resume_total env p fuel s waits found stored lt =
    subst
      (λ o.
        let x = take_pending o p.digest s in
        Ends env
          (proceed env (run env fuel) (continue x.0 (λ q. carry_out env p.run.id p.digest q) x.1)))
      (sym found) (after_guard env p s.baselines fuel s _ (guarded p s) waits stored refl lt)

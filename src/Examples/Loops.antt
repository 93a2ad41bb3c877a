-- ===== src/Examples/Loops.antt =====
-- The theorems on the agent loop at concrete sessions.
use ai4se_coding_agent_harne.Prelude.{
  ℕ, ◌≡◌, refl, ◌<◌, inl, false, none, some, [], ◌∷◌, Result, err, lookup, arith, eq_refl, eq_iff,
}
use ai4se_coding_agent_harne.Domain.Transitions.{is_terminal}
use ai4se_coding_agent_harne.Domain.{Run, created, awaiting_approval, workspace_auto, supervised}
use ai4se_coding_agent_harne.Budget.{new}
use ai4se_coding_agent_harne.Budget.Grants.{remaining, budget_left}
use ai4se_coding_agent_harne.Policy.Verdicts.{acts}
use ai4se_coding_agent_harne.Store.Chain.{IsWellFormed}
use ai4se_coding_agent_harne.Agent.Session.{LoopResult, AgentError, approval_not_granted, Session}
use ai4se_coding_agent_harne.Agent.Loop.{run}
use ai4se_coding_agent_harne.Agent.Keeps.{Stored}
use ai4se_coding_agent_harne.Agent.Runs.{run_total, run-Audited, Agrees, Audited}
use ai4se_coding_agent_harne.Agent.Executed.{
  Traced, traced, Each, AllowedFor, run_executes_allowed, run_executes_reads,
}
use ai4se_coding_agent_harne.Agent.Approvals.{resume_approval}
use ai4se_coding_agent_harne.Agent.Resumption.{
  resume_refused, resume_once, resume_executes, Sanctioned,
}
use ai4se_coding_agent_harne.Agent.ResumeEnds.{resume_total}
use ai4se_coding_agent_harne.Examples.Fixtures.{
  env, plain, session, run_in, store_of, limits, noon, pending_note, granted_session,
}

abbrev new_run : Run
new_run = run_in created workspace_auto

abbrev careful_run : Run
careful_run = run_in created supervised

lookup_only : (q : Run) → lookup q.id ((q.id, q) ∷ []) ≡ some q
unfolding lookup
lookup_only q = rw (eq_refl q.id) refl

stored_new : {W : Type 0} (w : W) (r : Run) → Stored r.id r.state (session w r)
stored_new w r = (r, lookup_only r, refl)

enough_fuel : remaining (new limits noon) < 20
unfolding remaining new budget_left
enough_fuel = omega arith

run_total_example :
    (x : Result AgentError LoopResult × Session ℕ) × (run env 20 new_run none (session 0 new_run)
      ≡ some x)
    × Agrees "r1" x
run_total_example =
    run_total env 20 new_run none (session 0 new_run) refl (stored_new {W = ℕ} 0 new_run)
      enough_fuel

-- The ends of runs with a trace of what they execute.
abbrev no_actions : Traced ℕ
no_actions = record { world = 0; executed = [] }

traced_run :
    (r : Run)
    → is_terminal r.state ≡ false
    → (x : Result AgentError LoopResult × Session (Traced ℕ)) × (run
          (traced env)
          20
          r
          none
          (session no_actions r)
        ≡ some x)
      × Agrees r.id x
traced_run r live =
    run_total (traced env) 20 r none (session no_actions r) live (stored_new no_actions r)
      enough_fuel

run_executes_allowed_example :
    Each (AllowedFor env new_run []) (traced_run new_run refl).0.1.world.executed
run_executes_allowed_example =
    run_executes_allowed env 20 new_run none (session no_actions new_run) refl
      (stored_new no_actions new_run) refl (traced_run new_run refl).0 (traced_run new_run refl).1

run_executes_reads_example :
    Each (λ action. acts action ≡ false) (traced_run careful_run refl).0.1.world.executed
run_executes_reads_example =
    run_executes_reads env 20 careful_run none (session no_actions careful_run) (λ e. cc) refl
      (stored_new no_actions careful_run) refl (traced_run careful_run refl).0
      (traced_run careful_run refl).1

store_IsWellFormed : IsWellFormed plain.sha256_hex (store_of new_run)
unfolding lookup
store_IsWellFormed = record {
  linked = λ id. tt;
  recorded = λ id e. refl;
  keyed = λ id r e. ground (arith, eq_iff "r1" id);
}

run-Audited_example :
    Audited env
      (store_of new_run)
      (run_total env 20 new_run none
        (session 0 new_run)
        refl
        (stored_new {W = ℕ} 0 new_run)
        enough_fuel).0.1
run-Audited_example =
    run-Audited env 20 new_run none (session 0 new_run) refl (stored_new {W = ℕ} 0 new_run)
      store_IsWellFormed
      (run_total env 20 new_run none (session 0 new_run) refl (stored_new {W = ℕ} 0 new_run)
        enough_fuel).0
      (run_total env 20 new_run none (session 0 new_run) refl (stored_new {W = ℕ} 0 new_run)
        enough_fuel).1

resume_refused_example :
    resume_approval env "r1" "00" 20 (session 0 new_run)
    ≡ some (err approval_not_granted, session 0 new_run)
resume_refused_example = resume_refused env "r1" "00" 20 (session 0 new_run) (inl refl)

stored_waiting : {W : Type 0} (w : W) → Stored "r1" awaiting_approval (granted_session w)
stored_waiting w = (run_in awaiting_approval supervised, unfold lookup in refl, refl)

found_pending : {W : Type 0} (w : W) → lookup "r1" (granted_session w).pending ≡ some pending_note
unfolding lookup
found_pending w = refl

abbrev waiting : Session (Traced ℕ)
waiting = granted_session no_actions

resume_total_example :
    (x : Result AgentError LoopResult × Session (Traced ℕ)) × (resume_approval
        (traced env)
        "r1"
        "00"
        20
        waiting
      ≡ some x)
resume_total_example =
    resume_total (traced env) pending_note 20 waiting refl (found_pending no_actions)
      (stored_waiting no_actions) enough_fuel

-- Where the resumption of the granted note ends.
end_of_resume :
    (x : Result AgentError LoopResult × Session (Traced ℕ)) × (resume_approval
        (traced env)
        "r1"
        "00"
        20
        waiting
      ≡ some x)
end_of_resume =
    resume_total (traced env) pending_note 20 waiting refl (found_pending no_actions)
      (stored_waiting no_actions) enough_fuel

resume_once_example :
    resume_approval (traced env) "r1" "00" 20 end_of_resume.0.1
    ≡ some (err approval_not_granted, end_of_resume.0.1)
resume_once_example =
    resume_once (traced env) pending_note 20 waiting refl (found_pending no_actions)
      (stored_waiting no_actions) end_of_resume.0 end_of_resume.1 20

resume_executes_example : Each (Sanctioned env pending_note []) end_of_resume.0.1.world.executed
resume_executes_example =
    resume_executes env pending_note 20 waiting refl (found_pending no_actions)
      (stored_waiting no_actions) refl end_of_resume.0 end_of_resume.1

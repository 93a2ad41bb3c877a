-- ===== src/Agent/Resumption.antt =====
-- What `ResumeApproval` of internal/agent/loop.go guarantees: a grant is spent by one resumption, and
-- only the action that the operator saw is executed beyond what the policy allows.
use ai4se_coding_agent_harne.Prelude.{
  ℕ, String, ◌==◌, eq_iff, ◌≡◌, refl, sym, ap, subst, ◌∙◌, ◌⊎◌, inl, inr, Bool, true, false, Option,
  none, some, List, [], Result, ok, err, if◌then◌else◌, lookup, is_some, lookup-erase_self,
  Bool-cases, eq_refl, arith,
}
use ai4se_coding_agent_harne.Domain.{awaiting_approval, PermissionProfile, Action}
use ai4se_coding_agent_harne.Policy.Approval.{ApprovalStore, consume}
use ai4se_coding_agent_harne.Agent.Session.{
  PendingApproval, LoopResult, AgentError, approval_not_granted, Env, Session, ◌>>=◌, continue,
}
use ai4se_coding_agent_harne.Agent.Steps.{matches_digest}
use ai4se_coding_agent_harne.Agent.Loop.{run, proceed, Outcome}
use ai4se_coding_agent_harne.Agent.Approvals.{
  resume_approval, take_granted, take_pending, consume_for, consumed, carry_out,
}
use ai4se_coding_agent_harne.Agent.Keeps.{Stored, Here}
use ai4se_coding_agent_harne.Agent.Safety.{FullFrame, Ended}
use ai4se_coding_agent_harne.Agent.Resumed.{carry_out-keeps, continued}
use ai4se_coding_agent_harne.Agent.Executed.{Traced, traced, Each, AllowedFor, same_context}

-- Whether the store of approvals would let the digest be consumed.
abbrev pub may_consume : Option ApprovalStore → String → Bool
may_consume none digest = false
may_consume (some a) digest = (consume a digest).1

consume-false :
    (a : ApprovalStore) (digest : String)
    → (consume a digest).1 ≡ false
    → consume a digest ≡ (a, false)
unfolding consume
consume-false a digest h = ground arith

consume_twice :
    (a : ApprovalStore) (digest : String) → (consume (consume a digest).0 digest).1 ≡ false
unfolding consume
consume_twice a digest =
    ground (arith, eq_iff digest "", ap is_some (lookup-erase_self digest a.grants))

module _ {W : Type 0} (env : Env W) (id digest : String) where
  refused :
      (o : Option PendingApproval) (g : Option ApprovalStore) (s : Session W)
      → s.approvals ≡ g
      → may_consume g digest ≡ false
      → take_pending o digest s ≡ (err approval_not_granted, s)
  refused none g s e h = refl
  refused (some p) none s e h = elim (Bool-cases (p.digest == digest)) [
    | inl y ↦
        rw y (subst (λ g. consume_for p digest g s ≡ (err approval_not_granted, s)) (sym e) refl)
    | inr n ↦ rw n refl
  ]
  refused (some p) (some a) s e h = elim (Bool-cases (p.digest == digest)) [
    | inl y ↦ rw y (
        subst (λ g. consume_for p digest g s ≡ (err approval_not_granted, s)) (sym e)
          (ap (λ c. consumed p c s) (consume-false a digest h)
            ∙ ap (λ g. (err approval_not_granted, record s { approvals = g })) (sym e)))
    | inr n ↦ rw n refl
  ]

unmatched :
    {W : Type 0} (o : Option PendingApproval) (digest : String) (s : Session W)
    → matches_digest o digest ≡ false
    → take_pending o digest s ≡ (err approval_not_granted, s)
unmatched none digest s h = refl
unmatched (some p) digest s h = rw h refl

-- If the digest is not granted, or is not that of the run's pending approval, `ResumeApproval` fails
-- with `ErrApprovalNotGranted` and changes nothing: no action is executed, no state and no log is
-- written, nothing is counted and no grant is spent.
pub resume_refused :
    {W : Type 0} (env : Env W) (id digest : String) (fuel : ℕ) (s : Session W)
    → (may_consume s.approvals digest ≡ false)
      ⊎ (matches_digest (lookup id s.pending) digest ≡ false)
    → resume_approval env id digest fuel s ≡ some (err approval_not_granted, s)
unfolding resume_approval take_granted ◌>>=◌ proceed
resume_refused env id digest fuel s (inl h) =
    rw (refused env id digest (lookup id s.pending) s.approvals s refl h) refl
resume_refused env id digest fuel s (inr h) = rw (unmatched (lookup id s.pending) digest s h) refl

-- What the guard does with the pending approval `p`: it refuses, or spends the grant.
pub data Guarded {W : Type 0} (p : PendingApproval) (digest : String) (s : Session W)
    : Result AgentError PendingApproval × Session W → Type 0 where
  refuses :
      may_consume s.approvals digest ≡ false → Guarded p digest s (err approval_not_granted, s)
  spends :
      (a : ApprovalStore)
      → s.approvals ≡ some a
      → Guarded p digest s (ok p, record s { approvals = some (consume a digest).0 })

guard_consumed :
    {W : Type 0} (p : PendingApproval) (digest : String) (s : Session W) (a : ApprovalStore)
    → s.approvals ≡ some a
    → (b : Bool) → (consume a digest).1 ≡ b
    → Guarded p digest s (consumed p (consume a digest) s)
guard_consumed p digest s a e true h =
    subst (λ c. Guarded p digest s (consumed p c s)) (ap (λ c. ((consume a digest).0, c)) (sym h))
      (spends a e)
guard_consumed p digest s a e false h =
    subst (λ c. Guarded p digest s (consumed p c s)) (sym (consume-false a digest h))
      (subst (λ g. Guarded p digest s (err approval_not_granted, record s { approvals = g })) e
        (refuses (ap (λ g. may_consume g digest) e ∙ h)))

guard_for :
    {W : Type 0} (p : PendingApproval) (digest : String) (s : Session W) (g : Option ApprovalStore)
    → s.approvals ≡ g
    → Guarded p digest s (consume_for p digest g s)
guard_for p digest s none e = refuses (ap (λ g. may_consume g digest) e)
guard_for p digest s (some a) e = guard_consumed p digest s a e (consume a digest).1 refl

pub guarded :
    {W : Type 0} (p : PendingApproval) (s : Session W)
    → Guarded p p.digest s (take_pending (some p) p.digest s)
guarded p s =
    subst
      (λ b.
        Guarded p p.digest s
          (if b then consume_for p p.digest s.approvals s else (err approval_not_granted, s)))
      (sym (eq_refl p.digest)) (guard_for p p.digest s s.approvals refl)

module _ {W : Type 0} (env : Env W) (p : PendingApproval) (baselines : List (String × String))
    (I : Session W → Type 0) (full : FullFrame env p.run.id p.run.profile baselines I)
    (executes : (s : Session W)
      → I s
      → I (record s { world = (env.execute p.action s.world).1 })) where
  abbrev Closing : Outcome env → Type 0
  Closing = Ended env p.run.id p.run.profile baselines I full

  -- Where the resumption ends, once the grant is spent.
  carried_out :
      (fuel : ℕ) (s : Session W)
      → Here p.run.id p.run.profile baselines I awaiting_approval p.run s
      → Closing (proceed env (run env fuel) (carry_out env p.run.id p.digest p s))
  carried_out fuel s h =
      continued env p.run.id p.run.profile baselines I full fuel _
        ((carry_out-keeps env p.run.id p.run.profile baselines I full p.digest p executes).at s h)

  after_guard :
      (fuel : ℕ) (s : Session W) (x : Result AgentError PendingApproval × Session W)
      → Guarded p p.digest s x
      → (may_consume s.approvals p.digest ≡ false → I s)
      → ((a : ApprovalStore)
          → Here p.run.id p.run.profile baselines I awaiting_approval p.run
              (record s { approvals = some (consume a p.digest).0 }))
      → Closing
          (proceed env (run env fuel) (continue x.0 (λ q. carry_out env p.run.id p.digest q) x.1))
  unfolding proceed
  after_guard fuel s x (refuses h) i k = (i h, λ e. ground arith)
  after_guard fuel s x (spends a e) i k =
      carried_out fuel (record s { approvals = some (consume a p.digest).0 }) (k a)

  -- If a refused session and one with the grant spent have `I`, so has the end.
  resumes :
      (fuel : ℕ) (s : Session W)
      → p.run.state ≡ awaiting_approval
      → lookup p.run.id s.pending ≡ some p
      → Stored p.run.id awaiting_approval s
      → s.baselines ≡ baselines
      → (may_consume s.approvals p.digest ≡ false → I s)
      → ((a : ApprovalStore) → I (record s { approvals = some (consume a p.digest).0 }))
      → Closing (resume_approval env p.run.id p.digest fuel s)
  unfolding resume_approval take_granted ◌>>=◌
  resumes fuel s waits found stored bound refused spent =
      subst
        (λ o.
          let x = take_pending o p.digest s in
          Closing (
            proceed env (run env fuel) (continue x.0 (λ q. carry_out env p.run.id p.digest q) x.1)))
        (sym found)
        (after_guard fuel s _ (guarded p s) refused (λ a. record {
          inv = spent a;
          stored = stored;
          run_id = refl;
          run_profile = refl;
          bound = bound;
          in_state = waits;
        }))

  Ended-I : (x : Result AgentError LoopResult × Session W) → Closing (some x) → I x.1
  Ended-I (ok result, t) h = h.0
  Ended-I (err e, t) h = h.0

-- The digest cannot be consumed: every step of the loop keeps that.
abbrev Spent : {W : Type 0} → String → Session W → Type 0
Spent digest s = (may_consume s.approvals digest ≡ false)

unspendable_frame :
    {W : Type 0} (env : Env W) (digest id : String) (profile : PermissionProfile)
    (baselines : List (String × String))
    → FullFrame env id profile baselines (Spent digest)
unspendable_frame env digest id profile baselines = record {
  frame = record {
    context = λ s i. i;
    store_clock = λ s i. i;
    current = λ s run i. i;
    final = λ s run i. i;
    execute = λ s run action _ _ _ _ i. i;
    update = λ s ctx now run expected ty payload i. i;
    log = λ s ctx now run_id ty payload i. i;
    mutation = λ s i. i;
    progress = λ s p i. i;
    pending = λ s ps i. i;
  };
  budget_clock = λ s i. i;
  decide = λ s request i. i;
  baseline = λ s run i. i;
  decision = λ s i. i;
  repair = λ s i. i;
}

-- One approval, one execution: where the resumption of the pending approval of a run that awaits
-- approval ends, however it ends, a second resumption with the same digest is refused and changes
-- nothing.
pub resume_once :
    {W : Type 0} (env : Env W) (p : PendingApproval) (fuel : ℕ) (s : Session W)
    → p.run.state ≡ awaiting_approval
    → lookup p.run.id s.pending ≡ some p
    → Stored p.run.id awaiting_approval s
    → (x : Result AgentError LoopResult × Session W)
    → resume_approval env p.run.id p.digest fuel s ≡ some x
    → (fuel' : ℕ)
    → resume_approval env p.run.id p.digest fuel' x.1 ≡ some (err approval_not_granted, x.1)
resume_once env p fuel s waits found stored x e fuel' =
    resume_refused env p.run.id p.digest fuel' x.1 (
      inl (
        Ended-I env p s.baselines (Spent p.digest)
          (unspendable_frame env p.digest p.run.id p.run.profile s.baselines) (λ t i. i) x
          (subst
            (Ended env p.run.id p.run.profile s.baselines (Spent p.digest)
              (unspendable_frame env p.digest p.run.id p.run.profile s.baselines))
            e
            (resumes env p s.baselines (Spent p.digest)
              (unspendable_frame env p.digest p.run.id p.run.profile s.baselines) (λ t i. i) fuel s
              waits found stored refl (λ h. h) (λ a. consume_twice a p.digest)))))

-- The operator's action, or one that the policy allows.
abbrev pub Sanctioned :
    {W : Type 0} → Env W → PendingApproval → List (String × String) → Action → Type 0
Sanctioned env p baselines action = (action ≡ p.action) ⊎ AllowedFor env p.run baselines action

abbrev AllSanctioned :
    {W : Type 0} → Env W → PendingApproval → List (String × String) → Session (Traced W) → Type 0
AllSanctioned env p baselines s = Each (Sanctioned env p baselines) s.world.executed

keeps_sanctioned :
    {W : Type 0} (env : Env W) (p : PendingApproval) (baselines : List (String × String))
    → FullFrame (traced env) p.run.id p.run.profile baselines (AllSanctioned env p baselines)
keeps_sanctioned env p baselines = record {
  frame = record {
    context = λ s i. i;
    store_clock = λ s i. i;
    current = λ s run i. i;
    final = λ s run i. i;
    execute =
        λ s run action e q b h i. (inr (same_context env p.run run baselines action e q h), i);
    update = λ s ctx now run expected ty payload i. i;
    log = λ s ctx now run_id ty payload i. i;
    mutation = λ s i. i;
    progress = λ s d i. i;
    pending = λ s ps i. i;
  };
  budget_clock = λ s i. i;
  decide = λ s request i. i;
  baseline = λ s run i. i;
  decision = λ s i. i;
  repair = λ s i. i;
}

-- Where the resumption of the pending approval of a run that awaits approval ends, with nothing
-- executed at its start: every executed action is the pending one, or one that the policy allows for
-- this run and the session's baselines without the operator.
pub resume_executes :
    {W : Type 0} (env : Env W) (p : PendingApproval) (fuel : ℕ) (s : Session (Traced W))
    → p.run.state ≡ awaiting_approval
    → lookup p.run.id s.pending ≡ some p
    → Stored p.run.id awaiting_approval s
    → s.world.executed ≡ []
    → (x : Result AgentError LoopResult × Session (Traced W))
    → resume_approval (traced env) p.run.id p.digest fuel s ≡ some x
    → Each (Sanctioned env p s.baselines) x.1.world.executed
resume_executes env p fuel s waits found stored none_yet x e =
    let full = keeps_sanctioned env p s.baselines in
    let start = subst (Each (Sanctioned env p s.baselines)) (sym none_yet) tt in
    Ended-I (traced env) p s.baselines (AllSanctioned env p s.baselines) full (λ t i. (inl refl, i))
      x
      (subst
        (Ended (traced env) p.run.id p.run.profile s.baselines (AllSanctioned env p s.baselines)
          full)
        e
        (resumes (traced env) p s.baselines (AllSanctioned env p s.baselines) full
          (λ t i. (inl refl, i)) fuel s waits found stored refl (λ _. start) (λ a. start)))

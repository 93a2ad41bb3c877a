-- ===== src/Budget/Grants.antt =====
-- What the tracker of internal/budget/tracker.go grants over a whole run.
use ai4se_coding_agent_harne.Prelude.{
  ℕ, suc, ◌+◌, ◌-◌, ◌*◌, ◌≤◌, ◌<◌, allowance, ◌≡◌, refl, ap, ◌∙◌, inl, inr, Option-cases, List, [],
  ◌∷◌, Option, none, some, arith,
}
use ai4se_coding_agent_harne.Budget.{
  Tracker, Limits, StopError, new, record_decision, record_mutation, record_protocol_repair,
}
use ai4se_coding_agent_harne.Domain.{Time}

pub data Request : Type 0 where
  decision mutation protocol_repair : Request

unfoldable pub ask : Tracker → Request → Tracker × Option StopError
ask t decision = record_decision t
ask t mutation = record_mutation t
ask t protocol_repair = record_protocol_repair t

unfoldable pub run : Tracker → List Request → Tracker
run t [] = t
run t (r ∷ rs) = run (ask t r).0 rs

abbrev pub unit_if_none {ℓ} : {B : Type ℓ} → Option B → ℕ
unit_if_none none = 1
unit_if_none (some _) = 0

-- What a request of one kind counts for, when it is granted.
abbrev pub weight : Request → Request → ℕ
weight decision decision = 1
weight mutation mutation = 1
weight protocol_repair protocol_repair = 1
weight _ _ = 0

-- How many requests of kind `k` were granted.
pub granted : Request → Tracker → List Request → ℕ
granted k t [] = 0
granted k t (r ∷ rs) = weight k r * unit_if_none (ask t r).1 + granted k (ask t r).0 rs

-- No counter has passed its limit.
pub record Within (t : Tracker) : Type 0 where
  pub decisions : t.usage.decisions ≤ allowance t.limits.max_decisions
  pub mutations : t.usage.mutations ≤ allowance t.limits.max_mutations
  pub repairs : t.usage.protocol_repairs ≤ allowance t.limits.max_protocol_repairs

pub ask-Within : (t : Tracker) (r : Request) → Within t → Within (ask t r).0
unfolding ask record_decision record_mutation record_protocol_repair
ask-Within t decision w = ground arith
ask-Within t mutation w = ground arith
ask-Within t protocol_repair w = ground arith

-- How many decisions and protocol repairs are still to come: every decision brings a fresh
-- allowance of repairs.
unfoldable pub budget_left : ℕ → ℕ → ℕ → ℕ → ℕ
budget_left most_decisions decisions most_repairs repairs =
    (most_decisions - decisions) * suc most_repairs + (most_repairs - repairs)

unfoldable pub remaining : Tracker → ℕ
unfolding budget_left
remaining t =
    budget_left (allowance t.limits.max_decisions) t.usage.decisions
      (allowance t.limits.max_protocol_repairs) t.usage.protocol_repairs

budget_left-decision :
    (dmax d rmax r : ℕ) → d < dmax → budget_left dmax (suc d) rmax 0 < budget_left dmax d rmax r
unfolding budget_left
budget_left-decision dmax d rmax r h =
    let e : dmax - d ≡ suc (dmax - suc d) = omega arith in rw e (omega arith)

record_decision_granted :
    (t : Tracker)
    → (record_decision t).1 ≡ none
    → ((record_decision t).0.limits ≡ t.limits)
      × ((record_decision t).0.usage.decisions ≡ suc t.usage.decisions)
      × ((record_decision t).0.usage.protocol_repairs ≡ 0)
      × (t.usage.decisions < allowance t.limits.max_decisions)
unfolding record_decision
record_decision_granted t h = ground arith

-- A granted decision leaves strictly fewer decisions and repairs to come.
pub record_decision-remaining :
    (t : Tracker) → (record_decision t).1 ≡ none → remaining (record_decision t).0 < remaining t
unfolding remaining
record_decision-remaining t h =
    let (l, d, r, lt) = record_decision_granted t h in
    rw (l, d, r)
      (budget_left-decision (allowance t.limits.max_decisions) t.usage.decisions
        (allowance t.limits.max_protocol_repairs) t.usage.protocol_repairs lt)

record_protocol_repair_granted :
    (t : Tracker)
    → (record_protocol_repair t).1 ≡ none
    → ((record_protocol_repair t).0.limits ≡ t.limits)
      × ((record_protocol_repair t).0.usage.decisions ≡ t.usage.decisions)
      × ((record_protocol_repair t).0.usage.protocol_repairs ≡ suc t.usage.protocol_repairs)
      × (t.usage.protocol_repairs < allowance t.limits.max_protocol_repairs)
unfolding record_protocol_repair
record_protocol_repair_granted t h = ground arith

-- So does a granted repair.
pub record_protocol_repair-remaining :
    (t : Tracker)
    → (record_protocol_repair t).1 ≡ none
    → remaining (record_protocol_repair t).0 < remaining t
unfolding remaining budget_left
record_protocol_repair-remaining t h =
    let (l, d, r, lt) = record_protocol_repair_granted t h in rw (l, d, r) (omega arith)

record_mutation_parts :
    (t : Tracker)
    → ((record_mutation t).0.limits ≡ t.limits)
      × ((record_mutation t).0.usage.decisions ≡ t.usage.decisions)
      × ((record_mutation t).0.usage.protocol_repairs ≡ t.usage.protocol_repairs)
unfolding record_mutation
record_mutation_parts t = ground arith

pub record_mutation-remaining : (t : Tracker) → remaining (record_mutation t).0 ≡ remaining t
unfolding remaining
record_mutation-remaining t = let (l, d, r) = record_mutation_parts t in rw (l, d, r)

-- Refused requests change nothing.
pub ask_refused :
    (t : Tracker) (r : Request) {e : StopError} → (ask t r).1 ≡ some e → (ask t r).0 ≡ t
unfolding ask record_decision record_mutation record_protocol_repair
ask_refused t decision h = ground arith
ask_refused t mutation h = ground arith
ask_refused t protocol_repair h = ground arith

ask_counts :
    (t : Tracker) (r : Request)
    → (t.usage.decisions + weight decision r * unit_if_none (ask t r).1
        ≡ (ask t r).0.usage.decisions)
      × (t.usage.mutations + weight mutation r * unit_if_none (ask t r).1
          ≡ (ask t r).0.usage.mutations)
unfolding ask record_decision record_mutation record_protocol_repair
ask_counts t decision = ground arith
ask_counts t mutation = ground arith
ask_counts t protocol_repair = ground arith

ask-limits : (t : Tracker) (r : Request) → (ask t r).0.limits ≡ t.limits
unfolding ask record_decision record_mutation record_protocol_repair
ask-limits t decision = ground arith
ask-limits t mutation = ground arith
ask-limits t protocol_repair = ground arith

granted_total :
    (t : Tracker) (rs : List Request)
    → (t.usage.decisions + granted decision t rs ≡ (run t rs).usage.decisions)
      × (t.usage.mutations + granted mutation t rs ≡ (run t rs).usage.mutations)
unfolding granted run
granted_total t [] = (omega arith, omega arith)
granted_total t (r ∷ rs) =
    let (d, m) = ask_counts t r in
    let (ds, ms) = granted_total (ask t r).0 rs in (omega arith, omega arith)

run-Within : (t : Tracker) (rs : List Request) → Within t → Within (run t rs)
unfolding run
run-Within t [] w = w
run-Within t (r ∷ rs) w = run-Within (ask t r).0 rs (ask-Within t r w)

run-limits : (t : Tracker) (rs : List Request) → (run t rs).limits ≡ t.limits
unfolding run
run-limits t [] = refl
run-limits t (r ∷ rs) = run-limits (ask t r).0 rs ∙ ask-limits t r

pub new-Within : (l : Limits) (now : Time) → Within (new l now)
unfolding new
new-Within l now = omega arith

-- Whatever is asked of a new tracker, in any order, it grants no more decisions and no more
-- mutations than its limits allow, and none at all under a limit that is zero or negative.
pub granted_bounded :
    (l : Limits) (now : Time) (rs : List Request)
    → (granted decision (new l now) rs ≤ allowance l.max_decisions)
      × (granted mutation (new l now) rs ≤ allowance l.max_mutations)
unfolding new
granted_bounded l now rs =
    let w = run-Within (new l now) rs (new-Within l now) in
    let (d, m) = granted_total (new l now) rs in
    let e = run-limits (new l now) rs in
    (
      omega (arith, ap (λ k. allowance k.max_decisions) e, w.decisions),
      omega (arith, ap (λ k. allowance k.max_mutations) e, w.mutations),
    )

-- What is left of decisions and protocol repairs bounds the loop: a granted decision or repair takes
-- at least one from it, and no request adds to it.
pub ask-remaining :
    (t : Tracker) (r : Request)
    → weight decision r * unit_if_none (ask t r).1
        + weight protocol_repair r * unit_if_none (ask t r).1
        + remaining (ask t r).0
      ≤ remaining t
unfolding ask
ask-remaining t decision = elim (Option-cases (record_decision t).1) [
  | inl e ↦ rw e (omega (arith, record_decision-remaining t e))
  | inr (x, e) ↦ rw (e, ask_refused t decision e) (omega arith)
]
ask-remaining t mutation = rw (record_mutation-remaining t) (omega arith)
ask-remaining t protocol_repair = elim (Option-cases (record_protocol_repair t).1) [
  | inl e ↦ rw e (omega (arith, record_protocol_repair-remaining t e))
  | inr (x, e) ↦ rw (e, ask_refused t protocol_repair e) (omega arith)
]

-- The decisions and repairs together are bounded too, since each granted one lowers `remaining`:
-- at most `max_decisions` decisions, with at most `max_protocol_repairs` repairs before, between
-- and after them.
pub granted-remaining :
    (t : Tracker) (rs : List Request)
    → granted decision t rs + granted protocol_repair t rs ≤ remaining t
unfolding granted
granted-remaining t [] = omega arith
granted-remaining t (r ∷ rs) = omega (arith, ask-remaining t r, granted-remaining (ask t r).0 rs)

pub record_decision-remaining_le : (t : Tracker) → remaining (record_decision t).0 ≤ remaining t
unfolding ask
record_decision-remaining_le t = omega (arith, ask-remaining t decision)

pub record_protocol_repair-remaining_le :
    (t : Tracker) → remaining (record_protocol_repair t).0 ≤ remaining t
unfolding ask
record_protocol_repair-remaining_le t = omega (arith, ask-remaining t protocol_repair)

-- ===== src/Budget.antt =====
-- The resource limits of one run, from internal/budget/tracker.go. The clock is outside: an
-- operation that reads it takes the time as an argument. The mutex makes each operation atomic.
pub mod Grants
pub mod Progress
use ai4se_coding_agent_harne.Prelude.{
  ℕ, suc, ◌+◌, ◌-◌, ℤ, is_nonpositive, reaches, Bool, true, ◌||◌, Option, none, some, if◌then◌else◌,
}
use ai4se_coding_agent_harne.Domain.{Time}

pub data BudgetError : Type 0 where
  decision_budget_error mutation_budget_error : BudgetError
  protocol_repair_budget_error wall_clock_budget_error : BudgetError

pub data StopReason : Type 0 where
  decision_budget mutation_budget protocol_repair_budget wall_clock_budget : StopReason

pub record StopError : Type 0 where
  pub reason : StopReason
  pub cause : BudgetError

pub record Limits : Type 0 where
  pub max_decisions : ℤ
  pub max_mutations : ℤ
  pub max_protocol_repairs : ℤ
  pub wall_clock : ℤ

pub record Usage : Type 0 where
  pub decisions : ℕ
  pub mutations : ℕ
  pub protocol_repairs : ℕ
  pub started_at : Time

pub record Tracker : Type 0 where
  pub limits : Limits
  pub usage : Usage
  pub started_at : Time

unfoldable pub new : Limits → Time → Tracker
new limits now = record {
  limits = limits;
  usage = record { decisions = 0; mutations = 0; protocol_repairs = 0; started_at = now };
  started_at = now;
}

-- `Tracker.record`, given the counter that the pointer refers to. The counter stays below a
-- 64-bit limit, so it does not wrap.
unfoldable pub record_use : ℕ → ℤ → StopReason → BudgetError → ℕ × Option StopError
record_use used limit reason cause =
    if is_nonpositive limit || reaches used limit
    then (used, some (record { reason = reason; cause = cause }))
    else (suc used, none)

abbrev if_none {ℓ} : {A B : Type ℓ} → Option B → A → A → A
if_none none a b = a
if_none (some _) a b = b

unfoldable pub record_decision : Tracker → Tracker × Option StopError
unfolding record_use
record_decision t =
    let (used, err) =
      record_use t.usage.decisions t.limits.max_decisions decision_budget decision_budget_error in
    let u = t.usage in
    let counted = record u { decisions = used } in
    (record t { usage = if_none err (record counted { protocol_repairs = 0 }) counted }, err)

unfoldable pub record_mutation : Tracker → Tracker × Option StopError
unfolding record_use
record_mutation t =
    let (used, err) =
      record_use t.usage.mutations t.limits.max_mutations mutation_budget mutation_budget_error in
    let u = t.usage in (record t { usage = record u { mutations = used } }, err)

unfoldable pub record_protocol_repair : Tracker → Tracker × Option StopError
unfolding record_use
record_protocol_repair t =
    let (used, err) =
      record_use t.usage.protocol_repairs t.limits.max_protocol_repairs protocol_repair_budget
        protocol_repair_budget_error in
    let u = t.usage in (record t { usage = record u { protocol_repairs = used } }, err)

-- `now.Sub(t.startedAt) >= t.limits.WallClock`. A clock that went back gives a negative
-- difference, which like 0 reaches no positive limit.
unfoldable pub check_time : Tracker → Time → Option StopError
check_time t now =
    if is_nonpositive t.limits.wall_clock
      || reaches (now.nanos - t.started_at.nanos) t.limits.wall_clock
    then some (record { reason = wall_clock_budget; cause = wall_clock_budget_error })
    else none

unfoldable pub snapshot : Tracker → Usage
snapshot t = t.usage

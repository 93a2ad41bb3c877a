-- ===== src/Policy.antt =====
-- internal/policy: what an agent's action may do. Risk and Schemas classify it, Approval binds and
-- stores the operator's consent, Engine gives the verdict, and Verdicts has its laws.
pub mod Risk
pub mod Schemas
pub mod Approval
pub mod Engine
pub mod Verdicts

-- ===== src/Examples.antt =====
-- Concrete inputs for the theorems of the other modules.
pub mod Fixtures
mod Policies
mod Budgets
mod Loops
mod Stores
mod Texts
mod Secrets
mod Checks
mod Services
mod Patches

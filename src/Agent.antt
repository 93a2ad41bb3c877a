-- ===== src/Agent.antt =====
-- internal/agent: the governed loop. Session has the state and the environment, Steps the helpers
-- that write to the store, Turn one round of the loop, Loop the rounds, Approvals the resumption and
-- the rejection. Triples, Keeps, Safety, Termination and Resumed carry the proofs; Runs, Executed,
-- Resumption and ResumeEnds state what follows for whole runs.
pub mod Session
pub mod Steps
pub mod Turn
pub mod Loop
pub mod Triples
pub mod Keeps
pub mod Safety
pub mod Termination
pub mod Runs
pub mod Executed
pub mod Approvals
pub mod Resumed
pub mod Resumption
pub mod ResumeEnds

-- ===== src/Verdict.antt =====
-- internal/verdict: the decision on the evidence of a forwarding proof.
pub mod Evidence
pub mod SameState
pub mod Checks
pub mod Evaluate
pub mod Targets
pub mod Passes
pub mod Leaks
pub mod Demo
mod Tests

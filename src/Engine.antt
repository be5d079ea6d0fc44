-- ===== src/Engine.antt =====
-- src/recipe_engine.c. The functions stand in the children: `Machine` (what the engine calls, and the
-- recovery branches), `Attempts` (the retry loop of a step), `Steps` (the loop over the steps).
pub mod Machine
pub mod Attempts
pub mod Steps
pub mod Verdict
pub mod Retries
mod Loop
pub mod Accounting
pub mod Abort
pub mod Outcome
pub mod Gates
mod Tests
pub mod RetryAfter

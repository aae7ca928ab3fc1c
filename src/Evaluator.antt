-- ===== src/Evaluator.antt =====
-- core/src/evaluator.rs and core/src/hashing.rs: the evaluation of a flag for a user.
pub mod Hashing
pub mod Rules
pub mod Variants
pub mod Evaluate
pub mod Depth
pub mod Prerequisites
pub mod Rollout
mod Tests

-- ===== src/FormalPlanning.antt =====
-- supervisor/formal_planning.py: the grounded STRIPS planner.
-- `Model` has the data, `Monotonic` and `Search` the two planners, `Parse` the reading of a contract,
-- `Anchors` and `Analyze` the analysis of a plan. `Spec` says what a plan is; the others are proofs.
pub mod Model
pub mod Monotonic
pub mod Search
pub mod Parse
pub mod Reads
pub mod Accepts
pub mod Anchors
pub mod Analyze
pub mod Verdicts
pub mod Spec
pub mod Facts
pub mod Execution
mod Reached
pub mod Forward
pub mod Breadth
